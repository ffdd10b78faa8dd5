-- ===== src/FactpulseTasks/Generation.antt =====
-- `generate_and_validate_invoice` and `_handle_factpulse_error` of apps/factpulse/tasks.py.
pub mod Reverted
pub mod Outcomes
mod Tests
use factpulse_billing_app_pu.Base.{ℕ, not, Option, none, some, [], ◌++◌, if◌then◌else◌}
use factpulse_billing_app_pu.Base.Text.{Text, codes, truthy, str_nat}
use factpulse_billing_app_pu.Model.{
  Status, ◌=ˢ◌, source, failure, ErrorType, FactpulseError, Organization, Invoice, World, Snapshot,
  submit_ereporting, invoice_status, invoice_error, invoice_validated, invoice_failed, api_error,
  Error, external, is_api_error, is_unavailable, message_of, Result, ok, err, Action, ◌>>=◌, ◌>>◌,
  pure, lift, audit, send_task, emit_webhook, send_signal, save, find, find_invoice,
}
use factpulse_billing_app_pu.FlowDetector.{is_ereporting_flow}
use factpulse_billing_app_pu.InvoiceService.Lifecycle.{status_change}
use factpulse_billing_app_pu.InvoiceService.CreditNote.{check_auto_cancel}

abbrev pub organization_key : Organization → ℕ
organization_key o = o.pk

-- `_get_client_uid`: the identifier of the organization's client, if it has one
abbrev client_uid_of : Option Organization → Option Text
client_uid_of none = none
client_uid_of (some o) = o.factpulse_client_uid

unfoldable pub get_client_uid : Invoice → World → Option Text
get_client_uid invoice w =
    client_uid_of (find organization_key invoice.organization w.organizations)

-- `_build_error_dict`; the code and list of the API's details are left out
abbrev pub build_error_dict : Error → ErrorType → FactpulseError
build_error_dict e error_type = record {
  error_type = error_type;
  message = message_of e;
  error_code = [];
  errors = [];
}

-- `_handle_factpulse_error`: back to a draft, whatever the object's status is
unfoldable pub handle_factpulse_error : Invoice → Error → ErrorType → Action (Unit {0})
handle_factpulse_error invoice e error_type = do
  saved ← save (record invoice {
    status = Status.draft;
    factpulse_error = some (build_error_dict e error_type);
  })
  audit (status_change saved.pk invoice.status Status.draft (failure error_type))
  send_signal (invoice_failed saved.pk error_type)
  emit_webhook (invoice_error saved.organization saved.pk error_type)

-- the order of the three `except` clauses
unfoldable pub except_type : Error → ErrorType
except_type e =
    if is_api_error e
    then ErrorType.validation_rejected
    else if is_unavailable e
    then ErrorType.unavailable
    else ErrorType.timeout

-- What the task calls outside the program: the PDF engine, `client.generate_invoice` and the
-- message broker behind `emit_webhook`, `.delay` and the receivers of the signal.
pub record GenerationApi : Type 0 where
  pub source_pdf : Invoice → Result Text
  pub generate_invoice : Snapshot → Text → Text → Result Text
  pub broker : Result (Unit {0})

abbrev pub filename_of : Invoice → Text
filename_of invoice =
    (if truthy invoice.number then invoice.number else str_nat invoice.pk) ++ codes ".pdf"

-- steps 3 and 4: the Factur-X is attached and the invoice is validated
unfoldable pub with_facturx : Invoice → Invoice
with_facturx invoice = record invoice {
  pdf_file = some (filename_of invoice);
  facturx_status = codes "generated";
  factpulse_error = none;
  status = Status.validated;
}

module _ (api : GenerationApi) where
  -- what follows the first save, inside the same `try`
  unfoldable pub after_validation : Status → Invoice → Action (Unit {0})
  after_validation old_status saved = do
    audit (status_change saved.pk old_status Status.validated (source (codes "celery_task")))
    check_auto_cancel saved
    lift api.broker
    emit_webhook (invoice_status saved.organization saved.pk Status.validated)
    (if is_ereporting_flow saved.detected_flow
        then send_task (submit_ereporting saved.pk)
        else pure tt)
    send_signal (invoice_validated saved.pk)

  -- `try: ... except ...`: the handler has the object as it is when the exception comes
  unfoldable pub guarded : Action (Unit {0}) → Invoice → Action (Unit {0})
  guarded body object w =
      let (r, w') = body w in
      elim r [ ok _ ↦ (ok tt, w') | err e ↦ handle_factpulse_error object e (except_type e) w' ]

  -- steps 1 and 2
  unfoldable pub produce : Invoice → Text → Result Text
  produce invoice client_uid = elim (api.source_pdf invoice) [
    | err e ↦ err e
    | ok pdf ↦ api.generate_invoice invoice.en16931_data pdf client_uid
  ]

  -- the `try` block
  unfoldable pub generate : Invoice → Text → Action (Unit {0})
  generate invoice client_uid w = elim (produce invoice client_uid) [
    | err e ↦ handle_factpulse_error invoice e (except_type e) w
    | ok _ ↦
        let (r, w') = save (with_facturx invoice) w in
        elim r [
          | err e ↦ handle_factpulse_error (with_facturx invoice) e (except_type e) w'
          | ok saved ↦ guarded (after_validation invoice.status saved) saved w'
        ]
  ]

  unfoldable pub generate_and_validate_invoice : ℕ → Action (Unit {0})
  generate_and_validate_invoice invoice_uuid w = elim (find_invoice invoice_uuid w) [
    | none ↦ (ok tt, w)
    | some invoice ↦
        if not (invoice.status =ˢ Status.processing)
        then (ok tt, w)
        else elim (get_client_uid invoice w) [
          | none ↦
              handle_factpulse_error invoice (external (api_error [])) ErrorType.not_provisioned w
          | some client_uid ↦ generate invoice client_uid w
        ]
  ]
