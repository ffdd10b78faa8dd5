-- ===== src/FactpulseTasks/Ereporting.antt =====
-- `submit_ereporting_for_invoice` of apps/factpulse/tasks.py.
pub mod Submitted
mod Tests
use factpulse_billing_app_pu.Base.{
  ℕ, Bool, true, false, not, ◌||◌, Option, none, some, [], if◌then◌else◌, or_else,
}
use factpulse_billing_app_pu.Base.Text.{Text, codes, truthy}
use factpulse_billing_app_pu.Base.Date.{Date}
use factpulse_billing_app_pu.Base.Decimal.{Decimal, zero_dec}
use factpulse_billing_app_pu.Model.{
  Status, ◌=ˢ◌, AuditAction, plain, EreportingStatus, OperationCategory, Supplier, Invoice, World,
  no_party, Error, is_api_error, is_unavailable, message_of, Result, ok, err, Action, ◌>>=◌, ◌>>◌,
  pure, raise, audit, save_fields, find_invoice,
}
use factpulse_billing_app_pu.FlowDetector.{is_ereporting_flow, get_ereporting_flux_type, country_of}
use factpulse_billing_app_pu.InvoiceService.Lifecycle.{log_entry, supplier_of}
use factpulse_billing_app_pu.FactpulseTasks.Generation.{get_client_uid}

-- what `_build_ereporting_payload` builds; the period starts and ends on the issue date
pub record EreportingPayload : Type 0 where
  pub flux_type : Text
  pub siren : Text
  pub name : Text
  pub vat_number : Text
  pub issue_date : Option Date
  pub invoice_number : Text
  pub invoice_type_code : Text
  pub currency_code : Text
  pub buyer_country : Text
  pub buyer_vat_number : Text
  pub total_net_amount : Decimal
  pub vat_amount : Decimal
  pub total_gross_amount : Decimal
  pub operation_category : OperationCategory

-- what `_ereporting_preconditions` returns, with the supplier that the invoice refers to
pub record Reportable : Type 0 where
  pub invoice : Invoice
  pub supplier : Supplier
  pub client_uid : Text
  pub flux_type : Text

abbrev is_submitted : EreportingStatus → Bool
is_submitted EreportingStatus.submitted = true
is_submitted _ = false

unfoldable pub ereporting_preconditions : ℕ → World → Option Reportable
ereporting_preconditions invoice_uuid w = elim (find_invoice invoice_uuid w) [
  | none ↦ none
  | some invoice ↦
      if not (invoice.status =ˢ Status.validated)
        || not (is_ereporting_flow invoice.detected_flow)
        || is_submitted invoice.ereporting_status
      then none
      else elim (get_client_uid invoice w) [
        | none ↦ none
        | some client_uid ↦ elim (supplier_of invoice w) [
          | none ↦ none
          | some supplier ↦ elim (get_ereporting_flux_type invoice.detected_flow) [
            | none ↦ none
            | some flux_type ↦ some (record {
              invoice = invoice;
              supplier = supplier;
              client_uid = client_uid;
              flux_type = flux_type;
            })
          ]
        ]
      ]
]

unfoldable pub build_ereporting_payload : Reportable → EreportingPayload
build_ereporting_payload r =
    let recipient = or_else (r.invoice).en16931_data.recipient no_party in
    record {
      flux_type = r.flux_type;
      siren = (r.supplier).siren;
      name = (r.supplier).name;
      vat_number = (r.supplier).vat_number;
      issue_date = (r.invoice).issue_date;
      invoice_number = (r.invoice).number;
      invoice_type_code = (r.invoice).invoice_type_code;
      currency_code =
          (if truthy (r.invoice).currency_code then (r.invoice).currency_code else codes "EUR");
      buyer_country = country_of recipient;
      buyer_vat_number = or_else recipient.vat_number [];
      total_net_amount = or_else (r.invoice).total_excl_tax zero_dec;
      vat_amount = or_else (r.invoice).total_tax zero_dec;
      total_gross_amount = or_else (r.invoice).total_incl_tax zero_dec;
      operation_category = (r.invoice).operation_category;
    }

abbrev pub write_ereporting : Invoice → Invoice → Invoice
write_ereporting object row = record row {
  ereporting_status = object.ereporting_status;
  ereporting_error = object.ereporting_error;
}

abbrev pub submitted_object : Invoice → Invoice
submitted_object invoice = record invoice {
  ereporting_status = EreportingStatus.submitted;
  ereporting_error = none;
}

abbrev pub failed_object : Invoice → Error → Invoice
failed_object invoice e = record invoice {
  ereporting_status = EreportingStatus.error;
  ereporting_error = some (message_of e);
}

unfoldable pub ereporting_success : Invoice → Action (Unit {0})
ereporting_success invoice = do
  saved ← save_fields write_ereporting (submitted_object invoice)
  audit (log_entry saved.pk AuditAction.ereporting_submitted plain)

unfoldable pub ereporting_failure : Invoice → Error → Action (Unit {0})
ereporting_failure invoice e = do
  saved ← save_fields write_ereporting (failed_object invoice e)
  audit (log_entry saved.pk AuditAction.ereporting_error plain)

-- `raise self.retry(exc=e)` ends the task with the exception
abbrev retry_if_unavailable : Error → Action (Unit {0})
retry_if_unavailable e = if is_unavailable e then raise e else pure tt

-- `client.submit_ereporting`
pub record EreportingApi : Type 0 where
  pub submit_ereporting : EreportingPayload → Text → Result (Unit {0})

module _ (api : EreportingApi) where
  unfoldable pub report : Reportable → Action (Unit {0})
  report r w = elim (api.submit_ereporting (build_ereporting_payload r) r.client_uid) [
    | ok _ ↦ ereporting_success r.invoice w
    | err e ↦
        if is_api_error e
        then (do ereporting_failure r.invoice e; retry_if_unavailable e) w
        else (err e, w)
  ]

  unfoldable pub submit_ereporting_for_invoice : ℕ → Action (Unit {0})
  submit_ereporting_for_invoice invoice_uuid w = elim (ereporting_preconditions invoice_uuid w) [
    | none ↦ (ok tt, w)
    | some r ↦ report r w
  ]
