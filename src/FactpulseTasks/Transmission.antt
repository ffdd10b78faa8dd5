-- ===== src/FactpulseTasks/Transmission.antt =====
-- `transmit_invoice` (the task) and `submit_cdar_paid` of apps/factpulse/tasks.py.
pub mod Submission
pub mod PaidStatus
mod Tests
use factpulse_billing_app_pu.Base.{
  ℕ, Bool, not, ◌&&◌, Option, none, some, List, [], ◌∷◌, if◌then◌else◌, or_else,
}
use factpulse_billing_app_pu.Base.Text.{Text, codes, truthy}
use factpulse_billing_app_pu.Base.Date.{Date}
use factpulse_billing_app_pu.Base.Decimal.{Decimal, is_zero_dec}
use factpulse_billing_app_pu.Model.{
  Status, ◌=ˢ◌, AuditAction, plain, failure, source, ErrorType, Invoice, World, Party, AddressField,
  address_dict, address_text, no_party, check_lifecycle, invoice_failed, api_error, Error, external,
  is_api_error, Result, ok, err, Action, ◌>>=◌, ◌>>◌, pure, audit, send_task, send_signal,
  save_fields, find_invoice,
}
use factpulse_billing_app_pu.InvoiceService.Lifecycle.{status_change, log_entry, supplier_of}
use factpulse_billing_app_pu.FactpulseTasks.Generation.{get_client_uid, build_error_dict}

-- `client.submit_flow` and `client.submit_paid_status`; the first result is the flow's identifier
pub record PaidReport : Type 0 where
  pub invoice_id : Text
  pub issue_date : Option Date
  pub buyer_siren : Text
  pub buyer_address : Text
  pub amount : Option Decimal
  pub currency : Text
  pub sender_siren : Text

pub record FlowApi : Type 0 where
  pub submit_flow : Invoice → Option Text → Result Text
  pub submit_paid_status : PaidReport → Text → Result (Unit {0})

-- the fields of the two `save(update_fields=...)`
abbrev pub write_submission : Invoice → Invoice → Invoice
write_submission object row = record row {
  pdp_transmission_id = object.pdp_transmission_id;
  pdp_status = object.pdp_status;
  factpulse_error = object.factpulse_error;
}

abbrev pub write_reversal : Invoice → Invoice → Invoice
write_reversal object row = record row {
  status = object.status;
  factpulse_error = object.factpulse_error;
}

-- `CDAR_FOLLOWUP_DELAYS`
abbrev pub cdar_followup_delays : List ℕ
cdar_followup_delays = 20 ∷ 60 ∷ 180 ∷ []

unfoldable pub send_checks : ℕ → List ℕ → Action (Unit {0})
send_checks pk [] = pure tt
send_checks pk (delay ∷ delays) = do send_task (check_lifecycle pk delay); send_checks pk delays

unfoldable pub record_submission : Invoice → Text → Action (Unit {0})
unfolding send_checks
record_submission invoice flow_id = do
  saved ← save_fields write_submission (record invoice {
    pdp_transmission_id = flow_id;
    pdp_status = codes "submitted";
    factpulse_error = none;
  })
  audit (log_entry saved.pk AuditAction.flow_submitted (source (codes "celery_task")))
  send_checks saved.pk cdar_followup_delays

-- back to validated, so that the user can try again
unfoldable pub revert_submission : Invoice → Error → Action (Unit {0})
revert_submission invoice e = do
  saved ← save_fields write_reversal (record invoice {
    status = Status.validated;
    factpulse_error = some (build_error_dict e ErrorType.transmission_failed);
  })
  audit (
      status_change saved.pk invoice.status Status.validated
        (failure ErrorType.transmission_failed))
  send_signal (invoice_failed saved.pk ErrorType.transmission_failed)

-- the buyer's address that `submit_cdar_paid` reads
unfoldable pub buyer_address : Option AddressField → Text
buyer_address none = []
buyer_address (some (address_dict a)) = or_else a.value []
buyer_address (some (address_text t)) = t

abbrev recipient_of : Invoice → Party
recipient_of invoice = or_else invoice.en16931_data.recipient no_party

abbrev supplier_siren : Invoice → World → Text
supplier_siren invoice w = elim (supplier_of invoice w) [ none ↦ [] | some s ↦ s.siren ]

-- neither a SIREN nor an address of the buyer
abbrev lacks_buyer : Invoice → Bool
lacks_buyer invoice =
    not (truthy (or_else (recipient_of invoice).siren []))
    && not (truthy (buyer_address (recipient_of invoice).electronic_address))

-- `invoice.payment_amount or invoice.total_incl_tax`
abbrev reported_amount : Invoice → Option Decimal
reported_amount invoice = elim invoice.payment_amount [
  | none ↦ invoice.total_incl_tax
  | some a ↦ if is_zero_dec a then invoice.total_incl_tax else some a
]

unfoldable pub paid_report : Invoice → Text → PaidReport
unfolding buyer_address
paid_report invoice siren = record {
  invoice_id = invoice.number;
  issue_date = invoice.issue_date;
  buyer_siren = or_else (recipient_of invoice).siren [];
  buyer_address = buyer_address (recipient_of invoice).electronic_address;
  amount = reported_amount invoice;
  currency = (if truthy invoice.currency_code then invoice.currency_code else codes "EUR");
  sender_siren = siren;
}

abbrev skip_report : Invoice → Action (Unit {0})
skip_report invoice = audit (log_entry invoice.pk AuditAction.cdar_paid_skipped plain)

module _ (api : FlowApi) where
  -- what the `try` block calls outside; a missing file raises the API's exception
  unfoldable pub submit : Invoice → Option Text → Result Text
  submit invoice client_uid = elim invoice.pdf_file [
    | none ↦ err (external (api_error (codes "No Factur-X PDF attached to invoice.")))
    | some _ ↦ api.submit_flow invoice client_uid
  ]

  -- `except (FactPulseError, FactPulseUnavailableError)`: another exception leaves the task
  unfoldable pub transmit_task : ℕ → Action (Unit {0})
  transmit_task invoice_uuid w = elim (find_invoice invoice_uuid w) [
    | none ↦ (ok tt, w)
    | some invoice ↦
        if not (invoice.status =ˢ Status.transmitting)
        then (ok tt, w)
        else elim (submit invoice (get_client_uid invoice w)) [
          | ok flow_id ↦ record_submission invoice flow_id w
          | err e ↦ if is_api_error e then revert_submission invoice e w else (err e, w)
        ]
  ]

  unfoldable pub send_report : Invoice → Text → Text → Action (Unit {0})
  send_report invoice client_uid siren w =
      elim (api.submit_paid_status (paid_report invoice siren) client_uid) [
        | ok _ ↦ audit (log_entry invoice.pk AuditAction.cdar_paid_submitted plain) w
        | err _ ↦ audit (log_entry invoice.pk AuditAction.cdar_paid_error plain) w
      ]

  unfoldable pub submit_cdar_paid : ℕ → Action (Unit {0})
  submit_cdar_paid invoice_uuid w = elim (find_invoice invoice_uuid w) [
    | none ↦ (ok tt, w)
    | some invoice ↦
        if not (invoice.status =ˢ Status.paid)
        then (ok tt, w)
        else elim (get_client_uid invoice w) [
          | none ↦ (ok tt, w)
          | some client_uid ↦
              let siren = supplier_siren invoice w in
              if lacks_buyer invoice
              then skip_report invoice w
              else if not (truthy siren)
              then skip_report invoice w
              else send_report invoice client_uid siren w
        ]
  ]
