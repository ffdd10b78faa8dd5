-- ===== src/FactpulseTasks/Fallback.antt =====
-- The fallback to the AFNOR flow of an invoice without lifecycle events, of apps/factpulse/tasks.py:
-- `_check_afnor_flow_fallback` and `_apply_flow_fallback`, with the two callers of it: the poll of
-- an organization and `check_invoice_lifecycle`.
pub mod Logged
pub mod Answers
pub mod Allowed
mod Tests
use factpulse_billing_app_pu.Base.{
  ℕ, Bool, not, ◌&&◌, ◌||◌, Option, none, some, List, [], ◌∷◌, ◌==◌, if◌then◌else◌, any,
}
use factpulse_billing_app_pu.Base.Text.{Text, codes, ◌=ᵗ◌, truthy}
use factpulse_billing_app_pu.Model.{
  Status, ◌=ˢ◌, source, ErrorType, FactpulseError, Invoice, invoice_failed, Result, ok, err, Action,
  ◌>>=◌, ◌>>◌, pure, audit, send_signal, save_fields, find_invoice,
}
use factpulse_billing_app_pu.InvoiceService.Lifecycle.{status_change}
use factpulse_billing_app_pu.FactpulseTasks.Generation.{get_client_uid}
use factpulse_billing_app_pu.FactpulseTasks.Cdar.{
  maybe_auto_mark_paid, CdarEntry, process_cdar_lifecycle,
}

-- `flow["acknowledgement"]["status"]`, with the reasons of an error
pub data Acknowledgement : Type 0 where
  pending accepted : Acknowledgement
  refused : List Text → Acknowledgement

abbrev pub write_fallback : Invoice → Invoice → Invoice
write_fallback object row = record row { status = object.status; pdp_status = object.pdp_status }

abbrev pub write_fallback_error : Invoice → Invoice → Invoice
write_fallback_error object row = record row {
  status = object.status;
  pdp_status = object.pdp_status;
  factpulse_error = object.factpulse_error;
}

abbrev pub submission_error : List Text → FactpulseError
submission_error reasons = record {
  error_type = ErrorType.pa_submission_failed;
  message = codes "Soumission rejetée par la plateforme agréée.";
  error_code = [];
  errors = reasons;
}

-- `_apply_flow_fallback(invoice, S.TRANSMITTED, "Ok", flow)`
unfoldable pub apply_flow_ok : Invoice → Action (Unit {0})
apply_flow_ok invoice = do
  saved ←
      save_fields write_fallback
        (record invoice { status = Status.transmitted; pdp_status = codes "Ok" })
  audit (
      status_change saved.pk invoice.status Status.transmitted
        (source (codes "afnor_flow_fallback")))
  maybe_auto_mark_paid saved
  pure tt

-- `_apply_flow_fallback(invoice, S.VALIDATED, "Error", flow, error=...)`
unfoldable pub apply_flow_error : Invoice → List Text → Action (Unit {0})
apply_flow_error invoice reasons = do
  saved ← save_fields write_fallback_error (record invoice {
    status = Status.validated;
    pdp_status = codes "Error";
    factpulse_error = some (submission_error reasons);
  })
  audit (
      status_change saved.pk invoice.status Status.validated (source (codes "afnor_flow_fallback")))
  send_signal (invoice_failed saved.pk ErrorType.pa_submission_failed)

abbrev is_stuck : ℕ → Text → Invoice → Bool
is_stuck org invoice_number invoice =
    (invoice.organization == org)
    && (invoice.status =ˢ Status.transmitting)
    && truthy invoice.pdp_transmission_id
    && (not (truthy invoice_number) || (invoice.number =ᵗ invoice_number))

-- The API: `client.get_cdar_lifecycle` and `client.get_flow_status`.
pub record LifecycleApi : Type 0 where
  pub get_cdar_lifecycle : Text → Option Text → Result (List CdarEntry)
  pub get_flow_status : Text → Option Text → Result Acknowledgement

abbrev logged_only : Action (Unit {0}) → Action (Unit {0})
logged_only m w = (ok tt, (m w).1)

module _ (api : LifecycleApi) (client_uid : Option Text) where
  -- one turn of the loop; an exception is logged only
  unfoldable pub check_flow : Invoice → Action (Unit {0})
  check_flow invoice w = elim (api.get_flow_status invoice.pdp_transmission_id client_uid) [
    | err _ ↦ (ok tt, w)
    | ok pending ↦ (ok tt, w)
    | ok accepted ↦ logged_only (apply_flow_ok invoice) w
    | ok (refused reasons) ↦ logged_only (apply_flow_error invoice reasons) w
  ]

  unfoldable pub check_flows : ℕ → Text → List Text → List Invoice → Action (Unit {0})
  unfolding ◌=ᵗ◌
  check_flows org invoice_number with_cdar [] = pure tt
  check_flows org invoice_number with_cdar (invoice ∷ rows) =
      if is_stuck org invoice_number invoice && not (any (λ n. n =ᵗ invoice.number) with_cdar)
      then (do check_flow invoice; check_flows org invoice_number with_cdar rows)
      else check_flows org invoice_number with_cdar rows

  unfoldable pub check_afnor_flow_fallback : ℕ → Text → List Text → Action (Unit {0})
  check_afnor_flow_fallback org invoice_number with_cdar w =
      check_flows org invoice_number with_cdar w.invoices w

  -- the body of `poll_cdar_events` for one organization
  unfoldable pub poll_organization : ℕ → Text → Action (Unit {0})
  poll_organization org invoice_number w = elim (api.get_cdar_lifecycle invoice_number client_uid) [
    | err _ ↦ (ok tt, w)
    | ok entries ↦
        (do
          with_cdar ← process_cdar_lifecycle org entries
          check_afnor_flow_fallback org invoice_number with_cdar)
          w
  ]

-- The targeted check of one invoice. The number of days asked for is left to the API's record.
unfoldable pub check_invoice_lifecycle : LifecycleApi → ℕ → Action (Unit {0})
check_invoice_lifecycle api invoice_uuid w = elim (find_invoice invoice_uuid w) [
  | none ↦ (ok tt, w)
  | some invoice ↦
      if not invoice.deleted && (invoice.status =ˢ Status.transmitting) && truthy invoice.number
      then poll_organization api (get_client_uid invoice w) invoice.organization invoice.number w
      else (ok tt, w)
]
