-- ===== src/FactpulseTasks/Transmission/Submission.antt =====
-- How the submission of an invoice to the platform ends.
use factpulse_billing_app_pu.Base.{ℕ, ◌≡◌, true, none, some, ◌∷◌, arith, ◌==◌, if◌then◌else◌}
use factpulse_billing_app_pu.Base.Text.{Text, codes}
use factpulse_billing_app_pu.Model.{
  Status, ErrorType, failure, Invoice, World, check_lifecycle, Error, is_api_error, ok, err,
  save_fields_lem, sync_denormalized_fields, find_invoice, find-put, invoice_key,
}
use factpulse_billing_app_pu.StateMachine.{can_transition}
use factpulse_billing_app_pu.InvoiceService.Lifecycle.{status_change}
use factpulse_billing_app_pu.FactpulseTasks.Generation.{get_client_uid, build_error_dict}
use factpulse_billing_app_pu.FactpulseTasks.Transmission.{
  FlowApi, submit, transmit_task, record_submission, revert_submission, write_submission,
  write_reversal, send_checks,
}

module _ (api : FlowApi) (invoice : Invoice) (w : World)
    (found : find_invoice invoice.pk w ≡ some invoice)
    (sending : invoice.status ≡ Status.transmitting) where
  -- An accepted submission of an invoice that is being transmitted stores the identifier of the
  -- flow in its row and changes no other row; the invoice keeps its status, and its lifecycle will
  -- be checked three times.
  pub submission_accepted :
      (flow_id : Text)
      → submit api invoice (get_client_uid invoice w) ≡ ok flow_id
      → let w' = (transmit_task api invoice.pk w).1 in
        ((transmit_task api invoice.pk w).0 ≡ ok tt)
        × ((k : ℕ)
            → find_invoice k w' ≡ (
                if invoice.pk == k
                then some (record invoice {
                  pdp_transmission_id = flow_id;
                  pdp_status = codes "submitted";
                  factpulse_error = none;
                })
                else find_invoice k w))
        × (w'.tasks
            ≡ check_lifecycle invoice.pk 180
              ∷ check_lifecycle invoice.pk 60
              ∷ check_lifecycle invoice.pk 20
              ∷ w.tasks)
  unfolding transmit_task record_submission sync_denormalized_fields send_checks
  submission_accepted flow_id sent =
      let object = record invoice {
        pdp_transmission_id = flow_id;
        pdp_status = codes "submitted";
        factpulse_error = none;
      } in
      let saved = save_fields_lem write_submission object w found in
      (
        ground (arith, found, sent, saved),
        λ k. ground (arith, found, sent, saved, find-put invoice_key k object w.invoices),
        ground (arith, found, sent, saved),
      )

  -- Where there is no file, or the API refuses or cannot be reached, the invoice is validated
  -- again, an allowed transition; the row has the error, no other row changes, and nothing is
  -- queued.
  pub submission_refused :
      (e : Error)
      → submit api invoice (get_client_uid invoice w) ≡ err e
      → is_api_error e ≡ true
      → let w' = (transmit_task api invoice.pk w).1 in
        ((transmit_task api invoice.pk w).0 ≡ ok tt)
        × (can_transition invoice.status Status.validated ≡ true)
        × ((k : ℕ)
            → find_invoice k w' ≡ (
                if invoice.pk == k
                then some (record invoice {
                  status = Status.validated;
                  factpulse_error = some (build_error_dict e ErrorType.transmission_failed);
                })
                else find_invoice k w))
        × (w'.tasks ≡ w.tasks)
        × (w'.audit_logs
            ≡ status_change invoice.pk Status.transmitting Status.validated
                (failure ErrorType.transmission_failed)
              ∷ w.audit_logs)
  unfolding transmit_task revert_submission sync_denormalized_fields
  submission_refused e refused caught =
      let object = record invoice {
        status = Status.validated;
        factpulse_error = some (build_error_dict e ErrorType.transmission_failed);
      } in
      let saved = save_fields_lem write_reversal object w found in
      (
        ground (arith, found, refused, caught, saved),
        unfold can_transition in ground (arith, sending),
        λ k.
            ground (arith, found, refused, caught, saved, find-put invoice_key k object w.invoices),
        ground (arith, found, refused, caught, saved),
        ground (arith, found, refused, caught, saved),
      )
