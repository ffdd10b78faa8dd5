-- ===== src/FactpulseTasks/Transmission/Tests.antt =====
-- Tests of the submission and of the report of a payment.
use factpulse_billing_app_pu.Base.{ℕ, ◌≡◌, refl, true, ◌==◌, if◌then◌else◌, none, some, [], ◌∷◌}
use factpulse_billing_app_pu.Base.Text.{Text, codes}
use factpulse_billing_app_pu.Model.{
  Status, ErrorType, failure, Invoice, World, Party, ElectronicAddress, address_dict, no_party,
  no_snapshot, check_lifecycle, Error, external, api_unavailable, Result, ok, err, find_invoice,
  find,
}
use factpulse_billing_app_pu.StateMachine.{can_transition}
use factpulse_billing_app_pu.InvoiceService.Lifecycle.{status_change}
use factpulse_billing_app_pu.FactpulseTasks.Generation.{build_error_dict}
use factpulse_billing_app_pu.FactpulseTasks.Transmission.{FlowApi, submit, transmit_task}
use factpulse_billing_app_pu.FactpulseTasks.Transmission.Submission.{
  submission_accepted, submission_refused,
}
use factpulse_billing_app_pu.Samples.{sample_validated, world_of}

abbrev sending : Invoice
sending = record sample_validated {
  status = Status.transmitting;
  pdf_file = some (codes "F-001.pdf");
}

abbrev start : World
start = world_of (sending ∷ [])

abbrev down : Error
down = external (api_unavailable (codes "down"))

abbrev api_of : Result Text → FlowApi
api_of answer = record { submit_flow = λ i u. answer; submit_paid_status = λ r u. ok tt }

submission_accepted_example :
    let run = transmit_task (api_of (ok (codes "flow"))) 1 start in
    (run.0 ≡ ok tt)
    × ((k : ℕ)
        → find_invoice k run.1 ≡ (
            if 1 == k
            then some (record sending {
              pdp_transmission_id = codes "flow";
              pdp_status = codes "submitted";
            })
            else find_invoice k start))
    × (run.1.tasks ≡ check_lifecycle 1 180 ∷ check_lifecycle 1 60 ∷ check_lifecycle 1 20 ∷ [])
unfolding find submit
submission_accepted_example =
    submission_accepted (api_of (ok (codes "flow"))) sending start refl refl (codes "flow") refl

submission_refused_example :
    let run = transmit_task (api_of (err down)) 1 start in
    (run.0 ≡ ok tt)
    × (can_transition Status.transmitting Status.validated ≡ true)
    × ((k : ℕ)
        → find_invoice k run.1 ≡ (
            if 1 == k
            then some (record sending {
              status = Status.validated;
              factpulse_error = some (build_error_dict down ErrorType.transmission_failed);
            })
            else find_invoice k start))
    × (run.1.tasks ≡ [])
    × (run.1.audit_logs
        ≡ status_change 1 Status.transmitting Status.validated
            (failure ErrorType.transmission_failed)
          ∷ [])
unfolding find submit
submission_refused_example =
    submission_refused (api_of (err down)) sending start refl refl down refl refl

abbrev buyer_address_dict : ElectronicAddress
buyer_address_dict = record {
  identifier = some (codes "123456789");
  scheme_id = some (codes "0225");
  value = none;
}

abbrev buyer : Party
buyer = record no_party { electronic_address = some (address_dict buyer_address_dict) }

abbrev paid : Invoice
paid = record sample_validated {
  status = Status.paid;
  en16931_data = record no_snapshot { recipient = some buyer };
}
