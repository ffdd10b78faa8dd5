-- ===== src/FactpulseTasks/Generation/Tests.antt =====
-- Tests of the generation task, on the sample database.
use factpulse_billing_app_pu.Base.{ℕ, ◌≡◌, refl, ◌==◌, if◌then◌else◌, none, some, [], ◌∷◌}
use factpulse_billing_app_pu.Base.Text.{Text, codes}
use factpulse_billing_app_pu.Model.{
  Status, ErrorType, Invoice, World, Error, external, api_unavailable, Result, ok, err,
  find_invoice, submit_ereporting, find, collides,
}
use factpulse_billing_app_pu.FactpulseTasks.Generation.{
  GenerationApi, generate_and_validate_invoice, get_client_uid, except_type, produce,
}
use factpulse_billing_app_pu.FactpulseTasks.Generation.Outcomes.{
  generation_fails, generation_succeeds,
}
use factpulse_billing_app_pu.FactpulseTasks.Generation.Reverted.{
  Reverted, validated_row, logged_world,
}
use factpulse_billing_app_pu.FlowDetector.{is_ereporting_flow, get_ereporting_flux_type}
use factpulse_billing_app_pu.Samples.{sample_processing, world_of}

abbrev start : World
start = world_of (sample_processing ∷ [])

-- an API whose answer and broker are given
abbrev api_of : Result Text → Result (Unit {0}) → GenerationApi
api_of answer broker = record {
  source_pdf = λ i. ok (codes "pdf");
  generate_invoice = λ d p u. answer;
  broker = broker;
}

abbrev down : Error
down = external (api_unavailable (codes "down"))

abbrev finished_row : Invoice
finished_row = validated_row sample_processing

abbrev start_logged : World
start_logged = logged_world sample_processing start

generation_fails_example :
    let run = generate_and_validate_invoice (api_of (err down) (ok tt)) 1 start in
    (run.0 ≡ ok tt) × Reverted sample_processing ErrorType.validation_rejected start run.1
unfolding get_client_uid find collides produce except_type
generation_fails_example =
    generation_fails (api_of (err down) (ok tt)) sample_processing (codes "uid") start refl refl
      refl refl down refl

generation_succeeds_example :
    let run = generate_and_validate_invoice (api_of (ok (codes "fx")) (ok tt)) 1 start in
    (run.0 ≡ ok tt)
    × ((k : ℕ)
        → find_invoice k run.1 ≡ (if 1 == k then some finished_row else find_invoice k start))
    × (finished_row.status ≡ Status.validated)
    × (finished_row.number ≡ codes "F-001")
    × (finished_row.factpulse_error ≡ none)
    × (run.1.tasks ≡ submit_ereporting 1 ∷ [])
unfolding get_client_uid find collides produce is_ereporting_flow get_ereporting_flux_type
generation_succeeds_example =
    generation_succeeds (api_of (ok (codes "fx")) (ok tt)) sample_processing (codes "uid") start
      refl refl refl refl (codes "fx") refl refl refl
