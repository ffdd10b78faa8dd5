-- ===== src/FactpulseTasks/Ereporting/Tests.antt =====
-- Tests of the e-reporting, of a sale to a consumer.
use factpulse_billing_app_pu.Base.{ℕ, ◌≡◌, refl, ◌==◌, if◌then◌else◌, some, [], ◌∷◌}
use factpulse_billing_app_pu.Base.Text.{codes}
use factpulse_billing_app_pu.Model.{
  World, Error, external, api_unavailable, Result, ok, find_invoice, find,
}
use factpulse_billing_app_pu.FlowDetector.{is_ereporting_flow, get_ereporting_flux_type}
use factpulse_billing_app_pu.FactpulseTasks.Generation.{get_client_uid}
use factpulse_billing_app_pu.FactpulseTasks.Ereporting.{
  Reportable, EreportingApi, ereporting_preconditions, submit_ereporting_for_invoice,
  submitted_object,
}
use factpulse_billing_app_pu.FactpulseTasks.Ereporting.Submitted.{ereporting_submitted_once}
use factpulse_billing_app_pu.Samples.{sample_validated, sample_supplier, world_of}

abbrev start : World
start = world_of (sample_validated ∷ [])

abbrev reportable : Reportable
reportable = record {
  invoice = sample_validated;
  supplier = sample_supplier;
  client_uid = codes "uid";
  flux_type = codes "10.3";
}

abbrev down : Error
down = external (api_unavailable (codes "down"))

abbrev api_of : Result (Unit {0}) → EreportingApi
api_of answer = record { submit_ereporting = λ p u. answer }

ereporting_submitted_once_example :
    let run = submit_ereporting_for_invoice (api_of (ok tt)) 1 start in
    (run.0 ≡ ok tt)
    × ((j : ℕ)
        → find_invoice j run.1
          ≡ (if 1 == j then some (submitted_object sample_validated) else find_invoice j start))
    × ((again : EreportingApi) → submit_ereporting_for_invoice again 1 run.1 ≡ (ok tt, run.1))
unfolding ereporting_preconditions find get_client_uid is_ereporting_flow get_ereporting_flux_type
ereporting_submitted_once_example =
    ereporting_submitted_once (api_of (ok tt)) 1 start reportable refl refl
