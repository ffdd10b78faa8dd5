-- ===== src/FactpulseTasks/Fallback/Tests.antt =====
-- Tests of the fallback and of the targeted check, on one invoice that is being transmitted.
use factpulse_billing_app_pu.Base.{◌≡◌, refl, true, Option, none, some, [], ◌∷◌}
use factpulse_billing_app_pu.Base.Text.{codes}
use factpulse_billing_app_pu.Model.{
  Status, Invoice, World, ok, find, find_invoice, save_fields, put, sync_denormalized_fields,
}
use factpulse_billing_app_pu.FactpulseTasks.Cdar.{
  process_cdar_lifecycle, process_entries, api_invoice_numbers,
}
use factpulse_billing_app_pu.FactpulseTasks.Fallback.{
  LifecycleApi, refused, check_flow, check_flows, check_afnor_flow_fallback, poll_organization,
  apply_flow_error, check_invoice_lifecycle,
}
use factpulse_billing_app_pu.Samples.{sample_validated, world_of}

abbrev sent : Invoice
sent = record sample_validated { status = Status.transmitting; pdp_transmission_id = codes "flow" }

abbrev start : World
start = world_of (sent ∷ [])

abbrev refusing_api : LifecycleApi
refusing_api = record {
  get_cdar_lifecycle = λ n u. ok [];
  get_flow_status = λ f u. ok (refused (codes "format" ∷ []));
}

abbrev status_of : Option Invoice → Option Status
status_of none = none
status_of (some i) = some i.status

abbrev status_after : Invoice → Option Status
status_after invoice =
    status_of (find_invoice 1 (check_invoice_lifecycle refusing_api 1 (world_of (invoice ∷ []))).1)

abbrev numbered : Invoice
numbered = record sent { number = codes "F-1" }

targeted_check_reverts : status_after numbered ≡ some Status.validated
unfolding check_invoice_lifecycle poll_organization process_cdar_lifecycle check_afnor_flow_fallback
    check_flows check_flow apply_flow_error save_fields find process_entries api_invoice_numbers put
    sync_denormalized_fields
targeted_check_reverts = refl

-- a deleted invoice is not looked at
deleted_is_left : status_after (record numbered { deleted = true }) ≡ some Status.transmitting
unfolding check_invoice_lifecycle find
deleted_is_left = refl
