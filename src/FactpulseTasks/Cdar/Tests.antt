-- ===== src/FactpulseTasks/Cdar/Tests.antt =====
-- Tests of the lifecycle, on one transmitted invoice.
use factpulse_billing_app_pu.Base.{◌≡◌, refl, List, none, [], ◌∷◌, inl}
use factpulse_billing_app_pu.Base.Text.{codes}
use factpulse_billing_app_pu.Model.{
  Status, Invoice, World, Result, ok, err, find, put, save_fields, sync_denormalized_fields,
}
use factpulse_billing_app_pu.StateMachine.{can_transition}
use factpulse_billing_app_pu.FactpulseTasks.Cdar.{
  CdarEvent, process_events, process_single_cdar_event, maybe_auto_mark_paid, apply_cdar,
  cdar_status_map, cdar_failure_type, is_known,
}
use factpulse_billing_app_pu.FactpulseTasks.Cdar.Tracks.{Tracks, Followed}
use factpulse_billing_app_pu.FactpulseTasks.Cdar.Moves.{process_events-Followed}
use factpulse_billing_app_pu.FactpulseTasks.Cdar.Replay.{replay_changes_nothing}
use factpulse_billing_app_pu.Samples.{sample_validated, world_of}

abbrev sent : Invoice
sent = record sample_validated { status = Status.transmitting; payment_date = none }

abbrev start : World
start = world_of (sent ∷ [])

-- deposited, accepted, then refused by the buyer
abbrev story : List CdarEvent
story =
    record { status_code = codes "200"; at = codes "t1" }
    ∷ record { status_code = codes "201"; at = codes "t2" }
    ∷ record { status_code = codes "210"; at = codes "t3" }
    ∷ []

sent-Tracks : Tracks sent start
unfolding find
sent-Tracks = record { row = sent; stored = refl; status = inl refl }

process_events-Followed_example :
    (x : Invoice) × (w' : World) × (process_events [] sent story start ≡ (ok x, w'))
    × Followed sent x start w'
process_events-Followed_example = process_events-Followed [] story sent start sent-Tracks

abbrev changed_by : Result Invoice × World → Invoice
changed_by (ok i, _) = i
changed_by (err _, _) = sent

abbrev run : Result Invoice × World
run = process_events [] sent story start

refused_at_the_end : (changed_by run).status ≡ Status.refused
unfolding process_events process_single_cdar_event is_known cdar_status_map apply_cdar save_fields
    find put maybe_auto_mark_paid can_transition cdar_failure_type sync_denormalized_fields
refused_at_the_end = refl

replay_changes_nothing_example :
    process_events run.1.audit_logs (changed_by run) story start ≡ (ok (changed_by run), start)
unfolding process_events process_single_cdar_event is_known cdar_status_map apply_cdar save_fields
    find put maybe_auto_mark_paid can_transition cdar_failure_type sync_denormalized_fields
replay_changes_nothing_example =
    replay_changes_nothing story sent (changed_by run) start run.1 start sent-Tracks refl
