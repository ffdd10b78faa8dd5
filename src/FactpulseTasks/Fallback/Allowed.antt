-- ===== src/FactpulseTasks/Fallback/Allowed.antt =====
-- The fallback follows the transition matrix.
use mathlib.Core.Path.{ap₂}
use factpulse_billing_app_pu.Base.{
  ◌≡◌, ◌⊎◌, inl, inr, refl, sym, ap, subst, ◌∙◌, true, Option, some, List, ◌∷◌, arith, ◌==◌,
  if◌then◌else◌,
}
use factpulse_billing_app_pu.Base.Text.{Text, codes}
use factpulse_billing_app_pu.Model.{
  Status, source, ErrorType, invoice_failed, Invoice, World, Result, ok, err, Action, ◌>>◌, pure,
  audit, send_signal, save_fields, save_fields_lem, sync_denormalized_fields, find_invoice,
  find-put, find, put, invoice_key, >>=-ok,
}
use factpulse_billing_app_pu.StateMachine.{can_transition}
use factpulse_billing_app_pu.InvoiceService.Lifecycle.{status_change}
use factpulse_billing_app_pu.FactpulseTasks.Cdar.{maybe_auto_mark_paid}
use factpulse_billing_app_pu.FactpulseTasks.Cdar.Tracks.{
  Moves, Moves-refl, Moves-trans, Followed, Followed-write,
}
use factpulse_billing_app_pu.FactpulseTasks.Cdar.Moves.{maybe_auto_mark_paid-Followed}
use factpulse_billing_app_pu.FactpulseTasks.Fallback.Logged.{PaidBefore, maybe_auto_mark_paid_lem}
use factpulse_billing_app_pu.FactpulseTasks.Fallback.{
  Acknowledgement, pending, accepted, refused, LifecycleApi, check_flow, apply_flow_ok,
  apply_flow_error, write_fallback, write_fallback_error, submission_error,
}
use factpulse_billing_app_pu.FactpulseTasks.Fallback.Answers.{
  fallback_entry, Accepted, Refused, IsAnswered,
}

module _ (invoice : Invoice) (w : World) (found : find_invoice invoice.pk w ≡ some invoice)
    (sending : invoice.status ≡ Status.transmitting) where
  -- a row that the fallback writes
  written :
      (object row : Invoice) (v : World)
      → row.pk ≡ invoice.pk
      → object.pk ≡ invoice.pk
      → row.status ≡ object.status
      → v.invoices ≡ put invoice_key row w.invoices
      → can_transition Status.transmitting row.status ≡ true
      → Followed invoice object w v
  written object row v pk pk' same h allowed =
      Followed-write invoice object invoice row w v found
        (λ k.
          ap (find invoice_key k) h
          ∙ (find-put invoice_key k row w.invoices
              ∙ ap (λ j. if j == k then some row else find_invoice k w) pk))
        pk' same (ap (λ s. can_transition s row.status) sending ∙ allowed)

  -- the two ends of the automatic payment
  accepted_row :
      (row : Invoice) (moved : Invoice) (v w2 : World)
      → moved.pk ≡ invoice.pk
      → moved.status ≡ Status.transmitted
      → find_invoice invoice.pk v ≡ some row
      → row.status ≡ Status.transmitted
      → v.audit_logs ≡ fallback_entry invoice Status.transmitted ∷ w.audit_logs
      → (w2 ≡ v) ⊎ PaidBefore moved v w2
      → Accepted invoice w w2
  accepted_row row moved v w2 pk status stored same log (inl kept) = record {
    row = row;
    stored = ap (find_invoice invoice.pk) kept ∙ stored;
    logged = inl (same, ap (λ (u : World). u.audit_logs) kept ∙ log);
  }
  accepted_row row moved v w2 pk status stored same log (inr paid) = record {
    row = paid.row;
    stored = ap (λ k. find_invoice k w2) (sym pk) ∙ paid.stored;
    logged = inr (
      paid.status,
      paid.logged
          ∙ ap₂ (λ e l. e ∷ l)
              (ap₂ (λ k s. status_change k s Status.paid (source (codes "prepaid_auto"))) pk status)
              log,
    );
  }

  ok_moves :
      Moves invoice.pk w (apply_flow_ok invoice w).1
      × Accepted invoice w (apply_flow_ok invoice w).1
  unfolding apply_flow_ok sync_denormalized_fields
  ok_moves =
      let object = record invoice { status = Status.transmitted; pdp_status = codes "Ok" } in
      let moved = sync_denormalized_fields object in
      let v = record w {
        invoices = put invoice_key object w.invoices;
        audit_logs =
            status_change invoice.pk invoice.status Status.transmitted
              (source (codes "afnor_flow_fallback"))
            ∷ w.audit_logs;
      } in
      let first : Followed invoice moved w v =
        unfold can_transition in written moved object v refl refl refl refl refl in
      let (x, w2, paid, f) = maybe_auto_mark_paid-Followed moved v first.tracks in
      let saved = save_fields_lem write_fallback object w found in
      let rest : Invoice → Action (Unit {0}) = λ s.
        audit (
          status_change s.pk invoice.status Status.transmitted
            (source (codes "afnor_flow_fallback")))
        >> (maybe_auto_mark_paid s >> pure tt) in
      let end : apply_flow_ok invoice w ≡ (ok tt, w2) =
        >>=-ok (save_fields write_fallback object) rest w saved
        ∙ >>=-ok (maybe_auto_mark_paid moved) (λ _. pure tt) v paid in
      let payment = maybe_auto_mark_paid_lem moved v in
      let done : (w2 ≡ v) ⊎ PaidBefore moved v w2 =
        subst (λ (u : World). (u ≡ v) ⊎ PaidBefore moved v u)
          (ap (λ (r : Result Invoice × World). r.1) paid) payment in
      let log : v.audit_logs ≡ fallback_entry invoice Status.transmitted ∷ w.audit_logs =
        ap
          (λ s.
            status_change invoice.pk s Status.transmitted (source (codes "afnor_flow_fallback"))
            ∷ w.audit_logs)
          sending in
      let row : find_invoice invoice.pk v ≡ some object =
        ground (arith, find-put invoice_key invoice.pk object w.invoices) in
      subst (λ (r : Result (Unit {0}) × World). Moves invoice.pk w r.1 × Accepted invoice w r.1)
        (sym end)
        (
          Moves-trans invoice.pk w v w2 first.moves f.moves,
          accepted_row object moved v w2 refl refl row refl log done,
        )

  error_moves :
      (reasons : List Text)
      → Moves invoice.pk w (apply_flow_error invoice reasons w).1
        × Refused invoice reasons w (apply_flow_error invoice reasons w).1
  unfolding apply_flow_error sync_denormalized_fields
  error_moves reasons =
      let object = record invoice {
        status = Status.validated;
        pdp_status = codes "Error";
        factpulse_error = some (submission_error reasons);
      } in
      let v = record w {
        invoices = put invoice_key object w.invoices;
        audit_logs =
            status_change invoice.pk invoice.status Status.validated
              (source (codes "afnor_flow_fallback"))
            ∷ w.audit_logs;
        signals = invoice_failed invoice.pk ErrorType.pa_submission_failed ∷ w.signals;
      } in
      let first : Followed invoice object w v =
        unfold can_transition in written object object v refl refl refl refl refl in
      let rest : Invoice → Action (Unit {0}) = λ s.
        audit (
          status_change s.pk invoice.status Status.validated (source (codes "afnor_flow_fallback")))
        >> send_signal (invoice_failed s.pk ErrorType.pa_submission_failed) in
      let end : apply_flow_error invoice reasons w ≡ (ok tt, v) =
        >>=-ok (save_fields write_fallback_error object) rest w
          (save_fields_lem write_fallback_error object w found) in
      subst
        (λ (r : Result (Unit {0}) × World). Moves invoice.pk w r.1 × Refused invoice reasons w r.1)
        (sym end)
        (
          first.moves,
          record {
            row = object;
            stored = ground (arith, find-put invoice_key invoice.pk object w.invoices);
            status = refl;
            reported = refl;
            logged =
                ap
                  (λ s.
                    status_change invoice.pk s Status.validated
                      (source (codes "afnor_flow_fallback"))
                    ∷ w.audit_logs)
                  sending;
          },
        )

  ends_with :
      (answer : Result Acknowledgement) (r : Result (Unit {0}) × World) (v : World)
      → r ≡ (ok tt, v)
      → Moves invoice.pk w v
      → IsAnswered answer invoice w v
      → (r.0 ≡ ok tt) × Moves invoice.pk w r.1 × IsAnswered answer invoice w r.1
  ends_with answer r v h m d = (
    ap (λ (p : Result (Unit {0}) × World). p.0) h,
    subst (λ (p : Result (Unit {0}) × World). Moves invoice.pk w p.1) (sym h) m,
    subst (λ (p : Result (Unit {0}) × World). IsAnswered answer invoice w p.1) (sym h) d,
  )

  answered :
      (api : LifecycleApi) (client_uid : Option Text) (r : Result Acknowledgement)
      → api.get_flow_status invoice.pdp_transmission_id client_uid ≡ r
      → ((check_flow api client_uid invoice w).0 ≡ ok tt)
        × Moves invoice.pk w (check_flow api client_uid invoice w).1
        × IsAnswered r invoice w (check_flow api client_uid invoice w).1
  unfolding check_flow
  answered api client_uid (err e) h =
      ends_with (err e) (check_flow api client_uid invoice w) w (ground (arith, h))
        (Moves-refl invoice.pk w w refl) refl
  answered api client_uid (ok pending) h =
      ends_with (ok pending) (check_flow api client_uid invoice w) w (ground (arith, h))
        (Moves-refl invoice.pk w w refl) refl
  answered api client_uid (ok accepted) h =
      ends_with (ok accepted) (check_flow api client_uid invoice w) (apply_flow_ok invoice w).1
        (ground (arith, h)) ok_moves.0 ok_moves.1
  answered api client_uid (ok (refused reasons)) h =
      ends_with (ok (refused reasons)) (check_flow api client_uid invoice w)
        (apply_flow_error invoice reasons w).1 (ground (arith, h)) (error_moves reasons).0
        (error_moves reasons).1
