-- ===== src/FactpulseTasks/Cdar/Moves.antt =====
-- The lifecycle events take an invoice along the transition matrix only.
use factpulse_billing_app_pu.Base.{
  ◌≡◌, ◌≢◌, inl, inr, refl, sym, ap, ◌∙◌, true, not, ◌||◌, some, List, [], ◌∷◌, arith, ◌==◌,
  if◌then◌else◌, Bool-cases, Option-cases,
}
use factpulse_billing_app_pu.Base.Text.{Text, codes}
use factpulse_billing_app_pu.Model.{
  Status, AuditLog, source, invoice_status, invoice_failed, ◌>>◌, pure, audit, emit_webhook, >>=-ok,
  Invoice, World, Result, ok, err, Action, ◌>>=◌, save_fields, save_fields_lem,
  sync_denormalized_fields, put, find-put, key-find, find_invoice, invoice_key,
}
use factpulse_billing_app_pu.StateMachine.{can_transition}
use factpulse_billing_app_pu.InvoiceService.Lifecycle.{status_change}
use factpulse_billing_app_pu.InvoiceService.Payment.{mark_paid, no_payment_data, record_payment}
use factpulse_billing_app_pu.InvoiceService.Outcomes.{mark_paid_failure, mark_paid_success}
use factpulse_billing_app_pu.InvoiceService.CreditNote.{write_status}
use factpulse_billing_app_pu.FactpulseTasks.Cdar.{
  CdarEvent, is_known, event_log, maybe_auto_mark_paid, apply_cdar, announce_failure, has_payment,
  unsaved_payment, process_single_cdar_event, process_events, cdar_status_map, cdar_failure_type,
}
use factpulse_billing_app_pu.FactpulseTasks.Cdar.Tracks.{
  Tracks, Followed, Moves-refl, Followed-trans, Followed-nothing, Followed-write,
}

announce_failure-invoices :
    (s : Status) (x : Invoice) (w : World)
    → (w' : World) × (announce_failure s x w ≡ (ok tt, w')) × (w'.invoices ≡ w.invoices)
announce_failure-invoices s x w = elim (Option-cases (cdar_failure_type s)) [
  | inl e ↦ (w, ground (arith, e), refl)
  | inr (k, e) ↦ (record w { signals = invoice_failed x.pk k ∷ w.signals }, ground (arith, e), refl)
]

module _ (invoice : Invoice) (w : World) (t : Tracks invoice w) where
  after_mark_paid :
      (p : Result Invoice × World)
      → mark_paid invoice no_payment_data (codes "prepaid_auto") w ≡ p
      → (x : Invoice) × (w' : World) × (◌≡◌ {A = Result Invoice × World}
          (elim p.0 [
            | ok paid ↦ (ok paid, p.1)
            | err _ ↦ (ok (unsaved_payment invoice w.today), p.1)
          ])
          (ok x, w'))
        × Followed invoice x w w'
  unfolding record_payment sync_denormalized_fields
  after_mark_paid (ok x, w') h =
      let paid = mark_paid_success invoice no_payment_data (codes "prepaid_auto") w x w' h in
      (
        x,
        w',
        refl,
        Followed-write invoice x t.row x w w' t.stored paid.rows paid.pk refl
            (unfold can_transition in ground (arith, t.status, paid.allowed, paid.status)),
      )
  after_mark_paid (err e, w') h =
      let unchanged : w' ≡ w =
        ap (λ (p : Result Invoice × World). p.1) (sym h)
        ∙ mark_paid_failure invoice no_payment_data (codes "prepaid_auto") w e
            (ap (λ (p : Result Invoice × World). p.0) h) in
      let x = unsaved_payment invoice w.today in
      (
        x,
        w',
        refl,
        record {
          pk = refl;
          tracks = record {
            row = t.row;
            stored = ap (find_invoice invoice.pk) unchanged ∙ t.stored;
            status = inr refl;
          };
          moves = Moves-refl invoice.pk w w' (ap (λ (v : World). v.invoices) unchanged);
        },
      )

  pub maybe_auto_mark_paid-Followed :
      (x : Invoice) × (w' : World) × (maybe_auto_mark_paid invoice w ≡ (ok x, w'))
      × Followed invoice x w w'
  maybe_auto_mark_paid-Followed =
      elim (Bool-cases
        (not (has_payment invoice) || not (can_transition invoice.status Status.paid))) [
          | inl e ↦ (
            invoice,
            w,
            unfold maybe_auto_mark_paid in rw e refl,
            Followed-nothing invoice w w refl t,
          )
          | inr e ↦
              let (x, w', h, f) =
                after_mark_paid (mark_paid invoice no_payment_data (codes "prepaid_auto") w) refl in
              (x, w', unfold maybe_auto_mark_paid in rw e h, f)
        ]

  abbrev moved_object : Status → Invoice
  moved_object s = sync_denormalized_fields (record invoice { status = s })

  abbrev moved_world : Status → World
  moved_world s = record w {
    invoices = put invoice_key (record (t.row) { status = s }) w.invoices;
    audit_logs =
        status_change invoice.pk invoice.status s (source (codes "cdar_poll")) ∷ w.audit_logs;
    webhooks = invoice_status invoice.organization invoice.pk s ∷ w.webhooks;
  }

  moved-Followed :
      (s : Status)
      → can_transition invoice.status s ≡ true
      → s ≢ Status.cancelled
      → Followed invoice (moved_object s) w (moved_world s)
  unfolding sync_denormalized_fields
  moved-Followed s allowed h =
      let new = record (t.row) { status = s } in
      let pk = key-find invoice_key invoice.pk w.invoices t.row t.stored in
      Followed-write invoice (moved_object s) t.row new w (moved_world s) t.stored
        (λ k.
          find-put invoice_key k new w.invoices
          ∙ ap (λ j. if j == k then some new else find_invoice k w) pk)
        refl refl (unfold can_transition in ground (arith, t.status, allowed, h))

  abbrev announce_move : Status → Invoice → Action Invoice
  announce_move s paid = announce_failure s paid >> pure paid

  apply_cdar_step :
      (s : Status)
      → apply_cdar invoice s w
        ≡ (maybe_auto_mark_paid (moved_object s) >>= announce_move s) (moved_world s)
  unfolding apply_cdar sync_denormalized_fields
  apply_cdar_step s =
      let object = record invoice { status = s } in
      let rest : Invoice → Action Invoice = λ moved.
        audit (status_change moved.pk invoice.status s (source (codes "cdar_poll")))
        >> (emit_webhook (invoice_status moved.organization moved.pk s)
            >> (maybe_auto_mark_paid moved >>= announce_move s)) in
      >>=-ok (save_fields write_status object) rest w
        (save_fields_lem write_status object w t.stored)

apply_cdar-Followed :
    (invoice : Invoice) (w : World) (t : Tracks invoice w) (s : Status)
    → can_transition invoice.status s ≡ true
    → s ≢ Status.cancelled
    → (x : Invoice) × (w' : World) × (apply_cdar invoice s w ≡ (ok x, w')) × Followed invoice x w w'
apply_cdar-Followed invoice w t s allowed h =
    let moved = moved-Followed invoice w t s allowed h in
    let (x, w2, paid, f) =
      maybe_auto_mark_paid-Followed (moved_object invoice w t s) (moved_world invoice w t s)
        moved.tracks in
    let (w3, announced, same) = announce_failure-invoices s x w2 in
    let both =
      Followed-trans invoice (moved_object invoice w t s) x w (moved_world invoice w t s) w2 moved
        f in
    (
      x,
      w3,
      apply_cdar_step invoice w t s
          ∙ (>>=-ok (maybe_auto_mark_paid (moved_object invoice w t s))
                (announce_move invoice w t s) (moved_world invoice w t s) paid
              ∙ >>=-ok (announce_failure s x) (λ _. pure x) w2 announced),
      Followed-trans invoice x x w w2 w3 both (Followed-nothing x w2 w3 same both.tracks),
    )

not_cancelled : (code : Text) (s : Status) → cdar_status_map code ≡ some s → s ≢ Status.cancelled
unfolding cdar_status_map
not_cancelled code s h = ground arith

module _ (known : List AuditLog) where
  pub event-Followed :
      (invoice : Invoice) (e : CdarEvent) (w : World)
      → Tracks invoice w
      → (x : Invoice) × (w' : World) × (process_single_cdar_event known invoice e w ≡ (ok x, w'))
        × Followed invoice x w w'
  unfolding process_single_cdar_event
  event-Followed invoice e w t = elim (Bool-cases (is_known invoice.pk e known)) [
    | inl old ↦ (invoice, w, ground (arith, old), Followed-nothing invoice w w refl t)
    | inr new ↦
        let w1 = record w { audit_logs = event_log invoice.pk e ∷ w.audit_logs } in
        let quiet = Followed-nothing invoice w w1 refl t in
        elim (Option-cases (cdar_status_map e.status_code)) [
          | inl none_given ↦ (invoice, w1, ground (arith, new, none_given), quiet)
          | inr (s, given) ↦ elim (Bool-cases (can_transition invoice.status s)) [
            | inl allowed ↦
                let (x, w2, h, f) =
                  apply_cdar-Followed invoice w1 quiet.tracks s allowed
                    (not_cancelled e.status_code s given) in
                (
                  x,
                  w2,
                  ground (arith, new, given, allowed, h),
                  Followed-trans invoice invoice x w w1 w2 quiet f,
                )
            | inr refused ↦ (invoice, w1, ground (arith, new, given, refused), quiet)
          ]
        ]
  ]

  -- Whatever events the API reports of an invoice, in whatever order, the processing ends, it
  -- changes no other invoice, and the status in the database goes along allowed transitions only.
  pub process_events-Followed :
      (events : List CdarEvent) (invoice : Invoice) (w : World)
      → Tracks invoice w
      → (x : Invoice) × (w' : World) × (process_events known invoice events w ≡ (ok x, w'))
        × Followed invoice x w w'
  unfolding process_events
  process_events-Followed [] invoice w t = (invoice, w, refl, Followed-nothing invoice w w refl t)
  process_events-Followed (e ∷ events) invoice w t =
      let (y, w1, h, f) = event-Followed invoice e w t in
      let h1 =
        >>=-ok (λ v. process_single_cdar_event known invoice e v)
          (λ y. process_events known y events) w h in
      let (x, w2, h', f') = process_events-Followed events y w1 f.tracks in
      (x, w2, h1 ∙ h', Followed-trans invoice y x w w1 w2 f f')
