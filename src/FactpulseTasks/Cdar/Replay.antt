-- ===== src/FactpulseTasks/Cdar/Replay.antt =====
-- A response that comes again changes nothing: the audit log keeps the events that were processed.
use factpulse_billing_app_pu.Base.{
  ℕ, ◌≡◌, inl, inr, refl, sym, ap, subst, ◌∙◌, true, List, [], ◌∷◌, arith, Option-cases, All,
}
use factpulse_billing_app_pu.Base.Text.{codes, =ᵗ_iff}
use factpulse_billing_app_pu.Model.{
  Status, AuditLog, Webhook, Invoice, World, Result, ok, err, Action, ◌>>=◌, ◌>>◌, pure, audit,
  emit_webhook, save, save_fields, source, invoice_status, ok-injective, >>=-ok,
}
use factpulse_billing_app_pu.InvoiceService.Lifecycle.{status_change}
use factpulse_billing_app_pu.InvoiceService.Payment.{mark_paid, no_payment_data, announce_paid}
use factpulse_billing_app_pu.InvoiceService.CreditNote.{write_status}
use factpulse_billing_app_pu.FactpulseTasks.Cdar.{
  CdarEvent, is_known, event_log, maybe_auto_mark_paid, apply_cdar, announce_failure,
  process_single_cdar_event, process_events, cdar_status_map,
}
use factpulse_billing_app_pu.FactpulseTasks.Cdar.Tracks.{Tracks}
use factpulse_billing_app_pu.FactpulseTasks.Cdar.Moves.{event-Followed, process_events-Followed}

module _ (pk : ℕ) (e : CdarEvent) where
  -- the event stays in the log
  Kept : World → World → Type 0
  Kept w w' = is_known pk e w.audit_logs ≡ true → is_known pk e w'.audit_logs ≡ true

  Growing : {A : Type 0} → Action A → Type 0
  Growing m = (w : World) → Kept w (m w).1

  bind_of :
      {A B : Type 0} (p : Result A × World) (f : A → Action B)
      → ((a : A) → Growing (f a))
      → (w : World) → is_known pk e p.1.audit_logs ≡ true
      → is_known pk e (((λ (_ : World). p) >>= f) w).1.audit_logs ≡ true
  unfolding Growing Kept
  bind_of (ok a, w1) f hf w k = hf a w1 k
  bind_of (err x, w1) f hf w k = k

  bind-Growing :
      {A B : Type 0} (m : Action A) (f : A → Action B)
      → Growing m
      → ((a : A) → Growing (f a))
      → Growing (m >>= f)
  unfolding Growing Kept
  bind-Growing m f hm hf w k = bind_of (m w) f hf w (hm w k)

  audit-Growing : (log : AuditLog) → Growing (audit log)
  unfolding Growing Kept is_known
  audit-Growing log w k = ground arith

  mark_paid-Growing : (x : Invoice) → Growing (mark_paid x no_payment_data (codes "prepaid_auto"))
  unfolding Growing Kept is_known mark_paid announce_paid save
  mark_paid-Growing x w k = ground arith

  maybe-Growing : (x : Invoice) → Growing (maybe_auto_mark_paid x)
  unfolding Growing Kept maybe_auto_mark_paid
  maybe-Growing x w k = ground (arith, mark_paid-Growing x w k)

  save_fields-Growing :
      (write : Invoice → Invoice → Invoice) (x : Invoice) → Growing (save_fields write x)
  unfolding Growing Kept save_fields
  save_fields-Growing write x w k = ground arith

  announce-Growing : (s : Status) (x : Invoice) → Growing (announce_failure s x)
  unfolding Growing Kept
  announce-Growing s x w k = ground arith

  pure-Growing : (x : Invoice) → Growing (pure x)
  unfolding Growing Kept
  pure-Growing x w k = k

  webhook-Growing : (h : Webhook) → Growing (emit_webhook h)
  unfolding Growing Kept
  webhook-Growing h w k = k

  apply_cdar-Growing : (x : Invoice) (s : Status) → Growing (apply_cdar x s)
  unfolding apply_cdar
  apply_cdar-Growing x s =
      let announced : Invoice → Action Invoice = λ paid. announce_failure s paid >> pure paid in
      let paying : Invoice → Action Invoice = λ moved. maybe_auto_mark_paid moved >>= announced in
      let hook : Invoice → Action (Unit {0}) =
        λ moved. emit_webhook (invoice_status moved.organization moved.pk s) in
      let log : Invoice → Action (Unit {0}) =
        λ moved. audit (status_change moved.pk x.status s (source (codes "cdar_poll"))) in
      let object = record x { status = s } in
      let announced_grows : (paid : Invoice) → Growing (announced paid) = λ paid.
        bind-Growing (announce_failure s paid) (λ _. pure paid) (announce-Growing s paid)
          (λ _. pure-Growing paid) in
      let paying_grows : (moved : Invoice) → Growing (paying moved) = λ moved.
        bind-Growing (maybe_auto_mark_paid moved) announced (maybe-Growing moved) announced_grows in
      let hook_grows : (moved : Invoice) → Growing (hook moved >> paying moved) = λ moved.
        bind-Growing (hook moved) (λ _. paying moved) (webhook-Growing _)
          (λ _. paying_grows moved) in
      bind-Growing (save_fields write_status object)
        (λ moved. log moved >> (hook moved >> paying moved))
        (save_fields-Growing write_status object)
        (λ moved.
          bind-Growing (log moved) (λ _. hook moved >> paying moved) (audit-Growing _)
            (λ _. hook_grows moved))

  event-Growing :
      (known : List AuditLog) (x : Invoice) (k : CdarEvent)
      → Growing (process_single_cdar_event known x k)
  unfolding Growing Kept process_single_cdar_event
  event-Growing known x k w h =
      let w1 = record w { audit_logs = event_log x.pk k ∷ w.audit_logs } in
      let logged = audit-Growing (event_log x.pk k) w h in
      elim (Option-cases (cdar_status_map k.status_code)) [
        | inl e1 ↦ ground (arith, e1, logged)
        | inr (s, e1) ↦ ground (arith, e1, logged, apply_cdar-Growing x s w1 logged)
      ]

  events-Growing :
      (known : List AuditLog) (events : List CdarEvent) (x : Invoice)
      → Growing (process_events known x events)
  unfolding process_events
  events-Growing known [] x = pure-Growing x
  events-Growing known (k ∷ events) x =
      bind-Growing (process_single_cdar_event known x k) (λ y. process_events known y events)
        (event-Growing known x k) (λ y. events-Growing known events y)

-- An event is in the log after it was processed.
event_logged :
    (known : List AuditLog) (x : Invoice) (k : CdarEvent) (w : World)
    → (is_known x.pk k known ≡ true → is_known x.pk k w.audit_logs ≡ true)
    → is_known x.pk k (process_single_cdar_event known x k w).1.audit_logs ≡ true
unfolding process_single_cdar_event
event_logged known x k w before =
    let w1 = record w { audit_logs = event_log x.pk k ∷ w.audit_logs } in
    let logged : is_known x.pk k w1.audit_logs ≡ true =
      unfold is_known in ground (arith, =ᵗ_iff k.status_code k.status_code, =ᵗ_iff k.at k.at) in
    let applied : (s : Status) → is_known x.pk k (apply_cdar x s w1).1.audit_logs ≡ true =
      λ s. unfold Growing Kept in apply_cdar-Growing x.pk k x s w1 logged in
    elim (Option-cases (cdar_status_map k.status_code)) [
      | inl e1 ↦ ground (arith, e1, logged, before)
      | inr (s, e1) ↦ ground (arith, e1, logged, before, applied s)
    ]

-- a response of known events
module _ (known : List AuditLog) (v : World) where
  known_event :
      (x : Invoice) (k : CdarEvent)
      → is_known x.pk k known ≡ true
      → process_single_cdar_event known x k v ≡ (ok x, v)
  unfolding process_single_cdar_event
  known_event x k h = ground (arith, h)

  All-known :
      (events : List CdarEvent) (x : Invoice)
      → All (λ k. is_known x.pk k known ≡ true) events
      → process_events known x events v ≡ (ok x, v)
  unfolding process_events
  All-known [] x h = refl
  All-known (k ∷ events) x h =
      >>=-ok (process_single_cdar_event known x k) (λ y. process_events known y events) v
        (known_event x k h.0)
      ∙ All-known events x h.1

-- `w` has the entries of `known`
abbrev Includes : List AuditLog → World → Type 0
Includes known w =
    (pk : ℕ) (k : CdarEvent) → is_known pk k known ≡ true → is_known pk k w.audit_logs ≡ true

All-logged :
    (known : List AuditLog) (events : List CdarEvent) (invoice x : Invoice) (w w' : World)
    → Tracks invoice w
    → Includes known w
    → process_events known invoice events w ≡ (ok x, w')
    → All (λ k. is_known invoice.pk k w'.audit_logs ≡ true) events
unfolding process_events
All-logged known [] invoice x w w' t i h = tt
All-logged known (k ∷ events) invoice x w w' t i h =
    let (y, w1, h1, f) = event-Followed known invoice k w t in
    let rest : process_events known y events w1 ≡ (ok x, w') =
      sym (
        >>=-ok (process_single_cdar_event known invoice k) (λ z. process_events known z events) w
          h1)
      ∙ h in
    let at : (process_single_cdar_event known invoice k w).1 ≡ w1 =
      ap (λ (p : Result Invoice × World). p.1) h1 in
    let end : (process_events known y events w1).1 ≡ w' =
      ap (λ (p : Result Invoice × World). p.1) rest in
    let first : is_known invoice.pk k w1.audit_logs ≡ true =
      subst (λ (v : World). is_known invoice.pk k v.audit_logs ≡ true) at
        (event_logged known invoice k w (i invoice.pk k)) in
    let includes : Includes known w1 = λ pk e b.
      subst (λ (v : World). is_known pk e v.audit_logs ≡ true) at
        (unfold Growing Kept in event-Growing pk e known invoice k w (i pk e b)) in
    (
      subst (λ (v : World). is_known invoice.pk k v.audit_logs ≡ true) end
          (unfold Growing Kept in events-Growing invoice.pk k known events y w1 first),
      subst (λ n. All (λ e. is_known n e w'.audit_logs ≡ true) events) f.pk
          (All-logged known events y x w1 w' f.tracks includes rest),
    )

-- When the events that were processed for an invoice are reported again and the audit log of that
-- processing is consulted, the object, the database and all that is sent stay as they are, whatever
-- has happened to them in between.
pub replay_changes_nothing :
    (events : List CdarEvent) (invoice x : Invoice) (w w' later : World)
    → Tracks invoice w
    → process_events w.audit_logs invoice events w ≡ (ok x, w')
    → process_events w'.audit_logs x events later ≡ (ok x, later)
replay_changes_nothing events invoice x w w' later t h =
    let (y, v, h', f) = process_events-Followed w.audit_logs events invoice w t in
    let same : y ≡ x = ok-injective (ap (λ (p : Result Invoice × World). p.0) (sym h' ∙ h)) in
    let pk : x.pk ≡ invoice.pk = ap (λ (i : Invoice). i.pk) (sym same) ∙ f.pk in
    All-known w'.audit_logs later events x (
      subst (λ n. All (λ e. is_known n e w'.audit_logs ≡ true) events) (sym pk)
        (All-logged w.audit_logs events invoice x w w' t (λ n e b. b) h))
