-- ===== src/PaymentEvents/Once.antt =====
-- An event of a provider is handled once, and a confirmed payment pays its invoice.
use factpulse_billing_app_pu.Base.{
  ◌≡◌, ◌≢◌, inl, inr, refl, sym, ap, subst, ◌∙◌, Bool, true, false, Option, none, some, List, [],
  ◌∷◌, ◌++◌, arith, Bool-cases,
}
use factpulse_billing_app_pu.Base.Date.{Date}
use factpulse_billing_app_pu.Base.Int.{pos}
use factpulse_billing_app_pu.Base.Text.{Text, codes, =ᵗ_iff}
use factpulse_billing_app_pu.Model.{
  Status, ◌=ˢ◌, Invoice, World, Error, is_conflict, message_of, transition_not_allowed, Result, ok,
  err, find_invoice, save,
}
use factpulse_billing_app_pu.StateMachine.{can_transition, validate_transition}
use factpulse_billing_app_pu.InvoiceService.Payment.{mark_paid, given_amount, announce_paid}
use factpulse_billing_app_pu.InvoiceService.Outcomes.{Paid, mark_paid_success}
use factpulse_billing_app_pu.PaymentEvents.{
  PaymentTransaction, PaymentEventLog, Payments, document, ProviderEvent, Handler, online_payment,
  pay_invoice, handle_payment_confirmed, handle_payment_failed, is_logged, close_log, process_event,
  process_logged, handle_webhook, unless_conflict, new_log, close_event,
}

is_logged-close :
    (k event_id : Text) (b : Bool) (x : Option Text) (logs : List PaymentEventLog)
    → is_logged k (close_log event_id b x logs) ≡ is_logged k logs
unfolding is_logged close_log
is_logged-close k event_id b x [] = refl
is_logged-close k event_id b x (l ∷ logs) = ground (arith, is_logged-close k event_id b x logs)

module _ (handle_document : ProviderEvent → Handler) (provider : Text) (e : ProviderEvent)
    (about_payment : e.event_type ≢ document) where
  -- the handlers leave the log alone
  logs_kept :
      (p : Payments) → (process_event handle_document provider e p).1.event_logs ≡ p.event_logs
  unfolding process_event handle_payment_confirmed handle_payment_failed pay_invoice
  logs_kept p = ground (arith, about_payment)

  process_logged-keeps :
      (k : Text) (q : Payments)
      → is_logged k (process_logged handle_document provider e q).1.event_logs
        ≡ is_logged k q.event_logs
  unfolding process_logged close_event
  process_logged-keeps k q =
      let closed = λ (b : Bool) (x : Option Text).
        is_logged-close k e.provider_event_id b x
          (process_event handle_document provider e q).1.event_logs in
      let kept : is_logged k (process_event handle_document provider e q).1.event_logs
          ≡ is_logged k q.event_logs =
        ap (is_logged k) (logs_kept q) in
      answered (process_event handle_document provider e q) closed kept
    where
      answered :
          (r : Result (Unit {0}) × Payments)
          → ((b : Bool) (x : Option Text)
              → is_logged k (close_log e.provider_event_id b x r.1.event_logs)
                ≡ is_logged k r.1.event_logs)
          → is_logged k r.1.event_logs ≡ is_logged k q.event_logs
          → is_logged k (close_event e r).1.event_logs ≡ is_logged k q.event_logs
      answered (ok _, p') closed kept = closed true none ∙ kept
      answered (err x, p') closed kept = closed false (some (message_of x)) ∙ kept

  logged_after :
      (p : Payments)
      → is_logged e.provider_event_id (handle_webhook handle_document provider e p).1.event_logs
        ≡ true
  unfolding handle_webhook
  logged_after p = elim (Bool-cases (is_logged e.provider_event_id p.event_logs)) [
    | inl old ↦ ground (arith, old)
    | inr new ↦
        let q = record p { event_logs = new_log provider e ∷ p.event_logs } in
        let here : is_logged e.provider_event_id q.event_logs ≡ true =
          unfold is_logged in ground (arith, =ᵗ_iff e.provider_event_id e.provider_event_id) in
        ground (arith, new, process_logged-keeps e.provider_event_id q, here)
  ]

  -- When an event about a payment was received, also if its processing raised an exception, then
  -- another delivery of the same event is skipped, and changes nothing.
  pub redelivery_skipped :
      (p : Payments) (provider' : Text) (again : ProviderEvent)
      → again.provider_event_id ≡ e.provider_event_id
      → let p' = (handle_webhook handle_document provider e p).1 in
        handle_webhook handle_document provider' again p' ≡ (ok false, p')
  unfolding handle_webhook
  redelivery_skipped p provider' again same =
      redelivered (handle_webhook handle_document provider e p).1 (logged_after p)
    where
      redelivered :
          (p' : Payments)
          → is_logged e.provider_event_id p'.event_logs ≡ true
          → handle_webhook handle_document provider' again p' ≡ (ok false, p')
      redelivered p' h = ground (arith, ap (λ k. is_logged k p'.event_logs) same, h)

-- what the payment of an invoice shows of the transaction
pub record PaidBy (provider : Text) (t : PaymentTransaction) (saved : Invoice) (today : Date)
    : Type 0 where
  pub on : saved.payment_date ≡ some today
  pub reference : saved.payment_reference ≡ provider ++ codes ":" ++ t.provider_payment_id
  pub amount : t.amount.coeff ≢ pos 0 → saved.payment_amount ≡ some t.amount

Paid-PaidBy :
    (provider : Text) (t : PaymentTransaction) (invoice saved : Invoice) (today : Date)
    (w w' : World)
    → Paid invoice saved (online_payment provider t today) w w'
    → PaidBy provider t saved today
Paid-PaidBy provider t invoice saved today w w' paid = record {
  on = paid.date_given today refl;
  reference = paid.reference_given _ refl;
  amount = λ nonzero. paid.amount_given t.amount (refl, nonzero);
}

module _ (provider : Text) (t : PaymentTransaction) (p : Payments) (invoice : Invoice)
    (found : find_invoice t.invoice p.billing ≡ some invoice) where
  abbrev paying : Result Invoice × World
  paying =
      mark_paid invoice (online_payment provider t p.billing.today) (codes "online_payment")
        p.billing

  unpaid_step :
      (invoice.status =ˢ Status.paid) ≡ false → pay_invoice provider t p ≡ unless_conflict p paying
  unfolding pay_invoice
  unpaid_step h = ground (arith, found, h)

  not_payable :
      can_transition invoice.status Status.paid ≡ false → pay_invoice provider t p ≡ (ok tt, p)
  not_payable stuck = elim (Bool-cases (invoice.status =ˢ Status.paid)) [
    | inl paid ↦ unfold pay_invoice in ground (arith, found, paid)
    | inr unpaid ↦
        let refused : paying
            ≡ (err (transition_not_allowed invoice.status Status.paid), p.billing) =
          unfold mark_paid in unfold validate_transition in ground (arith, stuck) in
        unpaid_step unpaid ∙ ap (unless_conflict p) refused
  ]

  no_conflict :
      can_transition invoice.status Status.paid ≡ true
      → (x : Error) → paying.0 ≡ err x
      → is_conflict x ≡ false
  unfolding mark_paid validate_transition given_amount announce_paid save
  no_conflict allowed x h = ground (arith, allowed, h)

  payable :
      can_transition invoice.status Status.paid ≡ true
      → (r : Result Invoice × World) → paying ≡ r
      → (unless_conflict p r).0 ≡ ok tt
      → (saved : Invoice) × Paid invoice saved
          (online_payment provider t p.billing.today)
          p.billing
          (unless_conflict p r).1.billing
  payable allowed (ok saved, w') h done = (
    saved,
    mark_paid_success invoice (online_payment provider t p.billing.today) (codes "online_payment")
        p.billing saved w' h,
  )
  payable allowed (err x, w') h done =
      let calm = no_conflict allowed x (ap (λ (q : Result Invoice × World). q.0) h) in
      absurd (ground (arith, calm, done))

  -- Where the invoice of a confirmed payment cannot become paid, or is paid, nothing happens to it,
  -- and that is no error. Where it can, and the handler succeeds, it was paid today with the
  -- provider and the identifier of the payment as its reference, and with the amount of the
  -- transaction if that is not 0.
  pub confirmed_payment :
      (can_transition invoice.status Status.paid ≡ false → pay_invoice provider t p ≡ (ok tt, p))
      × (can_transition invoice.status Status.paid ≡ true
          → (pay_invoice provider t p).0 ≡ ok tt
          → (saved : Invoice) × PaidBy provider t saved p.billing.today
            × Paid invoice saved
                (online_payment provider t p.billing.today)
                p.billing
                (pay_invoice provider t p).1.billing)
  confirmed_payment = (
    not_payable,
    λ allowed done.
        let step = unpaid_step (unfold can_transition in ground (arith, allowed)) in
        let (saved, paid) =
          payable allowed paying refl
            (ap (λ (r : Result (Unit {0}) × Payments). r.0) (sym step) ∙ done) in
        let billing = ap (λ (r : Result (Unit {0}) × Payments). r.1.billing) (sym step) in
        let here =
          subst (Paid invoice saved (online_payment provider t p.billing.today) p.billing) billing
            paid in
        (saved, Paid-PaidBy provider t invoice saved p.billing.today p.billing _ here, here),
  )
