-- ===== src/InvoiceService/Outcomes.antt =====
-- What marking an invoice as paid, cancelling it and the automatic cancellation do.
use factpulse_billing_app_pu.Base.{
  ℕ, ◌≡◌, ◌≢◌, inl, inr, none, sym, ap, subst₂, ◌∙◌, true, ◌&&◌, Option, some, ◌∷◌, arith, ◌==◌,
  if◌then◌else◌, Option-cases, or_else,
}
use factpulse_billing_app_pu.Base.Text.{Text}
use factpulse_billing_app_pu.Base.Date.{Date}
use factpulse_billing_app_pu.Base.Int.{pos}
use factpulse_billing_app_pu.Base.Decimal.{Decimal}
use factpulse_billing_app_pu.Model.{
  Status, source, Invoice, World, submit_cdar_paid, Error, Result, ok, err, Action, ◌>>=◌, lift,
  save, find_invoice, find-put, invoice_key, sync_denormalized_fields, save_lem, save-tasks,
  ok-injective, find-own, save_fields_lem, >>=-eq-ok,
}
use factpulse_billing_app_pu.StateMachine.{validate_transition, can_transition}
use factpulse_billing_app_pu.StateMachine.Guards.{validate_transition_exact}
use factpulse_billing_app_pu.InvoiceService.Lifecycle.{status_change}
use factpulse_billing_app_pu.InvoiceService.Payment.{
  PaymentData, given_amount, paid_on, amount_paid, record_payment, announce_paid, mark_paid,
}
use factpulse_billing_app_pu.InvoiceService.CreditNote.{
  is_auto_cancellable, check_auto_cancel, preceding_of, write_status,
}
use factpulse_billing_app_pu.InvoiceService.Amounts.{
  Gives, GivesNone, IsUnset, given_lem, kept_lem, default_lem,
}

-- A mark_paid that raises has written nothing, where the broker takes its task.
pub mark_paid_failure :
    (invoice : Invoice) (data' : PaymentData) (origin : Text) (w : World) (e : Error)
    → (mark_paid invoice data' origin w).0 ≡ err e
    → (mark_paid invoice data' origin w).1 ≡ w
unfolding mark_paid announce_paid save
mark_paid_failure invoice data' origin w e h = ground arith

preceding_found :
    (credit_note original : Invoice) (w : World)
    → preceding_of credit_note w ≡ some original
    → find_invoice original.pk w ≡ some original
preceding_found credit_note original w h = elim (Option-cases credit_note.preceding_invoice) [
  | inl e ↦ ground arith
  | inr (k, e) ↦ find-own k w (ground arith)
]

-- The automatic cancellation of an invoice goes along a transition of the matrix, and changes no
-- row but that of the preceding invoice, of which it changes the status alone.
pub check_auto_cancel_lem :
    (credit_note original : Invoice) (w : World)
    → preceding_of credit_note w ≡ some original
    → let w' = (check_auto_cancel credit_note w).1 in
      (is_auto_cancellable credit_note original ≡ true
        → can_transition original.status Status.cancelled ≡ true)
      × ((k : ℕ)
          → find_invoice k w' ≡ (
              if is_auto_cancellable credit_note original && (original.pk == k)
              then some (record original { status = Status.cancelled })
              else find_invoice k w))
unfolding check_auto_cancel sync_denormalized_fields
check_auto_cancel_lem credit_note original w h = (
  unfold is_auto_cancellable can_transition in ground arith,
  λ k.
      let object = record original { status = Status.cancelled } in
      let found = preceding_found credit_note original w h in
      ground (
        arith,
        save_fields_lem write_status object w found,
        find-put invoice_key k (write_status (sync_denormalized_fields object) original) w.invoices,
      ),
)

-- What a successful call of `mark_paid` did: `saved` is the object that it returned.
pub record Paid (invoice saved : Invoice) (data' : PaymentData) (w w' : World) : Type 0 where
  pub allowed : can_transition invoice.status Status.paid ≡ true
  pub pk : saved.pk ≡ invoice.pk
  pub status : saved.status ≡ Status.paid
  pub date_given : (d : Date) → data'.payment_date ≡ some d → saved.payment_date ≡ some d
  pub date_kept :
      (d : Date)
      → data'.payment_date ≡ none
      → invoice.payment_date ≡ some d
      → saved.payment_date ≡ some d
  pub date_default :
      data'.payment_date ≡ none → invoice.payment_date ≡ none → saved.payment_date ≡ some w.today
  pub reference_given : (t : Text) → data'.payment_reference ≡ some t → saved.payment_reference ≡ t
  pub reference_kept :
      data'.payment_reference ≡ none → saved.payment_reference ≡ invoice.payment_reference
  pub amount_given : (a : Decimal) → Gives data'.amount a → saved.payment_amount ≡ some a
  pub amount_kept :
      (a : Decimal)
      → GivesNone data'.amount
      → invoice.payment_amount ≡ some a
      → a.coeff ≢ pos 0
      → saved.payment_amount ≡ some a
  pub amount_default :
      GivesNone data'.amount
      → IsUnset invoice.payment_amount
      → saved.payment_amount ≡ invoice.total_incl_tax
  pub rows :
      (k : ℕ) → find_invoice k w' ≡ (if invoice.pk == k then some saved else find_invoice k w)
  pub queued : w'.tasks ≡ submit_cdar_paid invoice.pk ∷ w.tasks

module _ (invoice : Invoice) (data' : PaymentData) (origin : Text) (w : World) where
  -- A payment is logged with its origin.
  pub mark_paid_logged :
      (saved : Invoice) (w' : World)
      → mark_paid invoice data' origin w ≡ (ok saved, w')
      → w'.audit_logs
        ≡ status_change invoice.pk invoice.status Status.paid (source origin) ∷ w.audit_logs
  unfolding mark_paid announce_paid save record_payment sync_denormalized_fields
  mark_paid_logged saved w' h = ground (arith, h)

  save-paid :
      (a : Option Decimal) (x : Invoice) (w1 : World)
      → can_transition invoice.status Status.paid ≡ true
      → given_amount data'.amount ≡ ok a
      → save (record_payment data' a w.today invoice) w ≡ (ok x, w1)
      → Paid invoice x data' w (announce_paid invoice.status origin x w1).1
  unfolding announce_paid record_payment sync_denormalized_fields
  save-paid a x w1 allowed given h =
      let object = record_payment data' a w.today invoice in
      let (is_sync, rows) = save_lem object w (ap (λ (r : Result Invoice × World). r.0) h) in
      let after : (save object w).1 ≡ w1 = ap (λ (r : Result Invoice × World). r.1) h in
      let date : x.payment_date ≡ paid_on data'.payment_date invoice.payment_date w.today =
        ap (λ (i : Invoice). i.payment_date) is_sync in
      let reference : x.payment_reference
          ≡ or_else data'.payment_reference invoice.payment_reference =
        ap (λ (i : Invoice). i.payment_reference) is_sync in
      let amount : x.payment_amount ≡ amount_paid a invoice.payment_amount invoice.total_incl_tax =
        ap (λ (i : Invoice). i.payment_amount) is_sync in
      let pk : x.pk ≡ invoice.pk = ap (λ (i : Invoice). i.pk) is_sync in
      record {
        allowed = allowed;
        pk = pk;
        status = ap (λ (i : Invoice). i.status) is_sync;
        date_given = λ d e. date ∙ ground (arith, e);
        date_kept = λ d e e'. date ∙ ground (arith, e, e');
        date_default = λ e e'. date ∙ ground (arith, e, e');
        reference_given = λ t e. reference ∙ ground (arith, e);
        reference_kept = λ e. reference ∙ ground (arith, e);
        amount_given = λ b g. amount ∙ ground (arith, given_lem data'.amount b a g given);
        amount_kept = λ b g e nonzero.
            amount
            ∙ kept_lem data'.amount a b invoice.payment_amount invoice.total_incl_tax g given e
                nonzero;
        amount_default = λ g unset.
            amount
            ∙ default_lem data'.amount a invoice.payment_amount invoice.total_incl_tax g given
                unset;
        rows = λ k.
            ap (find_invoice k) (sym after)
            ∙ (rows k ∙ ap (λ j. if j == k then some x else find_invoice k w) pk);
        queued = cc (pk, ap (λ (v : World). v.tasks) after, save-tasks object w);
      }

  -- A payment is recorded only along an allowed transition; date and reference are those of the
  -- data, else those that stood there, and the date else today; the amount is that of the data, a
  -- number other than 0 or a numeral, and where they give none, the one that stood there if it is
  -- not 0, else the gross total; no other row changes, and the report of the payment is queued.
  pub mark_paid_success :
      (saved : Invoice) (w' : World)
      → mark_paid invoice data' origin w ≡ (ok saved, w')
      → Paid invoice saved data' w w'
  unfolding mark_paid
  mark_paid_success saved w' h =
      let announce = announce_paid invoice.status origin in
      let pay : Option Decimal → Action Invoice =
        λ a. save (record_payment data' a w.today invoice) >>= announce in
      let checked = validate_transition invoice Status.paid in
      let given = given_amount data'.amount in
      let (u, w0, e0, rest) = >>=-eq-ok (lift checked) (λ _. lift given >>= pay) w h in
      let allowed =
        (validate_transition_exact invoice Status.paid).0.0
          (ap (λ (r : Result (Unit {0}) × World). r.0) e0) in
      let (a, w1, e1, rest') =
        >>=-eq-ok (lift given) pay w
          (ap (lift given >>= pay) (ap (λ (r : Result (Unit {0}) × World). r.1) e0) ∙ rest) in
      let (x, w2, e2, e3) =
        >>=-eq-ok (save (record_payment data' a w.today invoice)) announce w
          (ap (pay a) (ap (λ (r : Result (Option Decimal) × World). r.1) e1) ∙ rest') in
      let done =
        save-paid a x w2 allowed (ap (λ (r : Result (Option Decimal) × World). r.0) e1) e2 in
      unfold announce_paid in
      subst₂ (λ y v. Paid invoice y data' w v)
        (ok-injective (ap (λ (r : Result Invoice × World). r.0) e3))
        (ap (λ (r : Result Invoice × World). r.1) e3) done
