-- ===== src/FactpulseTasks/Fallback/Logged.antt =====
-- The fallback, answer by answer: the status of the row, and the changes in the audit log.
use factpulse_billing_app_pu.Base.{
  ◌≡◌, ◌⊎◌, inl, inr, refl, sym, ap, subst, ◌∙◌, not, ◌||◌, some, ◌∷◌, arith, Bool-cases,
}
use factpulse_billing_app_pu.Base.Text.{codes}
use factpulse_billing_app_pu.Model.{Status, source, Invoice, World, Result, ok, err, find_invoice}
use factpulse_billing_app_pu.StateMachine.{can_transition}
use factpulse_billing_app_pu.InvoiceService.Lifecycle.{status_change}
use factpulse_billing_app_pu.InvoiceService.Payment.{mark_paid, no_payment_data}
use factpulse_billing_app_pu.InvoiceService.Outcomes.{
  mark_paid_failure, mark_paid_success, mark_paid_logged,
}
use factpulse_billing_app_pu.FactpulseTasks.Cdar.{
  maybe_auto_mark_paid, has_payment, unsaved_payment,
}

-- the payment of an invoice that was recorded before: its row and the entry of the log
pub record PaidBefore (invoice : Invoice) (w w' : World) : Type 0 where
  pub row : Invoice
  pub stored : find_invoice invoice.pk w' ≡ some row
  pub status : row.status ≡ Status.paid
  pub logged :
      w'.audit_logs
      ≡ status_change invoice.pk invoice.status Status.paid (source (codes "prepaid_auto"))
        ∷ w.audit_logs

module _ (invoice : Invoice) (w : World) where
  after_mark_paid :
      (p : Result Invoice × World)
      → mark_paid invoice no_payment_data (codes "prepaid_auto") w ≡ p
      → (p.1 ≡ w) ⊎ PaidBefore invoice w p.1
  after_mark_paid (ok x, w') h =
      let paid = mark_paid_success invoice no_payment_data (codes "prepaid_auto") w x w' h in
      inr (record {
        row = x;
        stored = ground (arith, paid.rows invoice.pk);
        status = paid.status;
        logged = mark_paid_logged invoice no_payment_data (codes "prepaid_auto") w x w' h;
      })
  after_mark_paid (err e, w') h = inl (
      ap (λ (p : Result Invoice × World). p.1) (sym h)
      ∙ mark_paid_failure invoice no_payment_data (codes "prepaid_auto") w e
          (ap (λ (p : Result Invoice × World). p.0) h))

  -- an exception is taken, and what was written stays
  caught :
      (p : Result Invoice × World)
      → (elim p.0 as (λ _. Result Invoice × World) [
        | ok paid ↦ (ok paid, p.1)
        | err _ ↦ (ok (unsaved_payment invoice w.today), p.1)
      ]).1
        ≡ p.1
  caught (ok paid, v) = refl
  caught (err e, v) = refl

  pub maybe_auto_mark_paid_lem :
      ((maybe_auto_mark_paid invoice w).1 ≡ w)
      ⊎ PaidBefore invoice w (maybe_auto_mark_paid invoice w).1
  maybe_auto_mark_paid_lem =
      elim (Bool-cases
        (not (has_payment invoice) || not (can_transition invoice.status Status.paid))) [
          | inl e ↦ inl (unfold maybe_auto_mark_paid in rw e refl)
          | inr e ↦
              let run = mark_paid invoice no_payment_data (codes "prepaid_auto") w in
              let end : (maybe_auto_mark_paid invoice w).1 ≡ run.1 =
                unfold maybe_auto_mark_paid in rw e (caught run) in
              subst (λ v. (v ≡ w) ⊎ PaidBefore invoice w v) (sym end) (after_mark_paid run refl)
        ]
