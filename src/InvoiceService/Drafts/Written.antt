-- ===== src/InvoiceService/Drafts/Written.antt =====
-- What the creation and the update of a draft write.
use factpulse_billing_app_pu.Base.{
  ◌≤◌, arith, ℕ, ◌≡◌, inl, inr, refl, sym, ap, subst, ◌∙◌, true, false, some, List, ◌∷◌, ◌==◌,
  if◌then◌else◌, Bool-cases, any,
}
use factpulse_billing_app_pu.Model.{
  AuditAction, save_free, any-collides, sync_keys, World, Error, integrity, Result, ok, err, Action,
  ◌>>=◌, ◌>>◌, pure, >>=-ok, ok-injective, Invoice, plain, put, find-put, invoice_key, find_invoice,
  sync_denormalized_fields, collides, save, audit,
}
use factpulse_billing_app_pu.Resolution.Entities.{Warning}
use factpulse_billing_app_pu.InvoiceService.Lifecycle.{log_entry}
use factpulse_billing_app_pu.InvoiceService.Payloads.{save_and_log}

-- One row was written, with one entry of the audit log; nothing is queued and no number taken.
pub record Wrote (action : AuditAction) (row : Invoice) (w w' : World) : Type 0 where
  pub rows : (k : ℕ) → find_invoice k w' ≡ (if row.pk == k then some row else find_invoice k w)
  pub table : w'.invoices ≡ put invoice_key row w.invoices
  pub keys : w.next_pk ≤ w'.next_pk
  pub audit_logs : w'.audit_logs ≡ log_entry row.pk action plain ∷ w.audit_logs
  pub tasks : w'.tasks ≡ w.tasks
  pub counters : w'.counters ≡ w.counters

abbrev with_row : AuditAction → Invoice → World → World
with_row action row w = record w {
  invoices = put invoice_key row w.invoices;
  audit_logs = log_entry row.pk action plain ∷ w.audit_logs;
}

with_row-Wrote :
    (action : AuditAction) (row : Invoice) (w : World) → Wrote action row w (with_row action row w)
with_row-Wrote action row w = record {
  rows = λ k. find-put invoice_key k row w.invoices;
  table = refl;
  keys = omega arith;
  audit_logs = refl;
  tasks = refl;
  counters = refl;
}

pub >>=-err :
    {A B : Type 0} (m : Action A) (f : A → Action B) (w : World) {e : Error} {w' : World}
    → m w ≡ (err e, w')
    → (m >>= f) w ≡ (err e, w')
>>=-err {A} {B} m f w h =
    ap (λ (p : Result A × World). elim p.0 [ ok a ↦ f a p.1 | err e ↦ (err e, p.1) ]) h

module _ (action : AuditAction) (ws : List Warning) (invoice : Invoice) (w : World) where
  abbrev row : Invoice
  row = sync_denormalized_fields invoice

  abbrev log_saved : Invoice → Action (Invoice × List Warning)
  log_saved saved = audit (log_entry saved.pk action plain) >> pure (saved, ws)

  save_taken : any (collides row) w.invoices ≡ true → save invoice w ≡ (err integrity, w)
  unfolding save
  save_taken h = rw h

  saves :
      any (collides row) w.invoices ≡ false
      → save_and_log action ws invoice w ≡ (ok (row, ws), with_row action row w)
  unfolding save_and_log
  saves h =
      >>=-ok (save invoice) log_saved w
        (save_free invoice w (sym (any-collides row invoice w.invoices (sync_keys invoice)) ∙ h))

  refuses :
      any (collides row) w.invoices ≡ true → save_and_log action ws invoice w ≡ (err integrity, w)
  unfolding save_and_log
  refuses h = >>=-err (save invoice) log_saved w (save_taken h)

  -- A row that is saved is that of the object; a refused one leaves the database.
  pub save_and_log_ok :
      {r : Invoice × List Warning} {w' : World}
      → save_and_log action ws invoice w ≡ (ok r, w')
      → (r ≡ (sync_denormalized_fields invoice, ws))
        × Wrote action (sync_denormalized_fields invoice) w w'
  save_and_log_ok {r} {w'} h = elim (Bool-cases (any (collides row) w.invoices)) [
    | inl taken ↦ absurd (cc (sym (refuses taken) ∙ h))
    | inr free ↦ (
      sym (
          ok-injective
            (ap (λ (p : Result (Invoice × List Warning) × World). p.0) (sym (saves free) ∙ h))),
      subst (Wrote action row w)
          (ap (λ (p : Result (Invoice × List Warning) × World). p.1) (sym (saves free) ∙ h))
          (with_row-Wrote action row w),
    )
  ]

  pub save_and_log_err :
      {e : Error}
      → (save_and_log action ws invoice w).0 ≡ err e
      → (save_and_log action ws invoice w).1 ≡ w
  save_and_log_err {e} h = elim (Bool-cases (any (collides row) w.invoices)) [
    | inl taken ↦ ap (λ (p : Result (Invoice × List Warning) × World). p.1) (refuses taken)
    | inr free ↦
        absurd
          (cc (sym (ap (λ (p : Result (Invoice × List Warning) × World). p.0) (saves free)) ∙ h))
  ]
