-- ===== src/InvoiceService/Numbered.antt =====
-- The preparation of a validation: the number, the chain of its steps, and what the guard lets through.
use factpulse_billing_app_pu.Base.{◌+◌, ◌≡◌, sym, subst, ap, ◌∙◌, true, Option, some, arith}
use factpulse_billing_app_pu.Base.Text.{Text, truthy}
use factpulse_billing_app_pu.Base.Date.{Date}
use factpulse_billing_app_pu.Model.{
  Status, Supplier, sync_denormalized_fields, save_lem, save-tasks, >>=-eq-ok, atomic-eq-ok, lift,
  ◌>>=◌, Invoice, World, Error, Result, ok, err, atomic_failure, find_invoice, save,
}
use factpulse_billing_app_pu.StateMachine.{validate_transition}
use factpulse_billing_app_pu.Numbering.{assign_number}
use factpulse_billing_app_pu.Numbering.Gapless.{
  assign_number_lem, prefix_of, sequence_for, taken, truthy-number_text,
}
use factpulse_billing_app_pu.InvoiceService.Lifecycle.{
  prepare, reflect_and_save, save_processing, validation_guard, number_draft, reflect_payment,
  start_processing,
}
use factpulse_billing_app_pu.InvoiceService.Preparation.{
  SameIdentity, reflect_payment-SameIdentity, start_processing-SameIdentity, sync-SameIdentity,
  SameIdentity-trans,
}

module _ (render : Text → Date → Text) (invoice : Invoice) (w : World) where
  pub prepare_failure :
      (e : Error) → (prepare render invoice w).0 ≡ err e → (prepare render invoice w).1 ≡ w
  unfolding prepare
  prepare_failure e h = atomic_failure (number_draft render invoice >>= reflect_and_save) w h

  -- the number is there after the first step, in the object and in its snapshot
  pub number_draft_lem :
      (numbered : Invoice)
      → (number_draft render invoice w).0 ≡ ok numbered
      → (numbered.pk ≡ invoice.pk)
        × (truthy numbered.number ≡ true)
        × (numbered.en16931_data.invoice_number ≡ some numbered.number)
        × (truthy invoice.number ≡ true
            → (numbered.number ≡ invoice.number) × ((number_draft render invoice w).1 ≡ w))
  unfolding number_draft
  number_draft_lem numbered h =
      let named = (assign_number_lem render invoice w).0 in
      let shown =
        truthy-number_text (prefix_of render invoice w) (sequence_for render invoice w).padding
          (taken render invoice w + 1) in
      (
        ground (arith, named),
        ground (arith, named, shown),
        ground (arith, named),
        λ h'. (ground (arith, named), ground (arith, named)),
      )

  pub number_draft-tasks : (number_draft render invoice w).1.tasks ≡ w.tasks
  unfolding number_draft assign_number
  number_draft-tasks = ground arith

-- the chain of a preparation that succeeds
module _ (render : Text → Date → Text) (invoice : Invoice) (w : World) (saved : Invoice) where
  pub record Prepared (w' : World) : Type 0 where
    pub numbered : Invoice
    pub reflected : Invoice
    pub between : World
    pub number_step : number_draft render invoice w ≡ (ok numbered, between)
    pub reflect_step : reflect_payment numbered ≡ ok reflected
    pub save_step : save (start_processing reflected between) between ≡ (ok saved, w')

  pub prepare_success : (w' : World) → prepare render invoice w ≡ (ok saved, w') → Prepared w'
  unfolding prepare reflect_and_save save_processing
  prepare_success w' h =
      let steps = atomic-eq-ok (number_draft render invoice >>= reflect_and_save) w h in
      let (numbered, w1, e1, rest) =
        >>=-eq-ok (number_draft render invoice) reflect_and_save w steps in
      let (reflected, w2, e2, last) =
        >>=-eq-ok (lift (reflect_payment numbered)) save_processing w1 rest in
      record {
        numbered = numbered;
        reflected = reflected;
        between = w1;
        number_step = e1;
        reflect_step = ap (λ (p : Result Invoice × World). p.0) e2;
        save_step =
            subst (λ v. save (start_processing reflected v) v ≡ (ok saved, w'))
              (sym (ap (λ (p : Result Invoice × World). p.1) e2)) last;
      }

  saved-sync :
      {w' : World} (p : Prepared w')
      → saved ≡ sync_denormalized_fields (start_processing p.reflected p.between)
  saved-sync p =
      (save_lem (start_processing p.reflected p.between) p.between
        (ap (λ (r : Result Invoice × World). r.0) p.save_step)).0

  pub same_as_numbered : {w' : World} (p : Prepared w') → SameIdentity p.numbered saved
  same_as_numbered p =
      let started = start_processing p.reflected p.between in
      subst (SameIdentity p.numbered) (sym (saved-sync p)) (
        SameIdentity-trans p.numbered p.reflected (sync_denormalized_fields started)
          (reflect_payment-SameIdentity p.numbered p.reflected p.reflect_step)
          (SameIdentity-trans p.reflected started (sync_denormalized_fields started)
            (start_processing-SameIdentity p.reflected p.between) (sync-SameIdentity started)))

  pub saved_status : {w' : World} → Prepared w' → saved.status ≡ Status.processing
  unfolding sync_denormalized_fields start_processing
  saved_status p = ap (λ (i : Invoice). i.status) (saved-sync p)

  pub saved_row : (w' : World) (p : Prepared w') → find_invoice saved.pk w' ≡ some saved
  saved_row w' p =
      let started = start_processing p.reflected p.between in
      let row =
        (save_lem started p.between (ap (λ (r : Result Invoice × World). r.0) p.save_step)).1
          saved.pk in
      ap (find_invoice saved.pk) (sym (ap (λ (r : Result Invoice × World). r.1) p.save_step))
      ∙ (row ∙ ground arith)

  pub saved_tasks : {w' : World} (p : Prepared w') → w'.tasks ≡ w.tasks
  saved_tasks p =
      ap (λ (r : Result Invoice × World). r.1.tasks) (sym p.save_step)
      ∙ (save-tasks (start_processing p.reflected p.between) p.between
          ∙ (ap (λ (r : Result Invoice × World). r.1.tasks) (sym p.number_step)
              ∙ number_draft-tasks render invoice w))

-- what the guard lets through
pub guard_draft :
    (invoice : Invoice) (s : Option Supplier) {u : Unit {0}}
    → validation_guard invoice s ≡ ok u
    → invoice.status ≡ Status.draft
unfolding validation_guard validate_transition
guard_draft invoice s h = ground arith
