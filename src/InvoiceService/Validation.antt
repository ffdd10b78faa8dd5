-- ===== src/InvoiceService/Validation.antt =====
-- What `validate_invoice` guarantees.
use factpulse_billing_app_pu.Base.{◌≡◌, subst₂, ap, ◌∙◌, ◌⊎◌, true, some, ◌∷◌}
use factpulse_billing_app_pu.Base.Text.{Text, truthy}
use factpulse_billing_app_pu.Base.Date.{Date}
use factpulse_billing_app_pu.Model.{
  Status, ok-injective, >>=-eq-ok, lift, ◌>>=◌, Invoice, World, generate_and_validate, Error,
  Result, ok, err, find_invoice,
}
use factpulse_billing_app_pu.InvoiceService.Lifecycle.{
  validate_invoice, prepare, announce_processing, validation_guard, supplier_of,
}
use factpulse_billing_app_pu.InvoiceService.Numbered.{
  number_draft_lem, prepare_success, same_as_numbered, saved_status, saved_row, saved_tasks,
  guard_draft,
}

-- What a successful validation did: `saved` is the object that it returned, `w'` the database.
pub record Validated (invoice saved : Invoice) (w w' : World) : Type 0 where
  pub was_draft : invoice.status ≡ Status.draft
  pub pk : saved.pk ≡ invoice.pk
  pub status : saved.status ≡ Status.processing
  pub has_number : truthy saved.number ≡ true
  pub shown : saved.en16931_data.invoice_number ≡ some saved.number
  pub kept : truthy invoice.number ≡ true → saved.number ≡ invoice.number
  pub stored : find_invoice saved.pk w' ≡ some saved
  pub queued : w'.tasks ≡ generate_and_validate saved.pk ∷ w.tasks

announced :
    (broker : Result (Unit {0})) (render : Text → Date → Text) (invoice : Invoice) (w : World)
    (x : Invoice) (w1 : World) {y : Invoice} {w' : World}
    → invoice.status ≡ Status.draft
    → prepare render invoice w ≡ (ok x, w1)
    → announce_processing broker invoice.status x w1 ≡ (ok y, w')
    → Validated invoice y w w'
unfolding announce_processing
announced (err e) render invoice w x w1 draft h k =
    absurd (cc (ap (λ (r : Result Invoice × World). r.0) k))
announced (ok _) render invoice w x w1 draft h k =
    let p = prepare_success render invoice w x w1 h in
    let same = same_as_numbered render invoice w x p in
    let (pk, has_number, shown, kept) =
      number_draft_lem render invoice w p.numbered
        (ap (λ (r : Result Invoice × World). r.0) p.number_step) in
    let done : Validated invoice x w (announce_processing (ok tt) invoice.status x w1).1 = record {
      was_draft = draft;
      pk = same.pk ∙ pk;
      status = saved_status render invoice w x p;
      has_number = cc (same.number, has_number);
      shown = cc (same.number, same.shown, shown);
      kept = λ t. same.number ∙ (kept t).0;
      stored = saved_row render invoice w x w1 p;
      queued = ap (λ l. generate_and_validate x.pk ∷ l) (saved_tasks render invoice w x p);
    } in
    subst₂ (λ y v. Validated invoice y w v)
      (ok-injective (ap (λ (r : Result Invoice × World). r.0) k))
      (ap (λ (r : Result Invoice × World). r.1) k) done

-- What a validation leaves whose task the broker does not take.
pub record Stranded (invoice saved : Invoice) (w w' : World) : Type 0 where
  pub was_draft : invoice.status ≡ Status.draft
  pub pk : saved.pk ≡ invoice.pk
  pub status : saved.status ≡ Status.processing
  pub has_number : truthy saved.number ≡ true
  pub stored : find_invoice saved.pk w' ≡ some saved
  pub queue : w'.tasks ≡ w.tasks

-- A validation that succeeds was of a draft; the invoice then has a number, its own if it had one,
-- which its snapshot shows; it is being processed, in the object and in its row, and exactly its
-- generation is queued.
pub validate_invoice_success :
    (broker : Result (Unit {0})) (render : Text → Date → Text) (invoice : Invoice) (w : World)
    (saved : Invoice) (w' : World)
    → validate_invoice render broker invoice w ≡ (ok saved, w')
    → Validated invoice saved w w'
unfolding validate_invoice
validate_invoice_success broker render invoice w saved w' h =
    let guard = validation_guard invoice (supplier_of invoice w) in
    let announce = announce_processing broker invoice.status in
    let (u, w0, e0, rest) = >>=-eq-ok (lift guard) (λ _. prepare render invoice >>= announce) w h in
    let here : (prepare render invoice >>= announce) w ≡ (ok saved, w') =
      ap (prepare render invoice >>= announce) (ap (λ (r : Result (Unit {0}) × World). r.1) e0)
      ∙ rest in
    let (x, w1, e1, e2) = >>=-eq-ok (prepare render invoice) announce w here in
    let draft =
      guard_draft invoice (supplier_of invoice w)
        (ap (λ (r : Result (Unit {0}) × World). r.0) e0) in
    announced broker render invoice w x w1 draft e1 e2

-- How a validation fails: without a trace, or because the broker refuses the task.
abbrev pub IsFailure : Result (Unit {0}) → Invoice → Error → World → World → Type 0
IsFailure broker invoice e w w' =
    (w' ≡ w) ⊎ ((broker ≡ err e) × (saved : Invoice) × Stranded invoice saved w w')
