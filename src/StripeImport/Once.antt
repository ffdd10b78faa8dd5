-- ===== src/StripeImport/Once.antt =====
-- An invoice of Stripe is imported once, and a catch-up leaves none out.
use factpulse_billing_app_pu.Base.{
  ℕ, ◌≤◌, ◌<◌, ◌≡◌, ◌⊎◌, inl, inr, refl, sym, ap, subst, ◌∙◌, Bool, true, false, Option, none, some,
  List, [], ◌∷◌, arith, ==_iff, or_else,
}
use factpulse_billing_app_pu.Base.Text.{strip, Text, =ᵗ_iff}
use factpulse_billing_app_pu.Base.Date.{Date}
use factpulse_billing_app_pu.Base.Decimal.{Decimal}
use factpulse_billing_app_pu.Model.{
  Status, World, Result, ok, ◌>>=◌, pure, >>=-eq-ok, ok-injective, Invoice, put, invoice_key,
}
use factpulse_billing_app_pu.InvoiceService.Payloads.{Payload, Parties}
use factpulse_billing_app_pu.InvoiceService.Drafts.{create_invoice}
use factpulse_billing_app_pu.InvoiceService.Drafts.Frames.{Same, KeepsInvoices}
use factpulse_billing_app_pu.InvoiceService.Drafts.Updates.{create_invoice_lem}
use factpulse_billing_app_pu.StripeMapper.Invoices.{stripe_invoice_to_payload}
use factpulse_billing_app_pu.StripeImport.Documents.{
  import_new, draft_payload, payload_of, build_stripe_invoice_payload, import_stripe_invoice,
}
use factpulse_billing_app_pu.StripeImport.Customers.{
  StripeDocument, ProviderConfig, CatalogProduct, newest, is_import_of, import_customer,
  link_customer,
}

newest-none :
    {A : Type 0} (test : A → Bool) (a : A) (rows : List A)
    → newest test (a ∷ rows) ≡ none
    → (newest test rows ≡ none) × (test a ≡ false)
unfolding newest
newest-none test a rows h = ground (arith, h)

-- a row that is written where none passed the test is found by it
newest-put :
    (test : Invoice → Bool) (a : Invoice) (rows : List Invoice)
    → newest test rows ≡ none
    → test a ≡ true
    → newest test (put invoice_key a rows) ≡ some a
unfolding newest put
newest-put test a [] h t = ground (arith, t)
newest-put test a (b ∷ rows) h t =
    let (none_later, fails) = newest-none test b rows h in
    ground (arith, none_later, t, newest-put test a rows none_later t)

import_test :
    (organization : ℕ) (id : Text) (row : Invoice)
    → row.organization ≡ organization
    → row.external_id ≡ some id
    → row.deleted ≡ false
    → is_import_of organization id row ≡ true
unfolding is_import_of
import_test organization id row o e d =
    ground (arith, o, e, d, (==_iff row.organization organization).1 o, (=ᵗ_iff id id).1 refl)

-- what the import of a document wrote
pub record Imported (organization : ℕ) (d : StripeDocument) (row : Invoice) (w w' : World)
    : Type 0 where
  pub status : row.status ≡ Status.draft
  pub number : row.number ≡ strip d.invoice.number
  pub organization_of : row.organization ≡ organization
  pub external_id : row.external_id ≡ some d.invoice.id
  pub deleted : row.deleted ≡ false
  pub table : w'.invoices ≡ put invoice_key row w.invoices
  pub key : w.next_pk ≤ row.pk
  pub next_key : row.pk < w'.next_pk

module _ (divide : Decimal → Decimal → Decimal) (products : List CatalogProduct)
    (config : ProviderConfig) (d : StripeDocument) where
  link-Same : (w : World) → Same w (link_customer config.organization d w).1
  unfolding link_customer import_customer
  link-Same w = ground arith

  payload-id :
      (today : Date) (customer : Option ℕ)
      → ((payload_of divide products config d today customer).external_id
          ≡ some (some d.invoice.id))
        × ((payload_of divide products config d today customer).number ≡ d.invoice.number)
  unfolding payload_of draft_payload stripe_invoice_to_payload
  payload-id today none = (refl, refl)
  payload-id today (some pk) = (refl, refl)

  payload_lem :
      (w : World) {payload : Payload} {v : World}
      → build_stripe_invoice_payload divide products config d w ≡ (ok payload, v)
      → Same w v
        × (payload.external_id ≡ some (some d.invoice.id))
        × (payload.number ≡ d.invoice.number)
  unfolding build_stripe_invoice_payload
  payload_lem w {payload} {v} h =
      let (customer, u, e1, e2) =
        >>=-eq-ok (link_customer config.organization d)
          (λ c u. (ok (payload_of divide products config d u.today c), u)) w h in
      let same : Same w u =
        subst (Same w) (ap (λ (p : Result (Option ℕ) × World). p.1) e1) (link-Same w) in
      let made : payload_of divide products config d u.today customer ≡ payload = cc e2 in
      let stays : u ≡ v = ap (λ (p : Result Payload × World). p.1) e2 in
      let ids = payload-id u.today customer in
      (
        subst (Same w) stays same,
        ap (λ (p : Payload). p.external_id) (sym made) ∙ ids.0,
        ap (λ (p : Payload). p.number) (sym made) ∙ ids.1,
      )

module _ (parties : Parties) (keeps : KeepsInvoices parties) (divide : Decimal → Decimal → Decimal)
    (products : List CatalogProduct) (config : ProviderConfig) (d : StripeDocument) where
  made :
      (w : World) {row : Invoice} {b : Bool} {w' : World}
      → import_new parties divide products config d w ≡ (ok (row, b), w')
      → (b ≡ true) × Imported config.organization d row w w'
  unfolding import_new
  made w {row} {b} {w'} h =
      let (payload, v, e1, e2) =
        >>=-eq-ok (build_stripe_invoice_payload divide products config d)
          (λ payload. create_invoice parties config.organization payload >>= λ r. pure (r.0, true))
          w h in
      let (r, v', e3, e4) =
        >>=-eq-ok (create_invoice parties config.organization payload) (λ r. pure (r.0, true)) v
          e2 in
      let (same, id, number) = payload_lem divide products config d w e1 in
      let c = create_invoice_lem parties keeps config.organization payload v e3 in
      let stays : v' ≡ w' = ap (λ (p : Result (Invoice × Bool) × World). p.1) e4 in
      let pair : ◌≡◌ {A = Invoice × Bool} (r.0, true) (row, b) =
        ok-injective (ap (λ (p : Result (Invoice × Bool) × World). p.0) e4) in
      let imported : Imported config.organization d r.0 w v' = record {
        status = c.status;
        number = c.number ∙ ap strip number;
        organization_of = c.organization_of;
        external_id = c.external_id ∙ ap (λ e. or_else e none) id;
        deleted = c.deleted;
        table = c.wrote.table ∙ ap (put invoice_key r.0) same.invoices;
        key = omega (arith, c.key, same.keys);
        next_key = c.next_key;
      } in
      (
        sym (ap (λ (p : Invoice × Bool). p.1) pair),
        subst (λ u. Imported config.organization d row w u) stays
            (subst (λ i. Imported config.organization d i w v')
              (ap (λ (p : Invoice × Bool). p.0) pair) imported),
      )

  -- An import that succeeds either returns the live invoice that has Stripe's identifier, and
  -- changes nothing, or there is none, and a draft with that identifier and with Stripe's number,
  -- stripped, is the one row that is written, under a fresh key.
  pub import_stripe_invoice_lem :
      (w : World) {row : Invoice} {b : Bool} {w' : World}
      → import_stripe_invoice parties divide products config d w ≡ (ok (row, b), w')
      → ((b ≡ false)
          × (newest (is_import_of config.organization d.invoice.id) w.invoices ≡ some row)
          × (w' ≡ w))
        ⊎ ((b ≡ true)
            × (newest (is_import_of config.organization d.invoice.id) w.invoices ≡ none)
            × Imported config.organization d row w w')
  unfolding import_stripe_invoice
  import_stripe_invoice_lem w {row} {b} {w'} h =
      by_row (newest (is_import_of config.organization d.invoice.id) w.invoices) refl
    where
      by_row :
          (o : Option Invoice)
          → newest (is_import_of config.organization d.invoice.id) w.invoices ≡ o
          → ((b ≡ false)
              × (newest (is_import_of config.organization d.invoice.id) w.invoices ≡ some row)
              × (w' ≡ w))
            ⊎ ((b ≡ true)
                × (newest (is_import_of config.organization d.invoice.id) w.invoices ≡ none)
                × Imported config.organization d row w w')
      by_row (some old) e =
          let found : ◌≡◌ {A = Result (Invoice × Bool) × World} (ok (old, false), w)
              (ok (row, b), w') =
            rw (e, import_stripe_invoice) at h in
          inl (cc found, e ∙ cc found, cc found)
      by_row none e =
          let (new, imported) = made w (rw (e, import_stripe_invoice) at h) in
          inr (new, e, imported)

  -- An invoice of Stripe that was imported is not imported again: as long as the rows of the
  -- invoices are those that the import left, another import of it, by an event or by hand, returns
  -- the same draft and changes nothing.
  pub imported_once :
      (again : StripeDocument) (w u : World) {row : Invoice} {b : Bool} {w' : World}
      → import_stripe_invoice parties divide products config d w ≡ (ok (row, b), w')
      → again.invoice.id ≡ d.invoice.id
      → u.invoices ≡ w'.invoices
      → import_stripe_invoice parties divide products config again u ≡ (ok (row, false), u)
  unfolding import_stripe_invoice
  imported_once again w u {row} {b} {w'} h same_id same_rows =
      let test = is_import_of config.organization d.invoice.id in
      let found : newest test w'.invoices ≡ some row = elim (import_stripe_invoice_lem w h) [
        | inl (_, there, stays) ↦ ap (λ (v : World). newest test v.invoices) stays ∙ there
        | inr (_, none_there, i) ↦
            ap (newest test) i.table
            ∙ newest-put test row w.invoices none_there (
                import_test config.organization d.invoice.id row i.organization_of i.external_id
                  i.deleted)
      ] in
      let found_again : newest (is_import_of config.organization again.invoice.id) u.invoices
          ≡ some row =
        ap (λ id. newest (is_import_of config.organization id) u.invoices) same_id
        ∙ ap (newest test) same_rows
        ∙ found in
      rw (found_again, import_stripe_invoice)
