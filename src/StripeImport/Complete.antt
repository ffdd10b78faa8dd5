-- ===== src/StripeImport/Complete.antt =====
-- A catch-up leaves no finalized invoice of Stripe out.
use factpulse_billing_app_pu.Base.{
  ℕ, ◌+◌, ◌≤◌, ◌<◌, ◌≡◌, ◌⊎◌, inl, inr, refl, sym, ap, subst, ◌∙◌, Bool, true, false, ◌||◌, Option,
  none, some, List, [], ◌∷◌, ◌++◌, arith, if◌then◌else◌, ==_iff, Bool-cases, All, All-append,
}
use factpulse_billing_app_pu.Base.Text.{Text, =ᵗ_iff}
use factpulse_billing_app_pu.Base.Decimal.{Decimal}
use factpulse_billing_app_pu.Model.{
  World, Result, ok, Action, ◌>>=◌, pure, >>=-eq-ok, Invoice, put, invoice_key,
}
use factpulse_billing_app_pu.InvoiceService.Payloads.{Parties}
use factpulse_billing_app_pu.InvoiceService.Drafts.Frames.{KeepsInvoices}
use factpulse_billing_app_pu.StripeImport.Customers.{
  StripeDocument, ProviderConfig, CatalogProduct, newest, is_import_of,
}
use factpulse_billing_app_pu.StripeImport.Documents.{import_stripe_invoice}
use factpulse_billing_app_pu.StripeImport.CatchUp.{
  Listed, recent, finalized, is_imported, unknown, import_each, import_invoices,
}
use factpulse_billing_app_pu.StripeImport.Listing.{
  IsFinal, RowOf, is_imported-RowOf, recent-In, finalized-In, All-In,
}
use factpulse_billing_app_pu.StripeImport.Once.{Imported, import_stripe_invoice_lem}

-- the next key of the table is free
abbrev pub IsFresh : World → Type 0
IsFresh w = All (λ (i : Invoice). i.pk < w.next_pk) w.invoices

put-fresh :
    (a : Invoice) (rows : List Invoice) (n : ℕ)
    → All (λ (i : Invoice). i.pk < n) rows
    → n ≤ a.pk
    → put invoice_key a rows ≡ rows ++ a ∷ []
unfolding put
put-fresh a [] n h k = refl
put-fresh a (b ∷ rows) n h k = ground (arith, h.0, put-fresh a rows n h.1 k)

All-weaken :
    (rows : List Invoice) (m n : ℕ)
    → m ≤ n
    → All (λ (i : Invoice). i.pk < m) rows
    → All (λ (i : Invoice). i.pk < n) rows
All-weaken [] m n le h = tt
All-weaken (b ∷ rows) m n le h = (omega (arith, h.0), All-weaken rows m n le h.1)

known-append :
    (organization : ℕ) (id : Text) (xs ys : List Invoice)
    → is_imported organization (xs ++ ys) id
      ≡ (is_imported organization xs id || is_imported organization ys id)
unfolding is_imported
known-append organization id [] ys = refl
known-append organization id (x ∷ xs) ys = ground (arith, known-append organization id xs ys)

newest-known :
    (organization : ℕ) (id : Text) (rows : List Invoice) {row : Invoice}
    → newest (is_import_of organization id) rows ≡ some row
    → is_imported organization rows id ≡ true
unfolding newest is_import_of is_imported
newest-known organization id [] h = absurd (cc h)
newest-known organization id (b ∷ rows) h =
    by_rest (newest (is_import_of organization id) rows) refl
      (λ c e. newest-known organization id rows {row = c} e)
  where
    by_rest :
        (o : Option Invoice)
        → newest (is_import_of organization id) rows ≡ o
        → ((c : Invoice)
            → newest (is_import_of organization id) rows ≡ some c
            → is_imported organization rows id ≡ true)
        → is_imported organization (b ∷ rows) id ≡ true
    by_rest (some c) e later = ground (arith, later c e)
    by_rest none e later = ground (arith, e, h)

-- every known identifier stays known
abbrev Grows : ℕ → World → World → Type 0
Grows organization w w' =
    (id : Text)
    → is_imported organization w.invoices id ≡ true
    → is_imported organization w'.invoices id ≡ true

module _ (parties : Parties) (keeps : KeepsInvoices parties) (divide : Decimal → Decimal → Decimal)
    (products : List CatalogProduct) (config : ProviderConfig) where
  -- the importer of the catch-up
  abbrev pub import_one : StripeDocument → Action Bool
  import_one d = import_stripe_invoice parties divide products config d >>= λ r. pure r.1

  abbrev Knows : World → Text → Type 0
  Knows w id = is_imported config.organization w.invoices id ≡ true

  abbrev Advances : World → World → Text → Type 0
  Advances w w' id = IsFresh w' × Grows config.organization w w' × Knows w' id

  written-Advances :
      (d : StripeDocument) (row : Invoice) (w w' : World)
      → IsFresh w
      → Imported config.organization d row w w'
      → Advances w w' d.invoice.id
  unfolding is_imported
  written-Advances d row w w' fresh i =
      let table : w'.invoices ≡ w.invoices ++ row ∷ [] =
        i.table ∙ put-fresh row w.invoices w.next_pk fresh i.key in
      let known : (id : Text)
          → is_imported config.organization w'.invoices id ≡ (
              is_imported config.organization w.invoices id
              || is_imported config.organization (row ∷ []) id) =
        λ id.
          ap (λ rows. is_imported config.organization rows id) table
          ∙ known-append config.organization id w.invoices (row ∷ []) in
      (
        subst (All (λ (j : Invoice). j.pk < w'.next_pk)) (sym table) (
            All-append (λ (j : Invoice). j.pk < w'.next_pk) w.invoices (row ∷ [])
              (All-weaken w.invoices w.next_pk w'.next_pk (omega (arith, i.key, i.next_key)) fresh)
              (i.next_key, tt)),
        λ id k. ground (arith, known id, k),
        ground (
          arith,
          known d.invoice.id,
          i.organization_of,
          i.external_id,
          (==_iff row.organization config.organization).1 i.organization_of,
          (=ᵗ_iff d.invoice.id d.invoice.id).1 refl,
        ),
      )

  import_one_lem :
      (d : StripeDocument) (w : World) {b : Bool} {w' : World}
      → IsFresh w
      → import_one d w ≡ (ok b, w')
      → Advances w w' d.invoice.id
  import_one_lem d w {b} {w'} fresh h =
      let (r, v, e1, e2) =
        >>=-eq-ok (import_stripe_invoice parties divide products config d) (λ r. pure r.1) w h in
      let stays : v ≡ w' = ap (λ (p : Result Bool × World). p.1) e2 in
      subst (λ u. Advances w u d.invoice.id) stays
        (outcome d w v r fresh (
          import_stripe_invoice_lem parties keeps divide products config d w {row = r.0} {b = r.1}
            e1))
    where
      outcome :
          (d : StripeDocument) (w v : World) (r : Invoice × Bool)
          → IsFresh w
          → ((r.1 ≡ false)
              × (newest (is_import_of config.organization d.invoice.id) w.invoices ≡ some r.0)
              × (v ≡ w))
            ⊎ ((r.1 ≡ true)
                × (newest (is_import_of config.organization d.invoice.id) w.invoices ≡ none)
                × Imported config.organization d r.0 w v)
          → Advances w v d.invoice.id
      outcome d w v r fresh (inl (_, there, same)) =
          subst (λ u. Advances w u d.invoice.id) (sym same)
            (fresh, λ id k. k, newest-known config.organization d.invoice.id w.invoices there)
      outcome d w v r fresh (inr (_, _, i)) = written-Advances d r.0 w v fresh i

  abbrev Covers : World → List (Listed StripeDocument) → Type 0
  Covers w ds = All (λ (d : Listed StripeDocument). Knows w d.body.invoice.id) ds

  -- The loop ends with every document of the list known.
  import_each_lem :
      (ds : List (Listed StripeDocument)) (imported : ℕ) (w : World) {n : ℕ} {w' : World}
      → IsFresh w
      → import_each import_one ds imported w ≡ (ok n, w')
      → Grows config.organization w w' × Covers w' ds
  unfolding import_each
  import_each_lem [] imported w {n} {w'} fresh h =
      (subst (Grows config.organization w) (ap (λ (p : Result ℕ × World). p.1) h) (λ id k. k), tt)
  import_each_lem (d ∷ ds) imported w {n} {w'} fresh h =
      let (is_new, v, e1, e2) =
        >>=-eq-ok (import_one d.body)
          (λ is_new. import_each import_one ds (if is_new then imported + 1 else imported)) w h in
      let (fresh', grows, known) = import_one_lem d.body w fresh e1 in
      let (grows', covers) =
        import_each_lem ds (if is_new then imported + 1 else imported) v fresh' e2 in
      (λ id k. grows' id (grows id k), (grows' d.body.invoice.id known, covers))

  abbrev invoice_id : StripeDocument → Text
  invoice_id d = d.invoice.id

  All-left :
      (P : Listed StripeDocument → Type 0) (xs ys : List (Listed StripeDocument))
      → All P (xs ++ ys)
      → All P xs × All P ys
  All-left P [] ys h = (tt, h)
  All-left P (x ∷ xs) ys h = let (l, r) = All-left P xs ys h.1 in ((h.0, l), r)

  Covers-all :
      (ds : List (Listed StripeDocument)) (w w' : World)
      → Grows config.organization w w'
      → Covers w' (unknown invoice_id config.organization w.invoices ds)
      → Covers w' ds
  unfolding unknown
  Covers-all [] w w' grows c = tt
  Covers-all (d ∷ ds) w w' grows c =
      let (earlier, own) =
        All-left (λ (d : Listed StripeDocument). Knows w' d.body.invoice.id)
          (unknown invoice_id config.organization w.invoices ds) _ c in
      (
        elim (Bool-cases (is_imported config.organization w.invoices d.body.invoice.id)) [
          | inl old ↦ grows d.body.invoice.id old
          | inr new ↦ (rw new at own).0
        ],
        Covers-all ds w w' grows earlier,
      )

  -- Where the next key of the table is free, a catch-up of the invoices that ends leaves none out:
  -- for every invoice in the list of Stripe that is open, paid or uncollectible and created within
  -- the limit, as all before it in the list, the organization has a row with its identifier.
  pub catch_up_complete :
      (threshold : ℕ) (earlier later : List (Listed StripeDocument)) (d : Listed StripeDocument)
      (w : World) {n : ℕ} {w' : World}
      → IsFresh w
      → All (λ (x : Listed StripeDocument). threshold ≤ x.created) earlier
      → threshold ≤ d.created
      → IsFinal d.status
      → import_invoices invoice_id import_one config.organization threshold (earlier ++ d ∷ later) w
        ≡ (ok n, w')
      → RowOf config.organization d.body.invoice.id w'.invoices
  unfolding import_invoices
  catch_up_complete threshold earlier later d w {n} {w'} fresh all here final h =
      let recent_ones = finalized (recent threshold (earlier ++ d ∷ later)) in
      let (grows, covers) =
        import_each_lem (unknown invoice_id config.organization w.invoices recent_ones) 0 w fresh
          h in
      let listed =
        finalized-In d (recent threshold (earlier ++ d ∷ later)) final
          (recent-In threshold earlier later d all here) in
      is_imported-RowOf config.organization d.body.invoice.id w'.invoices (
        All-In (λ (x : Listed StripeDocument). Knows w' x.body.invoice.id) d recent_ones
          (Covers-all recent_ones w w' grows covers) listed)
