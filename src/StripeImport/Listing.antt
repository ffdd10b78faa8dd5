-- ===== src/StripeImport/Listing.antt =====
-- The invoices of Stripe that a catch-up must import, described without the code's own filters.
use factpulse_billing_app_pu.Base.{
  ℕ, ◌≤◌, ◌≡◌, ◌⊎◌, inl, inr, refl, sym, ap, subst, Bool, true, false, ◌&&◌, Option, none, some,
  List, [], ◌∷◌, ◌++◌, arith, ◌==◌, ==_iff, if◌then◌else◌, Bool-cases, any, In, All,
}
use factpulse_billing_app_pu.Base.Text.{Text, codes, ◌=ᵗ◌, =ᵗ_iff}
use factpulse_billing_app_pu.Model.{Invoice}
use factpulse_billing_app_pu.StripeImport.Customers.{is_external}
use factpulse_billing_app_pu.StripeImport.CatchUp.{Listed, recent, finalized, is_imported}

-- the statuses of an invoice that is no draft and not void
abbrev pub IsFinal : Text → Type 0
IsFinal status =
    (status ≡ codes "open") ⊎ ((status ≡ codes "paid") ⊎ (status ≡ codes "uncollectible"))

-- a row of the organization that was imported from the invoice of Stripe
pub record RowOf (organization : ℕ) (id : Text) (rows : List Invoice) : Type 0 where
  pub row : Invoice
  pub stored : In row rows
  pub organization_of : row.organization ≡ organization
  pub external_id : row.external_id ≡ some id

is_external-some : (id : Text) (o : Option Text) → is_external id o ≡ true → o ≡ some id
is_external-some id none h = absurd (cc h)
is_external-some id (some e) h = ap some ((=ᵗ_iff e id).0 h)

RowOf-later :
    (organization : ℕ) (id : Text) (i : Invoice) (rows : List Invoice)
    → RowOf organization id rows
    → RowOf organization id (i ∷ rows)
RowOf-later organization id i rows r = record {
  row = r.row;
  stored = inr r.stored;
  organization_of = r.organization_of;
  external_id = r.external_id;
}

pub is_imported-RowOf :
    (organization : ℕ) (id : Text) (rows : List Invoice)
    → is_imported organization rows id ≡ true
    → RowOf organization id rows
unfolding is_imported
is_imported-RowOf organization id [] h = absurd (cc h)
is_imported-RowOf organization id (i ∷ rows) h =
    elim (Bool-cases (i.organization == organization && is_external id i.external_id)) [
      | inl own ↦ record {
        row = i;
        stored = inl refl;
        organization_of = (==_iff i.organization organization).0 (ground (arith, own));
        external_id = is_external-some id i.external_id (ground (arith, own));
      }
      | inr other ↦
          RowOf-later organization id i rows
            (is_imported-RowOf organization id rows (ground (arith, other, h)))
    ]

abbrev is_final : Text → Bool
is_final status = any (λ s. s =ᵗ status) (codes "open" ∷ codes "paid" ∷ codes "uncollectible" ∷ [])

IsFinal-true : (status : Text) → IsFinal status → is_final status ≡ true
unfolding ◌=ᵗ◌
IsFinal-true status (inl e) = subst (λ s. is_final s ≡ true) (sym e) refl
IsFinal-true status (inr (inl e)) = subst (λ s. is_final s ≡ true) (sym e) refl
IsFinal-true status (inr (inr e)) = subst (λ s. is_final s ≡ true) (sym e) refl

module _ {A : Type 0} where
  recent-cons :
      (threshold : ℕ) (x : Listed A) (ds : List (Listed A))
      → threshold ≤ x.created
      → recent threshold (x ∷ ds) ≡ x ∷ recent threshold ds
  unfolding recent
  recent-cons threshold x ds h = ground (arith, h)

  -- A recent document behind recent ones is kept by the limit.
  pub recent-In :
      (threshold : ℕ) (earlier later : List (Listed A)) (d : Listed A)
      → All (λ (x : Listed A). threshold ≤ x.created) earlier
      → threshold ≤ d.created
      → In d (recent threshold (earlier ++ d ∷ later))
  recent-In threshold [] later d all here =
      subst (In d) (sym (recent-cons threshold d later here)) (inl refl)
  recent-In threshold (x ∷ earlier) later d all here =
      subst (In d) (sym (recent-cons threshold x (earlier ++ d ∷ later) all.0))
        (inr (recent-In threshold earlier later d all.1 here))

  finalized-cons :
      (x : Listed A) (ds : List (Listed A))
      → (is_final x.status ≡ true → finalized (x ∷ ds) ≡ x ∷ finalized ds)
        × (is_final x.status ≡ false → finalized (x ∷ ds) ≡ finalized ds)
  unfolding finalized
  finalized-cons x ds = (
    ap (λ b. if b then x ∷ finalized ds else finalized ds),
    ap (λ b. if b then x ∷ finalized ds else finalized ds),
  )

  -- An invoice that is final is kept by the filter.
  pub finalized-In :
      (d : Listed A) (ds : List (Listed A)) → IsFinal d.status → In d ds → In d (finalized ds)
  finalized-In d [] final h = absurd h
  finalized-In d (x ∷ ds) final (inl here) =
      let own = IsFinal-true x.status (subst (λ (y : Listed A). IsFinal y.status) here final) in
      subst (In d) (sym ((finalized-cons x ds).0 own)) (inl here)
  finalized-In d (x ∷ ds) final (inr later) =
      let rest = finalized-In d ds final later in
      elim (Bool-cases (is_final x.status)) [
        | inl kept ↦ subst (In d) (sym ((finalized-cons x ds).0 kept)) (inr rest)
        | inr dropped ↦ subst (In d) (sym ((finalized-cons x ds).1 dropped)) rest
      ]

  pub All-In :
      (P : Listed A → Type 0) (d : Listed A) (ds : List (Listed A)) → All P ds → In d ds → P d
  All-In P d [] all h = absurd h
  All-In P d (x ∷ ds) all (inl here) = subst P (sym here) all.0
  All-In P d (x ∷ ds) all (inr later) = All-In P d ds all.1 later
