-- ===== src/Core/Slugs/Fresh.antt =====
-- The search for a slug ends, with a slug that no organization has.
use factpulse_billing_app_pu.Base.{
  ℕ, zero, suc, ◌+◌, ◌≤◌, ◌<◌, ◌≡◌, inl, inr, refl, ap, subst, ◌∙◌, true, false, some, List, [],
  ◌∷◌, ◌++◌, map, arith, if◌then◌else◌, Bool-cases, length, length-append,
}
use factpulse_billing_app_pu.Base.Text.{Text, codes, ◌=ᵗ◌, =ᵗ_iff, str_nat, str_nat-injective}
use factpulse_billing_app_pu.Model.{Organization}
use factpulse_billing_app_pu.Core.Slugs.{
  is_taken, numbered, search_slug, slug_of, slug_base, generate_unique_slug,
}

-- the candidates in their order
candidate : Text → ℕ → Text
candidate base zero = base
candidate base (suc k) = numbered base (suc k)

without : Text → List Text → List Text
without slug [] = []
without slug (s ∷ slugs) = let rest = without slug slugs in if s =ᵗ slug then rest else s ∷ rest

length-without : (slug : Text) (slugs : List Text) → length (without slug slugs) ≤ length slugs
unfolding without
length-without slug [] = omega arith
length-without slug (s ∷ slugs) = ground (arith, length-without slug slugs)

-- Without a slug that is in use there are fewer.
length-without_taken :
    (slug : Text) (slugs : List Text)
    → is_taken slug slugs ≡ true
    → length (without slug slugs) < length slugs
unfolding without is_taken
length-without_taken slug [] h = absurd (cc h)
length-without_taken slug (s ∷ slugs) h =
    ground (arith, h, length-without slug slugs, length-without_taken slug slugs)

-- The other slugs stay in use.
is_taken-without :
    (slug other : Text) (slugs : List Text)
    → (slug =ᵗ other) ≡ false
    → is_taken other (without slug slugs) ≡ is_taken other slugs
unfolding without is_taken
is_taken-without slug other [] h = refl
is_taken-without slug other (s ∷ slugs) h = elim (Bool-cases (s =ᵗ slug)) [
  | inl same ↦ ground (arith, same, (=ᵗ_iff s slug).0 same, h, is_taken-without slug other slugs h)
  | inr differs ↦ ground (arith, differs, is_taken-without slug other slugs h)
]

append-cancel : (s t u : Text) → s ++ t ≡ s ++ u → t ≡ u
append-cancel [] t u h = h
append-cancel (c ∷ s) t u h = append-cancel s t u (cc h)

differ : (s t : Text) → (s ≡ t → ⊥) → (s =ᵗ t) ≡ false
differ s t apart = elim (Bool-cases (s =ᵗ t)) [
  | inl same ↦ absurd (apart ((=ᵗ_iff s t).0 same))
  | inr other ↦ other
]

longer : (base t : Text) → base ≡ base ++ codes "-" ++ t → ⊥
longer base t e =
    omega (arith, ap length e ∙ length-append (base ++ codes "-") t, length-append base (codes "-"))

distinct : (base : Text) (j k : ℕ) → j < k → candidate base j ≡ candidate base k → ⊥
unfolding candidate numbered
distinct base zero zero h e = absurd (omega (arith, h))
distinct base zero (suc k) h e = longer base (str_nat (suc k)) e
distinct base (suc j) zero h e = absurd (omega (arith, h))
distinct base (suc j) (suc k) h e = absurd (
    omega (
      arith,
      h,
      str_nat-injective (suc j) (suc k)
          (append-cancel (base ++ codes "-") (str_nat (suc j)) (str_nat (suc k)) e),
    ))

candidates_differ : (base : Text) (j k : ℕ) → j < k → (candidate base j =ᵗ candidate base k) ≡ false
candidates_differ base j k h = differ _ _ (distinct base j k h)

-- the loop on the candidates
search_more :
    (fuel : ℕ) (base slug : Text) (k : ℕ) (slugs : List Text)
    → ((j : ℕ) → k ≤ j → (slug =ᵗ candidate base j) ≡ false)
    → search_slug fuel base (candidate base k) (k + 1) (without slug slugs)
      ≡ search_slug fuel base (candidate base k) (k + 1) slugs
unfolding search_slug candidate
search_more zero base slug k slugs h = refl
search_more (suc fuel) base slug k slugs h = ground (
  arith,
  is_taken-without slug (candidate base k) slugs (h k (omega arith)),
  search_more fuel base slug (suc k) slugs (λ j l. h j (omega (arith, l))),
)

enough :
    (fuel : ℕ) (base : Text) (k : ℕ) (slugs : List Text)
    → length slugs < fuel
    → (s : Text) × (search_slug fuel base (candidate base k) (k + 1) slugs ≡ some s)
unfolding search_slug candidate
enough zero base k slugs h = absurd (omega (arith, h))
enough (suc fuel) base k slugs h = elim (Bool-cases (is_taken (candidate base k) slugs)) [
  | inr free ↦ (candidate base k, ground (arith, free))
  | inl taken ↦
      let later =
        search_more fuel base (candidate base k) (suc k) slugs
          (λ j l. candidates_differ base k j l) in
      let (s, found) =
        enough fuel base (suc k) (without (candidate base k) slugs)
          (omega (arith, h, length-without_taken (candidate base k) slugs taken)) in
      (s, ground (arith, taken, later, found))
]

fresh :
    (fuel : ℕ) (base slug : Text) (k : ℕ) (slugs : List Text) {s : Text}
    → search_slug fuel base slug k slugs ≡ some s
    → is_taken s slugs ≡ false
unfolding search_slug
fresh zero base slug k slugs h = absurd (cc h)
fresh (suc fuel) base slug k slugs h = elim (Bool-cases (is_taken slug slugs)) [
  | inl taken ↦ fresh fuel base (numbered base k) (k + 1) slugs (ground (arith, taken, h))
  | inr free ↦ subst (λ t. is_taken t slugs ≡ false) (ground (arith, free, h)) free
]

-- The search for a slug ends within one round more than there are organizations, with a slug that
-- no organization has.
pub generate_unique_slug_lem :
    (slugify : Text → Text) (name : Text) (organizations : List Organization)
    → (slug : Text) × (generate_unique_slug slugify name organizations ≡ some slug)
      × (is_taken slug (map slug_of organizations) ≡ false)
generate_unique_slug_lem slugify name organizations =
    let base = slug_base (slugify name) in
    let (s, found) =
      enough (suc (length organizations)) base 0 (map slug_of organizations)
        (omega (arith, length-map organizations)) in
    (
      s,
      unfold generate_unique_slug candidate in found,
      unfold candidate in fresh (suc (length organizations)) base _ 1 _ found,
    )
  where
    length-map : (os : List Organization) → length (map slug_of os) ≡ length os
    length-map [] = refl
    length-map (o ∷ os) = ap suc (length-map os)
