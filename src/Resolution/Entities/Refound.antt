-- ===== src/Resolution/Entities/Refound.antt =====
-- A row that was created is found by the next matching.
use mathlib.Core.Path.{ap₂}
use factpulse_billing_app_pu.Base.{
  ◌≡◌, ◌⊎◌, inl, inr, refl, ap, ◌∙◌, Bool, true, false, Option, none, some, List, [], ◌∷◌, ◌++◌,
  arith, if◌then◌else◌, Bool-cases, any,
}
use factpulse_billing_app_pu.Base.Text.{◌=ᵗ◌, =ᵗ_iff, truthy}
use factpulse_billing_app_pu.Base.Json.{Json, null, boolean, number, string, array, dict}
use factpulse_billing_app_pu.Core.Rows.{
  Answer, returned, raised, filter, one_of, get, filter-none, filter-append, get-append, get-none,
}
use factpulse_billing_app_pu.Resolution.Entities.{
  Entity, ResolutionError, Resolved, resolved, refused, Warning, text_or, optional_text, clashes,
  insert, matched_row,
}

abbrev pub Outcome : Type 0
Outcome = Resolved (Entity × Bool × List Warning) × List Entity

module _ (warnings : Entity → List Warning) (row : Entity) (entities : List Entity) where
  pub created_by :
      (r : Answer (Option Entity)) (otherwise : Outcome) {e : Entity} {ws : List Warning}
      {es : List Entity}
      → ◌≡◌ {A = Outcome} (matched_row warnings r entities otherwise) (resolved (e, true, ws), es)
      → (r ≡ returned none) × ◌≡◌ {A = Outcome} otherwise (resolved (e, true, ws), es)
  created_by (raised x) otherwise h = absurd (cc (ap (λ (p : Outcome). p.0) h))
  created_by (returned none) otherwise h = (refl, h)
  created_by (returned (some f)) otherwise h = absurd (wrong (ap (λ (p : Outcome). p.0) h))
    where
      wrong :
          {a b : Entity} {v w : List Warning}
          → ◌≡◌ {A = Resolved (Entity × Bool × List Warning)}
              (resolved (a, false, v))
              (resolved (b, true, w))
          → ⊥
      wrong k = cc k

  pub inserted :
      {e : Entity} {ws : List Warning} {es : List Entity}
      → insert row entities ≡ (resolved (e, true, ws), es)
      → (row ≡ e) × (entities ++ row ∷ [] ≡ es)
  inserted h = elim (Bool-cases (any (clashes row) entities)) [
    | inl clash ↦ absurd (ground (arith, clash, ap (λ (p : Outcome). p.0) h))
    | inr free ↦ (
      ground (arith, free, ap (λ (p : Outcome). p.0) h),
      ground (arith, free, ap (λ (p : Outcome). p.1) h),
    )
  ]

-- A lookup that found nothing finds the new row, or again nothing.
pub refound :
    (test : Entity → Bool) (row : Entity) (entities : List Entity)
    → get test entities ≡ returned none
    → (get test (entities ++ row ∷ []) ≡ returned (some row))
      ⊎ (get test (entities ++ row ∷ []) ≡ returned none)
refound test row entities h = elim (Bool-cases (test row)) [
  | inl found ↦ inl (get-append test entities row (get-none test entities h) found)
  | inr missed ↦ inr (
      ap one_of (
        filter-append test entities (row ∷ [])
        ∙ ap₂ missing (filter-none test entities (get-none test entities h)) (alone missed)))
]
  where
    missing : List Entity → List Entity → List Entity
    missing a b = a ++ b

    alone : test row ≡ false → filter test (row ∷ []) ≡ []
    alone missed = unfold filter in ground (arith, missed)

pub if_true : {A : Type 0} {b : Bool} (x y : A) → b ≡ true → (if b then x else y) ≡ x
if_true {A} {b} x y h = ap (λ c. if c then x else y) h

pub if_false : {A : Type 0} {b : Bool} (x y : A) → b ≡ false → (if b then x else y) ≡ y
if_false {A} {b} x y h = ap (λ c. if c then x else y) h

pub refused_is_created :
    {x : ResolutionError} {es es' : List Entity} {a : Entity × Bool × List Warning}
    → ◌≡◌ {A = Outcome} (refused x, es) (resolved a, es')
    → ⊥
refused_is_created h = cc (ap (λ (p : Outcome). p.0) h)

false_is_true : ◌≡◌ {A = Bool} false true → ⊥
false_is_true h = cc h

-- A text that is given is the external identifier.
pub given_text :
    (o : Option Json)
    → truthy (text_or o) ≡ true
    → (elim (optional_text o) as (λ _. Bool) [ none ↦ false | some x ↦ x =ᵗ text_or o ]) ≡ true
given_text none t = absurd (false_is_true t)
given_text (some (string s)) t = (=ᵗ_iff s s).1 refl
given_text (some null) t = absurd (false_is_true t)
given_text (some (boolean b)) t = absurd (false_is_true t)
given_text (some (number n)) t = absurd (false_is_true t)
given_text (some (array xs)) t = absurd (false_is_true t)
given_text (some (dict fs)) t = absurd (false_is_true t)
