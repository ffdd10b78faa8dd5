-- ===== src/Resolution/Merge/Lookup.antt =====
-- A merge, key by key.
use factpulse_billing_app_pu.Base.{
  ◌≡◌, inl, inr, refl, sym, ap, subst, subst₂, ◌∙◌, true, false, Option, none, some, arith,
  if◌then◌else◌, Bool-cases,
}
use factpulse_billing_app_pu.Base.Text.{Text, ◌=ᵗ◌, =ᵗ_iff}
use factpulse_billing_app_pu.Base.Json.{
  Json, null, boolean, number, string, array, dict, Fields, field_end, field, lookup,
}
use factpulse_billing_app_pu.Resolution.Merge.{set_field, merge_value, deep_merge}

-- The keys of a JSON value are distinct, at every depth.
unfoldable mutual
  unfolding lookup

  pub HasDistinctKeys : Json → Type 0
  HasDistinctKeys (dict fields) = AreDistinctKeys fields
  HasDistinctKeys null = Unit
  HasDistinctKeys (boolean b) = Unit
  HasDistinctKeys (number n) = Unit
  HasDistinctKeys (string s) = Unit
  HasDistinctKeys (array xs) = Unit

  pub AreDistinctKeys : Fields → Type 0
  AreDistinctKeys field_end = Unit
  AreDistinctKeys (field k v rest) =
      (lookup k rest ≡ none) × HasDistinctKeys v × AreDistinctKeys rest

-- Keys that differ are told apart by a third.
=ᵗ_apart : (s t other : Text) → (s =ᵗ t) ≡ false → (t =ᵗ other) ≡ true → (s =ᵗ other) ≡ false
=ᵗ_apart s t other differ same = ap (λ u. s =ᵗ u) (sym ((=ᵗ_iff t other).0 same)) ∙ differ

lookup-set_field :
    (key : Text) (value : Json) (other : Text) (base : Fields)
    → lookup other (set_field key value base)
      ≡ (if key =ᵗ other then some value else lookup other base)
unfolding lookup set_field
lookup-set_field key value other field_end = refl
lookup-set_field key value other (field k v rest) = elim (Bool-cases (k =ᵗ key)) [
  | inl same ↦ ground (arith, same, ap (λ t. t =ᵗ other) ((=ᵗ_iff k key).0 same))
  | inr differ ↦
      ground (arith, differ, =ᵗ_apart k key other differ, lookup-set_field key value other rest)
]

-- the merge at one key
abbrev pub merged_at : Option Json → Option Json → Option Json
merged_at none old = old
merged_at (some v) old = some (merge_value v old)

deep_merge-step :
    (k : Text) (v : Json) (base rest : Fields)
    → deep_merge base (field k v rest)
      ≡ deep_merge (set_field k (merge_value v (lookup k base)) base) rest
unfolding merge_value
deep_merge-step k v base rest = refl

merged_step :
    (key k : Text) (v : Json) (later old new : Option Json)
    → ((k =ᵗ key) ≡ true → (later ≡ none) × (new ≡ some (merge_value v old)))
    → ((k =ᵗ key) ≡ false → new ≡ old)
    → merged_at later new ≡ merged_at (if k =ᵗ key then some v else later) old
merged_step key k v later old new here there = elim (Bool-cases (k =ᵗ key)) [
  | inl same ↦
      let (a, b) = here same in
      subst₂ (λ l n. merged_at l n ≡ merged_at (if k =ᵗ key then some v else l) old) (sym a) (sym b)
        (rw same refl)
  | inr other ↦ rw other (ap (merged_at later) (there other))
]

pub keys_of :
    (k : Text) (v : Json) (rest : Fields)
    → AreDistinctKeys (field k v rest)
    → (lookup k rest ≡ none) × HasDistinctKeys v × AreDistinctKeys rest
unfolding AreDistinctKeys
keys_of k v rest d = d

-- one key of the override
merged_key :
    (key k : Text) (v : Json) (base rest : Fields)
    → lookup k rest ≡ none
    → merged_at (lookup key rest) (lookup key (set_field k (merge_value v (lookup k base)) base))
      ≡ merged_at (lookup key (field k v rest)) (lookup key base)
merged_key key k v base rest d =
    unfold lookup in
    merged_step key k v (lookup key rest) (lookup key base) (lookup key (set_field k new base))
      (λ same. (
        subst (λ t. lookup t rest ≡ none) ((=ᵗ_iff k key).0 same) d,
        lookup-set_field k new key base
            ∙ (ap (λ b. if b then some new else lookup key base) same
                ∙ ap (λ t. some (merge_value v (lookup t base))) ((=ᵗ_iff k key).0 same)),
      ))
      (λ other.
        lookup-set_field k new key base ∙ ap (λ b. if b then some new else lookup key base) other)
  where
    new : Json
    new = merge_value v (lookup k base)

pub lookup-deep_merge :
    (key : Text) (base override : Fields)
    → AreDistinctKeys override
    → lookup key (deep_merge base override) ≡ merged_at (lookup key override) (lookup key base)
lookup-deep_merge key base field_end d = unfold merge_value lookup in refl
lookup-deep_merge key base (field k v rest) d =
    let (first_one, inner, later) = keys_of k v rest d in
    ap (lookup key) (deep_merge-step k v base rest)
    ∙ (lookup-deep_merge key (set_field k (merge_value v (lookup k base)) base) rest later
        ∙ merged_key key k v base rest first_one)
