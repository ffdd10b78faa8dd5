-- ===== src/Resolution/Merge/Steps.antt =====
-- The values at a path of keys, and a merge one step along it.
use factpulse_billing_app_pu.Base.{
  ◌≡◌, refl, ap, subst, ◌∙◌, Bool, true, false, Option, none, some, List, [], ◌∷◌, if◌then◌else◌,
}
use factpulse_billing_app_pu.Base.Text.{Text, ◌=ᵗ◌}
use factpulse_billing_app_pu.Base.Json.{
  Json, null, boolean, number, string, array, dict, Fields, field_end, field, lookup,
}
use factpulse_billing_app_pu.Resolution.Merge.{merge_value, deep_merge}
use factpulse_billing_app_pu.Resolution.Merge.Lookup.{
  HasDistinctKeys, AreDistinctKeys, merged_at, keys_of, lookup-deep_merge,
}

-- the value at a path of keys
unfoldable pub at_path : List Text → Json → Option Json
unfolding lookup
at_path [] j = some j
at_path (k ∷ path) (dict fields) = elim (lookup k fields) [ none ↦ none | some j ↦ at_path path j ]
at_path (k ∷ path) _ = none

-- whether an override reaches a path: it has a value there, or one that is no dict above it
unfoldable pub reaches : List Text → Json → Bool
unfolding lookup
reaches [] j = true
reaches (k ∷ path) (dict fields) = elim (lookup k fields) [ none ↦ false | some j ↦ reaches path j ]
reaches (k ∷ path) _ = true

abbrev pub is_dict : Json → Bool
is_dict (dict _) = true
is_dict _ = false

-- the value below a key
abbrev pub below : List Text → Option Json → Option Json
below path none = none
below path (some j) = at_path path j

pub at_path-dict :
    (k : Text) (path : List Text) (fields : Fields)
    → at_path (k ∷ path) (dict fields) ≡ below path (lookup k fields)
at_path-dict k path fields = unfold at_path in from (lookup k fields)
  where
    from :
        (o : Option Json)
        → ◌≡◌ {A = Option Json} (elim o [ none ↦ none | some j ↦ at_path path j ]) (below path o)
    from none = refl
    from (some j) = refl

abbrev pub reached : List Text → Option Json → Bool
reached path none = false
reached path (some j) = reaches path j

pub reaches-dict :
    (k : Text) (path : List Text) (fields : Fields)
    → reaches (k ∷ path) (dict fields) ≡ reached path (lookup k fields)
reaches-dict k path fields = unfold reaches in from (lookup k fields)
  where
    from :
        (o : Option Json)
        → ◌≡◌ {A = Bool} (elim o [ none ↦ false | some j ↦ reaches path j ]) (reached path o)
    from none = refl
    from (some j) = refl

value_from :
    (k key : Text) (value : Json) (rest : Fields) (b : Bool) {v : Json}
    → HasDistinctKeys value
    → (lookup k rest ≡ some v → HasDistinctKeys v)
    → (if b then some value else lookup k rest) ≡ some v
    → HasDistinctKeys v
value_from k key value rest true d later h = subst HasDistinctKeys (cc h) d
value_from k key value rest false d later h = later h

pub value_distinct :
    (k : Text) (fields : Fields) {v : Json}
    → AreDistinctKeys fields
    → lookup k fields ≡ some v
    → HasDistinctKeys v
unfolding lookup
value_distinct k field_end d h = absurd (cc h)
value_distinct k (field key value rest) d h =
    let (first_one, inner, later) = keys_of key value rest d in
    value_from k key value rest (key =ᵗ k) inner (value_distinct k rest later) h

pub fields_distinct : (fields : Fields) → HasDistinctKeys (dict fields) → AreDistinctKeys fields
unfolding HasDistinctKeys
fields_distinct fields d = d

-- What is no dict replaces what was there.
pub merge_plain : (v : Json) (old : Option Json) → is_dict v ≡ false → merge_value v old ≡ v
unfolding merge_value
merge_plain null old h = refl
merge_plain (boolean b) old h = refl
merge_plain (number n) old h = refl
merge_plain (string s) old h = refl
merge_plain (array xs) old h = refl
merge_plain (dict fields) old h = absurd (cc h)

pub plain_path :
    (k : Text) (path : List Text) (v : Json)
    → is_dict v ≡ false
    → (at_path (k ∷ path) v ≡ none) × (reaches (k ∷ path) v ≡ true)
unfolding at_path reaches
plain_path k path null h = (refl, refl)
plain_path k path (boolean b) h = (refl, refl)
plain_path k path (number n) h = (refl, refl)
plain_path k path (string s) h = (refl, refl)
plain_path k path (array xs) h = (refl, refl)
plain_path k path (dict fields) h = absurd (cc h)

-- a dict over what is no dict
abbrev pub is_dict_in : Option Json → Bool
is_dict_in none = false
is_dict_in (some j) = is_dict j

pub merge_over :
    (fields : Fields) (old : Option Json)
    → is_dict_in old ≡ false
    → merge_value (dict fields) old ≡ dict fields
unfolding merge_value
merge_over fields none h = refl
merge_over fields (some null) h = refl
merge_over fields (some (boolean b)) h = refl
merge_over fields (some (number n)) h = refl
merge_over fields (some (string s)) h = refl
merge_over fields (some (array xs)) h = refl
merge_over fields (some (dict base)) h = absurd (cc h)

pub merge_dicts :
    (base override : Fields)
    → merge_value (dict override) (some (dict base)) ≡ dict (deep_merge base override)
unfolding merge_value
merge_dicts base override = refl

-- the merge of two dicts below a key
pub below_merge :
    (k : Text) (path : List Text) (base override : Fields)
    → AreDistinctKeys override
    → at_path (k ∷ path) (merge_value (dict override) (some (dict base)))
      ≡ below path (merged_at (lookup k override) (lookup k base))
below_merge k path base override d =
    ap (at_path (k ∷ path)) (merge_dicts base override)
    ∙ (at_path-dict k path (deep_merge base override)
        ∙ ap (below path) (lookup-deep_merge k base override d))

pub none_is_some : {A : Type 0} {a : A} → ◌≡◌ {A = Option A} none (some a) → ⊥
none_is_some h = cc h

pub below_wins :
    (leaf : Json) (path : List Text) (r old : Option Json)
    → ((v : Json)
        → r ≡ some v
        → at_path path v ≡ some leaf
        → at_path path (merge_value v old) ≡ some leaf)
    → below path r ≡ some leaf
    → below path (merged_at r old) ≡ some leaf
below_wins leaf path none old ih h = absurd (none_is_some h)
below_wins leaf path (some v) old ih h = ih v refl h

pub below_stays :
    (path : List Text) (r old : Option Json)
    → ((v : Json)
        → r ≡ some v
        → reaches path v ≡ false
        → at_path path (merge_value v old) ≡ below path old)
    → reached path r ≡ false
    → below path (merged_at r old) ≡ below path old
below_stays path none old ih h = refl
below_stays path (some v) old ih h = ih v refl h
