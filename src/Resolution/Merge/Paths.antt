-- ===== src/Resolution/Merge/Paths.antt =====
-- A merge, seen from the paths of keys: the override wins where it has a value, and the base stays
-- where the override has none.
use factpulse_billing_app_pu.Base.{
  ◌≡◌, refl, sym, ap, ◌∙◌, Bool, true, false, Option, none, some, List, [], ◌∷◌,
}
use factpulse_billing_app_pu.Base.Text.{Text}
use factpulse_billing_app_pu.Base.Json.{
  Json, null, boolean, number, string, array, dict, Fields, lookup,
}
use factpulse_billing_app_pu.Resolution.Merge.{merge_value, deep_merge}
use factpulse_billing_app_pu.Resolution.Merge.Lookup.{HasDistinctKeys, AreDistinctKeys}
use factpulse_billing_app_pu.Resolution.Merge.Steps.{
  at_path, reaches, is_dict, below, at_path-dict, reached, reaches-dict, value_distinct,
  fields_distinct, merge_plain, plain_path, merge_over, merge_dicts, below_merge, none_is_some,
  below_wins, below_stays,
}

-- wins
pub merge_value-wins :
    (leaf : Json)
    → is_dict leaf ≡ false
    → (path : List Text) (v : Json) (old : Option Json) → HasDistinctKeys v
    → at_path path v ≡ some leaf
    → at_path path (merge_value v old) ≡ some leaf
merge_value-wins leaf plain [] v old d h =
    unfold at_path in
    ap some (
      merge_plain v old (ap is_dict (same (unfold at_path in h)) ∙ plain)
      ∙ same (unfold at_path in h))
  where
    same : ◌≡◌ {A = Option Json} (some v) (some leaf) → v ≡ leaf
    same e = cc e
merge_value-wins leaf plain (k ∷ path) (dict o) (some (dict b)) d h =
    below_merge k path b o (fields_distinct o d)
    ∙ below_wins leaf path (lookup k o) (lookup k b)
        (λ v found.
          merge_value-wins leaf plain path v (lookup k b)
            (value_distinct k o (fields_distinct o d) found))
        (sym (at_path-dict k path o) ∙ h)
merge_value-wins leaf plain (k ∷ path) (dict o) none d h =
    ap (at_path (k ∷ path)) (merge_over o none refl) ∙ h
merge_value-wins leaf plain (k ∷ path) (dict o) (some null) d h =
    ap (at_path (k ∷ path)) (merge_over o (some null) refl) ∙ h
merge_value-wins leaf plain (k ∷ path) (dict o) (some (boolean b)) d h =
    ap (at_path (k ∷ path)) (merge_over o (some (boolean b)) refl) ∙ h
merge_value-wins leaf plain (k ∷ path) (dict o) (some (number n)) d h =
    ap (at_path (k ∷ path)) (merge_over o (some (number n)) refl) ∙ h
merge_value-wins leaf plain (k ∷ path) (dict o) (some (string s)) d h =
    ap (at_path (k ∷ path)) (merge_over o (some (string s)) refl) ∙ h
merge_value-wins leaf plain (k ∷ path) (dict o) (some (array xs)) d h =
    ap (at_path (k ∷ path)) (merge_over o (some (array xs)) refl) ∙ h
merge_value-wins leaf plain (k ∷ path) null old d h =
    absurd (none_is_some (sym (plain_path k path null refl).0 ∙ h))
merge_value-wins leaf plain (k ∷ path) (boolean b) old d h =
    absurd (none_is_some (sym (plain_path k path (boolean b) refl).0 ∙ h))
merge_value-wins leaf plain (k ∷ path) (number n) old d h =
    absurd (none_is_some (sym (plain_path k path (number n) refl).0 ∙ h))
merge_value-wins leaf plain (k ∷ path) (string s) old d h =
    absurd (none_is_some (sym (plain_path k path (string s) refl).0 ∙ h))
merge_value-wins leaf plain (k ∷ path) (array xs) old d h =
    absurd (none_is_some (sym (plain_path k path (array xs) refl).0 ∙ h))

true_is_false : ◌≡◌ {A = Bool} true false → ⊥
true_is_false h = cc h

unreached :
    (path : List Text) (r : Option Json)
    → ((v : Json) → r ≡ some v → reaches path v ≡ false → at_path path v ≡ none)
    → reached path r ≡ false
    → below path r ≡ none
unreached path none ih h = refl
unreached path (some v) ih h = ih v refl h

-- Where the override has nothing at a path, it has no value there.
unreached-at_path : (path : List Text) (v : Json) → reaches path v ≡ false → at_path path v ≡ none
unreached-at_path [] v h = absurd (true_is_false (unfold reaches in h))
unreached-at_path (k ∷ path) (dict o) h =
    at_path-dict k path o
    ∙ unreached path (lookup k o) (λ v found. unreached-at_path path v)
        (sym (reaches-dict k path o) ∙ h)
unreached-at_path (k ∷ path) null h = (plain_path k path null refl).0
unreached-at_path (k ∷ path) (boolean b) h = (plain_path k path (boolean b) refl).0
unreached-at_path (k ∷ path) (number n) h = (plain_path k path (number n) refl).0
unreached-at_path (k ∷ path) (string s) h = (plain_path k path (string s) refl).0
unreached-at_path (k ∷ path) (array xs) h = (plain_path k path (array xs) refl).0

-- stays
pub merge_value-stays :
    (path : List Text) (v : Json) (old : Option Json)
    → HasDistinctKeys v
    → reaches path v ≡ false
    → at_path path (merge_value v old) ≡ below path old
merge_value-stays [] v old d h = absurd (true_is_false (unfold reaches in h))
merge_value-stays (k ∷ path) (dict o) (some (dict b)) d h =
    below_merge k path b o (fields_distinct o d)
    ∙ (below_stays path (lookup k o) (lookup k b)
          (λ v found.
            merge_value-stays path v (lookup k b) (value_distinct k o (fields_distinct o d) found))
          (sym (reaches-dict k path o) ∙ h)
        ∙ sym (at_path-dict k path b))
merge_value-stays (k ∷ path) (dict o) none d h =
    ap (at_path (k ∷ path)) (merge_over o none refl) ∙ unreached-at_path (k ∷ path) (dict o) h
merge_value-stays (k ∷ path) (dict o) (some null) d h =
    ap (at_path (k ∷ path)) (merge_over o (some null) refl)
    ∙ (unreached-at_path (k ∷ path) (dict o) h ∙ sym (plain_path k path null refl).0)
merge_value-stays (k ∷ path) (dict o) (some (boolean b)) d h =
    ap (at_path (k ∷ path)) (merge_over o (some (boolean b)) refl)
    ∙ (unreached-at_path (k ∷ path) (dict o) h ∙ sym (plain_path k path (boolean b) refl).0)
merge_value-stays (k ∷ path) (dict o) (some (number n)) d h =
    ap (at_path (k ∷ path)) (merge_over o (some (number n)) refl)
    ∙ (unreached-at_path (k ∷ path) (dict o) h ∙ sym (plain_path k path (number n) refl).0)
merge_value-stays (k ∷ path) (dict o) (some (string s)) d h =
    ap (at_path (k ∷ path)) (merge_over o (some (string s)) refl)
    ∙ (unreached-at_path (k ∷ path) (dict o) h ∙ sym (plain_path k path (string s) refl).0)
merge_value-stays (k ∷ path) (dict o) (some (array xs)) d h =
    ap (at_path (k ∷ path)) (merge_over o (some (array xs)) refl)
    ∙ (unreached-at_path (k ∷ path) (dict o) h ∙ sym (plain_path k path (array xs) refl).0)
merge_value-stays (k ∷ path) null old d h =
    absurd (true_is_false (sym (plain_path k path null refl).1 ∙ h))
merge_value-stays (k ∷ path) (boolean b) old d h =
    absurd (true_is_false (sym (plain_path k path (boolean b) refl).1 ∙ h))
merge_value-stays (k ∷ path) (number n) old d h =
    absurd (true_is_false (sym (plain_path k path (number n) refl).1 ∙ h))
merge_value-stays (k ∷ path) (string s) old d h =
    absurd (true_is_false (sym (plain_path k path (string s) refl).1 ∙ h))
merge_value-stays (k ∷ path) (array xs) old d h =
    absurd (true_is_false (sym (plain_path k path (array xs) refl).1 ∙ h))

-- Where the keys of an override are distinct and it has a value that is no dict at some path of
-- keys, deep_merge has that value at that path, whatever the base.
pub deep_merge_wins :
    (path : List Text) (base override : Fields) (leaf : Json)
    → AreDistinctKeys override
    → is_dict leaf ≡ false
    → at_path path (dict override) ≡ some leaf
    → at_path path (dict (deep_merge base override)) ≡ some leaf
deep_merge_wins path base override leaf d plain h =
    ap (at_path path) (sym (merge_dicts base override))
    ∙ merge_value-wins leaf plain path (dict override) (some (dict base))
        (unfold HasDistinctKeys in d) h

-- Where the keys of an override are distinct and it reaches neither a path of keys nor a value
-- above it that is no dict, deep_merge has at that path what the base has.
pub deep_merge_keeps :
    (path : List Text) (base override : Fields)
    → AreDistinctKeys override
    → reaches path (dict override) ≡ false
    → at_path path (dict (deep_merge base override)) ≡ at_path path (dict base)
deep_merge_keeps path base override d h =
    ap (at_path path) (sym (merge_dicts base override))
    ∙ merge_value-stays path (dict override) (some (dict base)) (unfold HasDistinctKeys in d) h
