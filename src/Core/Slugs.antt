-- ===== src/Core/Slugs.antt =====
-- `_generate_unique_slug` of apps/core/services.py. Its loop has fuel: one round more than there are
-- organizations, which is enough.
pub mod Fresh
use factpulse_billing_app_pu.Base.{
  ℕ, zero, suc, ◌+◌, Bool, Option, none, some, List, [], ◌∷◌, ◌++◌, map, if◌then◌else◌, length, any,
}
use factpulse_billing_app_pu.Base.Text.{Text, codes, ◌=ᵗ◌, str_nat}
use factpulse_billing_app_pu.Model.{Organization}

-- `Organization.objects.filter(slug=slug).exists()`, on the slugs in use
unfoldable pub is_taken : Text → List Text → Bool
unfolding ◌=ᵗ◌
is_taken slug slugs = any (λ s. s =ᵗ slug) slugs

-- `f"{base}-{counter}"`
unfoldable pub numbered : Text → ℕ → Text
unfolding str_nat
numbered base counter = base ++ codes "-" ++ str_nat counter

-- the `while` loop; `none` when the fuel is used up
unfoldable pub search_slug : ℕ → Text → Text → ℕ → List Text → Option Text
unfolding is_taken numbered
search_slug zero base slug counter slugs = none
search_slug (suc fuel) base slug counter slugs =
    let rest = search_slug fuel base (numbered base counter) (counter + 1) slugs in
    if is_taken slug slugs then rest else some slug

abbrev pub slug_of : Organization → Text
slug_of o = o.slug

-- `slugify(name) or "org"`; the `slugify` of Django is a parameter
abbrev pub slug_base : Text → Text
slug_base [] = codes "org"
slug_base (c ∷ s) = c ∷ s

unfoldable pub generate_unique_slug : (Text → Text) → Text → List Organization → Option Text
unfolding search_slug
generate_unique_slug slugify name organizations =
    let base = slug_base (slugify name) in
    search_slug (suc (length organizations)) base base 1 (map slug_of organizations)
