-- ===== src/Resolution/Merge.antt =====
-- `deep_merge` of apps/billing/services/resolution_service.py.
pub mod Lookup
pub mod Steps
pub mod Paths
use factpulse_billing_app_pu.Base.{Option, none, some, if◌then◌else◌}
use factpulse_billing_app_pu.Base.Text.{Text, ◌=ᵗ◌}
use factpulse_billing_app_pu.Base.Json.{
  Json, null, boolean, number, string, array, dict, Fields, field_end, field, lookup,
}

-- `result[key] = value`
unfoldable pub set_field : Text → Json → Fields → Fields
unfolding ◌=ᵗ◌
set_field key value field_end = field key value field_end
set_field key value (field k v rest) =
    if k =ᵗ key then field k value rest else field k v (set_field key value rest)

-- `merge_value value old` is what a key with `old` in the base gets: a dict is merged into a dict, any
-- other value, also an array, replaces what was there.
unfoldable mutual
  unfolding set_field lookup

  pub merge_value : Json → Option Json → Json
  merge_value (dict override) (some (dict base)) = dict (deep_merge base override)
  merge_value (dict override) (some null) = dict override
  merge_value (dict override) (some (boolean b)) = dict override
  merge_value (dict override) (some (number n)) = dict override
  merge_value (dict override) (some (string s)) = dict override
  merge_value (dict override) (some (array xs)) = dict override
  merge_value (dict override) none = dict override
  merge_value null old = null
  merge_value (boolean b) old = boolean b
  merge_value (number n) old = number n
  merge_value (string s) old = string s
  merge_value (array xs) old = array xs

  pub deep_merge : Fields → Fields → Fields
  deep_merge base field_end = base
  deep_merge base (field key value rest) =
      deep_merge (set_field key (merge_value value (lookup key base)) base) rest
