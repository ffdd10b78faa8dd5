-- ===== src/Core/ApiKeys.antt =====
-- API keys: `APIKey.generate` and `APIKey.authenticate` of apps/core/models.py, and the views of
-- apps/core/views.py that list and revoke them.
pub mod Secrets
use factpulse_billing_app_pu.Base.{
  ℕ, ◌+◌, Bool, true, false, not, ◌&&◌, ◌||◌, Option, none, some, List, [], ◌∷◌, ◌++◌, ltb, ◌==◌,
  if◌then◌else◌, length,
}
use factpulse_billing_app_pu.Base.Text.{starts_with, take, Text, codes, ◌=ᵗ◌, truthy}
use factpulse_billing_app_pu.Core.Rows.{ApiKey, Answer, returned, raised, filter, get, update}

-- `APIKey.PREFIX`
abbrev pub key_prefix : Text
key_prefix = codes "fp_"

-- `raw_key[: len(cls.PREFIX) + 8]`
unfoldable pub prefix_of : Text → Text
unfolding take
prefix_of raw_key = take (length key_prefix + 8) raw_key

abbrev pub is_expired : ApiKey → ℕ → Bool
is_expired key now = elim key.expires_at [ none ↦ false | some t ↦ ltb t now ]

abbrev pub used_at : ℕ → ApiKey → ApiKey
used_at now key = record key { last_used_at = some now }

-- what follows the lookup
abbrev pub admit : ℕ → Answer (Option ApiKey) → List ApiKey → Answer (Option (ℕ × ℕ)) × List ApiKey
admit now (raised e) keys = (raised e, keys)
admit now (returned none) keys = (returned none, keys)
admit now (returned (some key)) keys = if is_expired key now then (returned none, keys) else (
  returned (some (key.user, key.organization)),
  update (λ k. k.pk == key.pk) (used_at now) keys,
)

-- SHA-256 is not part of the program: `sha256` is the digest of a text in hexadecimal digits.
module _ (sha256 : Text → Text) where
  -- `secret` is what `secrets.token_hex` draws, `pk` and `uuid` are those of the new row.
  unfoldable pub generate :
      Text → Text → ℕ → Text → ℕ → ℕ → List ApiKey → (ApiKey × Text) × List ApiKey
  unfolding prefix_of
  generate secret uuid pk name user organization keys =
      let raw_key = key_prefix ++ secret in
      let instance_row : ApiKey = record {
        pk = pk;
        uuid = uuid;
        name = name;
        prefix = prefix_of raw_key;
        key_hash = sha256 raw_key;
        user = user;
        organization = organization;
        is_active = true;
        last_used_at = none;
        expires_at = none;
      } in
      ((instance_row, raw_key), keys ++ instance_row ∷ [])

  -- the filter of the lookup: `prefix`, `key_hash` and `is_active=True`
  unfoldable pub matches : Text → ApiKey → Bool
  unfolding prefix_of ◌=ᵗ◌
  matches raw_key key =
      (key.prefix =ᵗ prefix_of raw_key) && (key.key_hash =ᵗ sha256 raw_key) && key.is_active

  -- The result is the user and the organization, or `None`.
  unfoldable pub authenticate : Text → ℕ → List ApiKey → Answer (Option (ℕ × ℕ)) × List ApiKey
  unfolding matches starts_with filter update
  authenticate raw_key now keys =
      if not (truthy raw_key) || not (starts_with raw_key key_prefix)
      then (returned none, keys)
      else admit now (get (matches raw_key) keys) keys

-- `APIKeyListCreateView.get`: the rows it shows
unfoldable pub listed : ℕ → ℕ → List ApiKey → List ApiKey
unfolding filter
listed user organization keys =
    filter (λ k. (k.user == user) && (k.organization == organization)) keys

unfoldable pub is_own : Text → ℕ → ℕ → ApiKey → Bool
unfolding ◌=ᵗ◌
is_own uuid user organization k =
    (k.uuid =ᵗ uuid) && (k.user == user) && (k.organization == organization)

-- `api_key.is_active = False`, saved
unfoldable pub deactivate : ApiKey → List ApiKey → List ApiKey
unfolding update
deactivate key keys = update (λ k. k.pk == key.pk) (λ k. record k { is_active = false }) keys

abbrev pub withdraw : Answer (Option ApiKey) → List ApiKey → Answer ℕ × List ApiKey
withdraw (raised e) keys = (raised e, keys)
withdraw (returned none) keys = (returned 404, keys)
withdraw (returned (some key)) keys = (returned 204, deactivate key keys)

-- `APIKeyRevokeView.delete`: the status of the answer, and the rows after it
unfoldable pub revoke : Text → ℕ → ℕ → List ApiKey → Answer ℕ × List ApiKey
unfolding filter deactivate is_own
revoke uuid user organization keys = withdraw (get (is_own uuid user organization) keys) keys
