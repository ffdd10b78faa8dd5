-- ===== src/Core/ApiKeys/Secrets.antt =====
-- An API key opens the account it was made for, until it is revoked.
use factpulse_billing_app_pu.Base.{
  ℕ, ◌≡◌, inl, inr, refl, sym, ap, ◌∙◌, Bool, true, false, Option, none, some, List, [], ◌∷◌, ◌++◌,
  arith, ◌==◌, if◌then◌else◌, Bool-cases, any, In,
}
use factpulse_billing_app_pu.Base.Text.{starts_with, Text, ◌=ᵗ◌, =ᵗ_iff}
use factpulse_billing_app_pu.Core.Rows.{
  ApiKey, Answer, returned, raised, get, one_of, update, get-Member, get-only, filter-none,
  get-append, update,
}
use factpulse_billing_app_pu.Core.ApiKeys.{
  key_prefix, prefix_of, is_expired, generate, matches, admit, authenticate, revoke, is_own,
  deactivate, withdraw,
}

pub =ᵗ_self : (s : Text) → (s =ᵗ s) ≡ true
=ᵗ_self s = (=ᵗ_iff s s).1 refl

-- Inversion of an admission.
admitted :
    (now : ℕ) (r : Answer (Option ApiKey)) (keys : List ApiKey) {user organization : ℕ}
    → (admit now r keys).0 ≡ returned (some (user, organization))
    → (key : ApiKey) × (r ≡ returned (some key))
      × (is_expired key now ≡ false)
      × (key.user ≡ user)
      × (key.organization ≡ organization)
admitted now (raised e) keys h = absurd (cc h)
admitted now (returned none) keys h = absurd (cc h)
admitted now (returned (some key)) keys h = elim (Bool-cases (is_expired key now)) [
  | inl late ↦ ground (arith, late, h)
  | inr fresh ↦ (key, refl, fresh, ground (arith, fresh, h), ground (arith, fresh, h))
]

withdrawn :
    (r : Answer (Option ApiKey)) (keys : List ApiKey)
    → (withdraw r keys).0 ≡ returned 204
    → (key : ApiKey) × (r ≡ returned (some key)) × ((withdraw r keys).1 ≡ deactivate key keys)
withdrawn (raised e) keys h = absurd (cc h)
withdrawn (returned none) keys h = absurd (ground (arith, h))
withdrawn (returned (some key)) keys h = (key, refl, refl)

-- A key that is revoked is deactivated.
revoke-deactivate :
    (key : ApiKey) (keys : List ApiKey)
    → In key keys
    → (revoke key.uuid key.user key.organization keys).0 ≡ returned 204
    → (revoke key.uuid key.user key.organization keys).1 ≡ deactivate key keys
revoke-deactivate key keys i h =
    let (k, found, rows) = withdrawn (get test keys) keys (unfold revoke in h) in
    unfold revoke in (rows ∙ ap (λ c. deactivate c keys) (sym (get-only test keys found i own)))
  where
    test : ApiKey → Bool
    test = is_own key.uuid key.user key.organization

    own : test key ≡ true
    own = unfold is_own in ground (arith, =ᵗ_self key.uuid)

module _ (sha256 : Text → Text) where
  presented :
      (raw_key : Text) (now : ℕ) (keys : List ApiKey)
      → starts_with raw_key key_prefix ≡ true
      → authenticate sha256 raw_key now keys ≡ admit now (get (matches sha256 raw_key) keys) keys
  unfolding authenticate starts_with
  presented [] now keys h = absurd (cc h)
  presented (c ∷ s) now keys h = ground (arith, h)

  starts : (secret : Text) → starts_with (key_prefix ++ secret) key_prefix ≡ true
  unfolding starts_with
  starts secret = refl

  -- A new API key opens the account that it was made for: where no active key has its prefix and
  -- digest, the raw key that the creation returns is taken afterwards, at any time, and gives the
  -- user and the organization it was created with.
  pub authenticate-generate :
      (secret uuid name : Text) (pk user organization now : ℕ) (keys : List ApiKey)
      → any (matches sha256 (key_prefix ++ secret)) keys ≡ false
      → let made = generate sha256 secret uuid pk name user organization keys in
        (authenticate sha256 made.0.1 now made.1).0 ≡ returned (some (user, organization))
  unfolding generate
  authenticate-generate secret uuid name pk user organization now keys fresh =
      ap (λ r. r.0) (presented (key_prefix ++ secret) now _ (starts secret))
      ∙ ap (λ r. (admit now r (generate sha256 secret uuid pk name user organization keys).1).0)
          (get-append (matches sha256 (key_prefix ++ secret)) keys _ fresh own)
    where
      own :
          matches sha256
            (key_prefix ++ secret)
            (generate sha256 secret uuid pk name user organization keys).0.0
          ≡ true
      own =
          unfold matches generate in
          ground (
            arith,
            =ᵗ_self (prefix_of (key_prefix ++ secret)),
            =ᵗ_self (sha256 (key_prefix ++ secret)),
          )

  matched :
      (raw_key : Text) (key : ApiKey)
      → matches sha256 raw_key key ≡ true
      → (key.key_hash ≡ sha256 raw_key) × (key.is_active ≡ true)
  unfolding matches
  matched raw_key key h = ground (arith, h, =ᵗ_iff key.key_hash (sha256 raw_key))

  -- safety
  pub authenticate_only :
      (raw_key : Text) (now : ℕ) (keys : List ApiKey) (user organization : ℕ)
      → (authenticate sha256 raw_key now keys).0 ≡ returned (some (user, organization))
      → (key : ApiKey) × In key keys
        × (key.key_hash ≡ sha256 raw_key)
        × (key.is_active ≡ true)
        × (is_expired key now ≡ false)
        × (key.user ≡ user)
        × (key.organization ≡ organization)
        × (starts_with raw_key key_prefix ≡ true)
  authenticate_only raw_key now keys user organization h =
      elim (Bool-cases (starts_with raw_key key_prefix)) [
        | inr other ↦ absurd (unfold authenticate in ground (arith, other, h))
        | inl ours ↦
            let (key, found, fresh, u, o) =
              admitted now (get (matches sha256 raw_key) keys) keys
                (sym (ap (λ r. r.0) (presented raw_key now keys ours)) ∙ h) in
            let (i, t) = get-Member (matches sha256 raw_key) keys found in
            let (hash, active) = matched raw_key key t in (key, i, hash, active, fresh, u, o, ours)
      ]

  inactive :
      (raw_key : Text) (k : ApiKey)
      → matches sha256 raw_key (record k { is_active = false }) ≡ false
  unfolding matches
  inactive raw_key k = ground arith

  -- a row after the key is deactivated, where the row matches only if it is the key's
  deactivated :
      (raw_key : Text) (key k : ApiKey)
      → (matches sha256 raw_key k ≡ true → k ≡ key)
      → matches sha256 raw_key (if k.pk == key.pk then record k { is_active = false } else k)
        ≡ false
  deactivated raw_key key k only = elim (Bool-cases (k.pk == key.pk)) [
    | inl same ↦ rw same (inactive raw_key k)
    | inr other ↦ elim (Bool-cases (matches sha256 raw_key k)) [
      | inl match ↦ absurd (ground (arith, other, ap (λ (a : ApiKey). a.pk) (only match)))
      | inr none_found ↦ rw other none_found
    ]
  ]

  none_matches :
      (raw_key : Text) (key : ApiKey) (keys : List ApiKey)
      → ((k : ApiKey) → In k keys → matches sha256 raw_key k ≡ true → k ≡ key)
      → any (matches sha256 raw_key) (deactivate key keys) ≡ false
  unfolding deactivate update
  none_matches raw_key key [] only = refl
  none_matches raw_key key (k ∷ keys) only = ground (
    arith,
    deactivated raw_key key k (only k (inl refl)),
    none_matches raw_key key keys (λ c i. only c (inr i)),
  )

  -- A key whose revocation is answered with 204 is refused from then on, provided that no other key
  -- answers to the same raw key.
  pub revoked_key_is_refused :
      (raw_key : Text) (now : ℕ) (keys : List ApiKey) (key : ApiKey)
      → In key keys
      → ((k : ApiKey) → In k keys → matches sha256 raw_key k ≡ true → k ≡ key)
      → (revoke key.uuid key.user key.organization keys).0 ≡ returned 204
      → (authenticate sha256 raw_key now (revoke key.uuid key.user key.organization keys).1).0
        ≡ returned none
  revoked_key_is_refused raw_key now keys key i only h =
      elim (Bool-cases (starts_with raw_key key_prefix)) [
        | inr other ↦ unfold authenticate in ground (arith, other)
        | inl ours ↦
            ap (λ r. r.0) (presented raw_key now _ ours)
            ∙ ap (λ r. (admit now (one_of r) (revoke key.uuid key.user key.organization keys).1).0)
                (filter-none (matches sha256 raw_key)
                  (revoke key.uuid key.user key.organization keys).1
                  (ap (any (matches sha256 raw_key)) (revoke-deactivate key keys i h)
                    ∙ none_matches raw_key key keys only))
      ]
