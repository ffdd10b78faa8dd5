-- ===== src/Core/Context/Membership.antt =====
-- Whose organization a request works on.
use factpulse_billing_app_pu.Base.{
  ℕ, ◌≡◌, ◌⊎◌, inl, inr, refl, sym, ap, Bool, true, Option, none, some, List, [], ◌∷◌, arith, ◌==◌,
  Bool-cases, In,
}
use factpulse_billing_app_pu.Base.Text.{Text, truthy}
use factpulse_billing_app_pu.Core.Rows.{
  OrganizationMembership, Answer, returned, raised, get, first, get-Member, first-Member,
}
use factpulse_billing_app_pu.Model.{Organization}
use factpulse_billing_app_pu.Core.Access.{is_membership}
use factpulse_billing_app_pu.Core.Context.{
  WebRequest, organization_of, joined, first_organization, is_named_membership, resolve_from_header,
  from_header, from_session, fall_back, call_middleware, settle, resolve_organization,
  authenticate_jwt,
}

-- The user is a member of the organization.
abbrev pub IsMemberOf : List OrganizationMembership → ℕ → ℕ → Type 0
IsMemberOf memberships user o =
    (m : OrganizationMembership) × In m memberships × (m.user ≡ user) × (m.organization ≡ o)

module _ (memberships : List OrganizationMembership) (user : ℕ) where
  joined-Member :
      (test : OrganizationMembership → Bool)
      → ((m : OrganizationMembership) → test m ≡ true → m.user ≡ user)
      → (r : Answer (Option OrganizationMembership)) → r ≡ get test memberships
      → {o : ℕ} → joined r ≡ returned (some o)
      → IsMemberOf memberships user o
  joined-Member test own (raised e) found h = absurd (cc h)
  joined-Member test own (returned none) found h = absurd (cc h)
  joined-Member test own (returned (some m)) found h =
      let (i, t) = get-Member test memberships (sym found) in (m, i, own m t, cc h)

  first-IsMemberOf :
      {o : ℕ} → first_organization user memberships ≡ some o → IsMemberOf memberships user o
  unfolding first_organization
  first-IsMemberOf {o} h = top (first (λ m. m.user == user) memberships) refl h
    where
      top :
          (r : Option OrganizationMembership)
          → r ≡ first (λ m. m.user == user) memberships
          → organization_of r ≡ some o
          → IsMemberOf memberships user o
      top none found h = absurd (cc h)
      top (some m) found h =
          let (i, t) = first-Member (λ m. m.user == user) memberships (sym found) in
          (m, i, ground (arith, t), cc h)

settled :
    (a b : Answer (Option ℕ)) (c : Option ℕ × Option ℕ) (s : Option ℕ) {o : ℕ} {t : Option ℕ}
    → settle a b c s ≡ returned (some o, t)
    → (a ≡ returned (some o)) ⊎ ((b ≡ returned (some o)) ⊎ (c.0 ≡ some o))
settled (raised e) b c s h = absurd (cc h)
settled (returned (some p)) b c s h = inl (cc h)
settled (returned none) (raised e) c s h = absurd (cc h)
settled (returned none) (returned (some p)) c s h = inr (inl (cc h))
settled (returned none) (returned none) (c, d) s h = inr (inr (cc h))

-- Inversion of the end of an authentication.
answered :
    (r : Answer (Option ℕ)) {user o : ℕ}
    → ◌≡◌ {A = Answer (Option ℕ × Option ℕ)}
        (elim r [ raised e ↦ raised e | returned p ↦ returned (some user, p) ])
        (returned (some user, some o))
    → r ≡ returned (some o)
answered (raised e) h = absurd (cc h)
answered (returned p) h = cc h

module _ (parse_uuid : Text → Option Text) (organizations : List Organization)
    (memberships : List OrganizationMembership) where
  header-IsMemberOf :
      (user : ℕ) (value : Text) {o : ℕ}
      → resolve_from_header parse_uuid organizations memberships user value ≡ returned (some o)
      → IsMemberOf memberships user o
  unfolding resolve_from_header is_named_membership
  header-IsMemberOf user value h =
      joined-Member memberships user (is_named_membership parse_uuid user value organizations)
        (λ m t. ground (arith, t)) _ refl h

  from_header-IsMemberOf :
      (user : ℕ) (x : Option Text) {o : ℕ}
      → from_header parse_uuid organizations memberships user x ≡ returned (some o)
      → IsMemberOf memberships user o
  unfolding from_header
  from_header-IsMemberOf user none h = absurd (cc h)
  from_header-IsMemberOf user (some []) h = absurd (cc h)
  from_header-IsMemberOf user (some (c ∷ value)) h = header-IsMemberOf user (c ∷ value) h

  from_session-IsMemberOf :
      (user : ℕ) (s : Option ℕ) {o : ℕ}
      → from_session parse_uuid organizations memberships user s ≡ returned (some o)
      → IsMemberOf memberships user o
  unfolding from_session
  from_session-IsMemberOf user none h = absurd (cc h)
  from_session-IsMemberOf user (some id) h = elim (Bool-cases (id == 0)) [
    | inl zero_id ↦ absurd (ground (arith, zero_id, h))
    | inr other ↦
        joined-Member memberships user (is_membership user id) (λ m t. ground (arith, t)) _ refl
          (ground (arith, other, h))
  ]

  fall_back-IsMemberOf :
      (user : ℕ) (s : Option ℕ) {o : ℕ}
      → (fall_back parse_uuid organizations memberships user s).0 ≡ some o
      → IsMemberOf memberships user o
  unfolding fall_back
  fall_back-IsMemberOf user s h = first-IsMemberOf memberships user (ground (arith, h))

  middleware_steps :
      (u : Option ℕ) (x : Option Text) (s : Option ℕ) {o : ℕ} {t : Option ℕ}
      → call_middleware parse_uuid organizations memberships
          (record { user = u; x_organization = x; session = s })
        ≡ returned (some o, t)
      → (user : ℕ) × (u ≡ some user) × IsMemberOf memberships user o
  unfolding call_middleware
  middleware_steps none x s h = absurd (cc h)
  middleware_steps (some user) x s h =
      elim (settled _ _ (fall_back parse_uuid organizations memberships user s) s h) [
        | inl a ↦ (user, refl, from_header-IsMemberOf user x a)
        | inr (inl b) ↦ (user, refl, from_session-IsMemberOf user s b)
        | inr (inr c) ↦ (user, refl, fall_back-IsMemberOf user s c)
      ]

  -- Whatever the header and the session say, the organization that the middleware gives a request
  -- is one that its authenticated user is a member of.
  pub organization_is_of_member :
      (request : WebRequest) (o : ℕ) (session : Option ℕ)
      → call_middleware parse_uuid organizations memberships request ≡ returned (some o, session)
      → (user : ℕ) × (request.user ≡ some user) × IsMemberOf memberships user o
  organization_is_of_member request o session h =
      middleware_steps request.user request.x_organization request.session h

  resolved-IsMemberOf :
      (user : ℕ) (x : Option Text) {o : ℕ}
      → resolve_organization parse_uuid organizations memberships user x ≡ returned (some o)
      → IsMemberOf memberships user o
  unfolding resolve_organization
  resolved-IsMemberOf user none h = first-IsMemberOf memberships user (cc h)
  resolved-IsMemberOf user (some []) h = first-IsMemberOf memberships user (cc h)
  resolved-IsMemberOf user (some (c ∷ value)) h = header-IsMemberOf user (c ∷ value) h

  pub token_organization_is_of_member :
      (user : ℕ) (x : Option Text) (o : ℕ)
      → authenticate_jwt parse_uuid organizations memberships (some user) none x
        ≡ returned (some user, some o)
      → IsMemberOf memberships user o
  unfolding authenticate_jwt
  token_organization_is_of_member user x o h = resolved-IsMemberOf user x (answered _ h)

  pub unknown_header :
      (request : WebRequest) (user : ℕ) (value : Text)
      → resolve_from_header parse_uuid organizations memberships user value ≡ returned none
      → truthy value ≡ true
      → (call_middleware parse_uuid organizations memberships
            (record request { user = some user; x_organization = some value })
          ≡ call_middleware parse_uuid organizations memberships
              (record request { user = some user; x_organization = none }))
        × (authenticate_jwt parse_uuid organizations memberships (some user) none (some value)
            ≡ returned (some user, none))
  unknown_header request user value h t = (
    unfold call_middleware in
        ap
          (λ a.
            settle a (from_session parse_uuid organizations memberships user request.session)
              (fall_back parse_uuid organizations memberships user request.session) request.session)
          same,
    unfold authenticate_jwt resolve_organization in ground (arith, h, t),
  )
    where
      same :
          from_header parse_uuid organizations memberships user (some value)
          ≡ from_header parse_uuid organizations memberships user none
      same = unfold from_header in ground (arith, h, t)
