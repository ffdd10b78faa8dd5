-- ===== src/Core/Context.antt =====
-- The organization of a request: apps/core/middleware.py for sessions, apps/core/authentication.py
-- for JSON web tokens. An organization is given by its key.
pub mod Membership
use factpulse_billing_app_pu.Base.{
  ℕ, Bool, false, ◌&&◌, Option, none, some, List, ◌==◌, if◌then◌else◌,
}
use factpulse_billing_app_pu.Base.Text.{Text, ◌=ᵗ◌, truthy}
use factpulse_billing_app_pu.Core.Rows.{
  OrganizationMembership, Answer, returned, raised, filter, get, first,
}
use factpulse_billing_app_pu.Model.{Organization, find}
use factpulse_billing_app_pu.Core.Access.{is_membership}

abbrev pub organization_key : Organization → ℕ
organization_key o = o.pk

-- what the middleware reads of a request: the authenticated user, the header `X-Organization` and
-- `organization_id` of the session
pub record WebRequest : Type 0 where
  pub user : Option ℕ
  pub x_organization : Option Text
  pub session : Option ℕ

-- `membership.organization`
abbrev pub organization_of : Option OrganizationMembership → Option ℕ
organization_of none = none
organization_of (some m) = some m.organization

-- what follows a lookup of a membership: `DoesNotExist` gives `None`
abbrev pub joined : Answer (Option OrganizationMembership) → Answer (Option ℕ)
joined (raised e) = raised e
joined (returned found) = returned (organization_of found)

-- `.filter(user=user).first()`
unfoldable pub first_organization : ℕ → List OrganizationMembership → Option ℕ
unfolding filter
first_organization user memberships = organization_of (first (λ m. m.user == user) memberships)

-- The first of the three that gives an organization: the header's, the session's, the fallback's. An
-- exception of one that is reached ends the request.
abbrev pub settle :
    Answer (Option ℕ)
    → Answer (Option ℕ)
    → Option ℕ × Option ℕ
    → Option ℕ
    → Answer (Option ℕ × Option ℕ)
settle (raised e) _ _ _ = raised e
settle (returned (some o)) _ _ session = returned (some o, session)
settle (returned none) (raised e) _ _ = raised e
settle (returned none) (returned (some o)) _ session = returned (some o, session)
settle (returned none) (returned none) fallback _ = returned fallback

-- The parser of UUIDs is not part of the program: `none` stands for its `ValueError`.
module _ (parse_uuid : Text → Option Text) where
  -- the lookup by UUID, or else by slug
  unfoldable pub is_named : Text → Organization → Bool
  unfolding ◌=ᵗ◌
  is_named value o = elim (parse_uuid value) [ some u ↦ o.uuid =ᵗ u | none ↦ o.slug =ᵗ value ]

  unfoldable pub is_named_membership : ℕ → Text → List Organization → OrganizationMembership → Bool
  unfolding is_named find
  is_named_membership user value organizations m =
      (m.user == user) && elim (find organization_key m.organization organizations) [
        | none ↦ false
        | some o ↦ is_named value o
      ]

  module _ (organizations : List Organization) (memberships : List OrganizationMembership) where
    -- `_resolve_from_header`
    unfoldable pub resolve_from_header : ℕ → Text → Answer (Option ℕ)
    unfolding is_named_membership filter
    resolve_from_header user value =
        joined (get (is_named_membership user value organizations) memberships)

    -- 1. the header
    unfoldable pub from_header : ℕ → Option Text → Answer (Option ℕ)
    unfolding resolve_from_header
    from_header user none = returned none
    from_header user (some value) =
        if truthy value then resolve_from_header user value else returned none

    -- 2. the session
    unfoldable pub from_session : ℕ → Option ℕ → Answer (Option ℕ)
    unfolding filter
    from_session user none = returned none
    from_session user (some id) =
        if id == 0 then returned none else joined (get (is_membership user id) memberships)

    -- 3. the first membership, which the session then remembers
    unfoldable pub fall_back : ℕ → Option ℕ → Option ℕ × Option ℕ
    unfolding first_organization
    fall_back user session = elim (first_organization user memberships) [
      | none ↦ (none, session)
      | some o ↦ (some o, some o)
    ]

    -- `OrganizationMiddleware.__call__` up to `get_response`: the organization of the request, and
    -- `organization_id` of the session
    unfoldable pub call_middleware : WebRequest → Answer (Option ℕ × Option ℕ)
    unfolding from_header from_session fall_back
    call_middleware request = elim request.user [
      | none ↦ returned (none, request.session)
      | some user ↦
          settle (from_header user request.x_organization) (from_session user request.session)
            (fall_back user request.session) request.session
    ]

    -- `OrganizationJWTAuthentication._resolve_organization`
    unfoldable pub resolve_organization : ℕ → Option Text → Answer (Option ℕ)
    unfolding resolve_from_header first_organization
    resolve_organization user none = returned (first_organization user memberships)
    resolve_organization user (some value) =
        if truthy value
        then resolve_from_header user value
        else returned (first_organization user memberships)

    -- `OrganizationJWTAuthentication.authenticate` of a request whose organization is `present`:
    -- `validated` is the user that the library reads from the token
    unfoldable pub authenticate_jwt :
        Option ℕ → Option ℕ → Option Text → Answer (Option ℕ × Option ℕ)
    unfolding resolve_organization
    authenticate_jwt validated present x_organization = elim validated [
      | none ↦ returned (none, present)
      | some user ↦ elim present [
        | some o ↦ returned (some user, some o)
        | none ↦ elim (resolve_organization user x_organization) [
          | raised e ↦ raised e
          | returned o ↦ returned (some user, o)
        ]
      ]
    ]
