-- ===== src/Core/Access.antt =====
-- apps/core/permissions.py: who may do what in an organization.
pub mod Ranks
use factpulse_billing_app_pu.Base.{
  ℕ, Bool, true, false, ◌&&◌, Option, none, some, List, [], ◌∷◌, ◌==◌, is_some, any,
}
use factpulse_billing_app_pu.Core.Rows.{
  Role, OrganizationMembership, Answer, returned, raised, filter, get,
}

-- equality of roles
abbrev pub same_role : Role → Role → Bool
same_role Role.owner Role.owner = true
same_role Role.member Role.member = true
same_role Role.viewer Role.viewer = true
same_role Role.customer_access Role.customer_access = true
same_role _ _ = false

-- `request.organization` and the authenticated `request.user`, by their keys
pub record Request : Type 0 where
  pub organization : Option ℕ
  pub user : Option ℕ

abbrev pub is_membership : ℕ → ℕ → OrganizationMembership → Bool
is_membership user organization m = (m.user == user) && (m.organization == organization)

-- `_has_role`
unfoldable pub has_role : Request → List Role → List OrganizationMembership → Bool
has_role request allowed_roles memberships = elim request.organization [
  | none ↦ false
  | some organization ↦ elim request.user [
    | none ↦ false
    | some user ↦
        any (λ m. is_membership user organization m && any (same_role m.role) allowed_roles)
          memberships
  ]
]

module _ (request : Request) (memberships : List OrganizationMembership) where
  -- `HasOrganization.has_permission`
  abbrev pub has_organization : Bool
  has_organization = is_some request.organization

  -- `IsOwner.has_permission`
  unfoldable pub is_owner : Bool
  unfolding has_role
  is_owner = has_role request (Role.owner ∷ []) memberships

  -- `IsMember.has_permission`
  unfoldable pub is_member : Bool
  unfolding has_role
  is_member = has_role request (Role.owner ∷ Role.member ∷ []) memberships

  -- `IsViewer.has_permission`
  unfoldable pub is_viewer : Bool
  unfolding has_role
  is_viewer = has_role request (Role.owner ∷ Role.member ∷ Role.viewer ∷ []) memberships

  -- `IsCustomerAccess.has_permission`
  unfoldable pub is_customer_access : Bool
  unfolding has_role
  is_customer_access = has_role request (Role.customer_access ∷ []) memberships

-- `IsCustomerAccess.get_customer`, of a request with a user and an organization
unfoldable pub get_customer : ℕ → ℕ → List OrganizationMembership → Answer (Option ℕ)
unfolding filter
get_customer user organization memberships =
    elim (get (λ m. is_membership user organization m && same_role m.role Role.customer_access)
      memberships) [
        | raised e ↦ raised e
        | returned none ↦ returned none
        | returned (some m) ↦ returned m.customer
      ]
