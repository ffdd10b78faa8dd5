-- ===== src/Core/Access/Ranks.antt =====
-- The order of the roles.
use factpulse_billing_app_pu.Base.{
  ℕ, ◌≡◌, inl, inr, refl, subst₂, Bool, true, false, ◌&&◌, Option, none, some, List, [], ◌∷◌, arith,
  Bool-cases, is_some, any,
}
use factpulse_billing_app_pu.Core.Rows.{Role, OrganizationMembership}
use factpulse_billing_app_pu.Core.Access.{
  Request, is_membership, has_role, has_organization, is_owner, is_member, is_viewer,
  is_customer_access, same_role,
}

any_grows :
    {A : Type 0} (p q : A → Bool) (xs : List A)
    → ((a : A) → p a ≡ true → q a ≡ true)
    → any p xs ≡ true
    → any q xs ≡ true
any_grows p q [] f h = h
any_grows p q (x ∷ xs) f h = ground (arith, h, f x, any_grows p q xs f)

-- A longer list of roles admits more.
grows :
    (o u : Option ℕ) (few more : List Role) (memberships : List OrganizationMembership)
    → ((r : Role) → any (same_role r) few ≡ true → any (same_role r) more ≡ true)
    → has_role (record { organization = o; user = u }) few memberships ≡ true
    → has_role (record { organization = o; user = u }) more memberships ≡ true
unfolding has_role
grows none u few more memberships f h = absurd (cc h)
grows (some o) none few more memberships f h = absurd (cc h)
grows (some o) (some u) few more memberships f h =
    any_grows (λ m. is_membership u o m && any (same_role m.role) few)
      (λ m. is_membership u o m && any (same_role m.role) more) memberships
      (λ m t. ground (arith, t, f m.role)) h

-- the roles that `IsViewer` takes
abbrev staff : List Role
staff = Role.owner ∷ Role.member ∷ Role.viewer ∷ []

-- one membership for a user and an organization: the constraint of the table
abbrev pub OnePerPair : List OrganizationMembership → Type 0
OnePerPair [] = Unit
OnePerPair (m ∷ ms) = (any (is_membership m.user m.organization) ms ≡ false) × OnePerPair ms

-- Who has no membership has none of a role.
none_left :
    (user organization : ℕ) (test : OrganizationMembership → Bool)
    (ms : List OrganizationMembership)
    → any (is_membership user organization) ms ≡ false
    → any (λ m. is_membership user organization m && test m) ms ≡ false
none_left user organization test [] h = refl
none_left user organization test (m ∷ ms) h = ground (arith, h, none_left user organization test ms)

alone :
    (user organization : ℕ) (m : OrganizationMembership) (ms : List OrganizationMembership)
    → is_membership user organization m ≡ true
    → any (is_membership m.user m.organization) ms ≡ false
    → any (is_membership user organization) ms ≡ false
alone user organization m ms own h =
    subst₂ (λ u o. any (is_membership u o) ms ≡ false) (ground (arith, own)) (ground (arith, own)) h

one_role :
    (user organization : ℕ) (ms : List OrganizationMembership)
    → OnePerPair ms
    → any
        (λ m.
          is_membership user organization m && any (same_role m.role) (Role.customer_access ∷ []))
        ms
      ≡ true
    → any (λ m. is_membership user organization m && any (same_role m.role) staff) ms ≡ false
one_role user organization [] unique h = refl
one_role user organization (m ∷ ms) (first_one, rest) h =
    elim (Bool-cases (is_membership user organization m)) [
      | inr other ↦ ground (arith, other, h, one_role user organization ms rest)
      | inl own ↦
          let tail = alone user organization m ms own first_one in
          ground (
            arith,
            own,
            h,
            none_left user organization (λ n. any (same_role n.role) (Role.customer_access ∷ [])) ms
                tail,
            none_left user organization (λ n. any (same_role n.role) staff) ms tail,
          )
    ]

apart :
    (o u : Option ℕ) (memberships : List OrganizationMembership)
    → OnePerPair memberships
    → has_role (record { organization = o; user = u }) (Role.customer_access ∷ []) memberships
      ≡ true
    → has_role (record { organization = o; user = u }) staff memberships ≡ false
unfolding has_role
apart none u memberships unique h = refl
apart (some o) none memberships unique h = refl
apart (some o) (some u) memberships unique h = one_role u o memberships unique h

in_organization :
    (o u : Option ℕ) (roles : List Role) (memberships : List OrganizationMembership)
    → has_role (record { organization = o; user = u }) roles memberships ≡ true
    → is_some o ≡ true
unfolding has_role
in_organization none u roles memberships h = absurd (cc h)
in_organization (some o) u roles memberships h = refl

pub roles_are_ranked :
    (request : Request) (memberships : List OrganizationMembership)
    → (is_owner request memberships ≡ true → is_member request memberships ≡ true)
      × (is_member request memberships ≡ true → is_viewer request memberships ≡ true)
      × (is_viewer request memberships ≡ true → has_organization request memberships ≡ true)
unfolding is_owner is_member is_viewer
roles_are_ranked request memberships = (
  grows request.organization request.user (Role.owner ∷ []) (Role.owner ∷ Role.member ∷ [])
      memberships (λ r t. ground (arith, t)),
  grows request.organization request.user (Role.owner ∷ Role.member ∷ []) staff memberships
      (λ r t. ground (arith, t)),
  λ h. in_organization request.organization request.user staff memberships h,
)

-- Where a user has at most one membership of an organization, a user who passes the check for
-- customers is refused by the check for viewers, so that no customer can pass for staff.
pub customer_is_no_viewer :
    (request : Request) (memberships : List OrganizationMembership)
    → OnePerPair memberships
    → is_customer_access request memberships ≡ true
    → is_viewer request memberships ≡ false
unfolding is_viewer is_customer_access
customer_is_no_viewer request memberships unique h =
    apart request.organization request.user memberships unique h
