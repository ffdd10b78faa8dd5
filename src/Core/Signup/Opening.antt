-- ===== src/Core/Signup/Opening.antt =====
-- The steps of the creation of an account.
use factpulse_billing_app_pu.Base.{
  ℕ, ◌+◌, ◌≡◌, ◌≢◌, refl, sym, Bool, true, false, not, ◌||◌, Option, none, some, List, map, arith,
  if◌then◌else◌, is_some,
}
use factpulse_billing_app_pu.Base.Text.{Text}
use factpulse_billing_app_pu.Model.{Organization}
use factpulse_billing_app_pu.Core.Rows.{
  Role, User, OrganizationMembership, Accounts, CoreError, no_slug, provisioning_error, Answer,
  returned, raised,
}
use factpulse_billing_app_pu.Core.Slugs.{is_taken, slug_of}
use factpulse_billing_app_pu.Core.Signup.{
  username_of, Provisioning, ClientAnswer, given_uid, refused_call, malformed_answer,
  set_client_uid, provision_factpulse_client, user_error, organization_error, earlier, new_user,
  new_organization, write_account, open_account,
}
use factpulse_billing_app_pu.Core.Signup.Consistency.{map-set_client_uid}

-- the membership of an owner
abbrev pub owner_row : ℕ → ℕ → OrganizationMembership
owner_row user organization = record {
  user = user;
  organization = organization;
  role = Role.owner;
  customer = none;
}

user_free :
    (email : Text) (users : List User)
    → user_error email users ≡ none
    → is_taken email (map username_of users) ≡ false
unfolding user_error
user_free email users h = ground (arith, h)

organization_free :
    (name slug : Text) (os : List Organization)
    → organization_error name slug os ≡ none
    → is_taken slug (map slug_of os) ≡ false
unfolding organization_error
organization_free name slug os h = ground (arith, h)

earlier-none : (a b : Option CoreError) → earlier a b ≡ none → (a ≡ none) × (b ≡ none)
earlier-none none b h = (refl, h)
earlier-none (some e) b h = absurd (cc h)

-- What the transaction returns and leaves.
abbrev pub Opened :
    Text → Text → Text → Text → Accounts → Answer (User × Organization) × Accounts → Type 0
Opened uuid email name slug s (returned (user, org), s') =
    (user ≡ new_user email true s.next_pk)
    × (org ≡ new_organization uuid name slug (s.next_pk + 1))
    × (s' ≡ write_account user org s)
    × (is_taken email (map username_of s.users) ≡ false)
    × (is_taken slug (map slug_of s.organizations) ≡ false)
Opened uuid email name slug s (raised e, s') = (s' ≡ s) × (e ≢ no_slug) × (e ≢ provisioning_error)

earlier_kind :
    (email name slug : Text) (s : Accounts) (e : CoreError)
    → earlier (user_error email s.users) (organization_error name slug s.organizations) ≡ some e
    → (e ≢ no_slug) × (e ≢ provisioning_error)
unfolding user_error organization_error
earlier_kind email name slug s e h = (λ k. ground (arith, h, k), λ k. ground (arith, h, k))

pub open_account_lem :
    (uuid email name slug : Text) (s : Accounts)
    → Opened uuid email name slug s (open_account uuid email name slug s)
unfolding open_account
open_account_lem uuid email name slug s =
    opened (earlier (user_error email s.users) (organization_error name slug s.organizations)) refl
  where
    opened :
        (r : Option CoreError)
        → r ≡ earlier (user_error email s.users) (organization_error name slug s.organizations)
        → Opened uuid email name slug s (elim r [
          | some e ↦ (raised e, s)
          | none ↦ (
            returned
                (new_user email true s.next_pk, new_organization uuid name slug (s.next_pk + 1)),
            write_account
                (new_user email true s.next_pk)
                (new_organization uuid name slug (s.next_pk + 1))
                s,
          )
        ])
    opened (some e) h =
        let (free, calm) = earlier_kind email name slug s e (sym h) in (refl, free, calm)
    opened none h =
        let (a, b) = earlier-none _ _ (sym h) in
        (refl, refl, refl, user_free email s.users a, organization_free name slug s.organizations b)

-- What an account is after its provisioning: only the client's key of the organization is new.
abbrev pub Provisioned : Accounts → Organization → Answer Organization × Accounts → Type 0
Provisioned s org (raised e, s') = (e ≡ provisioning_error) × (s' ≡ s)
Provisioned s org (returned org', s') =
    (org' ≡ record org { factpulse_client_uid = org'.factpulse_client_uid })
    × (s' ≡ record s { organizations = s'.organizations })
    × (map slug_of s'.organizations ≡ map slug_of s.organizations)

pub provision_lem :
    (api : Provisioning) (org : Organization) (s : Accounts)
    → Provisioned s org (provision_factpulse_client api org s)
unfolding provision_factpulse_client
provision_lem api org s =
    chosen (is_some org.factpulse_client_uid || not api.is_configured) (api.create_client org.name)
  where
    chosen :
        (skip : Bool) (answer : ClientAnswer)
        → Provisioned s org (
            if skip then (returned org, s) else elim answer [
              | refused_call ↦ (returned org, s)
              | malformed_answer ↦ (raised provisioning_error, s)
              | given_uid uid ↦ (
                returned (record org { factpulse_client_uid = some uid }),
                record s { organizations = set_client_uid uid org s.organizations },
              )
            ])
    chosen true answer = (refl, refl, refl)
    chosen false refused_call = (refl, refl, refl)
    chosen false malformed_answer = (refl, refl)
    chosen false (given_uid uid) = (refl, refl, map-set_client_uid uid org s.organizations)
