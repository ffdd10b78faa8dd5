-- ===== src/Core/Signup.antt =====
-- apps/core/services.py: the creation of an account and the invitation of a customer.
pub mod Consistency
pub mod Invitation
pub mod Opening
pub mod Creation
use factpulse_billing_app_pu.Base.{
  ℕ, ◌+◌, Bool, true, false, not, ◌&&◌, ◌||◌, Option, none, some, List, [], ◌∷◌, ◌++◌, map, ltb,
  ◌==◌, if◌then◌else◌, is_some, length,
}
use factpulse_billing_app_pu.Base.Text.{lower, strip, Text, ◌=ᵗ◌, truthy}
use factpulse_billing_app_pu.Model.{Organization}
use factpulse_billing_app_pu.Core.Rows.{
  Role, User, OrganizationMembership, Accounts, CoreError, email_required, password_required,
  name_required, email_taken, data_error, no_slug, provisioning_error, Answer, returned, raised,
  filter, get, update,
}
use factpulse_billing_app_pu.Core.Slugs.{is_taken, slug_of, generate_unique_slug}
use factpulse_billing_app_pu.Core.Access.{is_membership}

abbrev pub username_of : User → Text
username_of u = u.username

-- How `client.create_client(name=org.name)` and `result["uid"]` end: with the client's key, with a
-- `FactPulseError`, or with another exception, of an answer that is no JSON, or whose
-- key is missing or no UUID.
pub data ClientAnswer : Type 0 where
  given_uid : Text → ClientAnswer
  refused_call malformed_answer : ClientAnswer

-- the API of FactPulse as `_provision_factpulse_client` uses it
pub record Provisioning : Type 0 where
  pub is_configured : Bool
  pub create_client : Text → ClientAnswer

-- `org.factpulse_client_uid = uid`, saved
unfoldable pub set_client_uid : Text → Organization → List Organization → List Organization
unfolding update
set_client_uid uid org organizations =
    update (λ o. o.pk == org.pk) (λ o. record o { factpulse_client_uid = some uid }) organizations

-- `_provision_factpulse_client`, with the organization as it then is
unfoldable pub provision_factpulse_client :
    Provisioning → Organization → Accounts → Answer Organization × Accounts
unfolding set_client_uid
provision_factpulse_client api org s =
    if is_some org.factpulse_client_uid || not api.is_configured
    then (returned org, s)
    else elim (api.create_client org.name) [
      | refused_call ↦ (returned org, s)
      | malformed_answer ↦ (raised provisioning_error, s)
      | given_uid uid ↦ (
        returned (record org { factpulse_client_uid = some uid }),
        record s { organizations = set_client_uid uid org s.organizations },
      )
    ]

-- `User.objects.create_user(...)`: what the database refuses
unfoldable pub user_error : Text → List User → Option CoreError
unfolding is_taken
user_error username users =
    if ltb 150 (length username)
    then some data_error
    else if is_taken username (map username_of users)
    then some email_taken
    else none

-- `Organization.objects.create(...)`; a slug has at most 50 characters
unfoldable pub organization_error : Text → Text → List Organization → Option CoreError
unfolding is_taken
organization_error name slug organizations =
    if ltb 255 (length name) || ltb 50 (length slug)
    then some data_error
    else if is_taken slug (map slug_of organizations)
    then some email_taken
    else none

-- the first of two refusals
abbrev pub earlier : Option CoreError → Option CoreError → Option CoreError
earlier none b = b
earlier (some e) b = some e

abbrev pub new_user : Text → Bool → ℕ → User
new_user email is_active pk = record {
  pk = pk;
  username = email;
  email = email;
  is_active = is_active;
}

abbrev pub new_organization : Text → Text → Text → ℕ → Organization
new_organization uuid name slug pk = record {
  pk = pk;
  uuid = uuid;
  name = name;
  slug = slug;
  factpulse_client_uid = none;
}

-- the rows that the transaction writes
unfoldable pub write_account : User → Organization → Accounts → Accounts
write_account user org s = record s {
  users = s.users ++ user ∷ [];
  profiles = s.profiles ++ record { user = user.pk; email_verified = false } ∷ [];
  organizations = s.organizations ++ org ∷ [];
  memberships =
      s.memberships
      ++ record { user = user.pk; organization = org.pk; role = Role.owner; customer = none } ∷ [];
  next_pk = s.next_pk + 2;
}

-- the block in `transaction.atomic()`, with the `except IntegrityError` after it
unfoldable pub open_account :
    Text → Text → Text → Text → Accounts → Answer (User × Organization) × Accounts
unfolding user_error organization_error write_account
open_account uuid email name slug s =
    let user = new_user email true s.next_pk in
    let org = new_organization uuid name slug (s.next_pk + 1) in
    elim (earlier (user_error email s.users) (organization_error name slug s.organizations)) [
      | some e ↦ (raised e, s)
      | none ↦ (returned (user, org), write_account user org s)
    ]

-- the checks of the arguments
unfoldable pub argument_error : Text → Text → Text → Option CoreError
argument_error email password name =
    if not (truthy email)
    then some email_required
    else if not (truthy password)
    then some password_required
    else if not (truthy name)
    then some name_required
    else none

-- what the caller has of a provisioning
abbrev pub with_user :
    User → Answer Organization × Accounts → Answer (User × Organization) × Accounts
with_user user (returned org, s) = (returned (user, org), s)
with_user user (raised e, s) = (raised e, s)

-- after the transaction
abbrev pub provisioned :
    Provisioning → Answer (User × Organization) × Accounts → Answer (User × Organization) × Accounts
provisioned api (raised e, s) = (raised e, s)
provisioned api (returned (user, org), s) = with_user user (provision_factpulse_client api org s)

module _ (slugify : Text → Text) (api : Provisioning) where
  -- `uuid` is that of the new organization; `no_slug` does not happen
  unfoldable pub create_account :
      Text → Text → Text → Text → Accounts → Answer (User × Organization) × Accounts
  unfolding strip lower argument_error generate_unique_slug open_account
  create_account uuid email password org_name s =
      let address = lower (strip email) in
      let name = strip org_name in
      elim (argument_error address password name) [
        | some e ↦ (raised e, s)
        | none ↦ elim (generate_unique_slug slugify name s.organizations) [
          | none ↦ (raised no_slug, s)
          | some slug ↦ provisioned api (open_account uuid address name slug s)
        ]
      ]

-- the user that `get_or_create` creates
abbrev pub create_invited : Option CoreError → Text → Accounts → Answer User × Accounts
create_invited (some e) email s = (raised e, s)
create_invited none email s = (
  returned (new_user email false s.next_pk),
  record s { users = s.users ++ new_user email false s.next_pk ∷ []; next_pk = s.next_pk + 1 },
)

abbrev pub has_email : Text → User → Bool
has_email email u = u.email =ᵗ email

-- `User.objects.get_or_create(email=email, ...)`
abbrev pub or_create_user : Answer (Option User) → Text → Accounts → Answer User × Accounts
or_create_user (raised e) email s = (raised e, s)
or_create_user (returned (some u)) email s = (returned u, s)
or_create_user (returned none) email s = create_invited (user_error email s.users) email s

unfoldable pub get_or_create_user : Text → Accounts → Answer User × Accounts
unfolding user_error filter ◌=ᵗ◌
get_or_create_user email s = or_create_user (get (has_email email) s.users) email s

-- `OrganizationMembership.objects.get_or_create(user=user, organization=organization, ...)`
abbrev pub customer_row : ℕ → ℕ → ℕ → OrganizationMembership
customer_row user organization customer = record {
  user = user;
  organization = organization;
  role = Role.customer_access;
  customer = some customer;
}

abbrev pub or_create_membership :
    Answer (Option OrganizationMembership)
    → OrganizationMembership
    → Accounts
    → Answer (OrganizationMembership × Bool) × Accounts
or_create_membership (raised e) new_row s = (raised e, s)
or_create_membership (returned (some m)) new_row s = (returned (m, false), s)
or_create_membership (returned none) new_row s =
    (returned (new_row, true), record s { memberships = s.memberships ++ new_row ∷ [] })

unfoldable pub get_or_create_membership :
    ℕ → ℕ → ℕ → Accounts → Answer (OrganizationMembership × Bool) × Accounts
unfolding filter
get_or_create_membership user organization customer s =
    or_create_membership (get (is_membership user organization) s.memberships)
      (customer_row user organization customer) s

-- `invite_customer_user`; a mail that cannot be sent is logged only
module _ (mail_works : Bool) where
  abbrev pub invited :
      Text
      → User
      → Answer (OrganizationMembership × Bool) × Accounts
      → Answer (User × OrganizationMembership × Bool) × Accounts
  invited email user (raised e, s) = (raised e, s)
  invited email user (returned (m, created), s) = (
    returned (user, m, created),
    if created && mail_works then record s { mails = email ∷ s.mails } else s,
  )

  abbrev pub invite_user :
      ℕ
      → ℕ
      → Text
      → Answer User × Accounts
      → Answer (User × OrganizationMembership × Bool) × Accounts
  invite_user organization customer email (raised e, s) = (raised e, s)
  invite_user organization customer email (returned user, s) =
      invited email user (get_or_create_membership user.pk organization customer s)

  unfoldable pub invite_customer_user :
      ℕ → ℕ → Text → Accounts → Answer (User × OrganizationMembership × Bool) × Accounts
  unfolding get_or_create_user get_or_create_membership
  invite_customer_user organization customer email s =
      invite_user organization customer email (get_or_create_user email s)
