-- ===== src/Core/Tests.antt =====
-- Runs of the account code on two users and two organizations.
use factpulse_billing_app_pu.Base.{
  ℕ, ◌≡◌, inl, inr, refl, true, false, Option, none, some, List, [], ◌∷◌, map, arith, In,
}
use factpulse_billing_app_pu.Base.Text.{lower, take, Text, codes, ◌=ᵗ◌, str_nat}
use factpulse_billing_app_pu.Model.{Organization, find}
use factpulse_billing_app_pu.Core.Rows.{
  User, OrganizationMembership, ApiKey, Accounts, returned, filter, update,
}
use factpulse_billing_app_pu.Core.ApiKeys.{
  prefix_of, generate, matches, authenticate, is_own, deactivate, revoke,
}
use factpulse_billing_app_pu.Core.ApiKeys.Secrets.{authenticate-generate, revoked_key_is_refused}
use factpulse_billing_app_pu.Core.Context.{
  first_organization, is_named, is_named_membership, resolve_from_header, from_header, from_session,
  fall_back, call_middleware,
}
use factpulse_billing_app_pu.Core.Context.Membership.{IsMemberOf, organization_is_of_member}
use factpulse_billing_app_pu.Core.Slugs.{
  is_taken, numbered, search_slug, slug_of, generate_unique_slug,
}
use factpulse_billing_app_pu.Core.Slugs.Fresh.{generate_unique_slug_lem}
use factpulse_billing_app_pu.Core.Signup.{
  Provisioning, malformed_answer, new_user, new_organization, create_account, customer_row,
}
use factpulse_billing_app_pu.Core.Signup.Consistency.{IsConsistent}
use factpulse_billing_app_pu.Core.Signup.Opening.{owner_row}
use factpulse_billing_app_pu.Core.Signup.Creation.{create_account-IsConsistent}

-- a digest for the tests
abbrev digest : Text → Text
digest raw = raw

abbrev made_key : ApiKey
made_key = record {
  pk = 5;
  uuid = codes "u5";
  name = codes "Desktop";
  prefix = codes "fp_01234567";
  key_hash = codes "fp_0123456789";
  user = 1;
  organization = 2;
  is_active = true;
  last_used_at = none;
  expires_at = none;
}

authenticate-generate_example :
    (authenticate digest
      (codes "fp_89")
      7
      (generate digest (codes "89") (codes "u6") 6 (codes "CI") 1 2 (made_key ∷ [])).1).0
    ≡ returned (some (1, 2))
unfolding matches prefix_of take ◌=ᵗ◌ generate
authenticate-generate_example =
    authenticate-generate digest (codes "89") (codes "u6") (codes "CI") 6 1 2 7 (made_key ∷ []) refl

revoked_key_is_refused_example :
    (authenticate digest (codes "fp_0123456789") 7 (revoke (codes "u5") 1 2 (made_key ∷ [])).1).0
    ≡ returned none
revoked_key_is_refused_example =
    revoked_key_is_refused digest (codes "fp_0123456789") 7 (made_key ∷ []) made_key (inl refl)
      only_key (unfold revoke is_own deactivate update filter ◌=ᵗ◌ in refl)
  where
    only_key :
        (k : ApiKey)
        → In k (made_key ∷ [])
        → matches digest (codes "fp_0123456789") k ≡ true
        → k ≡ made_key
    only_key k (inl same) h = same
    only_key k (inr none_left) h = absurd none_left

abbrev sample_user : User
sample_user = new_user (codes "a@b.fr") true 1

abbrev access_row : OrganizationMembership
access_row = customer_row 1 3 9

abbrev sample_org : Organization
sample_org = new_organization (codes "uu2") (codes "Acme") (codes "acme") 2

abbrev memberships_of_user : List OrganizationMembership
memberships_of_user = owner_row 1 2 ∷ access_row ∷ []

organization_is_of_member_example :
    (user : ℕ) × (◌≡◌ {A = Option ℕ} (some 1) (some user)) × IsMemberOf memberships_of_user user 2
organization_is_of_member_example =
    organization_is_of_member (λ v. none) (sample_org ∷ []) memberships_of_user
      (record { user = some 1; x_organization = some (codes "acme"); session = none }) 2 none
      (unfold call_middleware from_header resolve_from_header is_named_membership is_named
          from_session fall_back first_organization filter find ◌=ᵗ◌ in
        refl)

abbrev sample_accounts : Accounts
sample_accounts = record {
  users = sample_user ∷ [];
  profiles = [];
  organizations = sample_org ∷ [];
  memberships = owner_row 1 2 ∷ [];
  mails = [];
  next_pk = 3;
}

abbrev malformed_provisioning : Provisioning
malformed_provisioning = record { is_configured = true; create_client = λ name. malformed_answer }

-- a second organization of the name gets another slug
generate_unique_slug_test :
    generate_unique_slug (λ name. lower name) (codes "Acme") (sample_org ∷ [])
    ≡ some (codes "acme-1")
unfolding generate_unique_slug search_slug is_taken numbered str_nat lower ◌=ᵗ◌
generate_unique_slug_test = refl

generate_unique_slug_lem_example :
    (slug : Text) × (generate_unique_slug (λ name. lower name) (codes "Acme") (sample_org ∷ [])
      ≡ some slug)
    × (is_taken slug (map slug_of (sample_org ∷ [])) ≡ false)
generate_unique_slug_lem_example =
    generate_unique_slug_lem (λ name. lower name) (codes "Acme") (sample_org ∷ [])

sample_accounts-IsConsistent : IsConsistent sample_accounts
unfolding is_taken
sample_accounts-IsConsistent = record {
  usernames = (refl, tt);
  slugs = (refl, tt);
  pairs = (refl, tt);
  users_below = (omega arith, tt);
  members_below = (omega arith, tt);
}

create_account-IsConsistent_example :
    IsConsistent
      (create_account
        (λ name. lower name)
        malformed_provisioning
        (codes "u9")
        (codes "c@d.fr")
        (codes "secret")
        (codes "Acme")
        sample_accounts).1
create_account-IsConsistent_example =
    create_account-IsConsistent (λ name. lower name) malformed_provisioning (codes "u9")
      (codes "c@d.fr") (codes "secret") (codes "Acme") sample_accounts sample_accounts-IsConsistent

abbrev invited_user : User
invited_user = new_user (codes "x@y.fr") false 3

abbrev after_invitation : Accounts
after_invitation = record sample_accounts {
  users = sample_user ∷ invited_user ∷ [];
  memberships = owner_row 1 2 ∷ customer_row 3 2 9 ∷ [];
  mails = codes "x@y.fr" ∷ [];
  next_pk = 4;
}
