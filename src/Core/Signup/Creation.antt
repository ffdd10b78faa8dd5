-- ===== src/Core/Signup/Creation.antt =====
-- What the creation of an account writes, or that it writes nothing.
use factpulse_billing_app_pu.Base.{
  ◌+◌, ◌<◌, ◌≡◌, ◌≢◌, ◌⊎◌, inl, inr, refl, sym, ap, subst, subst₂, ◌∙◌, true, false, Option, none,
  some, [], ◌∷◌, ◌++◌, map, arith, All, All-append,
}
use factpulse_billing_app_pu.Base.Text.{lower, strip, Text}
use factpulse_billing_app_pu.Model.{Organization}
use factpulse_billing_app_pu.Core.Rows.{
  User, OrganizationMembership, Accounts, CoreError, no_slug, provisioning_error, Answer, returned,
  raised,
}
use factpulse_billing_app_pu.Core.Slugs.{is_taken, slug_of, generate_unique_slug}
use factpulse_billing_app_pu.Core.Slugs.Fresh.{generate_unique_slug_lem}
use factpulse_billing_app_pu.Core.Access.Ranks.{OnePerPair}
use factpulse_billing_app_pu.Core.Signup.{
  username_of, Provisioning, provision_factpulse_client, new_user, write_account, open_account,
  argument_error, with_user, provisioned, create_account,
}
use factpulse_billing_app_pu.Core.Signup.Consistency.{
  AreDistinct, AreDistinct-append, map-append, AreDistinct-new, OnePerPair-append, none_of_new,
  All-grows, IsConsistent,
}
use factpulse_billing_app_pu.Core.Signup.Opening.{
  owner_row, Provisioned, Opened, open_account_lem, provision_lem,
}

-- the rows of a new account: a user with the address as its name, and an organization with a new
-- slug that it owns
pub record Written (email : Text) (s : Accounts) (user : User) (org : Organization) (s' : Accounts)
    : Type 0 where
  pub user_of : user ≡ new_user (lower (strip email)) true s.next_pk
  pub organization_key : org.pk ≡ s.next_pk + 1
  pub users : s'.users ≡ s.users ++ user ∷ []
  pub memberships : s'.memberships ≡ s.memberships ++ owner_row user.pk org.pk ∷ []
  pub slugs : map slug_of s'.organizations ≡ map slug_of s.organizations ++ org.slug ∷ []
  pub next_pk : s'.next_pk ≡ s.next_pk + 2
  pub free_name : is_taken user.username (map username_of s.users) ≡ false
  pub free_slug : is_taken org.slug (map slug_of s.organizations) ≡ false

-- The outcomes of the creation of an account: the rows of the account; an error before them, which
-- is not that of the search; or the error of the provisioning after them.
abbrev pub IsOutcome : Text → Accounts → Answer (User × Organization) × Accounts → Type 0
IsOutcome email s (returned (user, org), s') = Written email s user org s'
IsOutcome email s (raised e, s') =
    ((s' ≡ s) × (e ≢ no_slug) × (e ≢ provisioning_error))
    ⊎ ((e ≡ provisioning_error)
        × (user : User) × (org : Organization) × Written email s user org s')

argument_error_kind :
    (a b c : Text) (e : CoreError)
    → argument_error a b c ≡ some e
    → (e ≢ no_slug) × (e ≢ provisioning_error)
unfolding argument_error
argument_error_kind a b c e h = (λ k. ground (arith, h, k), λ k. ground (arith, h, k))

account_rows :
    (uuid email name slug : Text) (s : Accounts) (user : User) (org org' : Organization)
    (s' t : Accounts)
    → Opened uuid (lower (strip email)) name slug s (returned (user, org), s')
    → Provisioned s' org (returned org', t)
    → Written email s user org' t
unfolding write_account
account_rows uuid email name slug s user org org' s' t (u, o, w, free_name, free_slug)
      (org_same, rows_same, slugs) =
    record {
      user_of = u;
      organization_key =
          ap (λ (x : Organization). x.pk) org_same ∙ ap (λ (x : Organization). x.pk) o;
      users = ap (λ (x : Accounts). x.users) rows_same ∙ ap (λ (x : Accounts). x.users) w;
      memberships =
          ap (λ (x : Accounts). x.memberships) rows_same
          ∙ (ap (λ (x : Accounts). x.memberships) w
              ∙ ap (λ (x : Organization). s.memberships ++ owner_row user.pk x.pk ∷ [])
                  (sym org_same));
      slugs =
          slugs
          ∙ (ap (λ (x : Accounts). map slug_of x.organizations) w
              ∙ (map-append slug_of s.organizations (org ∷ [])
                  ∙ ap (λ (x : Organization). map slug_of s.organizations ++ x.slug ∷ [])
                      (sym org_same)));
      next_pk = ap (λ (x : Accounts). x.next_pk) rows_same ∙ ap (λ (x : Accounts). x.next_pk) w;
      free_name = ap (λ (x : User). is_taken x.username (map username_of s.users)) u ∙ free_name;
      free_slug =
          ap (λ (x : Organization). is_taken x.slug (map slug_of s.organizations))
            (org_same
              ∙ ap
                  (λ (x : Organization). record x {
                    factpulse_client_uid = org'.factpulse_client_uid;
                  })
                  o)
          ∙ free_slug;
    }

kept : (s t : Accounts) → t ≡ s → t ≡ record s { organizations = t.organizations }
kept s t same =
    same
    ∙ ap (λ rows. record s { organizations = rows })
        (ap (λ (x : Accounts). x.organizations) (sym same))

provisioned-IsOutcome :
    (api : Provisioning) (uuid email name slug : Text) (s : Accounts)
    (r : Answer (User × Organization) × Accounts)
    → Opened uuid (lower (strip email)) name slug s r
    → IsOutcome email s (provisioned api r)
provisioned-IsOutcome api uuid email name slug s (raised e, s') h = inl h
provisioned-IsOutcome api uuid email name slug s (returned (user, org), s') h =
    ended (provision_factpulse_client api org s') (provision_lem api org s')
  where
    ended :
        (p : Answer Organization × Accounts)
        → Provisioned s' org p
        → IsOutcome email s (with_user user p)
    ended (returned org', t) q = account_rows uuid email name slug s user org org' s' t h q
    ended (raised e, t) (kind, same) = inr (
      kind,
      user,
      org,
      account_rows uuid email name slug s user org org s' t h
          (refl, kept s' t same, ap (λ (x : Accounts). map slug_of x.organizations) same),
    )

pub create_account_lem :
    (slugify : Text → Text) (api : Provisioning) (uuid email password org_name : Text)
    (s : Accounts)
    → IsOutcome email s (create_account slugify api uuid email password org_name s)
unfolding create_account
create_account_lem slugify api uuid email password org_name s =
    checked (argument_error (lower (strip email)) password (strip org_name))
      (argument_error_kind _ _ _)
  where
    searched :
        (r : Option Text) {slug : Text}
        → r ≡ some slug
        → IsOutcome email s (elim r [
          | none ↦ (raised no_slug, s)
          | some slug ↦
              provisioned api (open_account uuid (lower (strip email)) (strip org_name) slug s)
        ])
    searched none h = absurd (cc h)
    searched (some slug) h =
        provisioned-IsOutcome api uuid email (strip org_name) slug s _
          (open_account_lem uuid (lower (strip email)) (strip org_name) slug s)

    checked :
        (r : Option CoreError)
        → ((e : CoreError) → r ≡ some e → (e ≢ no_slug) × (e ≢ provisioning_error))
        → IsOutcome email s (elim r [
          | some e ↦ (raised e, s)
          | none ↦ elim (generate_unique_slug slugify (strip org_name) s.organizations) [
            | none ↦ (raised no_slug, s)
            | some slug ↦
                provisioned api (open_account uuid (lower (strip email)) (strip org_name) slug s)
          ]
        ])
    checked (some e) kind = let (free, calm) = kind e refl in inl (refl, free, calm)
    checked none kind =
        searched (generate_unique_slug slugify (strip org_name) s.organizations)
          (generate_unique_slug_lem slugify (strip org_name) s.organizations).1

-- the rows of a new account keep the constraints
Written-IsConsistent :
    (email : Text) (s : Accounts) (user : User) (org : Organization) (s' : Accounts)
    → IsConsistent s
    → Written email s user org s'
    → IsConsistent s'
Written-IsConsistent email s user org s' c x = record {
  usernames =
      subst (λ rows. AreDistinct (map username_of rows)) (sym x.users)
        (AreDistinct-new username_of s.users user c.usernames x.free_name);
  slugs =
      subst AreDistinct (sym x.slugs)
        (AreDistinct-append (map slug_of s.organizations) org.slug c.slugs x.free_slug);
  pairs = subst OnePerPair (sym x.memberships) (
      OnePerPair-append s.memberships _ c.pairs
        (none_of_new user.pk org.pk s.next_pk s.memberships c.members_below (omega (arith, own))));
  users_below =
      subst₂ (λ rows n. All (λ (y : User). y.pk < n) rows) (sym x.users) (sym x.next_pk)
        (All-append _ s.users _
          (All-grows (λ (y : User). y.pk) s.next_pk (s.next_pk + 2) s.users (omega arith)
            c.users_below)
          (omega (arith, own), tt));
  members_below =
      subst₂ (λ rows n. All (λ (y : OrganizationMembership). y.user < n) rows) (sym x.memberships)
        (sym x.next_pk)
        (All-append _ s.memberships _
          (All-grows (λ (y : OrganizationMembership). y.user) s.next_pk (s.next_pk + 2)
            s.memberships (omega arith) c.members_below)
          (omega (arith, own), tt));
}
  where
    own : user.pk ≡ s.next_pk
    own = ap (λ (y : User). y.pk) x.user_of

outcome-IsConsistent :
    (email : Text) (s : Accounts) (r : Answer (User × Organization) × Accounts)
    → IsConsistent s
    → IsOutcome email s r
    → IsConsistent r.1
outcome-IsConsistent email s (raised e, s') c (inl (same, free, calm)) =
    subst IsConsistent (sym same) c
outcome-IsConsistent email s (raised e, s') c (inr (kind, user, org, x)) =
    Written-IsConsistent email s user org s' c x
outcome-IsConsistent email s (returned (user, org), s') c x =
    Written-IsConsistent email s user org s' c x

-- The creation of an account keeps user names, slugs and pairs of user and organization distinct,
-- and the keys below the next one, also when it fails, before the account is written or after it.
pub create_account-IsConsistent :
    (slugify : Text → Text) (api : Provisioning) (uuid email password org_name : Text)
    (s : Accounts)
    → IsConsistent s
    → IsConsistent (create_account slugify api uuid email password org_name s).1
create_account-IsConsistent slugify api uuid email password org_name s c =
    outcome-IsConsistent email s _ c (create_account_lem slugify api uuid email password org_name s)
