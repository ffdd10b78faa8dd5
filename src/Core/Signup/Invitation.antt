-- ===== src/Core/Signup/Invitation.antt =====
-- Who is invited twice has one access.
use factpulse_billing_app_pu.Base.{
  ℕ, ◌≡◌, refl, sym, ap, subst, subst₂, ◌∙◌, Bool, true, false, ◌&&◌, Option, none, some, ◌∷◌,
  arith, if◌then◌else◌,
}
use factpulse_billing_app_pu.Base.Text.{Text, =ᵗ_iff}
use factpulse_billing_app_pu.Core.Rows.{
  User, OrganizationMembership, Accounts, CoreError, Answer, returned, raised, get, get-append,
  get-none,
}
use factpulse_billing_app_pu.Core.Access.{is_membership}
use factpulse_billing_app_pu.Core.Signup.{
  user_error, new_user, create_invited, has_email, or_create_user, get_or_create_user, customer_row,
  or_create_membership, get_or_create_membership, invited, invite_user, invite_customer_user,
}

module _ {A : Type 0} where
  same_answer :
      {a b : A} {s t : Accounts}
      → ◌≡◌ {A = Answer A × Accounts} (returned a, s) (returned b, t)
      → a ≡ b
  same_answer h = cc (ap (λ (p : Answer A × Accounts). p.0) h)

  same_state :
      {r q : Answer A} {s t : Accounts} → ◌≡◌ {A = Answer A × Accounts} (r, s) (q, t) → s ≡ t
  same_state h = ap (λ (p : Answer A × Accounts). p.1) h

  no_answer :
      {e : CoreError} {a : A} {s t : Accounts}
      → ◌≡◌ {A = Answer A × Accounts} (raised e, s) (returned a, t)
      → ⊥
  no_answer h = cc (ap (λ (p : Answer A × Accounts). p.0) h)

-- The user is found afterwards.
created_user :
    (email : Text) (s : Accounts) (r : Option CoreError) {u : User} {s' : Accounts}
    → get (has_email email) s.users ≡ returned none
    → create_invited r email s ≡ (returned u, s')
    → get (has_email email) s'.users ≡ returned (some u)
created_user email s (some e) none_before h = absurd (no_answer h)
created_user email s none {u} {s'} none_before h =
    subst₂ (λ (x : Accounts) (y : User). get (has_email email) x.users ≡ returned (some y))
      (same_state h) (same_answer h)
      (get-append (has_email email) s.users (new_user email false s.next_pk)
        (get-none (has_email email) s.users none_before) ((=ᵗ_iff email email).1 refl))

found_user :
    (email : Text) (s : Accounts) (r : Answer (Option User)) {u : User} {s' : Accounts}
    → get (has_email email) s.users ≡ r
    → or_create_user r email s ≡ (returned u, s')
    → get (has_email email) s'.users ≡ returned (some u)
found_user email s (raised e) found h = absurd (no_answer h)
found_user email s (returned (some v)) found h =
    subst₂ (λ (x : Accounts) (y : User). get (has_email email) x.users ≡ returned (some y))
      (same_state h) (same_answer h) found
found_user email s (returned none) found h = created_user email s (user_error email s.users) found h

-- The membership is found afterwards, and the users are the same.
found_membership :
    (user organization customer : ℕ) (s : Accounts) (r : Answer (Option OrganizationMembership))
    {m : OrganizationMembership} {b : Bool} {s' : Accounts}
    → get (is_membership user organization) s.memberships ≡ r
    → or_create_membership r (customer_row user organization customer) s ≡ (returned (m, b), s')
    → (get (is_membership user organization) s'.memberships ≡ returned (some m))
      × (s'.users ≡ s.users)
found_membership user organization customer s (raised e) found h = absurd (no_answer h)
found_membership user organization customer s (returned (some n)) {m} {b} found h = (
  subst₂
      (λ (x : Accounts) (y : OrganizationMembership × Bool).
        get (is_membership user organization) x.memberships ≡ returned (some y.0))
      (same_state h) (same_answer h) found,
  ap (λ (x : Accounts). x.users) (sym (same_state h)),
)
found_membership user organization customer s (returned none) found h = (
  subst₂
      (λ (x : Accounts) (y : OrganizationMembership × Bool).
        get (is_membership user organization) x.memberships ≡ returned (some y.0))
      (same_state h) (same_answer h)
      (get-append (is_membership user organization) s.memberships
        (customer_row user organization customer)
        (get-none (is_membership user organization) s.memberships found) (ground arith)),
  ap (λ (x : Accounts). x.users) (sym (same_state h)),
)

mails_only :
    (sent : Bool) (email : Text) (s : Accounts)
    → let after = if sent then record s { mails = email ∷ s.mails } else s in
      (after.users ≡ s.users) × (after.memberships ≡ s.memberships)
mails_only true email s = (refl, refl)
mails_only false email s = (refl, refl)

-- What an invitation that returns leaves.
invited_lem :
    (works : Bool) (email : Text) (v : User) (r : Answer (OrganizationMembership × Bool) × Accounts)
    {user : User} {m : OrganizationMembership} {created : Bool} {s' : Accounts}
    → invited works email v r ≡ (returned (user, m, created), s')
    → (v ≡ user)
      × (r.0 ≡ returned (m, created))
      × (s'.users ≡ r.1.users)
      × (s'.memberships ≡ r.1.memberships)
invited_lem works email v (raised e, s) h = absurd (no_answer h)
invited_lem works email v (returned (n, c), s) h = (
  ap (λ (x : User × OrganizationMembership × Bool). x.0) (same_answer h),
  ap (λ (x : User × OrganizationMembership × Bool). returned (x.1, x.2)) (same_answer h),
  ap (λ (x : Accounts). x.users) (sym (same_state h)) ∙ (mails_only (c && works) email s).0,
  ap (λ (x : Accounts). x.memberships) (sym (same_state h)) ∙ (mails_only (c && works) email s).1,
)

users_of :
    (email : Text) (s : Accounts) {v : User} {s1 : Accounts}
    → get_or_create_user email s ≡ (returned v, s1)
    → get (has_email email) s1.users ≡ returned (some v)
unfolding get_or_create_user
users_of email s h = found_user email s (get (has_email email) s.users) refl h

members_of :
    (user organization customer : ℕ) (s : Accounts) {m : OrganizationMembership} {b : Bool}
    {s' : Accounts}
    → get_or_create_membership user organization customer s ≡ (returned (m, b), s')
    → (get (is_membership user organization) s'.memberships ≡ returned (some m))
      × (s'.users ≡ s.users)
unfolding get_or_create_membership
members_of user organization customer s h =
    found_membership user organization customer s
      (get (is_membership user organization) s.memberships) refl h

-- An invitation of a user with a membership.
invite_known :
    (works : Bool) (organization customer : ℕ) (email : Text) (s : Accounts) (user : User)
    (m : OrganizationMembership)
    → get (has_email email) s.users ≡ returned (some user)
    → get (is_membership user.pk organization) s.memberships ≡ returned (some m)
    → invite_customer_user works organization customer email s ≡ (returned (user, m, false), s)
unfolding invite_customer_user
invite_known works organization customer email s user m found known =
    ap (λ r. invite_user works organization customer email (or_create_user r email s)) found
    ∙ ap
        (λ r.
          invited works email user
            (or_create_membership r (customer_row user.pk organization customer) s))
        known

-- When a customer who was invited is invited again, for whatever customer record, the same user and
-- membership are returned as not created, and nothing changes.
pub invite_again :
    (works works' : Bool) (organization customer customer' : ℕ) (email : Text) (s : Accounts)
    {user : User} {m : OrganizationMembership} {created : Bool} {s' : Accounts}
    → invite_customer_user works organization customer email s ≡ (returned (user, m, created), s')
    → invite_customer_user works' organization customer' email s' ≡ (returned (user, m, false), s')
invite_again works works' organization customer customer' email s {user} {m} {created} {s'} h =
    again (get_or_create_user email s) refl (unfold invite_customer_user in h)
  where
    again :
        (p : Answer User × Accounts)
        → get_or_create_user email s ≡ p
        → invite_user works organization customer email p ≡ (returned (user, m, created), s')
        → invite_customer_user works' organization customer' email s'
          ≡ (returned (user, m, false), s')
    again (raised e, s1) found h = absurd (no_answer h)
    again (returned v, s1) found h =
        let q = get_or_create_membership v.pk organization customer s1 in
        let (same, answer, users, members) = invited_lem works email v q h in
        let (known, kept_users) =
          members_of v.pk organization customer s1 (ap (λ r. (r, q.1)) answer) in
        subst
          (λ u.
            invite_customer_user works' organization customer' email s'
            ≡ (returned (u, m, false), s'))
          same
          (invite_known works' organization customer' email s' v m
            (ap (get (has_email email)) (users ∙ kept_users) ∙ users_of email s found)
            (ap (get (is_membership v.pk organization)) members ∙ known))
