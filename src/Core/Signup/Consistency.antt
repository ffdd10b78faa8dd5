-- ===== src/Core/Signup/Consistency.antt =====
-- The uniqueness constraints of users, organizations and memberships are kept.
use factpulse_billing_app_pu.Base.{
  ℕ, ◌≤◌, ◌<◌, ◌≡◌, inl, inr, refl, sym, ap, subst, ◌∙◌, false, ◌||◌, List, [], ◌∷◌, ◌++◌, map,
  arith, Bool-cases, any, All,
}
use factpulse_billing_app_pu.Base.Text.{Text, ◌=ᵗ◌, =ᵗ_iff}
use factpulse_billing_app_pu.Model.{Organization}
use factpulse_billing_app_pu.Core.Rows.{User, OrganizationMembership, Accounts, update}
use factpulse_billing_app_pu.Core.Slugs.{is_taken, slug_of}
use factpulse_billing_app_pu.Core.Access.{is_membership}
use factpulse_billing_app_pu.Core.Access.Ranks.{OnePerPair}
use factpulse_billing_app_pu.Core.Signup.{username_of, set_client_uid}

-- no text occurs twice
abbrev pub AreDistinct : List Text → Type 0
AreDistinct [] = Unit
AreDistinct (t ∷ ts) = (is_taken t ts ≡ false) × AreDistinct ts

=ᵗ_sym : (s t : Text) → (s =ᵗ t) ≡ false → (t =ᵗ s) ≡ false
=ᵗ_sym s t h = elim (Bool-cases (t =ᵗ s)) [
  | inl same ↦ absurd (cc (sym h ∙ (=ᵗ_iff s t).1 (sym ((=ᵗ_iff t s).0 same))))
  | inr other ↦ other
]

is_taken-append :
    (t : Text) (ts us : List Text) → is_taken t (ts ++ us) ≡ (is_taken t ts || is_taken t us)
unfolding is_taken
is_taken-append t [] us = refl
is_taken-append t (x ∷ ts) us = ground (arith, is_taken-append t ts us)

pub AreDistinct-append :
    (ts : List Text) (t : Text)
    → AreDistinct ts
    → is_taken t ts ≡ false
    → AreDistinct (ts ++ t ∷ [])
unfolding is_taken
AreDistinct-append [] t d h = (refl, tt)
AreDistinct-append (x ∷ ts) t (first_one, d) h = (
  ground (arith, first_one, h, =ᵗ_sym x t, is_taken-append x ts (t ∷ [])),
  AreDistinct-append ts t d (ground (arith, h)),
)

pub map-append :
    {A B : Type 0} (f : A → B) (xs ys : List A) → map f (xs ++ ys) ≡ map f xs ++ map f ys
map-append f [] ys = refl
map-append f (x ∷ xs) ys = ap (λ t. f x ∷ t) (map-append f xs ys)

-- a new row with a text that no row has
pub AreDistinct-new :
    {A : Type 0} (f : A → Text) (rows : List A) (a : A)
    → AreDistinct (map f rows)
    → is_taken (f a) (map f rows) ≡ false
    → AreDistinct (map f (rows ++ a ∷ []))
AreDistinct-new f rows a d h =
    subst AreDistinct (sym (map-append f rows (a ∷ []))) (AreDistinct-append (map f rows) (f a) d h)

pub OnePerPair-append :
    (ms : List OrganizationMembership) (m : OrganizationMembership)
    → OnePerPair ms
    → any (is_membership m.user m.organization) ms ≡ false
    → OnePerPair (ms ++ m ∷ [])
OnePerPair-append [] m d h = (refl, tt)
OnePerPair-append (n ∷ ms) m (first_one, d) h =
    (ground (arith, first_one, h, any-append n ms m), OnePerPair-append ms m d (ground (arith, h)))
  where
    any-append :
        (n : OrganizationMembership) (ms : List OrganizationMembership) (m : OrganizationMembership)
        → any (is_membership n.user n.organization) (ms ++ m ∷ [])
          ≡ (any (is_membership n.user n.organization) ms || is_membership n.user n.organization m)
    any-append n [] m = ground arith
    any-append n (k ∷ ms) m = ground (arith, any-append n ms m)

-- Who is not yet a member has no membership.
pub none_of_new :
    (user organization bound : ℕ) (ms : List OrganizationMembership)
    → All (λ m. m.user < bound) ms
    → bound ≤ user
    → any (is_membership user organization) ms ≡ false
none_of_new user organization bound [] b h = refl
none_of_new user organization bound (m ∷ ms) (below, b) h =
    ground (arith, below, h, none_of_new user organization bound ms b h)

pub All-grows :
    {A : Type 0} (f : A → ℕ) (j k : ℕ) (rows : List A)
    → j ≤ k
    → All (λ a. f a < j) rows
    → All (λ a. f a < k) rows
All-grows f j k [] h a = tt
All-grows f j k (r ∷ rows) h (below, a) = (omega (arith, below, h), All-grows f j k rows h a)

-- The constraints of the tables, and keys that are below the next one.
pub record IsConsistent (s : Accounts) : Type 0 where
  pub usernames : AreDistinct (map username_of s.users)
  pub slugs : AreDistinct (map slug_of s.organizations)
  pub pairs : OnePerPair s.memberships
  pub users_below : All (λ (u : User). u.pk < s.next_pk) s.users
  pub members_below : All (λ (m : OrganizationMembership). m.user < s.next_pk) s.memberships

pub map-set_client_uid :
    (uid : Text) (org : Organization) (rows : List Organization)
    → map slug_of (set_client_uid uid org rows) ≡ map slug_of rows
unfolding set_client_uid update
map-set_client_uid uid org [] = refl
map-set_client_uid uid org (o ∷ rows) = ground (arith, map-set_client_uid uid org rows)
