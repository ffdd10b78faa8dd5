-- ===== src/Core/Rows.antt =====
-- The rows of apps/core/models.py and Django's users, the queries on them, and what the methods of
-- apps/core raise. The rows of a list stand in the order of their primary keys.
use factpulse_billing_app_pu.Base.{
  ℕ, ◌≡◌, refl, ap, Bool, true, false, Option, none, some, List, [], ◌∷◌, arith, if◌then◌else◌,
  ◌++◌, any, sym, In, Bool-cases, ◌∙◌, ◌⊎◌, inl, inr,
}
use factpulse_billing_app_pu.Base.Text.{Text}
use factpulse_billing_app_pu.Model.{Organization}

-- `OrganizationMembership.Role`
pub data Role : Type 0 where
  owner member viewer customer_access : Role

-- Django's `User`; the password is left out
pub record User : Type 0 where
  pub pk : ℕ
  pub username : Text
  pub email : Text
  pub is_active : Bool

pub record UserProfile : Type 0 where
  pub user : ℕ
  pub email_verified : Bool

pub record OrganizationMembership : Type 0 where
  pub user : ℕ
  pub organization : ℕ
  pub role : Role
  pub customer : Option ℕ

-- times are numbers
pub record ApiKey : Type 0 where
  pub pk : ℕ
  pub uuid : Text
  pub name : Text
  pub prefix : Text
  pub key_hash : Text
  pub user : ℕ
  pub organization : ℕ
  pub is_active : Bool
  pub last_used_at : Option ℕ
  pub expires_at : Option ℕ

-- `mails` holds the recipients of the mails that were sent, the newest first.
pub record Accounts : Type 0 where
  pub users : List User
  pub profiles : List UserProfile
  pub organizations : List Organization
  pub memberships : List OrganizationMembership
  pub mails : List Text
  pub next_pk : ℕ

-- `ValueError`s of the account service by their reason; `data_error` is the database's on a text
-- that is too long for its column, `no_slug` stands for a search that ends without a slug, and
-- `provisioning_error` for an exception of the provisioning that is no `FactPulseError`
pub data CoreError : Type 0 where
  email_required password_required name_required email_taken : CoreError
  multiple_objects data_error no_slug provisioning_error : CoreError

pub data Answer (A : Type 0) : Type 0 where
  returned : A → Answer A
  raised : CoreError → Answer A

module _ {A : Type 0} where
  -- `objects.filter(test)`
  unfoldable pub filter : (A → Bool) → List A → List A
  filter test [] = []
  filter test (a ∷ rows) = let rest = filter test rows in if test a then a ∷ rest else rest

  -- `objects.get(test)`: `none` for `DoesNotExist`
  abbrev pub one_of : List A → Answer (Option A)
  one_of [] = returned none
  one_of (a ∷ []) = returned (some a)
  one_of (a ∷ b ∷ rows) = raised multiple_objects

  abbrev pub get : (A → Bool) → List A → Answer (Option A)
  get test rows = one_of (filter test rows)

  -- `objects.filter(test).first()`
  abbrev pub head : List A → Option A
  head [] = none
  head (a ∷ rows) = some a

  abbrev pub first : (A → Bool) → List A → Option A
  first test rows = head (filter test rows)

  -- `objects.filter(test).update(change)`
  unfoldable pub update : (A → Bool) → (A → A) → List A → List A
  update test change [] = []
  update test change (a ∷ rows) =
      let rest = update test change rows in (if test a then change a else a) ∷ rest

  kept :
      (t : Bool) (b : A) (rest : List A) {a : A}
      → In a (if t then b ∷ rest else rest)
      → ((a ≡ b) × (t ≡ true)) ⊎ In a rest
  kept true b rest (inl here) = inl (here, refl)
  kept true b rest (inr later) = inr later
  kept false b rest later = inr later

  pub filter-Member :
      (test : A → Bool) (rows : List A) {a : A}
      → In a (filter test rows)
      → In a rows × (test a ≡ true)
  unfolding filter
  filter-Member test [] m = absurd m
  filter-Member test (b ∷ rows) m = elim (kept (test b) b (filter test rows) m) [
    | inl (here, passed) ↦ (inl here, ap test here ∙ passed)
    | inr later ↦ let (i, t) = filter-Member test rows later in (inr i, t)
  ]

  -- What `get` returns is a row that passes the test.
  pub get-Member :
      (test : A → Bool) (rows : List A) {a : A}
      → get test rows ≡ returned (some a)
      → In a rows × (test a ≡ true)
  get-Member test rows {a} h = filter-Member test rows (only (filter test rows) h)
    where
      only : (found : List A) → one_of found ≡ returned (some a) → In a found
      only [] h = absurd (cc h)
      only (b ∷ []) h = inl (cc h)
      only (b ∷ c ∷ rest) h = absurd (cc h)

  pub first-Member :
      (test : A → Bool) (rows : List A) {a : A}
      → first test rows ≡ some a
      → In a rows × (test a ≡ true)
  first-Member test rows {a} h = filter-Member test rows (top (filter test rows) h)
    where
      top : (found : List A) → head found ≡ some a → In a found
      top [] h = absurd (cc h)
      top (b ∷ rest) h = inl (cc h)

  pub filter-none :
      (test : A → Bool) (rows : List A) → any test rows ≡ false → filter test rows ≡ []
  unfolding filter
  filter-none test [] h = refl
  filter-none test (a ∷ rows) h = ground (arith, h, filter-none test rows)

  pub filter-append :
      (test : A → Bool) (xs ys : List A) → filter test (xs ++ ys) ≡ filter test xs ++ filter test ys
  unfolding filter
  filter-append test [] ys = refl
  filter-append test (x ∷ xs) ys = ground (arith, filter-append test xs ys)

  pub member-filter :
      (test : A → Bool) (rows : List A) (a : A)
      → In a rows
      → test a ≡ true
      → In a (filter test rows)
  unfolding filter
  member-filter test [] a i t = absurd i
  member-filter test (b ∷ rows) a (inl here) t = ground (arith, sym here, ap test here, t)
  member-filter test (b ∷ rows) a (inr later) t = ground (arith, member-filter test rows a later t)

  -- A row that passes the test of a lookup that succeeds is the row that it returns.
  pub get-only :
      (test : A → Bool) (rows : List A) {a b : A}
      → get test rows ≡ returned (some b)
      → In a rows
      → test a ≡ true
      → a ≡ b
  get-only test rows {a} {b} h i t = only (filter test rows) h (member-filter test rows a i t)
    where
      only : (found : List A) → one_of found ≡ returned (some b) → In a found → a ≡ b
      only [] h m = absurd m
      only (c ∷ []) h (inl here) = here ∙ cc h
      only (c ∷ []) h (inr later) = absurd later
      only (c ∷ d ∷ rest) h m = absurd (cc h)

  -- A lookup finds a new row where none of the old ones passes.
  pub get-append :
      (test : A → Bool) (rows : List A) (a : A)
      → any test rows ≡ false
      → test a ≡ true
      → get test (rows ++ a ∷ []) ≡ returned (some a)
  get-append test rows a none_before t = ap one_of (
      filter-append test rows (a ∷ [])
      ∙ ap (λ found. found ++ filter test (a ∷ [])) (filter-none test rows none_before)
      ∙ alone)
    where
      alone : filter test (a ∷ []) ≡ a ∷ []
      alone = unfold filter in ground (arith, t)

  filter-Empty : (test : A → Bool) (rows : List A) → filter test rows ≡ [] → any test rows ≡ false
  unfolding filter
  filter-Empty test [] h = refl
  filter-Empty test (a ∷ rows) h = elim (Bool-cases (test a)) [
    | inl passed ↦ absurd (ground (arith, passed, h))
    | inr other ↦ ground (arith, other, h, filter-Empty test rows)
  ]

  -- A lookup that finds no row.
  pub get-none :
      (test : A → Bool) (rows : List A) → get test rows ≡ returned none → any test rows ≡ false
  get-none test rows h = filter-Empty test rows (empty (filter test rows) h)
    where
      empty : (found : List A) → one_of found ≡ returned none → found ≡ []
      empty [] h = refl
      empty (b ∷ []) h = absurd (cc h)
      empty (b ∷ c ∷ rest) h = absurd (cc h)
