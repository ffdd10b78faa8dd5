-- ===== src/InvoiceService/Amounts.antt =====
-- The amount that the data of a payment give, described without the code's own tests.
use factpulse_billing_app_pu.Base.{◌≡◌, ◌≢◌, false, none, [], sym, ap, ◌∙◌, Option, some, arith}
use factpulse_billing_app_pu.Base.Int.{pos, eq_ℤ, eq_of_parts}
use factpulse_billing_app_pu.Base.Decimal.{Decimal, is_zero_dec}
use factpulse_billing_app_pu.Model.{ok, ok-injective}
use factpulse_billing_app_pu.InvoiceService.Payment.{
  GivenAmount, as_number, as_numeral, as_text, given_amount, amount_paid,
}

-- the amount that the data give: a number other than 0, or a text that reads as a number
abbrev pub Gives : Option GivenAmount → Decimal → Type 0
Gives none a = ⊥
Gives (some (as_number d)) a = (d ≡ a) × (a.coeff ≢ pos 0)
Gives (some (as_numeral d)) a = d ≡ a
Gives (some (as_text t)) a = ⊥

-- the data give no amount
abbrev pub GivesNone : Option GivenAmount → Type 0
GivesNone none = Unit
GivesNone (some (as_number d)) = d.coeff ≡ pos 0
GivesNone (some (as_numeral d)) = ⊥
GivesNone (some (as_text t)) = t ≡ []

-- no amount is there, or 0
abbrev pub IsUnset : Option Decimal → Type 0
IsUnset none = Unit
IsUnset (some d) = d.coeff ≡ pos 0

is_zero_dec-false : (d : Decimal) → d.coeff ≢ pos 0 → is_zero_dec d ≡ false
is_zero_dec-false d h = ground (arith, eq_of_parts d.coeff (pos 0), h)

pub given_lem :
    (m : Option GivenAmount) (a : Decimal) (r : Option Decimal)
    → Gives m a
    → given_amount m ≡ ok r
    → r ≡ some a
unfolding given_amount
given_lem none a r g h = absurd g
given_lem (some (as_number d)) a r g h =
    let step : given_amount (some (as_number a)) ≡ ok (some a) =
      ground (arith, is_zero_dec-false a g.1) in
    ok-injective (sym h ∙ (ap (λ x. given_amount (some (as_number x))) g.0 ∙ step))
given_lem (some (as_numeral d)) a r g h = sym (ok-injective h) ∙ ap some g
given_lem (some (as_text t)) a r g h = absurd g

pub given_none :
    (m : Option GivenAmount) (r : Option Decimal) → GivesNone m → given_amount m ≡ ok r → r ≡ none
unfolding given_amount
given_none none r g h = sym (ok-injective h)
given_none (some (as_number d)) r g h =
    let step : given_amount (some (as_number d)) ≡ ok none =
      ground (arith, ap (λ z. eq_ℤ z (pos 0)) g) in
    ok-injective (sym h ∙ step)
given_none (some (as_numeral d)) r g h = absurd g
given_none (some (as_text t)) r g h =
    ok-injective (sym h ∙ ap (λ u. given_amount (some (as_text u))) g)

pub kept_lem :
    (m : Option GivenAmount) (r : Option Decimal) (a : Decimal) (old total : Option Decimal)
    → GivesNone m
    → given_amount m ≡ ok r
    → old ≡ some a
    → a.coeff ≢ pos 0
    → amount_paid r old total ≡ some a
kept_lem m r a old total g h e nonzero =
    ground (arith, given_none m r g h, e, is_zero_dec-false a nonzero)

pub default_lem :
    (m : Option GivenAmount) (r old total : Option Decimal)
    → GivesNone m
    → given_amount m ≡ ok r
    → IsUnset old
    → amount_paid r old total ≡ total
default_lem m r none total g h unset = ground (arith, given_none m r g h)
default_lem m r (some d) total g h unset = ground (arith, given_none m r g h, unset)
