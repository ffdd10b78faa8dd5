-- ===== src/StripeMapper/Amounts.antt =====
-- The amounts of a credit note.
use mathlib.Core.Path.{ap₂}
use factpulse_billing_app_pu.Base.{◌≡◌, refl, sym, ap, ◌∙◌, false, Option, some}
use factpulse_billing_app_pu.Base.Int.{ℤ}
use factpulse_billing_app_pu.Base.Date.{Date}
use factpulse_billing_app_pu.Base.Decimal.{
  times_one, sub_add_cents, Decimal, quantize_half_even, percent, pow10, times, ◌+ᵈ◌, ◌-ᵈ◌,
}
use factpulse_billing_app_pu.Model.{dec, Amount}
use factpulse_billing_app_pu.StripeMapper.{
  cents_to_decimal, sum_tax_amounts, or_list, zero_rate, CreditNote, Original, totals_of_cents,
  stripe_credit_note_to_payload,
}

-- Cents are exact at two digits.
cents_exact : (z : ℤ) → cents_to_decimal z ≡ record { coeff = z; scale = 2 }
unfolding cents_to_decimal quantize_half_even percent pow10 times
cents_exact z = ap (λ c. record { coeff = c; scale = 2 }) (times_one z)

-- the amount of a total
abbrev pub value_of : Option Amount → Decimal
value_of (some (dec d)) = d
value_of _ = zero_rate

-- The totals of every credit note of Stripe balance to the cent: net total and VAT add up to the
-- gross total, which is Stripe's total, and the gross total is due.
pub credit_note_balanced :
    (divide : Decimal → Decimal → Decimal) (today : Date) (note : CreditNote) (original : Original)
    → let t = (stripe_credit_note_to_payload divide today note original).totals in
      (value_of t.total_net_amount +ᵈ value_of t.vat_amount ≡ value_of t.total_gross_amount)
      × (value_of t.total_gross_amount ≡ record { coeff = note.total; scale = 2 })
      × (t.amount_due ≡ t.total_gross_amount)
unfolding stripe_credit_note_to_payload totals_of_cents
credit_note_balanced divide today note original =
    let tax = sum_tax_amounts false (or_list note.total_taxes note.tax_amounts) in
    (
      ap₂ (λ (t x : Decimal). (t -ᵈ x) +ᵈ x) (cents_exact note.total) (cents_exact tax)
          ∙ (sub_add_cents note.total tax ∙ sym (cents_exact note.total)),
      cents_exact note.total,
      refl,
    )
