-- ===== src/PayloadBuilder/Rates.antt =====
-- The VAT of a base at a rate, described without the code's own formula.
use factpulse_billing_app_pu.Base.{ℕ, ◌+◌, ◌-◌, ◌*◌, ◌≡◌, ap, subst₂, arith}
use factpulse_billing_app_pu.Base.Int.{ℤ, pos, negsuc, pos_part, neg_part, ◌*ℤ◌}
use factpulse_billing_app_pu.Base.Decimal.{
  Decimal, ◌*ᵈ◌, percent, pow10, IsNearest, quantize_half_up-IsNearest,
}
use factpulse_billing_app_pu.PayloadBuilder.Totals.{vat_of}

-- the two parts of the product of two coefficients, of which one is 0
abbrev pub product_pos : ℤ → ℤ → ℕ
product_pos a b = pos_part a * pos_part b + neg_part a * neg_part b

abbrev pub product_neg : ℤ → ℤ → ℕ
product_neg a b = pos_part a * neg_part b + neg_part a * pos_part b

-- A rate of r per cent of a base of b units is b * r cents: the VAT is the whole number of cents
-- that is nearest to it, of two the one further from 0.
pub record IsVat (base rate vat : Decimal) : Type 0 where
  pub cents : vat.scale ≡ 2
  pub above :
      IsNearest
        (product_pos base.coeff rate.coeff)
        (pow10 (base.scale + rate.scale))
        (pos_part vat.coeff)
  pub below :
      IsNearest
        (product_neg base.coeff rate.coeff)
        (pow10 (base.scale + rate.scale))
        (neg_part vat.coeff)

*ℤ_parts : (a b : ℤ) → (pos_part (a *ℤ b) ≡ product_pos a b) × (neg_part (a *ℤ b) ≡ product_neg a b)
unfolding ◌*ℤ◌
*ℤ_parts (pos m) (pos n) = ground arith
*ℤ_parts (pos m) (negsuc n) = ground arith
*ℤ_parts (negsuc m) (pos n) = ground arith
*ℤ_parts (negsuc m) (negsuc n) = ground arith

pub vat_of-IsVat : (base rate : Decimal) → IsVat base rate (vat_of base rate)
unfolding percent ◌*ᵈ◌
vat_of-IsVat base rate =
    let product = percent (base *ᵈ rate) in
    let (cents, (above, below)) = quantize_half_up-IsNearest product (omega arith) in
    let (p, m) = *ℤ_parts base.coeff rate.coeff in
    let d = pow10 (base.scale + rate.scale) in
    let same : pow10 (product.scale - 2) ≡ d = ap pow10 (omega arith) in
    let vat = vat_of base rate in
    record {
      cents = cents;
      above = subst₂ (λ n k. IsNearest n k (pos_part vat.coeff)) p same above;
      below = subst₂ (λ n k. IsNearest n k (neg_part vat.coeff)) m same below;
    }
