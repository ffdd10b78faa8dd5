-- ===== src/Base/Decimal/Rounding.antt =====
-- Comparison, truth and rounding of decimals.
use Prim.Native.Nat.{ℕ, zero, suc, ◌+◌, ◌-◌, ◌*◌, ◌/◌, ◌%◌, ◌≤◌, ◌<◌, max}
use mathlib.Core.Path.{◌≡◌, refl, sym, ap, subst, ◌∙◌}
use mathlib.Core.Logic.{◌⊎◌, inl, inr}
use mathlib.Core.Bool.{Bool, true, false}
use native.Mathlib.Omega.{arith}
use factpulse_billing_app_pu.Base.Tests.{ltb, leb, ◌==◌, if◌then◌else◌}
use factpulse_billing_app_pu.Base.Int.{ℤ, pos, negsuc, pos_part, neg_part, sub_ℕ, eq_ℤ, ltb_ℤ}
use factpulse_billing_app_pu.Base.Decimal.Sums.{Decimal, pow10, times, align, times_one}

-- `a == b`: the values are compared, not the representations
unfoldable pub eq_dec : Decimal → Decimal → Bool
unfolding align
eq_dec a b = let s = max a.scale b.scale in eq_ℤ (align a s) (align b s)

-- `bool(a)`
abbrev pub is_zero_dec : Decimal → Bool
is_zero_dec a = eq_ℤ a.coeff (pos 0)

-- `a > 0`
abbrev pub is_pos_dec : Decimal → Bool
is_pos_dec a = ltb_ℤ (pos 0) a.coeff

-- n / d rounded to the nearest whole number, a half away from zero
abbrev pub div_half_up : ℕ → ℕ → ℕ
div_half_up n d = (2 * n + d) / (2 * d)

-- n / d rounded to the nearest whole number, a half to the even neighbour
abbrev pub div_half_even : ℕ → ℕ → ℕ
div_half_even n d =
    let q = n / d in
    let r = n % d in
    if ltb (2 * r) d then q else if ltb d (2 * r) then q + 1 else if q % 2 == 0 then q else q + 1

-- a rounding of numbers, on both signs
abbrev round_ℤ : (ℕ → ℕ → ℕ) → ℤ → ℕ → ℤ
round_ℤ div z d = sub_ℕ (div (pos_part z) d) (div (neg_part z) d)

abbrev quantize : (ℕ → ℕ → ℕ) → Decimal → Decimal
quantize div a =
    if leb a.scale 2
    then record { coeff = times a.coeff (pow10 (2 - a.scale)); scale = 2 }
    else record { coeff = round_ℤ div a.coeff (pow10 (a.scale - 2)); scale = 2 }

-- `a.quantize(Decimal("0.01"), rounding=ROUND_HALF_UP)`
unfoldable pub quantize_half_up : Decimal → Decimal
unfolding pow10 times
quantize_half_up a = quantize div_half_up a

-- `a.quantize(Decimal("0.01"))`, whose rounding is ROUND_HALF_EVEN
unfoldable pub quantize_half_even : Decimal → Decimal
unfolding pow10 times
quantize_half_even a = quantize div_half_even a

-- `a / 100`
unfoldable pub percent : Decimal → Decimal
percent a = record { coeff = a.coeff; scale = a.scale + 2 }

-- Rounding moves a value by at most half a unit.
pub div_half_up-near :
    (n d : ℕ)
    → 0 < d
    → (2 * (div_half_up n d * d) ≤ 2 * n + d) × (2 * n < 2 * (div_half_up n d * d) + d + 1)
div_half_up-near n d h = (grind arith, grind arith)

-- c is n / d, rounded to the nearest whole number, a half up
pub record IsNearest (n d c : ℕ) : Type 0 where
  pub low : 2 * (c * d) ≤ 2 * n + d
  pub high : 2 * n < 2 * (c * d) + d

pow10-positive : (n : ℕ) → 0 < pow10 n
unfolding pow10
pow10-positive zero = omega arith
pow10-positive (suc n) = omega (arith, pow10-positive n)

div_half_up-IsNearest : (n d : ℕ) → 0 < d → IsNearest n d (div_half_up n d)
div_half_up-IsNearest n d h = record { low = grind arith; high = grind arith }

div_half_up_zero : (d : ℕ) → 0 < d → div_half_up 0 d ≡ 0
div_half_up_zero d h = grind arith

zero-IsNearest : (d : ℕ) → 0 < d → IsNearest 0 d 0
zero-IsNearest d h = record { low = omega arith; high = omega (arith, h) }

sub_zero : (q : ℕ) → sub_ℕ q 0 ≡ pos q
sub_zero q = ground arith

zero_sub : (q : ℕ) → (pos_part (sub_ℕ 0 q) ≡ 0) × (neg_part (sub_ℕ 0 q) ≡ q)
zero_sub q = ground arith

abbrev pub IsRounded : ℤ → ℕ → ℤ → Type 0
IsRounded z d q = IsNearest (pos_part z) d (pos_part q) × IsNearest (neg_part z) d (neg_part q)

round-IsRounded : (z : ℤ) (d : ℕ) → 0 < d → IsRounded z d (round_ℤ div_half_up z d)
round-IsRounded (pos n) d h =
    let e : round_ℤ div_half_up (pos n) d ≡ pos (div_half_up n d) =
      ap (sub_ℕ (div_half_up n d)) (div_half_up_zero d h) ∙ sub_zero (div_half_up n d) in
    subst (IsRounded (pos n) d) (sym e) (div_half_up-IsNearest n d h, zero-IsNearest d h)
round-IsRounded (negsuc n) d h =
    let q = div_half_up (suc n) d in
    let e : round_ℤ div_half_up (negsuc n) d ≡ sub_ℕ 0 q =
      ap (λ k. sub_ℕ k q) (div_half_up_zero d h) in
    let (p, m) = zero_sub q in
    subst (IsRounded (negsuc n) d) (sym e) (
      subst (IsNearest 0 d) (sym p) (zero-IsNearest d h),
      subst (IsNearest (suc n) d) (sym m) (div_half_up-IsNearest (suc n) d h),
    )

-- a whole number of cents
whole-IsNearest : (n : ℕ) → IsNearest n 1 n
whole-IsNearest n = record { low = omega arith; high = omega arith }

leb_cases : (s : ℕ) → 2 ≤ s → ((leb s 2 ≡ true) × (s ≡ 2)) ⊎ (leb s 2 ≡ false)
leb_cases s h = ground arith

-- Both signs are rounded in the same way, to the cent.
pub quantize_half_up-IsNearest :
    (a : Decimal)
    → 2 ≤ a.scale
    → let q = quantize_half_up a in (q.scale ≡ 2) × IsRounded a.coeff (pow10 (a.scale - 2)) q.coeff
unfolding quantize_half_up
quantize_half_up-IsNearest a h = elim (leb_cases a.scale h) [
  | inl (small, two) ↦
      let one : pow10 (a.scale - 2) ≡ 1 =
        unfold pow10 in ap pow10 {x = a.scale - 2} {y = 0} (omega (arith, two)) in
      let factor : pow10 (2 - a.scale) ≡ 1 =
        unfold pow10 in ap pow10 {x = 2 - a.scale} {y = 0} (omega (arith, two)) in
      let scaled : quantize_half_up a
          ≡ record { coeff = times a.coeff (pow10 (2 - a.scale)); scale = 2 } =
        ground (arith, small) in
      let whole : times a.coeff (pow10 (2 - a.scale)) ≡ a.coeff =
        ap (times a.coeff) factor ∙ times_one a.coeff in
      let exact : IsRounded a.coeff 1 a.coeff =
        (whole-IsNearest (pos_part a.coeff), whole-IsNearest (neg_part a.coeff)) in
      subst (λ (q : Decimal). (q.scale ≡ 2) × IsRounded a.coeff (pow10 (a.scale - 2)) q.coeff)
        (sym scaled)
        (
          refl,
          subst (IsRounded a.coeff (pow10 (a.scale - 2))) (sym whole)
              (subst (λ d. IsRounded a.coeff d a.coeff) (sym one) exact),
        )
  | inr wide ↦
      let same : quantize_half_up a
          ≡ record { coeff = round_ℤ div_half_up a.coeff (pow10 (a.scale - 2)); scale = 2 } =
        ground (arith, wide) in
      subst (λ (q : Decimal). (q.scale ≡ 2) × IsRounded a.coeff (pow10 (a.scale - 2)) q.coeff)
        (sym same)
        (refl, round-IsRounded a.coeff (pow10 (a.scale - 2)) (pow10-positive (a.scale - 2)))
]

abbrev dec : ℕ → ℕ → Decimal
dec n s = record { coeff = pos n; scale = s }

quantize-test :
    (quantize_half_up (dec 2345 3) ≡ dec 235 2)
    × (quantize_half_even (dec 2345 3) ≡ dec 234 2)
    × (quantize_half_up (dec 7 0) ≡ dec 700 2)
unfolding quantize_half_up quantize_half_even
quantize-test = (refl, refl, refl)
