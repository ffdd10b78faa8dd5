-- ===== src/Base/Decimal/Sums.antt =====
-- Sums of decimals form a commutative monoid, as representations and not only as values.
use Prim.Native.Nat.{ℕ, zero, suc, ◌+◌, ◌-◌, ◌*◌, ◌≤◌, max}
use mathlib.Core.Path.{◌≡◌, sym, ap, ◌∙◌}
use native.Mathlib.Omega.{arith}
use factpulse_billing_app_pu.Base.Int.{
  ℤ, pos, negsuc, pos_part, neg_part, sub_ℕ, ◌+ℤ◌, ◌-ℤ◌, ◌*ℤ◌, int_laws, +ℤ_parts,
}

pub record Decimal : Type 0 where
  pub coeff : ℤ
  pub scale : ℕ

-- 10 ^ n, by recursion
unfoldable pub pow10 : ℕ → ℕ
pow10 zero = 1
pow10 (suc n) = 10 * pow10 n

pub pow10-add : (m n : ℕ) → pow10 (m + n) ≡ pow10 m * pow10 n
unfolding pow10
pow10-add zero n = let e : 0 + n ≡ n = omega arith in rw e (omega arith)
pow10-add (suc m) n =
    let e : suc m + n ≡ suc (m + n) = omega arith in rw e (grind (arith, pow10-add m n))

unfoldable pub times : ℤ → ℕ → ℤ
times z k = sub_ℕ (pos_part z * k) (neg_part z * k)

pub times_parts :
    (z : ℤ) (k : ℕ) → pos_part (times z k) + neg_part z * k ≡ neg_part (times z k) + pos_part z * k
unfolding times
times_parts (pos n) k = ground arith
times_parts (negsuc n) k = ground arith

pub times-+ℤ : (a b : ℤ) (k : ℕ) → times (a +ℤ b) k ≡ times a k +ℤ times b k
times-+ℤ a b k = omega (
  int_laws,
  times_parts (a +ℤ b) k,
  times_parts a k,
  times_parts b k,
  ap (λ (t : ℕ). t * k) (+ℤ_parts a b),
)

pub times-times : (z : ℤ) (j k : ℕ) → times (times z j) k ≡ times z (j * k)
times-times z j k = omega (
  int_laws,
  times_parts (times z j) k,
  times_parts z (j * k),
  ap (λ (t : ℕ). t * k) (times_parts z j),
)

pub times_one : (z : ℤ) → times z 1 ≡ z
times_one z = omega (int_laws, times_parts z 1)

-- the coefficient at a wider scale
unfoldable pub align : Decimal → ℕ → ℤ
align d s = times d.coeff (pow10 (s - d.scale))

infixl 65 ◌+ᵈ◌ ◌-ᵈ◌
infixl 70 ◌*ᵈ◌
unfoldable pub ◌+ᵈ◌ : Decimal → Decimal → Decimal
a +ᵈ b = let s = max a.scale b.scale in record { coeff = align a s +ℤ align b s; scale = s }

unfoldable pub ◌-ᵈ◌ : Decimal → Decimal → Decimal
a -ᵈ b = let s = max a.scale b.scale in record { coeff = align a s -ℤ align b s; scale = s }

unfoldable pub ◌*ᵈ◌ : Decimal → Decimal → Decimal
a *ᵈ b = record { coeff = a.coeff *ℤ b.coeff; scale = a.scale + b.scale }

-- `Decimal("0")`
abbrev pub zero_dec : Decimal
zero_dec = record { coeff = pos 0; scale = 0 }

-- Aligning in two steps is aligning at once.
align-align :
    (z : ℤ) (i j k : ℕ)
    → i ≤ j
    → j ≤ k
    → times (times z (pow10 (j - i))) (pow10 (k - j)) ≡ times z (pow10 (k - i))
align-align z i j k p q =
    times-times z (pow10 (j - i)) (pow10 (k - j))
    ∙ ap (times z) (sym (pow10-add (j - i) (k - j)) ∙ ap pow10 (omega arith))

Decimal-path : {a b : Decimal} → a.coeff ≡ b.coeff → a.scale ≡ b.scale → a ≡ b
Decimal-path p q = λ i. record { coeff = p i; scale = q i }

pub +ᵈ_comm : (a b : Decimal) → a +ᵈ b ≡ b +ᵈ a
unfolding ◌+ᵈ◌
+ᵈ_comm a b =
    let e : max a.scale b.scale ≡ max b.scale a.scale = omega arith in
    let m = max b.scale a.scale in
    let swapped : align a m +ℤ align b m ≡ align b m +ℤ align a m = omega int_laws in
    Decimal-path (ap (λ s. align a s +ℤ align b s) e ∙ swapped) e

align-+ᵈ :
    (a b : Decimal) (s : ℕ) → a.scale ≤ s → b.scale ≤ s → align (a +ᵈ b) s ≡ align a s +ℤ align b s
unfolding align ◌+ᵈ◌
align-+ᵈ a b s p q =
    let m = max a.scale b.scale in
    times-+ℤ (align a m) (align b m) (pow10 (s - m))
    ∙ cc (
      align-align a.coeff a.scale m s (omega arith) (omega arith),
      align-align b.coeff b.scale m s (omega arith) (omega arith),
    )

pub +ᵈ_assoc : (a b c : Decimal) → a +ᵈ b +ᵈ c ≡ a +ᵈ (b +ᵈ c)
unfolding ◌+ᵈ◌
+ᵈ_assoc a b c =
    let e : max (max a.scale b.scale) c.scale ≡ max a.scale (max b.scale c.scale) = omega arith in
    let m = max a.scale (max b.scale c.scale) in
    let left : align (a +ᵈ b) m ≡ align a m +ℤ align b m =
      align-+ᵈ a b m (omega arith) (omega arith) in
    let right : align (b +ᵈ c) m ≡ align b m +ℤ align c m =
      align-+ᵈ b c m (omega arith) (omega arith) in
    let grouped : align a m +ℤ align b m +ℤ align c m ≡ align a m +ℤ (align b m +ℤ align c m) =
      omega int_laws in
    Decimal-path
      (ap (λ s. align (a +ᵈ b) s +ℤ align c s) e
        ∙ (ap (λ z. z +ℤ align c m) left ∙ (grouped ∙ ap (λ z. align a m +ℤ z) (sym right))))
      e

align_self : (a : Decimal) (s : ℕ) → s ≡ a.scale → align a s ≡ a.coeff
unfolding align
align_self a s e =
    ap (times a.coeff) (ap pow10 {x = s - a.scale} {y = 0} (omega arith))
    ∙ unfold pow10 in times_one a.coeff

align-zero : (s : ℕ) → align zero_dec s ≡ pos 0
unfolding align times
align-zero s = ground arith

pub zero-+ᵈ : (a : Decimal) → zero_dec +ᵈ a ≡ a
unfolding ◌+ᵈ◌
zero-+ᵈ a =
    let m = max 0 a.scale in
    let e : m ≡ a.scale = omega arith in
    Decimal-path (cc (align-zero m, align_self a m e) ∙ zero_left a.coeff) e
  where
    zero_left : (z : ℤ) → pos 0 +ℤ z ≡ z
    zero_left z = omega int_laws

-- What is taken off and added again, in cents.
pub sub_add_cents :
    (a b : ℤ)
    → (record { coeff = a; scale = 2 } -ᵈ record { coeff = b; scale = 2 })
        +ᵈ record { coeff = b; scale = 2 }
      ≡ record { coeff = a; scale = 2 }
unfolding ◌+ᵈ◌ ◌-ᵈ◌ align pow10
sub_add_cents a b =
    ap (λ z. record { coeff = z; scale = 2 })
      (omega (int_laws, times_parts a 1, times_parts b 1, times_parts (times a 1 -ℤ times b 1) 1))
