-- ===== src/Base/Text.antt =====
-- Program text as the list of its code points, and the decimal print of a number.
use Prim.Native.Char.{code}
use Prim.Native.String.{String}
use Prim.Native.Nat.{ℕ, zero, suc, ◌+◌, ◌-◌, ◌*◌, ◌/◌, ◌%◌, ◌<◌, ◌≤◌}
use mathlib.Core.Path.{◌≡◌, refl, ap, ap₂, sym, ◌∙◌}
use mathlib.Core.Logic.{◌↔◌, inl, inr}
use mathlib.Core.Bool.{Bool, true, false, not, ◌&&◌, ◌||◌}
use mathlib.Core.Option.{Option, none, some}
use mathlib.Core.List.{List, [], ◌∷◌, ◌++◌}
use native.Mathlib.Omega.{arith}
use factpulse_billing_app_pu.Base.Tests.{◌==◌, leb, if◌then◌else◌, Bool-cases}
use factpulse_billing_app_pu.Base.Lists.{length}

abbrev pub Text : Type 0
Text = List ℕ

abbrev pub codes : String → Text
codes String.[] = []
codes (String.◌∷◌ c s) = code c ∷ codes s

infix 50 ◌=ᵗ◌
unfoldable pub ◌=ᵗ◌ : Text → Text → Bool
[] =ᵗ [] = true
[] =ᵗ (_ ∷ _) = false
(_ ∷ _) =ᵗ [] = false
(a ∷ s) =ᵗ (b ∷ t) = (a == b) && (s =ᵗ t)

pub =ᵗ_iff : (s t : Text) → ((s =ᵗ t) ≡ true) ↔ (s ≡ t)
unfolding ◌=ᵗ◌
=ᵗ_iff [] [] = (λ _. refl, λ _. refl)
=ᵗ_iff [] (b ∷ t) = ground arith
=ᵗ_iff (a ∷ s) [] = ground arith
=ᵗ_iff (a ∷ s) (b ∷ t) = ground (arith, =ᵗ_iff s t)

-- a Python text is true when it is not empty
abbrev pub truthy : Text → Bool
truthy [] = false
truthy (_ ∷ _) = true

-- `str(n)` of a number that is not negative. A round divides by ten, so `n + 1` rounds do.
emit : ℕ → ℕ → Text → Text
emit zero n out = out
emit (suc f) n out =
    let out' = (b'0' + n % 10) ∷ out in
    let rest = emit f (n / 10) out' in if n / 10 == 0 then out' else rest

unfoldable pub str_nat : ℕ → Text
unfolding emit
str_nat n = emit (suc n) n []

-- `s.zfill(width)` of a text of digits
zeros : ℕ → Text
zeros zero = []
zeros (suc n) = b'0' ∷ zeros n

unfoldable pub zfill : Text → ℕ → Text
unfolding zeros
zfill s width = zeros (width - length s) ++ s

-- the number that a text of digits shows
unfoldable pub scan : Text → ℕ → ℕ
scan [] n = n
scan (c ∷ s) n = scan s (n * 10 + (c - b'0'))

scan-emit : (f n : ℕ) (out : Text) → n < f → scan (emit f n out) 0 ≡ scan out n
unfolding emit scan
scan-emit zero n out h = absurd (omega arith)
scan-emit (suc f) n out h = elim (Bool-cases (n / 10 == 0)) [
  | inl last ↦ rw last (ap (scan out) (ground arith))
  | inr more ↦
      rw more
        (scan-emit f (n / 10) ((b'0' + n % 10) ∷ out) (ground arith) ∙ ap (scan out) (omega arith))
]

scan-zeros : (k : ℕ) (s : Text) → scan (zeros k ++ s) 0 ≡ scan s 0
unfolding scan zeros
scan-zeros zero s = refl
scan-zeros (suc k) s = scan-zeros k s

-- The padding does not hide the number.
pub scan-zfill : (n width : ℕ) → scan (zfill (str_nat n) width) 0 ≡ n
unfolding zfill str_nat
scan-zfill n width =
    scan-zeros (width - length (str_nat n)) (str_nat n)
    ∙ (scan-emit (suc n) n [] (omega arith) ∙ unfold scan in refl)

truthy-append : (s t : Text) → truthy t ≡ true → truthy (s ++ t) ≡ true
truthy-append [] t h = h
truthy-append (c ∷ s) t h = refl

truthy-emit : (f n c : ℕ) (out : Text) → truthy (emit f n (c ∷ out)) ≡ true
unfolding emit
truthy-emit zero n c out = refl
truthy-emit (suc f) n c out = ground (arith, truthy-emit f (n / 10) (b'0' + n % 10) (c ∷ out))

-- A number has at least one digit.
pub truthy-zfill : (p : Text) (n width : ℕ) → truthy (p ++ zfill (str_nat n) width) ≡ true
unfolding zfill str_nat
truthy-zfill p n width = truthy-append p _ (
    truthy-append (zeros (width - length (str_nat n))) (str_nat n)
      (ground (arith, truthy-emit n (n / 10) (b'0' + n % 10) [])))

length-emit_digit : (f n : ℕ) (out : Text) → n < 10 → length (emit f n out) ≤ length out + 1
unfolding emit
length-emit_digit zero n out h = omega arith
length-emit_digit (suc f) n out h = ground (arith, h)

-- A number below a hundred has at most two digits.
pub length-str_nat : (n : ℕ) → n < 100 → length (str_nat n) ≤ 2
unfolding str_nat emit
length-str_nat n h =
    ground (arith, length-emit_digit n (n / 10) ((b'0' + n % 10) ∷ []) (omega (arith, h)))

length-zeros : (k : ℕ) (s : Text) → length (zeros k ++ s) ≡ k + length s
unfolding zeros
length-zeros zero s = omega arith
length-zeros (suc k) s = omega (arith, length-zeros k s)

pub length-zfill : (s : Text) (width : ℕ) → length s ≤ width → length (zfill s width) ≡ width
unfolding zfill
length-zfill s width h = omega (arith, h, length-zeros (width - length s) s)

emit_digit : (f n : ℕ) (out : Text) → n < 10 → emit (suc f) n out ≡ (b'0' + n) ∷ out
unfolding emit
emit_digit f n out h = elim (Bool-cases (n / 10 == 0)) [
  | inl last ↦ rw last (ap (λ c. c ∷ out) (omega (arith, h)))
  | inr more ↦ absurd (ground (arith, h, more))
]

str_nat-digit : (n : ℕ) → n < 10 → str_nat n ≡ (b'0' + n) ∷ []
unfolding str_nat
str_nat-digit n h = emit_digit n n [] h

str_nat-two_digits :
    (n : ℕ) → n < 100 → (n / 10 == 0) ≡ false → str_nat n ≡ (b'0' + n / 10) ∷ (b'0' + n % 10) ∷ []
unfolding str_nat emit
str_nat-two_digits n h large =
    let units = (b'0' + n % 10) ∷ [] in
    let fuel : n ≡ suc (n - 1) = ground (arith, large) in
    let rest : emit n (n / 10) units ≡ (b'0' + n / 10) ∷ units =
      ap (λ k. emit k (n / 10) units) fuel ∙ emit_digit (n - 1) (n / 10) units (omega (arith, h)) in
    rw large rest

-- A number below a hundred, padded to two digits, is its tens and its units.
pub zfill-two : (n : ℕ) → n < 100 → zfill (str_nat n) 2 ≡ (b'0' + n / 10) ∷ (b'0' + n % 10) ∷ []
unfolding zfill zeros
zfill-two n h = elim (Bool-cases (n / 10 == 0)) [
  | inl small ↦
      let tens : n / 10 ≡ 0 = ground (arith, small) in
      let units : n % 10 ≡ n = ground (arith, small) in
      ap (λ s. zfill s 2) (str_nat-digit n (ground (arith, small)))
      ∙ ap₂ (λ a b. (b'0' + a) ∷ (b'0' + b) ∷ []) (sym tens) (sym units)
  | inr large ↦ ap (λ s. zfill s 2) (str_nat-two_digits n h large)
]

pub str_nat-injective : (m n : ℕ) → str_nat m ≡ str_nat n → m ≡ n
str_nat-injective m n e = sym (scan-str m) ∙ (ap (λ s. scan s 0) e ∙ scan-str n)
  where
    scan-str : (k : ℕ) → scan (str_nat k) 0 ≡ k
    scan-str k = unfold str_nat in (scan-emit (suc k) k [] (omega arith) ∙ unfold scan in refl)

str_nat-test :
    (str_nat 0 ≡ codes "0") × (str_nat 42 ≡ codes "42") × (zfill (str_nat 7) 3 ≡ codes "007")
unfolding str_nat zfill
str_nat-test = (refl, refl, refl)

-- `s.upper()` on ASCII letters; other characters are left as they are
abbrev pub upper_char : ℕ → ℕ
upper_char c = if leb b'a' c && leb c b'z' then c - 32 else c

unfoldable pub upper : Text → Text
upper [] = []
upper (c ∷ s) = upper_char c ∷ upper s

abbrev is_space : ℕ → Bool
is_space c = (c == 32) || (leb 9 c && leb c 13)

unfoldable pub lstrip : Text → Text
lstrip [] = []
lstrip (c ∷ s) = if is_space c then lstrip s else c ∷ s

unfoldable pub rstrip : Text → Text
rstrip [] = []
rstrip (c ∷ s) = let rest = rstrip s in if is_space c && not (truthy rest) then [] else c ∷ rest

-- `s.strip()` of ASCII white space
unfoldable pub strip : Text → Text
unfolding lstrip rstrip
strip s = rstrip (lstrip s)

-- `s[:2]`
unfoldable pub first_two : Text → Text
first_two [] = []
first_two (a ∷ []) = a ∷ []
first_two (a ∷ b ∷ _) = a ∷ b ∷ []

-- the text of a field that may be missing: `d.get(key, "")`
abbrev pub text_or_empty : Option Text → Text
text_or_empty none = []
text_or_empty (some t) = t

-- `s.startswith(prefix)`
unfoldable pub starts_with : Text → Text → Bool
starts_with s [] = true
starts_with [] (_ ∷ _) = false
starts_with (a ∷ s) (b ∷ prefix) = (a == b) && starts_with s prefix

-- `s[:n]`
unfoldable pub take : ℕ → Text → Text
take zero s = []
take (suc n) [] = []
take (suc n) (c ∷ s) = c ∷ take n s

-- `s.lower()` on ASCII letters
abbrev pub lower_char : ℕ → ℕ
lower_char c = if leb b'A' c && leb c b'Z' then c + 32 else c

unfoldable pub lower : Text → Text
lower [] = []
lower (c ∷ s) = lower_char c ∷ lower s
