-- ===== src/Base/Decimals.antt =====
-- strconv.Atoi and strconv.Itoa on the numbers of an int.
use Prim.Native.Nat.{ℕ, zero, suc, ◌+◌, ◌-◌, ◌*◌, ◌/◌, ◌%◌, ◌^◌, ◌≤◌, ◌<◌}
use mathlib.Core.Path.{◌≡◌, refl, sym, ap, ◌∙◌}
use mathlib.Core.Logic.{◌≢◌, inl, inr}
use mathlib.Core.Bool.{◌&&◌}
use mathlib.Core.Option.{Option, none, some}
use mathlib.Core.List.{[], ◌∷◌}
use native.Mathlib.Omega.{arith}
use stable_placement.Base.Tests.{if◌then◌else◌, ltb, leb, ◌==◌, Bool-cases}
use stable_placement.Base.Texts.{Text}
use stable_placement.Base.Ints.{ℤ}

-- The value of a row of digits, after `value`.
unfoldable pub parse_digits : ℕ → Text → Option ℕ
parse_digits value [] = some value
parse_digits value (b ∷ bs) =
    if leb 0x30 b && leb b 0x39 then parse_digits (value * 10 + (b - 0x30)) bs else none

parse_number : Text → Option ℕ
parse_number [] = none
parse_number (b ∷ bs) = parse_digits 0 (b ∷ bs)

positive : Option ℕ → Option ℤ
positive none = none
positive (some n) = if ltb n (2 ^ 63) then some (ℤ.pos n) else none

opposite : ℕ → ℤ
opposite zero = ℤ.pos 0
opposite (suc n) = ℤ.negsuc n

negative : Option ℕ → Option ℤ
unfolding opposite
negative none = none
negative (some n) = if leb n (2 ^ 63) then some (opposite n) else none

-- `strconv.Atoi`; `none` is its error, of syntax or of range.
unfoldable pub atoi : Text → Option ℤ
unfolding parse_number parse_digits positive negative
atoi [] = none
atoi (b ∷ bs) =
    if b == 0x2b
    then positive (parse_number bs)
    else if b == 0x2d
    then negative (parse_number bs)
    else positive (parse_number (b ∷ bs))

-- The digits of `n`, in front of `bs`. There are at most `n + 1` of them.
unfoldable pub digits : ℕ → ℕ → Text → Text
digits zero n bs = bs
digits (suc fuel) n bs =
    let rest = digits fuel (n / 10) ((0x30 + n % 10) ∷ bs) in
    if ltb n 10 then (0x30 + n) ∷ bs else rest

-- `strconv.Itoa` of a number that is not negative.
unfoldable pub itoa : ℕ → Text
unfolding digits
itoa n = digits (suc n) n []

parse_digits-digits :
    (fuel n : ℕ) (bs : Text) → n < fuel → parse_digits 0 (digits fuel n bs) ≡ parse_digits n bs
unfolding parse_digits digits
parse_digits-digits zero n bs h = absurd (omega arith)
parse_digits-digits (suc fuel) n bs h = elim (Bool-cases (ltb n 10)) [
  | inl e ↦ ground arith
  | inr e ↦
      let small : n / 10 < fuel = ground arith in
      let ih = parse_digits-digits fuel (n / 10) ((0x30 + n % 10) ∷ bs) small in ground arith
]

digits-head :
    (fuel n : ℕ) (bs : Text)
    → n < fuel
    → (b : ℕ) × (rest : Text) × (digits fuel n bs ≡ b ∷ rest) × (0x30 ≤ b)
unfolding digits
digits-head zero n bs h = absurd (omega arith)
digits-head (suc fuel) n bs h = elim (Bool-cases (ltb n 10)) [
  | inl e ↦ (0x30 + n, bs, ground arith, omega arith)
  | inr e ↦
      let small : n / 10 < fuel = ground arith in
      let (b, rest, q, le) = digits-head fuel (n / 10) ((0x30 + n % 10) ∷ bs) small in
      (b, rest, ground arith, le)
]

parse_digits-nil : (n : ℕ) → parse_digits n [] ≡ some n
unfolding parse_digits
parse_digits-nil n = refl

atoi_digit :
    (b : ℕ) (bs : Text) (n : ℕ)
    → 0x30 ≤ b
    → parse_digits 0 (b ∷ bs) ≡ some n
    → n < 2 ^ 63
    → atoi (b ∷ bs) ≡ some (ℤ.pos n)
unfolding atoi parse_number positive
atoi_digit b bs n h g small = ground arith

-- Reading the digits of a number that fits an int gives the number.
pub atoi-itoa : (n : ℕ) → n < 2 ^ 63 → atoi (itoa n) ≡ some (ℤ.pos n)
unfolding itoa
atoi-itoa n small =
    let (b, rest, q, le) = digits-head (suc n) n [] (omega arith) in
    let parsed : parse_digits 0 (b ∷ rest) ≡ some n =
      ap (parse_digits 0) (sym q)
      ∙ (parse_digits-digits (suc n) n [] (omega arith) ∙ parse_digits-nil n) in
    ap atoi q ∙ atoi_digit b rest n le parsed small

pub itoa-ne : (n : ℕ) → itoa n ≢ []
unfolding itoa
itoa-ne n h = let (b, rest, q, le) = digits-head (suc n) n [] (omega arith) in cc

-- The digits of a number are read back, and the first is a digit.
pub parse_digits-itoa : (n : ℕ) → parse_digits 0 (itoa n) ≡ some n
unfolding itoa
parse_digits-itoa n = parse_digits-digits (suc n) n [] (omega arith) ∙ parse_digits-nil n

pub itoa-head : (n : ℕ) → (b : ℕ) × (rest : Text) × (itoa n ≡ b ∷ rest) × (0x30 ≤ b)
unfolding itoa
itoa-head n = digits-head (suc n) n [] (omega arith)
