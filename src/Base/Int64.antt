-- ===== src/Base/Int64.antt =====
-- An int64 as its bit pattern, and strconv.FormatInt and strconv.ParseInt in base 10 on it.
use Prim.Native.Nat.{ℕ, zero, suc, ◌+◌, ◌-◌, ◌*◌, ◌^◌, ◌≤◌, ◌<◌}
use mathlib.Core.Path.{◌≡◌, refl, sym, ap, ◌∙◌}
use mathlib.Core.Logic.{inl, inr}
use mathlib.Core.Bool.{◌&&◌}
use mathlib.Core.Option.{some}
use mathlib.Core.List.{[], ◌∷◌}
use native.Mathlib.Omega.{arith}
use stable_placement.Base.Tests.{if◌then◌else◌, ltb, leb, ◌==◌, Bool-cases}
use stable_placement.Base.Texts.{Text}
use stable_placement.Base.Ints.{ℤ}
use stable_placement.Base.Decimals.{parse_digits, itoa, parse_digits-itoa, itoa-head}

-- The number that a bit pattern stands for, and back.
unfoldable pub signed : ℕ → ℤ
signed v = if ltb v (2 ^ 63) then ℤ.pos v else ℤ.negsuc (2 ^ 64 - 1 - v)

unfoldable pub pattern_of : ℤ → ℕ
pattern_of (ℤ.pos n) = n
pattern_of (ℤ.negsuc n) = 2 ^ 64 - 1 - n

pub pattern_of-signed : (v : ℕ) → v < 2 ^ 64 → pattern_of (signed v) ≡ v
unfolding signed pattern_of
pattern_of-signed v h = ground arith

-- `strconv.FormatInt(v, 10)`
unfoldable pub format_int : ℤ → Text
format_int (ℤ.pos n) = itoa n
format_int (ℤ.negsuc n) = 0x2d ∷ itoa (suc n)

-- What `strconv.ParseUint` returns: its loop stops at the first byte that is no digit or that makes
-- the value too large for 64 bits.
pub data Unsigned : Type 0 where
  syntax_error range_error : Unsigned
  value : ℕ → Unsigned

unfoldable pub parse_uint_from : ℕ → Text → Unsigned
parse_uint_from n [] = value n
parse_uint_from n (b ∷ bs) =
    let rest = parse_uint_from (n * 10 + (b - 0x30)) bs in
    if leb 0x30 b && leb b 0x39
    then (if ltb (n * 10 + (b - 0x30)) (2 ^ 64) then rest else range_error)
    else syntax_error

unfoldable pub parse_uint : Text → Unsigned
parse_uint [] = syntax_error
parse_uint (b ∷ bs) = parse_uint_from 0 (b ∷ bs)

-- The value that `strconv.ParseInt` returns beside its error: 0 after an error of syntax, the nearest
-- int64 after an error of range.
abbrev pub upwards : Unsigned → ℤ
upwards syntax_error = ℤ.pos 0
upwards range_error = ℤ.pos (2 ^ 63 - 1)
upwards (value n) = if ltb n (2 ^ 63) then ℤ.pos n else ℤ.pos (2 ^ 63 - 1)

abbrev pub downwards : Unsigned → ℤ
downwards syntax_error = ℤ.pos 0
downwards range_error = ℤ.negsuc (2 ^ 63 - 1)
downwards (value zero) = ℤ.pos 0
downwards (value (suc n)) = if ltb n (2 ^ 63) then ℤ.negsuc n else ℤ.negsuc (2 ^ 63 - 1)

-- `v, _ := strconv.ParseInt(s, 10, 64)`
unfoldable pub parse_int : Text → ℤ
parse_int [] = ℤ.pos 0
parse_int (b ∷ bs) =
    if b == 0x2b
    then upwards (parse_uint bs)
    else if b == 0x2d
    then downwards (parse_uint bs)
    else upwards (parse_uint (b ∷ bs))

parse_digits-le : (v : ℕ) (bs : Text) (n : ℕ) → parse_digits v bs ≡ some n → v ≤ n
unfolding parse_digits
parse_digits-le v [] n h = let q : v ≡ n = cc in omega arith
parse_digits-le v (b ∷ bs) n h = ground (arith, parse_digits-le (v * 10 + (b - 0x30)) bs n)

parse_uint_from-value :
    (v : ℕ) (bs : Text) (n : ℕ)
    → parse_digits v bs ≡ some n
    → n < 2 ^ 64
    → parse_uint_from v bs ≡ value n
unfolding parse_digits parse_uint_from
parse_uint_from-value v [] n h small = ground arith
parse_uint_from-value v (b ∷ bs) n h small = ground (
  arith,
  parse_digits-le (v * 10 + (b - 0x30)) bs n,
  parse_uint_from-value (v * 10 + (b - 0x30)) bs n,
)

parse_uint-itoa : (n : ℕ) → n < 2 ^ 64 → parse_uint (itoa n) ≡ value n
unfolding parse_uint
parse_uint-itoa n small =
    let (b, rest, q, le) = itoa-head n in
    let parsed : parse_digits 0 (b ∷ rest) ≡ some n =
      ap (parse_digits 0) (sym q) ∙ parse_digits-itoa n in
    ap parse_uint q ∙ parse_uint_from-value 0 (b ∷ rest) n parsed small

parse_int_head : (b : ℕ) (bs : Text) → 0x30 ≤ b → parse_int (b ∷ bs) ≡ upwards (parse_uint (b ∷ bs))
unfolding parse_int
parse_int_head b bs h = ground arith

parse_int_minus : (bs : Text) → parse_int (0x2d ∷ bs) ≡ downwards (parse_uint bs)
unfolding parse_int
parse_int_minus bs = refl

pub parse_int-itoa : (n : ℕ) → n < 2 ^ 63 → parse_int (itoa n) ≡ ℤ.pos n
parse_int-itoa n small =
    let (b, rest, q, le) = itoa-head n in
    let big : n < 2 ^ 64 = omega arith in
    let parsed : parse_uint (b ∷ rest) ≡ value n = ap parse_uint (sym q) ∙ parse_uint-itoa n big in
    ap parse_int q ∙ (parse_int_head b rest le ∙ (ap upwards parsed ∙ ground arith))

-- Every int64 is read back from its decimal form.
pub parse_int-format_int : (v : ℕ) → v < 2 ^ 64 → parse_int (format_int (signed v)) ≡ signed v
unfolding format_int signed
parse_int-format_int v h = elim (Bool-cases (ltb v (2 ^ 63))) [
  | inl e ↦
      let small : v < 2 ^ 63 = ground arith in let read = parse_int-itoa v small in ground arith
  | inr e ↦
      let n : ℕ = 2 ^ 64 - 1 - v in
      let big : suc (2 ^ 64 - 1 - v) < 2 ^ 64 = ground arith in
      let parsed = parse_uint-itoa (suc (2 ^ 64 - 1 - v)) big in
      let read = parse_int_minus (itoa (suc (2 ^ 64 - 1 - v))) in ground arith
]
