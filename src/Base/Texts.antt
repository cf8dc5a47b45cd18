-- ===== src/Base/Texts.antt =====
-- Go strings: sequences of bytes, compared whole or in byte order.
use Prim.Native.Nat.{ℕ}
use Prim.Native.Char.{code}
use Prim.Native.String.{String}
use mathlib.Core.Path.{◌≡◌, refl}
use mathlib.Core.Logic.{ite}
use mathlib.Core.Bool.{Bool, true, false, ◌&&◌, ◌||◌}
use mathlib.Core.List.{List, [], ◌∷◌}
use native.Mathlib.Decide.{ℕ_discrete}
use native.Mathlib.Omega.{arith}
use stable_placement.Base.Tests.{ltb, ◌==◌}

abbrev pub Text : Type 0
Text = List ℕ

unfoldable pub text_eq : Discrete Text
unfolding ℕ_discrete
text_eq = hlevel ℕ_discrete

-- `a == b` on strings.
abbrev pub same : Text → Text → Bool
same a b = ite (text_eq a b) true false

pub eq_of_same : (a b : Text) → same a b ≡ true → a ≡ b
eq_of_same a b h = ground arith

pub same_refl : (a : Text) → same a a ≡ true
same_refl a = ground arith

-- `a < b` on strings: byte order, a proper prefix first.
unfoldable pub before : Text → Text → Bool
before xs [] = false
before [] (y ∷ ys) = true
before (x ∷ xs) (y ∷ ys) = ltb x y || (x == y && before xs ys)

-- The bytes of an ASCII literal.
unfoldable pub text : String → Text
text String.[] = []
text (String.◌∷◌ c s) = code c ∷ text s

pub before_asym : (a b : Text) → before a b ≡ true → before b a ≡ false
unfolding before
before_asym [] [] h = refl
before_asym [] (y ∷ ys) h = refl
before_asym (x ∷ xs) [] h = cc
before_asym (x ∷ xs) (y ∷ ys) h = ground (arith, before_asym xs ys)

before-nil : (a : Text) → before a [] ≡ false
unfolding before
before-nil [] = refl
before-nil (x ∷ xs) = refl

-- The order is total in the sense that what is not before is not after something in between.
pub before_negtrans : (a b c : Text) → before a b ≡ false → before b c ≡ false → before a c ≡ false
unfolding before
before_negtrans a b [] h g = before-nil a
before_negtrans [] [] (z ∷ zs) h g = g
before_negtrans [] (y ∷ ys) (z ∷ zs) h g = cc
before_negtrans (x ∷ xs) [] (z ∷ zs) h g = cc
before_negtrans (x ∷ xs) (y ∷ ys) (z ∷ zs) h g = ground (arith, before_negtrans xs ys zs)
