-- ===== src/Base/Lists.antt =====
-- Lists measured and indexed by native numbers, and the sort that stands for `sort.Slice`.
use Prim.Native.Nat.{ℕ, zero, suc, ◌+◌, ◌≤◌}
use mathlib.Core.Path.{◌≡◌, refl, ap, subst}
use mathlib.Core.Bool.{Bool, true, false, ◌||◌}
use mathlib.Core.List.{List, [], ◌∷◌, ◌++◌, map}
use mathlib.Core.Option.{Option, none, some}
use native.Mathlib.Omega.{arith}
use stable_placement.Base.Tests.{if◌then◌else◌}

module _ {ℓ} {A : Type ℓ} where
  abbrev pub length : List A → ℕ
  length [] = 0
  length (x ∷ xs) = suc (length xs)

  abbrev pub get_elem? : List A → ℕ → Option A
  get_elem? [] i = none
  get_elem? (x ∷ xs) zero = some x
  get_elem? (x ∷ xs) (suc i) = get_elem? xs i

  abbrev pub take : ℕ → List A → List A
  take zero xs = []
  take (suc n) [] = []
  take (suc n) (x ∷ xs) = x ∷ take n xs

  abbrev pub drop : ℕ → List A → List A
  drop zero xs = xs
  drop (suc n) [] = []
  drop (suc n) (x ∷ xs) = drop n xs

  pub length-append : (xs ys : List A) → length (xs ++ ys) ≡ length xs + length ys
  length-append [] ys = omega arith
  length-append (x ∷ xs) ys = omega (arith, length-append xs ys)

  pub length-take-le : (n : ℕ) (xs : List A) → length (take n xs) ≤ n
  length-take-le zero xs = omega arith
  length-take-le (suc n) [] = omega arith
  length-take-le (suc n) (x ∷ xs) = omega (arith, length-take-le n xs)

  pub take_of_length-le : (n : ℕ) (xs : List A) → length xs ≤ n → take n xs ≡ xs
  take_of_length-le (suc n) (y ∷ ys) bound =
      let rest : take n ys ≡ ys = take_of_length-le n ys (omega arith) in ap (λ zs. y ∷ zs) rest
  take_of_length-le (suc n) [] bound = refl
  take_of_length-le zero (y ∷ ys) bound = absurd (omega arith)
  take_of_length-le zero [] bound = refl

  -- Elements that pass a Boolean test, in order.
  unfoldable pub select : (A → Bool) → List A → List A
  select p [] = []
  select p (x ∷ xs) = if p x then x ∷ select p xs else select p xs

  unfoldable pub any : (A → Bool) → List A → Bool
  any p [] = false
  any p (x ∷ xs) = p x || any p xs

  -- `P` holds of every element.
  abbrev pub All {κ} : (A → Type κ) → List A → Type κ
  All P [] = Unit
  All P (x ∷ xs) = P x × All P xs

  pub select-All : (p : A → Bool) (xs : List A) → All (λ x. p x ≡ true) (select p xs)
  unfolding select
  select-All p [] = tt
  select-All p (x ∷ xs) = ground (arith, select-All p xs)

  pub any-false : (p : A → Bool) (xs : List A) → any p xs ≡ false → All (λ x. p x ≡ false) xs
  unfolding any
  any-false p [] h = tt
  any-false p (x ∷ xs) h = ground (arith, any-false p xs)

  pub All-imp {κ ν} :
      {P : A → Type κ} {Q : A → Type ν}
      → ((x : A) → P x → Q x)
      → (xs : List A) → All P xs
      → All Q xs
  All-imp f [] h = tt
  All-imp f (x ∷ xs) h = (f x h.0, All-imp f xs h.1)

  pub All-take {κ} : (P : A → Type κ) (n : ℕ) (xs : List A) → All P xs → All P (take n xs)
  All-take P zero xs h = tt
  All-take P (suc n) [] h = tt
  All-take P (suc n) (x ∷ xs) h = (h.0, All-take P n xs h.1)

  pub any-take : (p : A → Bool) (n : ℕ) (xs : List A) → any p (take n xs) ≡ true → any p xs ≡ true
  unfolding any
  any-take p zero xs h = cc
  any-take p (suc n) [] h = h
  any-take p (suc n) (x ∷ xs) h = ground (arith, any-take p n xs)

  pub All-select {κ} :
      (P : A → Type κ) (p : A → Bool) (xs : List A)
      → All P xs
      → All (λ x. P x × (p x ≡ true)) (select p xs)
  unfolding select
  All-select P p [] h = tt
  All-select P p (x ∷ xs) h = ground (arith, All-select P p xs h.1)

pub All-get_elem? {ℓ κ} :
    {A : Type ℓ} (P : A → Type κ) (xs : List A) (i : ℕ) (x : A)
    → All P xs
    → get_elem? xs i ≡ some x
    → P x
All-get_elem? P [] i x a h = cc
All-get_elem? P (y ∷ ys) zero x a h = let q : y ≡ x = cc in subst P q a.0
All-get_elem? P (y ∷ ys) (suc i) x a h = All-get_elem? P ys i x a.1 h

pub All-map {ℓ κ ν} :
    {A : Type ℓ} {B : Type κ} (P : B → Type ν) (f : A → B) (xs : List A)
    → All (λ x. P (f x)) xs
    → All P (map f xs)
All-map P f [] h = tt
All-map P f (x ∷ xs) h = (h.0, All-map P f xs h.1)
