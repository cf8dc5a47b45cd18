-- ===== src/Base/Sorting.antt =====
-- Insertion sort by a strict Boolean order. It stands for `sort.Slice` and `sort.Strings`, whose
-- result is the same for keys that differ.
use Prim.Native.Nat.{suc}
use mathlib.Core.Path.{◌≡◌, refl}
use mathlib.Core.Logic.{inl, inr}
use mathlib.Core.Bool.{Bool, true, false, ◌||◌}
use mathlib.Core.List.{List, [], ◌∷◌}
use native.Mathlib.Omega.{arith}
use stable_placement.Base.Tests.{if◌then◌else◌, Bool-cases}
use stable_placement.Base.Lists.{length, any, All, All-imp}

module _ {ℓ} {A : Type ℓ} (less : A → A → Bool) where
  unfoldable pub insert_sorted : A → List A → List A
  insert_sorted x [] = x ∷ []
  insert_sorted x (y ∷ ys) = if less y x then y ∷ insert_sorted x ys else x ∷ y ∷ ys

  unfoldable pub sort : List A → List A
  unfolding insert_sorted
  sort [] = []
  sort (x ∷ xs) = insert_sorted x (sort xs)

  insert_sorted-All {κ} :
      (P : A → Type κ) (x : A) (xs : List A) → P x → All P xs → All P (insert_sorted x xs)
  unfolding insert_sorted
  insert_sorted-All P x [] h hs = (h, tt)
  insert_sorted-All P x (y ∷ ys) h hs = ground (arith, insert_sorted-All P x ys h hs.1)

  pub sort-All {κ} : (P : A → Type κ) (xs : List A) → All P xs → All P (sort xs)
  unfolding sort
  sort-All P [] h = tt
  sort-All P (x ∷ xs) h = insert_sorted-All P x (sort xs) h.0 (sort-All P xs h.1)

  length-insert_sorted : (x : A) (xs : List A) → length (insert_sorted x xs) ≡ suc (length xs)
  unfolding insert_sorted
  length-insert_sorted x [] = refl
  length-insert_sorted x (y ∷ ys) = ground (arith, length-insert_sorted x ys)

  pub length-sort : (xs : List A) → length (sort xs) ≡ length xs
  unfolding sort
  length-sort [] = refl
  length-sort (x ∷ xs) = ground (arith, length-insert_sorted x (sort xs), length-sort xs)

  any-insert_sorted :
      (p : A → Bool) (x : A) (xs : List A) → any p (insert_sorted x xs) ≡ (p x || any p xs)
  unfolding insert_sorted any
  any-insert_sorted p x [] = refl
  any-insert_sorted p x (y ∷ ys) = ground (arith, any-insert_sorted p x ys)

  -- Sorting neither loses nor adds an element.
  pub any-sort : (p : A → Bool) (xs : List A) → any p (sort xs) ≡ any p xs
  unfolding sort any
  any-sort p [] = refl
  any-sort p (x ∷ xs) = ground (arith, any-insert_sorted p x (sort xs), any-sort p xs)

  -- Nothing comes before the first element of a sorted list.
  abbrev pub Least : List A → Type 0
  Least [] = Unit {0}
  Least (h ∷ t) = All (λ c. less c h ≡ false) t

  insert_sorted-Least :
      ((a b : A) → less a b ≡ true → less b a ≡ false)
      → ((a b c : A) → less a b ≡ false → less b c ≡ false → less a c ≡ false)
      → (x : A) (xs : List A) → Least xs
      → Least (insert_sorted x xs)
  unfolding insert_sorted
  insert_sorted-Least asym negtrans x [] h = tt
  insert_sorted-Least asym negtrans x (y ∷ ys) h = elim (Bool-cases (less y x)) [
    | inl e ↦ rw e (insert_sorted-All (λ c. less c y ≡ false) x ys (asym y x e) h)
    | inr e ↦ rw e (e, All-imp (λ c g. negtrans c y x g e) ys h)
  ]

  pub sort-Least :
      ((a b : A) → less a b ≡ true → less b a ≡ false)
      → ((a b c : A) → less a b ≡ false → less b c ≡ false → less a c ≡ false)
      → (xs : List A) → Least (sort xs)
  unfolding sort
  sort-Least asym negtrans [] = tt
  sort-Least asym negtrans (x ∷ xs) =
      insert_sorted-Least asym negtrans x (sort xs) (sort-Least asym negtrans xs)

  insert_sorted-All_rev {κ} :
      (P : A → Type κ) (x : A) (xs : List A) → All P (insert_sorted x xs) → P x × All P xs
  unfolding insert_sorted
  insert_sorted-All_rev P x [] h = (h.0, tt)
  insert_sorted-All_rev P x (y ∷ ys) h = elim (Bool-cases (less y x)) [
    | inl e ↦
        let k : All P (y ∷ insert_sorted x ys) = rw e at h in
        let (a, b) = insert_sorted-All_rev P x ys k.1 in (a, (k.0, b))
    | inr e ↦ let k : All P (x ∷ y ∷ ys) = rw e at h in (k.0, k.1)
  ]

  pub sort-All_rev {κ} : (P : A → Type κ) (xs : List A) → All P (sort xs) → All P xs
  unfolding sort
  sort-All_rev P [] h = tt
  sort-All_rev P (x ∷ xs) h =
      let (a, b) = insert_sorted-All_rev P x (sort xs) h in (a, sort-All_rev P xs b)
