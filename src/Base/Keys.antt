-- ===== src/Base/Keys.antt =====
-- Maps whose keys are distinct, as every Go map is, and the keys of selected entries.
use mathlib.Core.Path.{◌≡◌, refl}
use mathlib.Core.Bool.{Bool, true, false}
use mathlib.Core.Option.{some}
use mathlib.Core.List.{List, [], ◌∷◌, map}
use mathlib.Core.Logic.{inl, inr}
use native.Mathlib.Omega.{arith}
use stable_placement.Base.Tests.{Bool-cases}
use stable_placement.Base.Texts.{Text, same, eq_of_same}
use stable_placement.Base.Lists.{select, any, All, All-imp}
use stable_placement.Base.Maps.{Map, lookup, insert, delete, member, member-insert, member-delete}

module _ {ℓ} {V : Type ℓ} where
  abbrev pub Distinct : Map V → Type 0
  Distinct [] = Unit {0}
  Distinct ((k, v) ∷ m) = (member k m ≡ false) × Distinct m

  pub insert-Distinct : (k : Text) (v : V) (m : Map V) → Distinct m → Distinct (insert k v m)
  unfolding insert member
  insert-Distinct k v [] d = (refl, tt)
  insert-Distinct k v ((j, w) ∷ m) d =
      ground (arith, insert-Distinct k v m d.1, member-insert k j v m)

  pub delete-Distinct : (k : Text) (m : Map V) → Distinct m → Distinct (delete k m)
  unfolding delete
  delete-Distinct k [] d = tt
  delete-Distinct k ((j, w) ∷ m) d = ground (arith, delete-Distinct k m d.1, member-delete k j m)

  pub keys : Map V → List Text
  keys m = map (λ e. e.0) m

  pub picked_of_lookup :
      (p : Text × V → Bool) (k : Text) (v : V) (m : Map V)
      → lookup k m ≡ some v
      → p (k, v) ≡ true
      → any (λ i. same i k) (map (λ e. e.0) (select p m)) ≡ true
  unfolding lookup any select
  picked_of_lookup p k v [] h e = cc
  picked_of_lookup p k v ((j, w) ∷ m) h e = elim (Bool-cases (same j k)) [
    | inl s ↦ let q : j ≡ k = eq_of_same j k s in ground arith
    | inr s ↦ ground (arith, picked_of_lookup p k v m)
  ]

  not-picked :
      (p : Text × V → Bool) (k : Text) (m : Map V)
      → member k m ≡ false
      → any (λ i. same i k) (map (λ e. e.0) (select p m)) ≡ false
  unfolding member any select
  not-picked p k [] h = refl
  not-picked p k ((j, w) ∷ m) h = ground (arith, not-picked p k m)

  pub lookup_of_picked :
      (p : Text × V → Bool) (k : Text) (v : V) (m : Map V)
      → Distinct m
      → lookup k m ≡ some v
      → any (λ i. same i k) (map (λ e. e.0) (select p m)) ≡ true
      → p (k, v) ≡ true
  unfolding lookup any select
  lookup_of_picked p k v [] d h e = cc
  lookup_of_picked p k v ((j, w) ∷ m) d h e = elim (Bool-cases (same j k)) [
    | inl s ↦ let q : j ≡ k = eq_of_same j k s in ground (arith, not-picked p k m)
    | inr s ↦ ground (arith, lookup_of_picked p k v m d.1)
  ]

  member_of_lookup : (k : Text) (v : V) (m : Map V) → lookup k m ≡ some v → member k m ≡ true
  unfolding lookup member
  member_of_lookup k v [] h = cc
  member_of_lookup k v ((j, w) ∷ m) h = ground (arith, member_of_lookup k v m)

  lookup_of_entry :
      (k : Text) (v : V) (m : Map V) (e : Text × V)
      → member k m ≡ false
      → lookup e.0 m ≡ some e.1
      → lookup e.0 ((k, v) ∷ m) ≡ some e.1
  unfolding lookup
  lookup_of_entry k v m e absent h = elim (Bool-cases (same k e.0)) [
    | inl s ↦
        let q : k ≡ e.0 = eq_of_same k e.0 s in
        let present : member e.0 m ≡ true = member_of_lookup e.0 e.1 m h in absurd (ground arith)
    | inr s ↦ ground arith
  ]

  -- every entry of a map with distinct keys is what its key looks up
  pub entries-lookup : (m : Map V) → Distinct m → All (λ e. lookup e.0 m ≡ some e.1) m
  unfolding lookup
  entries-lookup [] d = tt
  entries-lookup ((k, v) ∷ m) d =
      (ground arith, All-imp (λ e h. lookup_of_entry k v m e d.0 h) m (entries-lookup m d.1))
