-- ===== src/Base/Maps.antt =====
-- Go maps keyed by strings, as association lists: a missing key reads as `none`, a write replaces
-- the entry in place or adds one, `delete` of a missing key changes nothing. A set is a map to the
-- unit type. The order of the list stands for Go's unspecified iteration order.
use stable_placement.Base.Tests.{if◌then◌else◌}
use stable_placement.Base.Texts.{Text, same}
use Prim.Native.Nat.{ℕ, suc}
use mathlib.Core.Path.{◌≡◌, refl}
use mathlib.Core.Logic.{◌≢◌}
use mathlib.Core.Bool.{Bool, true, false}
use mathlib.Core.Option.{Option, none, some}
use mathlib.Core.List.{List, [], ◌∷◌}
use native.Mathlib.Omega.{arith}

abbrev pub Map {ℓ} : Type ℓ → Type ℓ
Map V = List (Text × V)

abbrev pub Set : Type 0
Set = Map (Unit {0})

module _ {ℓ} {V : Type ℓ} where
  unfoldable pub lookup : Text → Map V → Option V
  lookup k [] = none
  lookup k ((j, v) ∷ m) = if same j k then some v else lookup k m

  unfoldable pub insert : Text → V → Map V → Map V
  insert k v [] = (k, v) ∷ []
  insert k v ((j, w) ∷ m) = if same j k then (k, v) ∷ m else (j, w) ∷ insert k v m

  unfoldable pub delete : Text → Map V → Map V
  delete k [] = []
  delete k ((j, w) ∷ m) = if same j k then delete k m else (j, w) ∷ delete k m

  unfoldable pub member : Text → Map V → Bool
  member k [] = false
  member k ((j, w) ∷ m) = if same j k then true else member k m

  -- `len(m)`
  unfoldable pub size : Map V → ℕ
  size [] = 0
  size (e ∷ m) = suc (size m)

  pub lookup-insert :
      (k j : Text) (v : V) (m : Map V)
      → lookup j (insert k v m) ≡ (if same k j then some v else lookup j m)
  unfolding lookup insert
  lookup-insert k j v [] = refl
  lookup-insert k j v ((i, w) ∷ m) = ground (arith, lookup-insert k j v m)

  pub lookup-delete :
      (k j : Text) (m : Map V) → lookup j (delete k m) ≡ (if same k j then none else lookup j m)
  unfolding lookup delete
  lookup-delete k j [] = ground arith
  lookup-delete k j ((i, w) ∷ m) = ground (arith, lookup-delete k j m)

  pub member-insert :
      (k j : Text) (v : V) (m : Map V)
      → member j (insert k v m) ≡ (if same k j then true else member j m)
  unfolding member insert
  member-insert k j v [] = refl
  member-insert k j v ((i, w) ∷ m) = ground (arith, member-insert k j v m)

  pub member-delete :
      (k j : Text) (m : Map V) → member j (delete k m) ≡ (if same k j then false else member j m)
  unfolding member delete
  member-delete k j [] = ground arith
  member-delete k j ((i, w) ∷ m) = ground (arith, member-delete k j m)

  pub member_of_size : (m : Map V) → size m ≡ 0 → (k : Text) → member k m ≡ false
  unfolding size member
  member_of_size [] h k = refl
  member_of_size (e ∷ m) h k = absurd (omega arith)

  -- a map that is not empty holds some key
  pub size_pos : (m : Map V) → size m ≢ 0 → (k : Text) × (member k m ≡ true)
  unfolding size member
  size_pos [] h = absurd (h refl)
  size_pos ((k, v) ∷ m) h = (k, ground arith)
