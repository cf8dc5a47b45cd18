-- ===== src/Directory/Moves.antt =====
-- memory/directory.go: Transfer and Recover, which move a placement to a node that the caller names.
use stable_placement.Base.{ℕ, ◌==◌, not, ◌&&◌, ◌||◌, Option, [], same, lookup}
use stable_placement.Model.{
  Result, ok, err, Error, ◌>>=◌, ◌>>◌, guard, or_fail, Node, Placement, EventType, Publisher,
  Outcome, refuse, placement_recoverable, TransferCommand, RecoverCommand,
}
use stable_placement.Directory.{
  Directory, find_active, placement_routeable, target_available, move_placement, moved,
  placement_event, announce_best_effort,
}

unfoldable pub check_transfer : Directory → TransferCommand → ℕ → Result (Placement × Node)
unfolding find_active
check_transfer d cmd now = do
  placement ← find_active d cmd.grain_key
  guard (same placement.placement_id cmd.placement_id) Error.version_conflict
  guard (placement.version == cmd.placement_version) Error.version_conflict
  guard (same cmd.from_node_identity [] || same placement.node_identity cmd.from_node_identity)
      Error.invalid_owner
  target ← or_fail (lookup cmd.to_node_identity d.registry.nodes) Error.no_available_node
  guard (target_available d target now) Error.no_available_node
  ok (placement, target)

-- `Transfer`
unfoldable pub transfer :
    Directory → Option Publisher → TransferCommand → ℕ → ℕ → Outcome Directory Placement
unfolding placement_event
transfer d p cmd now published = elim (check_transfer d cmd now) [
  | err e ↦ refuse d e
  | ok (placement, target) ↦
      let placement' = moved placement target now in
      announce_best_effort (move_placement d placement target now) p
        (placement_event EventType.placement_transferred placement' published) placement'
]

unfoldable pub check_recover : Directory → RecoverCommand → ℕ → Result (Placement × Node)
unfolding find_active
check_recover d cmd now = do
  placement ← or_fail (lookup cmd.grain_key d.placements) Error.placement_not_found
  guard (same placement.placement_id cmd.placement_id) Error.version_conflict
  guard (placement.version == cmd.placement_version) Error.version_conflict
  guard (placement_recoverable placement.status && not (placement_routeable d placement now))
      Error.placement_not_recoverable
  target ← or_fail (lookup cmd.new_node_identity d.registry.nodes) Error.no_available_node
  guard (target_available d target now) Error.no_available_node
  ok (placement, target)

-- `Recover`
unfoldable pub recover :
    Directory → Option Publisher → RecoverCommand → ℕ → ℕ → Outcome Directory Placement
unfolding placement_event
recover d p cmd now published = elim (check_recover d cmd now) [
  | err e ↦ refuse d e
  | ok (placement, target) ↦
      let placement' = moved placement target now in
      announce_best_effort (move_placement d placement target now) p
        (placement_event EventType.placement_recovered placement' published) placement'
]
