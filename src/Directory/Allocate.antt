-- ===== src/Directory/Allocate.antt =====
-- memory/directory.go: Allocate. It has three critical sections: it looks for the placement, it lists
-- the candidates, and, after the strategy has answered, it stores the placement if the world still
-- allows it. Other calls may run between them, so each section takes its own state.
use stable_placement.Base.{ℕ, if◌then◌else◌, not, ◌&&◌, Option, none, some, [], Text, same, lookup}
use stable_placement.Model.{
  Result, ok, err, Error, ◌>>=◌, ◌>>◌, guard, or_fail, Node, Placement, EventType, Publisher,
  Outcome, refuse, is_active, AllocateCommand,
}
use stable_placement.Identity.{new_grain_key}
use stable_placement.Strategy.{Chooser}
use stable_placement.Directory.{
  Directory, placement_routeable, target_available, placement_event, announce_best_effort,
}
use stable_placement.Directory.Resolve.{
  effective_nodes, placement_counts, is_empty, new_placement, place,
}

-- `existingAllocation`; `none` where there is no active placement.
unfoldable pub existing_allocation : Directory → Text → ℕ → Result (Option Placement)
unfolding placement_routeable
existing_allocation d key now = elim (lookup key d.placements) [
  | none ↦ ok none
  | some placement ↦
      if not (is_active placement.status)
      then ok none
      else if placement_routeable d placement now
      then ok (some placement)
      else err Error.placement_owner_unavailable
]

-- Where the first two sections and the strategy lead.
pub data Prepared : Type 0 where
  found : Placement → Prepared
  proposed : Text → Text → Node → Prepared

unfoldable pub allocate_choose : Directory → Chooser → AllocateCommand → ℕ → Result Node
unfolding effective_nodes placement_counts is_empty
allocate_choose d choose cmd now = do
  let nodes = effective_nodes d cmd.target_node_type cmd.target_node_group now
  guard (not (is_empty nodes)) Error.no_available_node
  choose (record {
    grain_id = cmd.grain_id;
    kind = cmd.kind;
    node_type = cmd.target_node_type;
    node_group = cmd.target_node_group;
    effective_nodes = nodes;
    placement_counts = placement_counts d nodes;
  })

-- `d1` and `d2` are what the first and the second section see.
unfoldable pub allocate_prepare :
    Directory → Directory → Chooser → AllocateCommand → Result Text → ℕ → ℕ → Result Prepared
unfolding new_grain_key existing_allocation allocate_choose
allocate_prepare d1 d2 choose cmd drawn now1 now2 = do
  key ← new_grain_key cmd.kind cmd.grain_id
  existing ← existing_allocation d1 key now1
  elim existing [
    | some placement ↦ ok (found placement)
    | none ↦ do
      placement_id ← drawn
      chosen ← allocate_choose d2 choose cmd now2
      ok (proposed key placement_id chosen)
  ]

-- The node that the strategy chose, read again: it must be the same session, in the group, and
-- available.
unfoldable pub current_target : Directory → AllocateCommand → Node → ℕ → Result Node
unfolding target_available
current_target d cmd chosen now = do
  current ← or_fail (lookup chosen.node_identity d.registry.nodes) Error.no_available_node
  guard
      (same current.node_session_id chosen.node_session_id
        && (same current.node_type cmd.target_node_type
            && (same current.node_group cmd.target_node_group && target_available d current now)))
      Error.no_available_node
  ok current

unfoldable pub allocate_new :
    Directory
    → Option Publisher
    → AllocateCommand
    → Text
    → Text
    → Node
    → ℕ
    → ℕ
    → Outcome Directory Placement
unfolding placement_event
allocate_new d p cmd key placement_id chosen now published =
    elim (current_target d cmd chosen now) [
      | err e ↦ refuse d e
      | ok current ↦
          let placement = new_placement cmd.grain_id cmd.kind key placement_id current now in
          announce_best_effort (place d (lookup key d.placements) placement) p
            (placement_event EventType.placement_created placement published) placement
    ]

-- The third section.
unfoldable pub allocate_commit :
    Directory
    → Option Publisher
    → AllocateCommand
    → Text
    → Text
    → Node
    → ℕ
    → ℕ
    → Outcome Directory Placement
unfolding allocate_new
allocate_commit d p cmd key placement_id chosen now published =
    elim (existing_allocation d key now) [
      | err e ↦ refuse d e
      | ok (some placement) ↦ record { state = d; sent = []; result = ok placement }
      | ok none ↦ allocate_new d p cmd key placement_id chosen now published
    ]

-- The times that Allocate reads, in order.
pub record AllocateTimes : Type 0 where
  pub looking : ℕ
  pub listing : ℕ
  pub now : ℕ
  pub published : ℕ

-- `Allocate`, with the states that its sections see.
unfoldable pub allocate :
    Directory
    → Directory
    → Directory
    → Option Publisher
    → Chooser
    → AllocateCommand
    → Result Text
    → AllocateTimes
    → Outcome Directory Placement
allocate d1 d2 d3 p choose cmd drawn times =
    elim (allocate_prepare d1 d2 choose cmd drawn times.looking times.listing) [
      | err e ↦ refuse d3 e
      | ok (found placement) ↦ record { state = d3; sent = []; result = ok placement }
      | ok (proposed key placement_id chosen) ↦
          allocate_commit d3 p cmd key placement_id chosen times.now times.published
    ]
