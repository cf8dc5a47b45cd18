-- ===== src/Directory.antt =====
-- memory/directory.go: the placements of grains on nodes, indexed by node. The directory locks the
-- registry with itself, so each critical section sees and leaves both. The times that a method reads,
-- the random placement id, the strategy's answer and the publisher are arguments.
pub mod Moves
pub mod Resolve
pub mod Allocate
pub mod Index
pub mod Checks
pub mod Effects
pub mod Decisions
pub mod Calls
pub mod Ownership
pub mod Safety
pub mod Candidates
pub mod Routing
pub mod Allocation
pub mod Paging
pub mod Reachable
mod Tests
use stable_placement.Base.{
  ℕ, zero, ◌≡◌, ltb, leb, ◌==◌, if◌then◌else◌, Bool, true, false, not, ◌&&◌, ◌||◌, Option, none,
  some, List, [], ◌∷◌, map, Text, same, before, Map, Set, lookup, insert, delete, member, size,
  select, sort, increment,
}
use stable_placement.Model.{
  Result, ok, err, Error, ◌>>=◌, ◌>>◌, guard, or_fail, Node, NodeStatus, Placement, PlacementStatus,
  PlacementRoute, PlacementEvent, no_event, EventType, Publisher, Outcome, refuse, is_active,
  is_active_node, is_offline, placement_recoverable, RenewCommand, ReleaseCommand, TransferCommand,
  RecoverCommand,
}
use stable_placement.Model.Lease.{deadline_from}
use stable_placement.Strategy.{StrategyMode}
use stable_placement.Registry.{
  NodeRegistry, publish, sent_to, announce, unless_error, lease_expired, is_invalid, names_of,
}

pub record Directory : Type 0 where
  pub placements : Map Placement
  pub by_node : Map Set
  pub registry : NodeRegistry

is_go : StrategyMode → Bool
is_go StrategyMode.go = true
is_go StrategyMode.redis_round_robin = false
is_go StrategyMode.redis_resource_aware = false

-- `NewDirectory`. The hook that it hands to the registry is `has_placements`.
unfoldable pub new_directory : NodeRegistry → StrategyMode → Result Directory
unfolding is_go
new_directory registry mode =
    if is_go mode
    then ok (record { placements = []; by_node = []; registry = registry })
    else err Error.unsupported_strategy_mode

-- `addNodeIndexLocked` and `deleteNodeIndexLocked`; an empty set is dropped.
unfoldable pub add_node_index : Map Set → Text → Text → Map Set
add_node_index m identity key = insert identity (insert key tt (names_of (lookup identity m))) m

unfoldable pub delete_node_index : Map Set → Text → Text → Map Set
delete_node_index m identity key =
    let keys = delete key (names_of (lookup identity m)) in
    if size keys == 0 then delete identity m else insert identity keys m

unfoldable pub session_usable : Node → ℕ → Bool
unfolding lease_expired
session_usable node now = not (is_offline node.status) && not (lease_expired node now)

unfoldable pub routeable_on : Option Node → Placement → ℕ → Bool
unfolding session_usable
routeable_on none placement now = false
routeable_on (some node) placement now =
    same placement.owner_node_session_id node.node_session_id && session_usable node now

-- `placementRouteableLocked`
unfoldable pub placement_routeable : Directory → Placement → ℕ → Bool
unfolding routeable_on
placement_routeable d placement now =
    is_active placement.status
    && routeable_on (lookup placement.node_identity d.registry.nodes) placement now

-- `targetAvailableLocked`
unfoldable pub target_available : Directory → Node → ℕ → Bool
unfolding lease_expired
target_available d node now =
    is_active_node node.status
    && (not (lease_expired node now)
        && not (is_invalid d.registry node.node_type node.node_group node.node_name))

-- `routeLocked`. A node that is missing reads as the zero value.
unfoldable pub route_of : Placement → Option Node → ℕ → PlacementRoute
unfolding deadline_from
route_of placement node now = record {
  grain_key = placement.grain_key;
  placement_id = placement.placement_id;
  node_identity = placement.node_identity;
  owner_node_session_id = placement.owner_node_session_id;
  version = placement.version;
  status = placement.status;
  node_lease_version = elim node [ none ↦ 0 | some n ↦ n.lease.version ];
  valid_until = deadline_from now (elim node [ none ↦ 0 | some n ↦ n.lease.expire_at_unix_milli ]);
}

-- `Lookup`
unfoldable pub lookup_route : Directory → Text → ℕ → Result PlacementRoute
unfolding placement_routeable route_of
lookup_route d key now = do
  placement ← or_fail (lookup key d.placements) Error.placement_not_found
  guard (placement_routeable d placement now) Error.placement_not_found
  ok (route_of placement (lookup placement.node_identity d.registry.nodes) now)

-- `Exists`
unfoldable pub exists : Directory → Text → ℕ → Bool
unfolding placement_routeable
exists d key now = elim (lookup key d.placements) [
  | none ↦ false
  | some placement ↦ placement_routeable d placement now
]

unfoldable pub moved : Placement → Node → ℕ → Placement
moved placement target now = record placement {
  node_identity = target.node_identity;
  owner_node_session_id = target.node_session_id;
  version = increment placement.version;
  status = PlacementStatus.active;
  update_time = now;
}

-- `movePlacementLocked`
unfoldable pub move_placement : Directory → Placement → Node → ℕ → Directory
unfolding moved add_node_index delete_node_index
move_placement d placement target now = record d {
  placements = insert placement.grain_key (moved placement target now) d.placements;
  by_node =
      add_node_index (delete_node_index d.by_node placement.node_identity placement.grain_key)
        target.node_identity placement.grain_key;
}

-- The event that `publish` builds.
unfoldable pub placement_event : EventType → Placement → ℕ → PlacementEvent
placement_event type placement now = record no_event {
  type = type;
  grain_key = placement.grain_key;
  placement_id = placement.placement_id;
  node_identity = placement.node_identity;
  node_session_id = placement.owner_node_session_id;
  placement_version = placement.version;
  time = now;
}

-- `publishBestEffort`: an error of the publisher is logged and dropped.
abbrev pub announce_best_effort :
    {S A : Type 0} → S → Option Publisher → PlacementEvent → A → Outcome S A
announce_best_effort s p e a = record { state = s; sent = sent_to p (e ∷ []); result = ok a }

-- The guards that every command about a placement starts with.
unfoldable pub find_active : Directory → Text → Result Placement
find_active d key = do
  placement ← or_fail (lookup key d.placements) Error.placement_not_found
  guard (is_active placement.status) Error.placement_not_found
  ok placement

unfoldable pub check_renew : Directory → RenewCommand → ℕ → Result Placement
unfolding find_active lease_expired
check_renew d cmd now = do
  placement ← find_active d cmd.grain_key
  guard (same placement.node_identity cmd.node_identity) Error.invalid_owner
  guard (same placement.placement_id cmd.placement_id) Error.version_conflict
  guard (placement.version == cmd.placement_version) Error.version_conflict
  node ← or_fail (lookup placement.node_identity d.registry.nodes) Error.placement_owner_unavailable
  guard (not (is_offline node.status)) Error.placement_owner_unavailable
  guard
      (same placement.owner_node_session_id cmd.node_session_id
        && same node.node_session_id cmd.node_session_id)
      Error.invalid_node_session
  guard (not (lease_expired node now)) Error.node_lease_expired
  ok placement

-- `Renew` changes nothing; it answers for the placement and publishes an audit event.
unfoldable pub renew :
    Directory → Option Publisher → RenewCommand → ℕ → ℕ → Outcome Directory Placement
unfolding placement_event publish
renew d p cmd now published = elim (check_renew d cmd now) [
  | err e ↦ refuse d e
  | ok placement ↦
      announce d p (placement_event EventType.placement_renewed placement published) placement
]

unfoldable pub check_release : Directory → ReleaseCommand → Result Placement
unfolding find_active
check_release d cmd = do
  placement ← find_active d cmd.grain_key
  guard (same placement.node_identity cmd.node_identity) Error.invalid_owner
  guard (same placement.placement_id cmd.placement_id) Error.version_conflict
  guard (placement.version == cmd.placement_version) Error.version_conflict
  node ← or_fail (lookup placement.node_identity d.registry.nodes) Error.placement_owner_unavailable
  guard
      (same placement.owner_node_session_id cmd.node_session_id
        && same node.node_session_id cmd.node_session_id)
      Error.invalid_node_session
  ok placement

-- `Release` removes the placement before it publishes, so that an error of the publisher is
-- reported with the placement gone.
unfoldable pub release :
    Directory → Option Publisher → ReleaseCommand → ℕ → ℕ → Outcome Directory (Unit {0})
unfolding delete_node_index placement_event publish
release d p cmd now published = elim (check_release d cmd) [
  | err e ↦ refuse d e
  | ok placement ↦
      let d' = record d {
        placements = delete cmd.grain_key d.placements;
        by_node = delete_node_index d.by_node placement.node_identity cmd.grain_key;
      } in
      let last = record placement { version = increment placement.version; update_time = now } in
      announce d' p (placement_event EventType.placement_released last published) tt
]
