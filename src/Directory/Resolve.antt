-- ===== src/Directory/Resolve.antt =====
-- memory/directory.go: ResolveRoute and Allocate, which let the strategy choose a node.
use stable_placement.Base.{
  ℕ, if◌then◌else◌, Bool, true, false, not, ◌&&◌, Option, none, some, List, [], ◌∷◌, map, Text,
  same, before, Map, lookup, insert, size, select, sort, text,
}
use stable_placement.Model.{
  Result, ok, err, Error, ◌>>=◌, ◌>>◌, guard, Node, Placement, PlacementStatus, PlacementRoute,
  EventType, Publisher, Outcome, refuse, is_active, ResolveRouteCommand,
}
use stable_placement.Model.Lease.{initial_placement_version}
use stable_placement.Identity.{
  new_grain_key, new_node_identity, node_type_of, node_group_of, node_name_of, part,
}
use stable_placement.Registry.{names_of, is_invalid}
use stable_placement.Strategy.{Chooser}
use stable_placement.Directory.{
  Directory, add_node_index, delete_node_index, session_usable, placement_routeable,
  target_available, route_of, move_placement, moved, placement_event, announce_best_effort,
}

unfoldable pub eligible : Directory → Text → Text → ℕ → Node → Bool
unfolding target_available
eligible d node_type node_group now node =
    same node.node_type node_type
    && (same node.node_group node_group && target_available d node now)

-- The nodes of `effectiveNodes`, and of the first loop of `chooseTargetLocked`.
unfoldable pub effective_nodes : Directory → Text → Text → ℕ → List Node
unfolding eligible select sort before
effective_nodes d node_type node_group now =
    sort (λ a b. before a.node_identity b.node_identity)
      (select (eligible d node_type node_group now) (map (λ e. e.1) d.registry.nodes))

-- `placementCountsLocked`
unfoldable pub placement_counts : Directory → List Node → Map ℕ
placement_counts d [] = []
placement_counts d (node ∷ nodes) =
    insert node.node_identity (size (names_of (lookup node.node_identity d.by_node)))
      (placement_counts d nodes)

-- The candidate that the strategy named, by identity and session.
unfoldable pub confirm : List Node → Node → Result Node
confirm [] chosen = err Error.no_available_node
confirm (candidate ∷ rest) chosen =
    if same candidate.node_identity chosen.node_identity
      && same candidate.node_session_id chosen.node_session_id
    then ok candidate
    else confirm rest chosen

unfoldable pub is_empty : List Node → Bool
is_empty [] = true
is_empty (node ∷ nodes) = false

-- `chooseTargetLocked`
unfoldable pub choose_target : Directory → Chooser → ResolveRouteCommand → ℕ → Result Node
unfolding effective_nodes placement_counts confirm is_empty
choose_target d choose cmd now = do
  let nodes = effective_nodes d cmd.target_node_type cmd.target_node_group now
  guard (not (is_empty nodes)) Error.no_available_node
  chosen ← choose (record {
    grain_id = cmd.grain_id;
    kind = cmd.kind;
    node_type = cmd.target_node_type;
    node_group = cmd.target_node_group;
    effective_nodes = nodes;
    placement_counts = placement_counts d nodes;
  })
  confirm nodes chosen

unfoldable pub new_placement : Text → Text → Text → Text → Node → ℕ → Placement
new_placement grain_id kind key placement_id target now = record {
  grain_id = grain_id;
  kind = kind;
  grain_key = key;
  placement_id = placement_id;
  node_identity = target.node_identity;
  owner_node_session_id = target.node_session_id;
  version = initial_placement_version;
  status = PlacementStatus.active;
  create_time = now;
  update_time = now;
}

-- A placement that is not active leaves the index before its key gets a new placement.
unfoldable pub place : Directory → Option Placement → Placement → Directory
unfolding add_node_index delete_node_index
place d old placement = record d {
  placements = insert placement.grain_key placement d.placements;
  by_node =
      add_node_index
        (elim old [
          | none ↦ d.by_node
          | some o ↦ delete_node_index d.by_node o.node_identity placement.grain_key
        ])
        placement.node_identity placement.grain_key;
}

-- What ResolveRoute decides under the lock: the placement stands, or it was created or moved.
pub data Resolved : Type 0 where
  stands : Placement → Resolved
  changed : Directory → Placement → EventType → Resolved

-- The node of the owner, if it runs another session than the placement's.
unfoldable pub same_node_session : Option Node → Placement → ℕ → Option Node
unfolding session_usable
same_node_session none placement now = none
same_node_session (some node) placement now =
    if session_usable node now && not (same node.node_session_id placement.owner_node_session_id)
    then some node
    else none

unfoldable pub resolve_moved : Directory → Placement → Node → ℕ → Resolved
resolve_moved d placement target now =
    changed (move_placement d placement target now) (moved placement target now)
      EventType.placement_recovered

-- An active placement whose owner cannot serve it: it goes to the new session of the same node, or,
-- where the node is marked invalid, to a node that the strategy chooses.
unfoldable pub resolve_unavailable :
    Directory → Chooser → ResolveRouteCommand → Placement → ℕ → ℕ → Result Resolved
unfolding same_node_session resolve_moved
resolve_unavailable d choose cmd placement now choosing =
    let owner = placement.node_identity in
    elim (same_node_session (lookup owner d.registry.nodes) placement now) [
      | some node ↦ ok (resolve_moved d placement node now)
      | none ↦ do
        guard
            (is_invalid d.registry (node_type_of owner) (node_group_of owner) (node_name_of owner))
            Error.placement_owner_unavailable
        target ← choose_target d choose cmd choosing
        ok (resolve_moved d placement target now)
    ]

-- The branch of an active placement.
unfoldable pub resolve_active :
    Directory → Chooser → ResolveRouteCommand → Placement → ℕ → ℕ → Result Resolved
unfolding part
resolve_active d choose cmd placement now choosing = do
  guard
      (same (node_type_of placement.node_identity) cmd.target_node_type
        && same (node_group_of placement.node_identity) cmd.target_node_group)
      Error.placement_target_mismatch
  if placement_routeable d placement now
      then ok (stands placement)
      else resolve_unavailable d choose cmd placement now choosing

unfoldable pub resolve_new :
    Directory
    → Chooser
    → ResolveRouteCommand
    → Text
    → Text
    → Option Placement
    → ℕ
    → ℕ
    → Result Resolved
unfolding new_placement
resolve_new d choose cmd key placement_id old now choosing = do
  target ← choose_target d choose cmd choosing
  let placement = new_placement cmd.grain_id cmd.kind key placement_id target now
  ok (changed (place d old placement) placement EventType.placement_created)

unfoldable pub resolve_locked :
    Directory → Chooser → ResolveRouteCommand → Text → Text → ℕ → ℕ → Result Resolved
resolve_locked d choose cmd key placement_id now choosing = elim (lookup key d.placements) [
  | none ↦ resolve_new d choose cmd key placement_id none now choosing
  | some placement ↦
      if is_active placement.status
      then resolve_active d choose cmd placement now choosing
      else resolve_new d choose cmd key placement_id (some placement) now choosing
]

-- The checks of the command, and the placement id drawn after them.
unfoldable pub resolve_prepare : ResolveRouteCommand → Result Text → Result (Text × Text)
unfolding new_grain_key new_node_identity text
resolve_prepare cmd drawn = do
  key ← new_grain_key cmd.kind cmd.grain_id
  _ ← new_node_identity cmd.target_node_type cmd.target_node_group (text "target")
  placement_id ← drawn
  ok (key, placement_id)

-- The times that ResolveRoute reads, in order.
pub record Times : Type 0 where
  pub now : ℕ
  pub choosing : ℕ
  pub published : ℕ

unfoldable pub resolve_result :
    Directory → Option Publisher → Times → Result Resolved → Outcome Directory PlacementRoute
unfolding placement_event
resolve_result d p times (err e) = refuse d e
resolve_result d p times (ok (stands placement)) = record {
  state = d;
  sent = [];
  result = ok (route_of placement (lookup placement.node_identity d.registry.nodes) times.now);
}
resolve_result d p times (ok (changed d' placement type)) =
    announce_best_effort d' p (placement_event type placement times.published)
      (route_of placement (lookup placement.node_identity d'.registry.nodes) times.now)

-- `ResolveRoute`
unfoldable pub resolve_route :
    Directory
    → Option Publisher
    → Chooser
    → ResolveRouteCommand
    → Result Text
    → Times
    → Outcome Directory PlacementRoute
unfolding resolve_result
resolve_route d p choose cmd drawn times = elim (resolve_prepare cmd drawn) [
  | err e ↦ refuse d e
  | ok (key, placement_id) ↦
      resolve_result d p times
        (resolve_locked d choose cmd key placement_id times.now times.choosing)
]
