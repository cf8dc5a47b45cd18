-- ===== src/Registry/Lifecycle.antt =====
-- memory/node_registry.go: unregistration, expiry, draining, invalid marks and the listings.
use stable_placement.Base.{
  ℕ, ◌==◌, if◌then◌else◌, Bool, false, not, ◌&&◌, ◌||◌, Option, none, some, List, [], ◌∷◌, map,
  Text, same, before, Map, lookup, insert, delete, size, length, select, take, sort,
}
use stable_placement.Model.{
  Result, ok, err, Error, Node, NodeStatus, PlacementEvent, no_event, EventType, Publisher, Outcome,
  refuse, is_offline,
}
use stable_placement.Identity.{new_node_identity}
use stable_placement.Registry.{
  NodeRegistry, publish, announce, lease_expired, group_key, names_of, node_event, put_node,
  is_invalid,
}

-- What the event of a mark carries: the parts of the name and no session.
mark_event : EventType → Text → Text → Text → Text → ℕ → PlacementEvent
mark_event type identity node_type node_group node_name now = record no_event {
  type = type;
  node_identity = identity;
  node_type = node_type;
  node_group = node_group;
  node_name = node_name;
  time = now;
}

-- `unregisterNode`. `has_active` is the answer of hasActivePlacements, `none` where it is nil.
unfoldable pub unregister_locked :
    NodeRegistry → Text → Text → Option Bool → ℕ → Result (NodeRegistry × PlacementEvent)
unfolding node_event
unregister_locked r identity session has_active now = elim (lookup identity r.nodes) [
  | none ↦ err Error.node_not_found
  | some node ↦
      if not (same node.node_session_id session)
      then err Error.invalid_node_session
      else if elim has_active [ none ↦ false | some b ↦ b ]
      then err Error.node_has_placements
      else ok (
        record r { nodes = delete identity r.nodes },
        node_event EventType.node_unregistered node now,
      )
]

-- `UnregisterNode` and `CompleteDrain`: publish what `unregisterNode` gave.
unfoldable pub finish_unregister :
    NodeRegistry
    → Option Publisher
    → Result (NodeRegistry × PlacementEvent)
    → Outcome NodeRegistry (Unit {0})
unfolding publish
finish_unregister r p (err e) = refuse r e
finish_unregister r p (ok (r', event)) = announce r' p event tt

unfoldable pub unregister_node :
    NodeRegistry → Option Publisher → Text → Text → ℕ → Outcome NodeRegistry (Unit {0})
unfolding unregister_locked finish_unregister
unregister_node r p identity session now =
    finish_unregister r p (unregister_locked r identity session none now)

-- `CompleteDrain`. The directory's hook tells whether the node still has placements; `none` stands
-- for a registry with no directory.
unfoldable pub complete_drain :
    NodeRegistry
    → Option Publisher
    → Option (Text → Bool)
    → Text
    → Text
    → ℕ
    → Outcome NodeRegistry (Unit {0})
unfolding unregister_locked finish_unregister
complete_drain r p none identity session now =
    finish_unregister r p (unregister_locked r identity session none now)
complete_drain r p (some has_placements) identity session now =
    finish_unregister r p
      (unregister_locked r identity session (some (has_placements identity)) now)

-- The loop over the candidates of ExpireNodeLeases. It reads each node again.
unfoldable pub expire_each : ℕ → List Text → NodeRegistry → NodeRegistry × List PlacementEvent
unfolding lease_expired node_event
expire_each now [] r = (r, [])
expire_each now (identity ∷ rest) r = elim (lookup identity r.nodes) [
  | none ↦ expire_each now rest r
  | some node ↦
      let skipped = expire_each now rest r in
      if is_offline node.status || not (lease_expired node now)
      then skipped
      else (let node' = record node { status = NodeStatus.offline } in
          let (r', events) = expire_each now rest (put_node r identity node') in
          (r', node_event EventType.node_lease_expired node' now ∷ events))
]

unfoldable pub in_group : Text → Text → Node → Bool
in_group node_type node_group node =
    same node.node_type node_type && same node.node_group node_group

unfoldable pub expirable : Text → Text → ℕ → Text × Node → Bool
unfolding lease_expired in_group
expirable node_type node_group now (identity, node) =
    in_group node_type node_group node && (not (is_offline node.status) && lease_expired node now)

-- The first `limit` expired sessions of the group, in the order of their identities.
unfoldable pub expiry_candidates : NodeRegistry → Text → Text → ℕ → ℕ → List Text
unfolding expirable select sort before
expiry_candidates r node_type node_group limit now =
    take limit (sort before (map (λ e. e.0) (select (expirable node_type node_group now) r.nodes)))

-- Publishing stops at the first error.
unfoldable pub publish_all :
    Option Publisher → List PlacementEvent → List PlacementEvent × Option Error
publish_all none es = ([], none)
publish_all (some p) [] = ([], none)
publish_all (some p) (e ∷ es) = elim (p e) [
  | some x ↦ (e ∷ [], some x)
  | none ↦ let (sent, x) = publish_all (some p) es in (e ∷ sent, x)
]

-- `ExpireNodeLeases` returns the number of sessions that it put offline, and beside it the
-- publisher's error. `limit` is 0 where the source has a limit that is not positive.
unfoldable pub expire_node_leases :
    NodeRegistry → Option Publisher → Text → Text → ℕ → ℕ → Outcome NodeRegistry (ℕ × Option Error)
unfolding expire_each expiry_candidates publish_all
expire_node_leases r p node_type node_group limit now =
    if limit == 0
    then record { state = r; sent = []; result = ok (0, none) }
    else (let (r', events) =
          expire_each now (expiry_candidates r node_type node_group limit now) r in
        let (sent, e) = publish_all p events in
        record { state = r'; sent = sent; result = ok (length events, e) })

nodes_of : Map Node → List Node
nodes_of m = map (λ e. e.1) m

-- `FindNodes`
unfoldable pub find_nodes : NodeRegistry → Text → Text → List Node
unfolding nodes_of in_group select sort before
find_nodes r node_type node_group =
    sort (λ a b. before a.node_identity b.node_identity)
      (select (in_group node_type node_group) (nodes_of r.nodes))

-- `DrainNode`
unfoldable pub drain_node :
    NodeRegistry → Option Publisher → Text → ℕ → Outcome NodeRegistry (Unit {0})
unfolding is_invalid node_event publish
drain_node r p identity now = elim (lookup identity r.nodes) [
  | none ↦ refuse r Error.node_not_found
  | some node ↦
      if not (is_invalid r node.node_type node.node_group node.node_name)
      then refuse r Error.node_not_invalid
      else if is_offline node.status
      then refuse r Error.node_not_found
      else (let node' = record node { status = NodeStatus.draining } in
          announce (put_node r identity node') p (node_event EventType.node_draining node' now) tt)
]

-- `MarkNodeInvalid`
unfoldable pub mark_node_invalid :
    NodeRegistry → Option Publisher → Text → Text → Text → ℕ → Outcome NodeRegistry (Unit {0})
unfolding group_key mark_event publish
mark_node_invalid r p node_type node_group node_name now =
    elim (new_node_identity node_type node_group node_name) [
      | err e ↦ refuse r e
      | ok identity ↦
          let key = group_key node_type node_group in
          let names = insert node_name tt (names_of (lookup key r.invalid)) in
          announce (record r { invalid = insert key names r.invalid }) p
            (mark_event EventType.node_marked_invalid identity node_type node_group node_name now)
            tt
    ]

-- `RestoreNode` drops the group's set when it becomes empty.
unfoldable pub restore_node :
    NodeRegistry → Option Publisher → Text → Text → Text → ℕ → Outcome NodeRegistry (Unit {0})
unfolding group_key mark_event publish
restore_node r p node_type node_group node_name now =
    elim (new_node_identity node_type node_group node_name) [
      | err e ↦ refuse r e
      | ok identity ↦
          let key = group_key node_type node_group in
          let names = delete node_name (names_of (lookup key r.invalid)) in
          let left = if size names == 0 then delete key r.invalid else insert key names r.invalid in
          announce (record r { invalid = left }) p
            (mark_event EventType.node_restored identity node_type node_group node_name now) tt
    ]

-- `ListInvalidNodes`
unfoldable pub list_invalid_nodes : NodeRegistry → Text → Text → List Text
unfolding group_key sort before
list_invalid_nodes r node_type node_group =
    sort before (map (λ e. e.0) (names_of (lookup (group_key node_type node_group) r.invalid)))
