-- ===== src/Registry.antt =====
-- memory/node_registry.go: the registry of node sessions, their leases and the invalid marks.
-- Each method is one critical section of the registry's lock, with the time that it read and the
-- publisher as arguments. `publish` runs after the lock is released.
pub mod Lifecycle
pub mod Calls
pub mod Sessions
pub mod Methods
pub mod Expiry
pub mod Transitions
pub mod Marks
mod Tests
use stable_placement.Base.{
  ℕ, zero, ◌+◌, ◌*◌, ◌≡◌, ltb, leb, if◌then◌else◌, Bool, true, false, not, ◌&&◌, ◌||◌, Option, none,
  some, List, [], ◌∷◌, ◌++◌, map, Text, same, before, Map, Set, lookup, insert, delete, member,
  size, length, select, take, sort, increment, ℤ,
}
use stable_placement.Model.{
  Result, ok, err, Error, Node, NodeStatus, NodeLease, NodeLeaseGrant, NodeMetrics, no_metrics,
  validate_node_metrics, RenewNodeCommand, PlacementEvent, no_event, EventType, Publisher, Outcome,
  refuse, is_offline, ◌>>=◌, ◌>>◌, guard,
}
use stable_placement.Model.Lease.{
  unix_milli, millisecond, initial_node_lease_version, deadline_from, normalize_ttl,
}
use stable_placement.Identity.{separator, new_node_identity}

-- The publisher and the clock are arguments, and so is the completeDrain hook.
pub record NodeRegistry : Type 0 where
  pub nodes : Map Node
  pub invalid : Map Set
  pub ttl : ℕ

-- `NewNodeRegistry`
unfoldable pub new_node_registry : ℤ → Result NodeRegistry
unfolding normalize_ttl
new_node_registry ttl = elim (normalize_ttl ttl) [
  | none ↦ err Error.invalid_node_lease_ttl
  | some normalized ↦ ok (record { nodes = []; invalid = []; ttl = normalized })
]

unfoldable pub publish : Option Publisher → PlacementEvent → Option Error
publish none e = none
publish (some p) e = p e

abbrev pub sent_to : Option Publisher → List PlacementEvent → List PlacementEvent
sent_to none es = []
sent_to (some p) es = es

abbrev pub unless_error : {A : Type 0} → Option Error → A → Result A
unless_error none a = ok a
unless_error (some e) a = err e

-- The end of a method: the state is stored, the event is published, and an error of the publisher
-- is returned in place of the result.
abbrev pub announce : {S A : Type 0} → S → Option Publisher → PlacementEvent → A → Outcome S A
announce s p e a = record {
  state = s;
  sent = sent_to p (e ∷ []);
  result = unless_error (publish p e) a;
}

unfoldable pub lease_expired : Node → ℕ → Bool
lease_expired node now = leb node.lease.expire_at_unix_milli (unix_milli now)

unfoldable pub lease_grant : Node → ℕ → NodeLeaseGrant
unfolding deadline_from
lease_grant node now = record {
  version = node.lease.version;
  valid_until = deadline_from now node.lease.expire_at_unix_milli;
}

unfoldable pub new_lease : NodeRegistry → ℕ → NodeLease
new_lease r now = record {
  version = initial_node_lease_version;
  ttl_millis = unix_milli r.ttl;
  expire_at_unix_milli = unix_milli (now + r.ttl);
}

unfoldable pub group_key : Text → Text → Text
group_key node_type node_group = node_type ++ separator ∷ node_group

abbrev pub names_of : Option Set → Set
names_of none = []
names_of (some s) = s

-- `isInvalidLocked`, and `IsInvalid` under the read lock.
unfoldable pub is_invalid : NodeRegistry → Text → Text → Text → Bool
is_invalid r node_type node_group node_name =
    member node_name (names_of (lookup (group_key node_type node_group) r.invalid))

unfoldable pub node_event : EventType → Node → ℕ → PlacementEvent
node_event type node now = record no_event {
  type = type;
  node_identity = node.node_identity;
  node_session_id = node.node_session_id;
  node_type = node.node_type;
  node_group = node.node_group;
  node_name = node.node_name;
  node_lease_version = node.lease.version;
  time = now;
}

unfoldable pub normalize_node_identity : Node → Result (Unit {0})
normalize_node_identity node = do
  guard (not (same node.node_session_id [])) Error.session_empty
  expected ← new_node_identity node.node_type node.node_group node.node_name
  guard (same node.node_identity expected) Error.identity_mismatch

-- The node that RegisterNode and ReplaceNodeSession store: no metrics, active, a new lease.
unfoldable pub fresh_node : NodeRegistry → Node → ℕ → Node
unfolding new_lease
fresh_node r node now = record node {
  metrics = no_metrics;
  status = NodeStatus.active;
  lease = new_lease r now;
}

abbrev pub put_node : NodeRegistry → Text → Node → NodeRegistry
put_node r identity node = record r { nodes = insert identity node r.nodes }

register_valid : NodeRegistry → Option Publisher → Node → ℕ → Outcome NodeRegistry NodeLeaseGrant
unfolding fresh_node lease_expired node_event publish
register_valid r p node now = elim (lookup node.node_identity r.nodes) [
  | none ↦
      let stored = fresh_node r node now in
      announce (put_node r node.node_identity stored) p
        (node_event EventType.node_registered stored now) (lease_grant stored now)
  | some existing ↦
      if not (same existing.node_session_id node.node_session_id)
      then refuse r Error.invalid_node_session
      else if is_offline existing.status || lease_expired existing now
      then refuse r Error.node_lease_expired
      else record { state = r; sent = []; result = ok (lease_grant existing now) }
]

-- `RegisterNode`
unfoldable pub register_node :
    NodeRegistry → Option Publisher → Node → ℕ → Outcome NodeRegistry NodeLeaseGrant
unfolding register_valid
register_node r p node now = elim (normalize_node_identity node) [
  | err e ↦ refuse r e
  | ok _ ↦ register_valid r p node now
]

metrics_error : Option NodeMetrics → Result (Unit {0})
unfolding validate_node_metrics
metrics_error none = ok tt
metrics_error (some m) = validate_node_metrics m

stamped : Option NodeMetrics → NodeMetrics → ℕ → NodeMetrics
stamped none old now = old
stamped (some m) old now = record m { updated_at_unix_milli = ℤ.pos (unix_milli now) }

later_of : ℕ → ℕ → ℕ
later_of old new = if ltb old new then new else old

unfoldable pub renewed : Node → Option NodeMetrics → ℕ → Node
unfolding stamped later_of
renewed node metrics now = record node {
  lease = record node.lease {
    version = increment node.lease.version;
    expire_at_unix_milli =
        later_of node.lease.expire_at_unix_milli
          (unix_milli (now + node.lease.ttl_millis * millisecond));
  };
  metrics = stamped metrics node.metrics now;
}

renew_found : NodeRegistry → RenewNodeCommand → ℕ → Node → Outcome NodeRegistry NodeLeaseGrant
unfolding lease_expired renewed metrics_error
renew_found r cmd now node =
    if is_offline node.status
    then refuse r Error.node_not_found
    else if not (same node.node_session_id cmd.node_session_id)
    then refuse r Error.invalid_node_session
    else if lease_expired node now
    then refuse r Error.node_lease_expired
    else elim (metrics_error cmd.metrics) [
      | err e ↦ refuse r e
      | ok _ ↦
          let node' = renewed node cmd.metrics now in
          record {
            state = put_node r cmd.node_identity node';
            sent = [];
            result = ok (lease_grant node' now);
          }
    ]

-- `RenewNode`
unfoldable pub renew_node :
    NodeRegistry → RenewNodeCommand → ℕ → Outcome NodeRegistry NodeLeaseGrant
unfolding renew_found
renew_node r cmd now = elim (lookup cmd.node_identity r.nodes) [
  | none ↦ refuse r Error.node_not_found
  | some node ↦ renew_found r cmd now node
]

-- `ReplaceNodeSession`; the node that it returns is the old one, or the zero value.
unfoldable pub replace_node_session :
    NodeRegistry → Option Publisher → Node → ℕ → Outcome NodeRegistry (Option Node × NodeLeaseGrant)
unfolding fresh_node node_event publish
replace_node_session r p node now = elim (normalize_node_identity node) [
  | err e ↦ refuse r e
  | ok _ ↦
      let old = lookup node.node_identity r.nodes in
      let stored = fresh_node r node now in
      let replaced =
        announce (put_node r node.node_identity stored) p
          (node_event EventType.node_replaced stored now) (old, lease_grant stored now) in
      elim old [
        | none ↦ replaced
        | some o ↦
            if same o.node_session_id node.node_session_id
            then refuse r Error.invalid_node_session
            else replaced
      ]
]
