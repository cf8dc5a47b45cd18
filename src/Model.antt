-- ===== src/Model.antt =====
-- model.go, command.go, event.go, errors.go, directory.go and node_registry.go: the data that the
-- parts exchange. Strings are lists of bytes. A time.Time is the number of nanoseconds since the
-- Unix epoch. An int64 version is its bit pattern.
pub mod Errors
pub mod EventNames
pub mod Ids
pub mod Lease
mod Tests
unfoldable pub use Errors.*
use stable_placement.Base.{
  ◌≡◌, refl, ◌⊎◌, inl, inr, ℕ, ◌≡◌, Bool, true, false, Option, none, some, List, [], ℤ, is_negative,
  ◌||◌, Text, if◌then◌else◌, arith,
}

pub data NodeStatus : Type 0 where
  active draining offline : NodeStatus

pub data PlacementStatus : Type 0 where
  active released : PlacementStatus

abbrev pub is_offline : NodeStatus → Bool
is_offline NodeStatus.active = false
is_offline NodeStatus.draining = false
is_offline NodeStatus.offline = true

abbrev pub is_active_node : NodeStatus → Bool
is_active_node NodeStatus.active = true
is_active_node NodeStatus.draining = false
is_active_node NodeStatus.offline = false

abbrev pub is_active : PlacementStatus → Bool
is_active PlacementStatus.active = true
is_active PlacementStatus.released = false

pub record NodeLease : Type 0 where
  pub version : ℕ
  pub ttl_millis : ℕ
  pub expire_at_unix_milli : ℕ

pub record NodeLeaseGrant : Type 0 where
  pub version : ℕ
  pub valid_until : ℕ

pub record NodeMetrics : Type 0 where
  pub cpu_available_milli_cores : ℤ
  pub memory_available_bytes : ℤ
  pub goroutines : ℤ
  pub updated_at_unix_milli : ℤ

abbrev pub no_metrics : NodeMetrics
no_metrics = record {
  cpu_available_milli_cores = ℤ.pos 0;
  memory_available_bytes = ℤ.pos 0;
  goroutines = ℤ.pos 0;
  updated_at_unix_milli = ℤ.pos 0;
}

unfoldable pub validate_node_metrics : NodeMetrics → Result (Unit {0})
validate_node_metrics m =
    if is_negative m.cpu_available_milli_cores
      || (is_negative m.memory_available_bytes || is_negative m.goroutines)
    then err placement_config_invalid
    else ok tt

pub record Node : Type 0 where
  pub node_type : Text
  pub node_group : Text
  pub node_name : Text
  pub node_identity : Text
  pub node_session_id : Text
  pub address : Text
  pub weight : ℤ
  pub metrics : NodeMetrics
  pub status : NodeStatus
  pub lease : NodeLease

pub record Placement : Type 0 where
  pub grain_id : Text
  pub kind : Text
  pub grain_key : Text
  pub placement_id : Text
  pub node_identity : Text
  pub owner_node_session_id : Text
  pub version : ℕ
  pub status : PlacementStatus
  pub create_time : ℕ
  pub update_time : ℕ

abbrev pub placement_recoverable : PlacementStatus → Bool
placement_recoverable s = is_active s

pub record PlacementRoute : Type 0 where
  pub grain_key : Text
  pub placement_id : Text
  pub node_identity : Text
  pub owner_node_session_id : Text
  pub version : ℕ
  pub status : PlacementStatus
  pub node_lease_version : ℕ
  pub valid_until : ℕ

pub record AllocateCommand : Type 0 where
  pub grain_id : Text
  pub kind : Text
  pub target_node_type : Text
  pub target_node_group : Text

pub record ResolveRouteCommand : Type 0 where
  pub grain_id : Text
  pub kind : Text
  pub target_node_type : Text
  pub target_node_group : Text

pub record RenewNodeCommand : Type 0 where
  pub node_identity : Text
  pub node_session_id : Text
  pub metrics : Option NodeMetrics

-- `RenewCommand` and `ReleaseCommand` have the same fields.
pub record RenewCommand : Type 0 where
  pub grain_key : Text
  pub placement_id : Text
  pub node_identity : Text
  pub node_session_id : Text
  pub placement_version : ℕ

pub record ReleaseCommand : Type 0 where
  pub grain_key : Text
  pub placement_id : Text
  pub node_identity : Text
  pub node_session_id : Text
  pub placement_version : ℕ

pub record TransferCommand : Type 0 where
  pub grain_key : Text
  pub placement_id : Text
  pub from_node_identity : Text
  pub to_node_identity : Text
  pub placement_version : ℕ

pub record RecoverCommand : Type 0 where
  pub grain_key : Text
  pub placement_id : Text
  pub new_node_identity : Text
  pub placement_version : ℕ

pub data EventType : Type 0 where
  node_registered node_replaced node_draining node_marked_invalid node_restored : EventType
  node_unregistered placement_created placement_renewed placement_released : EventType
  placement_transferred placement_recovered node_lease_expired : EventType
  placement_cache_invalidated manual_cache_clear : EventType
  -- a string that is none of the constants
  unknown : Text → EventType

abbrev pub is_node_lease_expired : EventType → Bool
is_node_lease_expired EventType.node_lease_expired = true
is_node_lease_expired t = false

pub record PlacementEvent : Type 0 where
  pub type : EventType
  pub grain_key : Text
  pub placement_id : Text
  pub node_identity : Text
  pub node_session_id : Text
  pub node_type : Text
  pub node_group : Text
  pub node_name : Text
  pub placement_version : ℕ
  pub node_lease_version : ℕ
  pub time : ℕ

-- The zero value of `PlacementEvent`.
abbrev pub no_event : PlacementEvent
no_event = record {
  type = EventType.unknown [];
  grain_key = [];
  placement_id = [];
  node_identity = [];
  node_session_id = [];
  node_type = [];
  node_group = [];
  node_name = [];
  placement_version = 0;
  node_lease_version = 0;
  time = 0;
}

-- An `EventPublisher` answers each event with nil or an error. A nil publisher takes no event.
abbrev pub Publisher : Type 0
Publisher = PlacementEvent → Option Error

-- What a call does: the state it leaves, the events it hands to the publisher in order, and what
-- it returns.
pub record Outcome (S A : Type 0) : Type 0 where
  pub state : S
  pub sent : List PlacementEvent
  pub result : Result A

abbrev pub refuse : {S A : Type 0} → S → Error → Outcome S A
refuse s e = record { state = s; sent = []; result = err e }
