-- ===== src/Protoactor.antt =====
-- adapters/protoactor/route.go: routes with an actor's PID, and what the adapter reads of an identity
-- and of a placement context. `Pid` is the type of actor PIDs, which protoactor provides; a nil PID is
-- `none`.
pub mod Resolver
pub mod Activator
pub mod LocalActivation
pub mod Requests
pub mod Overtaken
mod Tests
use stable_placement.Base.{
  ℕ, ◌==◌, ltb, ◌&&◌, Bool, true, false, Option, none, some, List, [], ◌∷◌, Text, same, Map,
  if◌then◌else◌,
}
use stable_placement.Model.{PlacementRoute}

pub record PidRoute (Pid : Type 0) : Type 0 where
  pub pid : Option Pid
  pub grain_key : Text
  pub placement_id : Text
  pub node_identity : Text
  pub node_session_id : Text
  pub placement_version : ℕ
  pub node_lease_version : ℕ
  pub valid_until : ℕ

pub record ExpectedRoute : Type 0 where
  pub placement_id : Text
  pub node_identity : Text
  pub owner_node_session_id : Text
  pub placement_version : ℕ

-- What is read of a `cluster.ClusterIdentity`.
pub record ClusterIdentity : Type 0 where
  pub kind : Text
  pub identity : Text

-- What is read of a `cluster.PlacementContext`.
pub record PlacementContext : Type 0 where
  pub labels : Map Text
  pub node_type : Text

-- `pidRoute`
unfoldable pub pid_route : {Pid : Type 0} → Option Pid → PlacementRoute → PidRoute Pid
pid_route pid route = record {
  pid = pid;
  grain_key = route.grain_key;
  placement_id = route.placement_id;
  node_identity = route.node_identity;
  node_session_id = route.owner_node_session_id;
  placement_version = route.version;
  node_lease_version = route.node_lease_version;
  valid_until = route.valid_until;
}

-- `sameAuthorization`
unfoldable pub same_authorization : {Pid : Type 0} → PidRoute Pid → PlacementRoute → Bool
same_authorization cached route =
    same cached.grain_key route.grain_key
    && (same cached.placement_id route.placement_id
        && (same cached.node_identity route.node_identity
            && (same cached.node_session_id route.owner_node_session_id
                && cached.placement_version == route.version)))
