-- ===== src/Protoactor/Activator.antt =====
-- adapters/protoactor/activator.go: the activator of a node session, which spawns an actor for a grain
-- that the directory places on it. The mutex makes each call one step. `Pid` is the type of PIDs,
-- `address` reads a PID's address, `equal` is `PID.Equal`.
pub mod Sessions
pub mod Fenced
use stable_placement.Base.{
  ℕ, ltb, ◌==◌, not, ◌&&◌, Bool, true, false, Option, none, some, List, [], ◌∷◌, ◌++◌, Text, same,
  Map, lookup, insert, delete, if◌then◌else◌,
}
use stable_placement.Model.{Result, ok, err, Error, ◌>>=◌, ◌>>◌, guard, PlacementRoute}
use stable_placement.Identity.{new_grain_key}
use stable_placement.Protoactor.{PidRoute, ClusterIdentity, pid_route, same_authorization}

-- The fields but the functions; `configured` tells whether these and the directory are set.
pub record SerialActivator (Pid : Type 0) : Type 0 where
  pub configured : Bool
  pub node_identity : Text
  pub node_session_id : Text
  pub active : Map (PidRoute Pid)
  pub fenced : Bool

-- `NewSerialActivatorWithAddress`
unfoldable pub new_serial_activator : {Pid : Type 0} → Bool → Text → Text → SerialActivator Pid
new_serial_activator configured node_identity node_session_id = record {
  configured = configured;
  node_identity = node_identity;
  node_session_id = node_session_id;
  active = [];
  fenced = false;
}

-- The directory's answer is the expected route, and has not ended.
unfoldable pub is_current : PlacementRoute → PlacementRoute → ℕ → Bool
is_current current expected now =
    same current.placement_id expected.placement_id
    && (same current.node_identity expected.node_identity
        && (same current.owner_node_session_id expected.owner_node_session_id
            && (current.version == expected.version && ltb now current.valid_until)))

-- What is outside the activator in a call: the directory's answer, the time, what spawning would give,
-- and the local address then.
pub record Surroundings (Pid : Type 0) : Type 0 where
  pub looked_up : Result PlacementRoute
  pub now : ℕ
  pub spawned : Result (Option Pid)
  pub local_address : Text

-- The activator after the call, the result, and whether an actor was spawned.
pub record Activated (Pid : Type 0) : Type 0 where
  pub activator : SerialActivator Pid
  pub result : Result Pid
  pub spawn : Bool

module _ {Pid : Type 0} where
  abbrev pub refused : SerialActivator Pid → Error → Activated Pid
  refused a e = record { activator = a; result = err e; spawn = false }

  -- The PID of the active route, if it is of the same authorization.
  unfoldable pub active_pid : Option (PidRoute Pid) → PlacementRoute → Option Pid
  active_pid none current = none
  active_pid (some route) current = if same_authorization route current then route.pid else none

  -- The checks before the lock, which give the grain's key.
  unfoldable pub activation_key :
      SerialActivator Pid → ClusterIdentity → PlacementRoute → Result Text
  activation_key a identity expected = do
    guard a.configured Error.adapter_not_configured
    guard
        (same expected.node_identity a.node_identity
          && same expected.owner_node_session_id a.node_session_id)
        Error.invalid_node_session
    new_grain_key identity.kind identity.identity

  module _ (address : Pid → Text) where
    -- The result of the spawn function.
    abbrev pub after_spawn :
        SerialActivator Pid → Text → PlacementRoute → Text → Result (Option Pid) → Activated Pid
    after_spawn a key current local_address (err e) = record (refused a e) { spawn = true }
    after_spawn a key current local_address (ok none) = record (refused a Error.pid_not_local) {
      spawn = true;
    }
    after_spawn a key current local_address (ok (some pid)) =
        if same (address pid) local_address
        then record {
          activator = record a { active = insert key (pid_route (some pid) current) a.active };
          result = ok pid;
          spawn = true;
        }
        else record (refused a Error.pid_not_local) { spawn = true }

    abbrev pub keep_or_spawn :
        SerialActivator Pid → Surroundings Pid → Text → PlacementRoute → Option Pid → Activated Pid
    keep_or_spawn a s key current (some pid) = record {
      activator = a;
      result = ok pid;
      spawn = false;
    }
    keep_or_spawn a s key current none = after_spawn a key current s.local_address s.spawned

    -- The directory's answer.
    abbrev pub after_lookup :
        SerialActivator Pid
        → Surroundings Pid
        → Text
        → PlacementRoute
        → Result PlacementRoute
        → Activated Pid
    after_lookup a s key expected (err e) = refused a e
    after_lookup a s key expected (ok current) =
        if is_current current expected s.now
        then keep_or_spawn a s key current (active_pid (lookup key a.active) current)
        else refused a Error.version_conflict

    abbrev pub after_key :
        SerialActivator Pid → Surroundings Pid → PlacementRoute → Result Text → Activated Pid
    after_key a s expected (err e) = refused a e
    after_key a s expected (ok key) =
        if a.fenced
        then refused a Error.invalid_node_session
        else after_lookup a s key expected s.looked_up

    -- `Activate`
    unfoldable pub activate :
        SerialActivator Pid → Surroundings Pid → ClusterIdentity → PlacementRoute → Activated Pid
    activate a s identity expected = after_key a s expected (activation_key a identity expected)

  -- The PIDs of the active routes, in the order in which the map is read.
  unfoldable pub active_pids : Map (PidRoute Pid) → List Pid
  active_pids [] = []
  active_pids ((k, route) ∷ m) = elim (route.pid) [
    | none ↦ active_pids m
    | some pid ↦ pid ∷ active_pids m
  ]

  -- The errors of stopping each PID, joined.
  unfoldable pub stop_errors : (Pid → Option Error) → List Pid → List Error
  stop_errors stop [] = []
  stop_errors stop (pid ∷ pids) = elim (stop pid) [
    | none ↦ stop_errors stop pids
    | some e ↦ e ∷ stop_errors stop pids
  ]

  -- `Fence`: the activator, the PIDs on which `stop` is called, and the errors that are joined.
  unfoldable pub fence :
      SerialActivator Pid → (Pid → Option Error) → SerialActivator Pid × List Pid × List Error
  unfolding active_pids stop_errors
  fence a stop = (
    record a { fenced = true; active = [] },
    active_pids a.active,
    stop_errors stop (active_pids a.active),
  )

  abbrev pub names_entry : (Option Pid → Pid → Bool) → Option Pid → Option (PidRoute Pid) → Bool
  names_entry equal pid none = false
  names_entry equal none (some current) = true
  names_entry equal (some pid) (some current) = equal current.pid pid

  abbrev pub without_key :
      (Option Pid → Pid → Bool) → Option Pid → Result Text → Map (PidRoute Pid) → Map (PidRoute Pid)
  without_key equal pid (err e) active = active
  without_key equal pid (ok key) active =
      if names_entry equal pid (lookup key active) then delete key active else active

  -- `Remove`
  unfoldable pub remove_active :
      (Option Pid → Pid → Bool)
      → SerialActivator Pid
      → ClusterIdentity
      → Option Pid
      → SerialActivator Pid
  remove_active equal a identity pid = record a {
    active = without_key equal pid (new_grain_key identity.kind identity.identity) a.active;
  }
