-- ===== src/Redis/Calls.antt =====
-- redis/directory.go: NewDirectory, and the keys and arguments of the scripts on placements.
use stable_placement.Base.{
  ℕ, ℤ, Bool, true, false, List, [], ◌∷◌, ◌++◌, Text, text, quot, format_int, signed,
}
use stable_placement.Model.{
  Result, ok, err, Error, ◌>>=◌, ◌>>◌, guard, or_fail, Placement, EventType, AllocateCommand,
  RenewCommand, ReleaseCommand, TransferCommand, RecoverCommand,
}
use stable_placement.Model.EventNames.{event_name}
use stable_placement.Model.Lease.{normalize_ttl, millisecond}
use stable_placement.Identity.{node_type_of, node_group_of, node_name_of}
use stable_placement.Strategy.{StrategyMode}
use stable_placement.Strategy.ResourceAware.{ResourceAwareConfig, normalize_resource_aware_config}
use stable_placement.Redis.{KeyName, key_of}
use stable_placement.Redis.Scripts.{ScriptCall}
use stable_placement.Redis.Routes.{node_lease_key_for_node}

-- The fields but the client. The TTL is in nanoseconds.
pub record RedisDirectory : Type 0 where
  pub mode : StrategyMode
  pub ttl : ℕ
  pub resource_config : ResourceAwareConfig

abbrev pub redis_mode : StrategyMode → Bool
redis_mode StrategyMode.go = false
redis_mode StrategyMode.redis_round_robin = true
redis_mode StrategyMode.redis_resource_aware = true

-- One configuration, or the given zero value where there is none.
abbrev pub one_config : ResourceAwareConfig → List ResourceAwareConfig → Result ResourceAwareConfig
one_config zero_config [] = ok zero_config
one_config zero_config (c ∷ []) = ok c
one_config zero_config (c ∷ d ∷ cs) = err Error.placement_config_invalid

-- `string(d.mode)`
unfoldable pub mode_name : StrategyMode → Text
unfolding text
mode_name StrategyMode.go = text "go"
mode_name StrategyMode.redis_round_robin = text "redis_round_robin"
mode_name StrategyMode.redis_resource_aware = text "redis_resource_aware"

-- `NewDirectory`, with the lease TTL and the optional configurations of the strategy
unfoldable pub new_redis_directory :
    StrategyMode → ℤ → ResourceAwareConfig → List ResourceAwareConfig → Result RedisDirectory
new_redis_directory mode ttl zero_config configs = do
  guard (redis_mode mode) Error.unsupported_strategy_mode
  normalized ← or_fail (normalize_ttl ttl) Error.invalid_node_lease_ttl
  config ← one_config zero_config configs
  resource_config ← normalize_resource_aware_config config
  ok (record { mode = mode; ttl = normalized; resource_config = resource_config })

-- `resourceStrategyArgs`
unfoldable pub resource_strategy_args : RedisDirectory → List Text
unfolding mode_name
resource_strategy_args d =
    mode_name d.mode
    ∷ format_int (quot d.resource_config.metrics_max_age millisecond)
    ∷ format_int d.resource_config.min_memory_available_bytes
    ∷ format_int d.resource_config.min_cpu_available_milli_cores
    ∷ format_int d.resource_config.max_goroutines
    ∷ []

-- What was stored for the grain: its text and its owner, empty where nothing was.
abbrev pub old_placement : Result (Text × Placement) → Result (Text × Text)
old_placement (ok (raw, p)) = ok (raw, p.node_identity)
old_placement (err Error.placement_not_found) = ok ([], [])
old_placement (err e) = err e

-- The call of the script in Allocate.
unfoldable pub allocate_call :
    RedisDirectory → Text → AllocateCommand → Text → Text → Text → ScriptCall
unfolding key_of event_name resource_strategy_args
allocate_call d key cmd raw owner placement_id = record {
  keys =
      key_of (KeyName.placement key)
      ∷ key_of (KeyName.nodes cmd.target_node_type cmd.target_node_group)
      ∷ key_of (KeyName.invalid_nodes cmd.target_node_type cmd.target_node_group)
      ∷ key_of (KeyName.round_robin cmd.target_node_type cmd.target_node_group)
      ∷ key_of (KeyName.node_lease cmd.target_node_type cmd.target_node_group)
      ∷ key_of KeyName.sequence
      ∷ key_of KeyName.events_stream
      ∷ key_of (KeyName.placement_node owner)
      ∷ key_of (KeyName.node owner)
      ∷ key_of (KeyName.node_lease (node_type_of owner) (node_group_of owner))
      ∷ [];
  args =
      cmd.grain_id
      ∷ cmd.kind
      ∷ key
      ∷ raw
      ∷ event_name EventType.placement_created
      ∷ cmd.target_node_type
      ∷ cmd.target_node_group
      ∷ (resource_strategy_args d ++ placement_id ∷ []);
}

-- What Release, Transfer and Recover hand to `mutate`.
pub record Mutation : Type 0 where
  pub mode : Text
  pub grain_key : Text
  pub placement_id : Text
  pub from : Text
  pub target : Text
  pub session : Text
  pub version : ℕ
  pub event : EventType

unfoldable pub release_mutation : ReleaseCommand → Mutation
unfolding text
release_mutation cmd = record {
  mode = text "release";
  grain_key = cmd.grain_key;
  placement_id = cmd.placement_id;
  from = cmd.node_identity;
  target = [];
  session = cmd.node_session_id;
  version = cmd.placement_version;
  event = EventType.placement_released;
}

unfoldable pub transfer_mutation : TransferCommand → Mutation
unfolding text
transfer_mutation cmd = record {
  mode = text "transfer";
  grain_key = cmd.grain_key;
  placement_id = cmd.placement_id;
  from = cmd.from_node_identity;
  target = cmd.to_node_identity;
  session = [];
  version = cmd.placement_version;
  event = EventType.placement_transferred;
}

unfoldable pub recover_mutation : RecoverCommand → Mutation
unfolding text
recover_mutation cmd = record {
  mode = text "recover";
  grain_key = cmd.grain_key;
  placement_id = cmd.placement_id;
  from = [];
  target = cmd.new_node_identity;
  session = [];
  version = cmd.placement_version;
  event = EventType.placement_recovered;
}

-- The call of the script in `mutate`, on a placement of the given owner.
unfoldable pub mutation_call : Mutation → Text → Text → ScriptCall
unfolding key_of event_name
mutation_call m raw owner = record {
  keys =
      key_of (KeyName.placement m.grain_key)
      ∷ key_of (KeyName.node owner)
      ∷ key_of (KeyName.node m.target)
      ∷ key_of (KeyName.placement_node owner)
      ∷ key_of (KeyName.placement_node m.target)
      ∷ key_of (KeyName.node_lease (node_type_of m.target) (node_group_of m.target))
      ∷ key_of KeyName.events_stream
      ∷ key_of (KeyName.node_lease (node_type_of owner) (node_group_of owner))
      ∷ key_of (KeyName.invalid_nodes (node_type_of m.target) (node_group_of m.target))
      ∷ key_of KeyName.sequence
      ∷ [];
  args =
      m.mode
      ∷ raw
      ∷ m.from
      ∷ m.target
      ∷ m.session
      ∷ format_int (signed m.version)
      ∷ event_name m.event
      ∷ m.grain_key
      ∷ node_type_of owner
      ∷ node_group_of owner
      ∷ node_name_of owner
      ∷ node_type_of m.target
      ∷ node_group_of m.target
      ∷ node_name_of m.target
      ∷ m.placement_id
      ∷ [];
}

-- The call of the script in Renew.
unfoldable pub renew_call : RenewCommand → Text → Placement → ScriptCall
unfolding key_of event_name
renew_call cmd raw p = record {
  keys =
      key_of (KeyName.placement cmd.grain_key)
      ∷ key_of (KeyName.node p.node_identity)
      ∷ node_lease_key_for_node p
      ∷ key_of KeyName.audit_stream
      ∷ [];
  args =
      raw
      ∷ cmd.node_identity
      ∷ cmd.node_session_id
      ∷ format_int (signed cmd.placement_version)
      ∷ event_name EventType.placement_renewed
      ∷ cmd.grain_key
      ∷ cmd.placement_id
      ∷ [];
}
