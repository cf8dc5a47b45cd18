-- ===== src/Target.antt =====
-- target.go: the node type and group that a kind is routed to.
pub mod Address
mod Tests
use stable_placement.Base.{◌≡◌, Option, none, some, ◌++◌, Text, Map, lookup}
use stable_placement.Model.{Result, ok, err, Error, ◌>>=◌, ◌>>◌, or_fail}
use stable_placement.Model.Lease.{max_identity_part_bytes}
use stable_placement.Identity.{validate_identity_part}

pub record KindRouteConfig : Type 0 where
  pub node_type : Text
  pub node_group_prefix : Text
  pub group_id_label : Text

pub record NodeTarget : Type 0 where
  pub node_type : Text
  pub node_group : Text

-- Every error of a part is reported as an invalid configuration.
check_part : Text → Result (Unit {0})
check_part value = elim (validate_identity_part value max_identity_part_bytes) [
  | ok u ↦ ok tt
  | err e ↦ err Error.placement_config_invalid
]

-- `BuildNodeGroup`
unfoldable pub build_node_group : Text → Map Text → Map KindRouteConfig → Result NodeTarget
unfolding check_part
build_node_group kind labels routes = do
  check_part kind
  config ← or_fail (lookup kind routes) Error.placement_config_invalid
  check_part config.node_type
  check_part config.group_id_label
  group_id ← or_fail (lookup config.group_id_label labels) Error.placement_config_invalid
  check_part group_id
  check_part (config.node_group_prefix ++ group_id)
  ok (record { node_type = config.node_type; node_group = config.node_group_prefix ++ group_id })
