-- ===== src/Registry/Calls.antt =====
-- The calls of the registry as steps: each is one critical section, so every interleaving of
-- callers is a list of them.
use stable_placement.Base.{ℕ, Option, Text, Bool}
use stable_placement.Model.{Node, RenewNodeCommand, Publisher}
use stable_placement.Registry.{NodeRegistry, register_node, renew_node, replace_node_session}
use stable_placement.Registry.Lifecycle.{
  unregister_node, complete_drain, expire_node_leases, drain_node, mark_node_invalid, restore_node,
}

pub data Call : Type 0 where
  registers replaces : Node → Call
  renews : RenewNodeCommand → Call
  unregisters : Text → Text → Call
  completes : Option (Text → Bool) → Text → Text → Call
  expires : Text → Text → ℕ → Call
  drains : Text → Call
  marks restores : Text → Text → Text → Call

-- The registry after a call with this publisher, at this time.
unfoldable pub step : Option Publisher → NodeRegistry → ℕ × Call → NodeRegistry
step p r (now, registers node) = (register_node r p node now).state
step p r (now, replaces node) = (replace_node_session r p node now).state
step p r (now, renews cmd) = (renew_node r cmd now).state
step p r (now, unregisters identity session) = (unregister_node r p identity session now).state
step p r (now, completes hook identity session) =
    (complete_drain r p hook identity session now).state
step p r (now, expires node_type node_group limit) =
    (expire_node_leases r p node_type node_group limit now).state
step p r (now, drains identity) = (drain_node r p identity now).state
step p r (now, marks node_type node_group node_name) =
    (mark_node_invalid r p node_type node_group node_name now).state
step p r (now, restores node_type node_group node_name) =
    (restore_node r p node_type node_group node_name now).state
