-- ===== src/Redis/Upkeep.antt =====
-- redis/directory.go: the operations on a stored node, each of which runs a script, and the lists of nodes. `encode` stands for
-- json.Marshal of a stored node, `decode` for json.Unmarshal.
use stable_placement.Base.{
  ℕ, Bool, true, false, Option, none, some, List, [], ◌∷◌, Text, text, sort, before,
}
use stable_placement.Model.{
  Result, ok, err, Error, ◌>>=◌, or_fail, Node, NodeMetrics, NodeLeaseGrant, EventType,
  RenewNodeCommand,
}
use stable_placement.Model.EventNames.{event_name}
use stable_placement.Identity.{new_node_identity}
use stable_placement.Redis.{KeyName, key_of}
use stable_placement.Redis.Scripts.{
  ScriptResult, ScriptCall, status, node_result_error, node_lease_grant_result,
}
use stable_placement.Redis.Nodes.{RedisNode}

-- `getNode`, from the answer to GET
unfoldable pub get_node : (Text → Result RedisNode) → Result (Option Text) → Result Node
get_node decode stored = do
  found ← stored
  raw ← or_fail found Error.node_not_found
  wire ← decode raw
  ok wire.node

-- The metrics as JSON, or an empty string.
abbrev pub metrics_text : (NodeMetrics → Text) → Option NodeMetrics → Text
metrics_text encode none = []
metrics_text encode (some m) = encode m

unfoldable pub renew_node_call : (NodeMetrics → Text) → RenewNodeCommand → Node → ScriptCall
unfolding key_of
renew_node_call encode cmd node = record {
  keys =
      key_of (KeyName.node cmd.node_identity)
      ∷ key_of (KeyName.node_lease node.node_type node.node_group)
      ∷ [];
  args =
      cmd.node_session_id
      ∷ key_of (KeyName.node cmd.node_identity)
      ∷ metrics_text encode cmd.metrics
      ∷ [];
}

-- `RenewNode`
unfoldable pub renew_node_in_redis :
    (NodeMetrics → Text)
    → (Text → Result RedisNode)
    → RenewNodeCommand
    → Result (Option Text)
    → ℕ
    → (ScriptCall → Result ScriptResult)
    → Result NodeLeaseGrant
unfolding get_node renew_node_call node_lease_grant_result
renew_node_in_redis encode decode cmd stored start run = do
  node ← get_node decode stored
  result ← run (renew_node_call encode cmd node)
  node_lease_grant_result start result 1 2

-- `strconv.FormatBool`
unfoldable pub format_bool : Bool → Text
unfolding text
format_bool true = text "true"
format_bool false = text "false"

unfoldable pub unregister_call : Text → Text → Bool → Node → ScriptCall
unfolding key_of event_name format_bool
unregister_call identity session only_idle node = record {
  keys =
      key_of (KeyName.node identity)
      ∷ key_of (KeyName.nodes node.node_type node.node_group)
      ∷ key_of (KeyName.node_lease node.node_type node.node_group)
      ∷ key_of (KeyName.placement_node identity)
      ∷ key_of KeyName.events_stream
      ∷ [];
  args =
      session
      ∷ key_of (KeyName.node identity)
      ∷ format_bool only_idle
      ∷ event_name EventType.node_unregistered
      ∷ [];
}

-- The error of a result that must be a string.
unfoldable pub status_only : ScriptResult → Option Error
unfolding node_result_error
status_only (status s) = node_result_error s
status_only r = some Error.unexpected_script_result

abbrev pub error_or_status : Result ScriptResult → Option Error
error_or_status (err e) = some e
error_or_status (ok r) = status_only r

abbrev pub on_node :
    Result Node → (Node → ScriptCall) → (ScriptCall → Result ScriptResult) → Option Error
on_node (err e) call run = some e
on_node (ok node) call run = error_or_status (run (call node))

-- `unregister`: UnregisterNode without the guard on placements, CompleteDrain with it
unfoldable pub unregister_in_redis :
    (Text → Result RedisNode)
    → Text
    → Text
    → Bool
    → Result (Option Text)
    → (ScriptCall → Result ScriptResult)
    → Option Error
unfolding get_node unregister_call status_only
unregister_in_redis decode identity session only_idle stored run =
    on_node (get_node decode stored) (unregister_call identity session only_idle) run

unfoldable pub drain_call : Text → Node → ScriptCall
unfolding key_of event_name
drain_call identity node = record {
  keys =
      key_of (KeyName.node identity)
      ∷ key_of (KeyName.invalid_nodes node.node_type node.node_group)
      ∷ key_of (KeyName.node_lease node.node_type node.node_group)
      ∷ key_of KeyName.events_stream
      ∷ [];
  args = node.node_name ∷ event_name EventType.node_draining ∷ key_of (KeyName.node identity) ∷ [];
}

-- `DrainNode`
unfoldable pub drain_in_redis :
    (Text → Result RedisNode)
    → Text
    → Result (Option Text)
    → (ScriptCall → Result ScriptResult)
    → Option Error
unfolding get_node drain_call status_only
drain_in_redis decode identity stored run =
    on_node (get_node decode stored) (drain_call identity) run

unfoldable pub mark_call : EventType → Text → Text → Text → Text → ScriptCall
unfolding key_of event_name
mark_call event node_type node_group node_name identity = record {
  keys = key_of (KeyName.invalid_nodes node_type node_group) ∷ key_of KeyName.events_stream ∷ [];
  args = node_name ∷ identity ∷ node_type ∷ node_group ∷ event_name event ∷ [];
}

-- `MarkNodeInvalid` and `RestoreNode`, by the event that they publish
unfoldable pub mark_in_redis :
    EventType → Text → Text → Text → (ScriptCall → Result ScriptResult) → Result (Unit {0})
unfolding mark_call
mark_in_redis event node_type node_group node_name run = do
  id ← new_node_identity node_type node_group node_name
  result ← run (mark_call event node_type node_group node_name id)
  ok tt

-- The nodes of the members that are still stored. `get` is the answer to GET.
unfoldable pub stored_nodes :
    (Text → Result RedisNode) → (Text → Result (Option Text)) → List Text → Result (List Node)
stored_nodes decode get [] = ok []
stored_nodes decode get (key ∷ keys) = do
  found ← get key
  elim found [
    | none ↦ stored_nodes decode get keys
    | some raw ↦
        (decode raw >>= λ wire. stored_nodes decode get keys >>= λ rest. ok (wire.node ∷ rest))
  ]

abbrev pub node_before : Node → Node → Bool
node_before a b = before a.node_identity b.node_identity

-- `FindNodes`, from the members of the group's set
unfoldable pub find_nodes_in_redis :
    (Text → Result RedisNode)
    → (Text → Result (Option Text))
    → Result (List Text)
    → Result (List Node)
unfolding stored_nodes
find_nodes_in_redis decode get members = do
  keys ← members
  nodes ← stored_nodes decode get keys
  ok (sort node_before nodes)

-- `ListInvalidNodes`
unfoldable pub list_invalid_in_redis : Result (List Text) → Result (List Text)
list_invalid_in_redis members = do names ← members; ok (sort before names)
