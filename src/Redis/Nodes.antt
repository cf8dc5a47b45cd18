-- ===== src/Redis/Nodes.antt =====
-- redis/directory.go: the operations on nodes, each of which runs a script. `encode` stands for
-- json.Marshal of a stored node, `decode` for json.Unmarshal.
use stable_placement.Base.{
  ℕ, ℤ, ◌/◌, not, Option, none, some, List, [], ◌∷◌, Text, text, same, format_int, if◌then◌else◌,
}
use stable_placement.Model.{
  Result, ok, err, Error, ◌>>=◌, ◌>>◌, guard, Node, no_metrics, NodeLeaseGrant, EventType,
}
use stable_placement.Model.EventNames.{event_name}
use stable_placement.Model.Lease.{millisecond}
use stable_placement.Identity.{new_node_identity}
use stable_placement.Redis.{KeyName, key_of}
use stable_placement.Redis.Scripts.{
  Item, ScriptResult, ScriptCall, status, items, sprint, node_result_error, grant_of_items,
  node_lease_grant_result,
}
use stable_placement.Redis.Calls.{RedisDirectory}

-- `redisNode`
pub record RedisNode : Type 0 where
  pub node : Node
  pub placement_node_key : Text
  pub node_key : Text

-- `normalizeNode`
unfoldable pub normalize_node : Node → Result (Unit {0})
normalize_node node = do
  guard (not (same node.node_session_id [])) Error.session_empty
  id ← new_node_identity node.node_type node.node_group node.node_name
  guard (same node.node_identity id) Error.identity_mismatch

-- The node that is stored: without metrics.
unfoldable pub stored_node : Node → RedisNode
unfolding key_of
stored_node node = record {
  node = record node { metrics = no_metrics };
  placement_node_key = key_of (KeyName.placement_node node.node_identity);
  node_key = key_of (KeyName.node node.node_identity);
}

abbrev pub ttl_millis_of : RedisDirectory → Text
ttl_millis_of d = format_int (ℤ.pos (d.ttl / millisecond))

-- The call of the scripts that register a node and replace its session.
unfoldable pub node_call : RedisDirectory → (RedisNode → Text) → EventType → Node → ScriptCall
unfolding key_of event_name stored_node
node_call d encode event node = record {
  keys =
      key_of (KeyName.node node.node_identity)
      ∷ key_of (KeyName.nodes node.node_type node.node_group)
      ∷ key_of (KeyName.node_lease node.node_type node.node_group)
      ∷ key_of KeyName.events_stream
      ∷ [];
  args =
      encode (stored_node node)
      ∷ ttl_millis_of d
      ∷ key_of (KeyName.node node.node_identity)
      ∷ event_name event
      ∷ [];
}

-- `RegisterNode`: `start` is the time before the script, `run` its answer.
unfoldable pub register_in_redis :
    RedisDirectory
    → (RedisNode → Text)
    → Node
    → ℕ
    → (ScriptCall → Result ScriptResult)
    → Result NodeLeaseGrant
unfolding normalize_node node_call node_lease_grant_result
register_in_redis d encode node start run = do
  normalize_node node
  result ← run (node_call d encode EventType.node_registered node)
  node_lease_grant_result start result 1 2

-- The list that the script of ReplaceNodeSession gives: the status, the previous node or an empty string,
-- and the grant.
abbrev pub previous_node : (Text → Result RedisNode) → Text → Result (Option RedisNode)
previous_node decode [] = ok none
previous_node decode (b ∷ bs) = do old ← decode (b ∷ bs); ok (some old)

unfoldable pub replaced_items :
    (Text → Result RedisNode) → ℕ → List Item → Result (Option RedisNode × NodeLeaseGrant)
unfolding text node_result_error grant_of_items
replaced_items decode start (s ∷ previous ∷ version ∷ ttl ∷ []) =
    if same (sprint s) (text "ok")
    then (do
      old ← previous_node decode (sprint previous)
      grant ← grant_of_items start (s ∷ previous ∷ version ∷ ttl ∷ []) 2 3
      ok (old, grant))
    else err
        (elim (node_result_error (sprint s)) [ none ↦ Error.unexpected_script_result | some e ↦ e ])
replaced_items decode start xs = err Error.unexpected_script_result

abbrev status_error : Option Error → Error
status_error none = Error.unexpected_script_result
status_error (some e) = e

unfoldable pub replaced_result :
    (Text → Result RedisNode) → ℕ → ScriptResult → Result (Option RedisNode × NodeLeaseGrant)
unfolding replaced_items node_result_error
replaced_result decode start (status s) = err (status_error (node_result_error s))
replaced_result decode start (items xs) = replaced_items decode start xs
replaced_result decode start (ScriptResult.other s) = err Error.unexpected_script_result

-- `ReplaceNodeSession`; where there was no node before, the source gives a pointer to the zero node.
unfoldable pub replace_in_redis :
    RedisDirectory
    → (RedisNode → Text)
    → (Text → Result RedisNode)
    → Node
    → ℕ
    → (ScriptCall → Result ScriptResult)
    → Result (Option RedisNode × NodeLeaseGrant)
unfolding normalize_node node_call replaced_result
replace_in_redis d encode decode node start run = do
  normalize_node node
  result ← run (node_call d encode EventType.node_replaced node)
  replaced_result decode start result
