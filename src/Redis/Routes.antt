-- ===== src/Redis/Routes.antt =====
-- redis/directory.go: Lookup, Exists and ResolveRoute. What Redis answers, the times that are read and
-- the random placement ids are arguments; `decode` stands for json.Unmarshal of a stored placement.
pub mod Validity
pub mod Retries
pub mod Tests
use stable_placement.Base.{
  ℕ, zero, suc, ◌+◌, ◌*◌, ◌==◌, ltb, leb, ℤ, leb_int, ◌&&◌, ◌||◌, not, Bool, true, false, Option,
  none, some, List, [], ◌∷◌, ◌++◌, Text, text, same, length, atoi, pattern_of, if◌then◌else◌,
}
use stable_placement.Model.{
  Result, ok, err, Error, ◌>>=◌, ◌>>◌, guard, or_fail, Placement, PlacementRoute,
  ResolveRouteCommand, EventType,
}
use stable_placement.Model.EventNames.{event_name}
use stable_placement.Model.Lease.{max_node_lease_ttl_millis}
use stable_placement.Identity.{
  new_grain_key, new_node_identity, node_type_of, node_group_of, node_name_of,
}
use stable_placement.Redis
use stable_placement.Redis.{KeyName, key_of}
use stable_placement.Redis.Scripts.{
  RedisPlacement, placement_of, Item, ScriptResult, ScriptCall, status, items, sprint, item_at,
  positive_item, add_duration, duration_of_millis,
}

-- The fields of a route, from the stored placement.
abbrev pub route_from : Placement → ℕ → ℕ → PlacementRoute
route_from p lease_version valid_until = record {
  grain_key = p.grain_key;
  placement_id = p.placement_id;
  node_identity = p.node_identity;
  owner_node_session_id = p.owner_node_session_id;
  version = p.version;
  status = p.status;
  node_lease_version = lease_version;
  valid_until = valid_until;
}

-- `NodeLeaseKeyForNode`
unfoldable pub node_lease_key_for_node : Placement → Text
node_lease_key_for_node p =
    key_of (KeyName.node_lease (node_type_of p.node_identity) (node_group_of p.node_identity))

-- The remaining milliseconds, if they are positive and no more than a lease may have.
unfoldable pub remaining_item : Error → Item → Result ℕ
unfolding positive_item
remaining_item e item = do
  remaining ← positive_item e item
  guard (leb remaining max_node_lease_ttl_millis) e
  ok remaining

-- The end of the route, if it is not over at the time `now`.
unfoldable pub valid_from : Error → ℕ → ℕ → ℕ → Result ℕ
unfolding duration_of_millis
valid_from e start remaining now =
    let valid_until = add_duration start (duration_of_millis remaining) in
    if ltb now valid_until then ok valid_until else err e

-- The call of the script in Lookup.
unfoldable pub lookup_call : Text → Text → Placement → ScriptCall
unfolding key_of
lookup_call key raw p = record {
  keys =
      key_of (KeyName.placement key)
      ∷ key_of (KeyName.node p.node_identity)
      ∷ node_lease_key_for_node p
      ∷ [];
  args = raw ∷ key_of (KeyName.node p.node_identity) ∷ key ∷ [];
}

module _ (decode : Text → Result RedisPlacement) where
  abbrev pub decode_stored : Text → Result (Text × Placement)
  decode_stored raw = do wire ← decode raw; ok (raw, placement_of wire)

  -- `getPlacementRaw`, from the answer to GET
  unfoldable pub get_placement_raw : Result (Option Text) → Result (Text × Placement)
  get_placement_raw stored = do
    found ← stored
    raw ← or_fail found Error.placement_not_found
    decode_stored raw

  -- The script's result in Lookup: anything but a list of three items is no placement.
  abbrev pub lookup_items : ℕ → ℕ → List Item → Result PlacementRoute
  lookup_items start now (p ∷ version ∷ remaining ∷ []) = do
    wire ← decode (sprint p)
    lease_version ← or_fail (atoi (sprint version)) Error.unexpected_script_result
    left ← or_fail (atoi (sprint remaining)) Error.unexpected_script_result
    millis ← remaining_item Error.placement_not_found remaining
    valid_until ← valid_from Error.placement_not_found start millis now
    ok (route_from (placement_of wire) (pattern_of lease_version) valid_until)
  lookup_items start now xs = err Error.placement_not_found

  abbrev pub lookup_result : ℕ → ℕ → ScriptResult → Result PlacementRoute
  lookup_result start now (items xs) = lookup_items start now xs
  lookup_result start now r = err Error.placement_not_found

  -- `Lookup`: `run` is the answer to the call of the script, `start` the time before GET, `now` the
  -- time at the end.
  unfoldable pub lookup_in_redis :
      Text
      → ℕ
      → Result (Option Text)
      → (ScriptCall → Result ScriptResult)
      → ℕ
      → Result PlacementRoute
  lookup_in_redis key start stored run now = do
    found ← get_placement_raw stored
    result ← run (lookup_call key (found.0) (found.1))
    lookup_result start now result

-- `Exists`, from the result of Lookup
unfoldable pub exists_of : Result PlacementRoute → Result Bool
exists_of (ok route) = ok true
exists_of (err Error.placement_not_found) = ok false
exists_of (err e) = err e

-- The placement that ResolveRoute found stored: its text, and its owner's type, group and name.
pub record Owner : Type 0 where
  pub raw : Text
  pub identity : Text
  pub node_type : Text
  pub node_group : Text
  pub node_name : Text

abbrev pub no_owner : Owner
no_owner = record { raw = []; identity = []; node_type = []; node_group = []; node_name = [] }

abbrev pub owner_of_placement : Text → Text → Result Owner
owner_of_placement raw identity = do
  guard
      (not (same (node_type_of identity) [])
        && (not (same (node_group_of identity) []) && not (same (node_name_of identity) [])))
      Error.invalid_owner_identity
  ok (record {
    raw = raw;
    identity = identity;
    node_type = node_type_of identity;
    node_group = node_group_of identity;
    node_name = node_name_of identity;
  })

-- No stored placement is no owner; any other error is returned.
unfoldable pub stored_owner : Result (Text × Placement) → Result Owner
stored_owner (ok (raw, p)) = owner_of_placement raw p.node_identity
stored_owner (err Error.placement_not_found) = ok no_owner
stored_owner (err e) = err e

-- What one try of ResolveRoute finds: the placement id, the answer to GET, the time before the script,
-- its result, and the time at the end.
pub record ResolveTry : Type 0 where
  pub placement_id : Result Text
  pub stored : Result (Option Text)
  pub start : ℕ
  pub result : Result ScriptResult
  pub now : ℕ

-- The call of the script in a try. `strategy` is `resourceStrategyArgs`.
unfoldable pub resolve_call : List Text → Text → ResolveRouteCommand → Owner → Text → ScriptCall
unfolding key_of text event_name
resolve_call strategy key cmd owner placement_id = record {
  keys =
      key_of (KeyName.placement key)
      ∷ key_of (KeyName.nodes cmd.target_node_type cmd.target_node_group)
      ∷ key_of (KeyName.invalid_nodes cmd.target_node_type cmd.target_node_group)
      ∷ key_of (KeyName.round_robin cmd.target_node_type cmd.target_node_group)
      ∷ key_of (KeyName.node_lease cmd.target_node_type cmd.target_node_group)
      ∷ key_of KeyName.sequence
      ∷ key_of KeyName.events_stream
      ∷ key_of (KeyName.placement_node owner.identity)
      ∷ key_of (KeyName.node owner.identity)
      ∷ key_of (KeyName.node_lease owner.node_type owner.node_group)
      ∷ [];
  args =
      cmd.grain_id
      ∷ cmd.kind
      ∷ key
      ∷ owner.raw
      ∷ event_name EventType.placement_created
      ∷ cmd.target_node_type
      ∷ cmd.target_node_group
      ∷ event_name EventType.placement_recovered
      ∷ owner.node_type
      ∷ owner.node_group
      ∷ owner.node_name
      ∷ (strategy ++ placement_id ∷ []);
}

-- A string is an error.
unfoldable pub resolve_status_error : Text → Error
unfolding text
resolve_status_error s =
    if same s (text "conflict")
    then Error.version_conflict
    else if same s (text "target_mismatch")
    then Error.placement_target_mismatch
    else if same s (text "owner_unavailable")
    then Error.placement_owner_unavailable
    else if same s (text "no_available_node")
    then Error.no_available_node
    else Error.unexpected_script_result

abbrev pub resolve_route_max_attempts : ℕ
resolve_route_max_attempts = 3

-- A conflict is tried again, until the tries are used up.
abbrev pub or_retry : Result PlacementRoute → Result PlacementRoute → Result PlacementRoute
or_retry (err Error.version_conflict) rest = rest
or_retry r rest = r

module _ (decode : Text → Result RedisPlacement) where
  abbrev pub resolve_items : ℕ → ℕ → List Item → Result PlacementRoute
  resolve_items start now (p ∷ version ∷ remaining ∷ []) = do
    wire ← decode (sprint p)
    lease_version ← positive_item Error.invalid_lease_version version
    millis ← remaining_item Error.placement_owner_unavailable remaining
    valid_until ← valid_from Error.placement_owner_unavailable start millis now
    ok (route_from (placement_of wire) lease_version valid_until)
  resolve_items start now xs = err Error.unexpected_script_result

  unfoldable pub resolve_result : ℕ → ℕ → ScriptResult → Result PlacementRoute
  unfolding resolve_status_error remaining_item valid_from
  resolve_result start now (status s) = err (resolve_status_error s)
  resolve_result start now (items xs) = resolve_items start now xs
  resolve_result start now (ScriptResult.other s) = err Error.unexpected_script_result

  -- `resolveRouteOnce`; the call that is sent is `resolve_call` of the owner and the placement id.
  unfoldable pub resolve_route_once : ResolveTry → Result PlacementRoute
  resolve_route_once t = do
    placement_id ← t.placement_id
    owner ← stored_owner (get_placement_raw decode t.stored)
    result ← t.result
    resolve_result t.start t.now result

  -- The loop of `ResolveRoute`, with the tries left and the number of the next one.
  unfoldable pub resolve_tries : (ℕ → ResolveTry) → ℕ → ℕ → Result PlacementRoute
  resolve_tries env zero i = err Error.version_conflict
  resolve_tries env (suc left) i =
      or_retry (resolve_route_once (env i)) (resolve_tries env left (suc i))

  -- `ResolveRoute`
  unfoldable pub resolve_route_in_redis :
      ResolveRouteCommand → (ℕ → ResolveTry) → Result PlacementRoute
  unfolding text
  resolve_route_in_redis cmd env = do
    key ← new_grain_key cmd.kind cmd.grain_id
    target ← new_node_identity cmd.target_node_type cmd.target_node_group (text "target")
    resolve_tries env resolve_route_max_attempts 0
