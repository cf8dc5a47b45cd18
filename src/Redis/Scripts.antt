-- ===== src/Redis/Scripts.antt =====
-- redis/directory.go: the placements that Redis stores, and what the results of the scripts are read as.
-- `decode` stands for json.Unmarshal of a stored placement.
use stable_placement.Base.{
  ℕ, ◌+◌, ◌*◌, ◌-◌, ◌/◌, ◌%◌, ◌^◌, ◌==◌, ℤ, Option, none, some, List, Text, text, same, get_elem?,
  atoi, format_int, signed, if◌then◌else◌,
}
use stable_placement.Model.{
  Result, ok, err, Error, ◌>>=◌, ◌>>◌, guard, or_fail, Placement, PlacementStatus, NodeLeaseGrant,
}

-- `redisPlacement`, with times in milliseconds
pub record RedisPlacement : Type 0 where
  pub grain_id : Text
  pub kind : Text
  pub grain_key : Text
  pub placement_id : Text
  pub node_identity : Text
  pub owner_node_session_id : Text
  pub version : ℕ
  pub status : PlacementStatus
  pub create_time_unix_milli : ℕ
  pub update_time_unix_milli : ℕ

abbrev pub nanoseconds_per_millisecond : ℕ
nanoseconds_per_millisecond = 1_000_000

-- `redisPlacementFromPlacement`
unfoldable pub redis_placement_from_placement : Placement → RedisPlacement
redis_placement_from_placement p = record {
  grain_id = p.grain_id;
  kind = p.kind;
  grain_key = p.grain_key;
  placement_id = p.placement_id;
  node_identity = p.node_identity;
  owner_node_session_id = p.owner_node_session_id;
  version = p.version;
  status = p.status;
  create_time_unix_milli = p.create_time / nanoseconds_per_millisecond;
  update_time_unix_milli = p.update_time / nanoseconds_per_millisecond;
}

-- `redisPlacement.placement`
unfoldable pub placement_of : RedisPlacement → Placement
placement_of w = record {
  grain_id = w.grain_id;
  kind = w.kind;
  grain_key = w.grain_key;
  placement_id = w.placement_id;
  node_identity = w.node_identity;
  owner_node_session_id = w.owner_node_session_id;
  version = w.version;
  status = w.status;
  create_time = w.create_time_unix_milli * nanoseconds_per_millisecond;
  update_time = w.update_time_unix_milli * nanoseconds_per_millisecond;
}

-- What a script returns: a string, a list, or something else. An item of a list is a string, an
-- integer, or something else with its text.
pub data Item : Type 0 where
  string : Text → Item
  int64 : ℤ → Item
  other : Text → Item

pub data ScriptResult : Type 0 where
  status : Text → ScriptResult
  items : List Item → ScriptResult
  other : Text → ScriptResult

-- `fmt.Sprint`
abbrev pub sprint : Item → Text
sprint (Item.string s) = s
sprint (Item.int64 n) = format_int n
sprint (Item.other s) = s

-- A script is called with keys and arguments.
pub record ScriptCall : Type 0 where
  pub keys : List Text
  pub args : List Text

-- `nodeResultError`: nil for "ok"
unfoldable pub node_result_error : Text → Option Error
unfolding text
node_result_error s =
    if same s (text "ok")
    then none
    else if same s (text "node_not_found")
    then some Error.node_not_found
    else if same s (text "invalid_node_session")
    then some Error.invalid_node_session
    else if same s (text "node_lease_expired")
    then some Error.node_lease_expired
    else if same s (text "invalid_metrics")
    then some Error.placement_config_invalid
    else if same s (text "node_has_placements")
    then some Error.node_has_placements
    else if same s (text "node_not_invalid")
    then some Error.node_not_invalid
    else some Error.unexpected_script_result

-- `placementResultError`
unfoldable pub placement_result_error : Text → Error
unfolding text
placement_result_error s =
    if same s (text "placement_not_found")
    then Error.placement_not_found
    else if same s (text "invalid_owner")
    then Error.invalid_owner
    else if same s (text "invalid_node_session")
    then Error.invalid_node_session
    else if same s (text "version_conflict")
    then Error.version_conflict
    else if same s (text "owner_unavailable")
    then Error.placement_owner_unavailable
    else if same s (text "node_lease_expired")
    then Error.node_lease_expired
    else if same s (text "no_available_node")
    then Error.no_available_node
    else if same s (text "not_recoverable")
    then Error.placement_not_recoverable
    else Error.unexpected_script_result

-- `time.Duration(millis) * time.Millisecond`, wrapping
unfoldable pub duration_of_millis : ℕ → ℤ
duration_of_millis millis = signed ((millis * nanoseconds_per_millisecond) % 2 ^ 64)

-- `t.Add(d)`; no time before the epoch comes up.
abbrev pub add_duration : ℕ → ℤ → ℕ
add_duration t (ℤ.pos n) = t + n
add_duration t (ℤ.negsuc n) = t - (n + 1)

-- An item read as a positive int64.
abbrev positive_only : Error → Option ℤ → Result ℕ
positive_only e none = err e
positive_only e (some (ℤ.negsuc n)) = err e
positive_only e (some (ℤ.pos n)) = if n == 0 then err e else ok n

unfoldable pub positive_item : Error → Item → Result ℕ
positive_item e item = positive_only e (atoi (sprint item))

abbrev pub item_at : List Item → ℕ → Result Item
item_at xs i = or_fail (get_elem? xs i) Error.unexpected_script_result

-- The items of a grant: the status, and the version and the remaining time at their places.
unfoldable pub grant_of_items : ℕ → List Item → ℕ → ℕ → Result NodeLeaseGrant
unfolding text positive_item duration_of_millis
grant_of_items start xs version_index ttl_index = do
  version_item ← item_at xs version_index
  ttl_item ← item_at xs ttl_index
  status_item ← item_at xs 0
  guard (same (sprint status_item) (text "ok")) Error.unexpected_script_result
  version ← positive_item Error.invalid_lease_version version_item
  remaining ← positive_item Error.node_lease_expired ttl_item
  ok (record { version = version; valid_until = add_duration start (duration_of_millis remaining) })

-- An error for a status; "ok" alone gives the zero grant without an error.
abbrev status_grant : Option Error → Result NodeLeaseGrant
status_grant none = ok (record { version = 0; valid_until = 0 })
status_grant (some e) = err e

-- `nodeLeaseGrantResult`
unfoldable pub node_lease_grant_result : ℕ → ScriptResult → ℕ → ℕ → Result NodeLeaseGrant
unfolding node_result_error grant_of_items
node_lease_grant_result start (status s) version_index ttl_index =
    status_grant (node_result_error s)
node_lease_grant_result start (items xs) version_index ttl_index =
    grant_of_items start xs version_index ttl_index
node_lease_grant_result start (other s) version_index ttl_index = err Error.unexpected_script_result

-- A member of a sorted set with its score: a member that is no string is `none`, and so is a score that
-- is no whole number.
pub record ScoredMember : Type 0 where
  pub member : Option Text
  pub score : Option ℤ
