-- ===== src/Redis/Values.antt =====
-- redis/event_bus.go: the fields of an entry of the event stream, written and read.
use stable_placement.Base.{
  ℕ, ℤ, ◌&&◌, ◌||◌, not, Bool, Option, none, some, [], ◌∷◌, Text, text, same, if◌then◌else◌, Map,
  lookup, is_positive, signed, pattern_of, format_int, parse_int,
}
use stable_placement.Model.{PlacementEvent, is_node_lease_expired}
use stable_placement.Model.EventNames.{event_name, event_type_of}
use stable_placement.Redis.Errors.{BusError, Reply, failed, got}

-- What an interface value of the entry's map holds.
pub data Value : Type 0 where
  string bytes : Text → Value
  int int64 : ℤ → Value
  other : Value

-- `stringValue`. A missing key reads as nil.
unfoldable pub string_value : Option Value → Text
string_value none = []
string_value (some (string s)) = s
string_value (some (bytes s)) = s
string_value (some (int n)) = format_int n
string_value (some (int64 n)) = format_int n
string_value (some other) = []

-- `eventValues`
unfoldable pub event_values : PlacementEvent → Map Value
unfolding text
event_values event =
    (text "type", string (event_name event.type))
    ∷ (text "grain_key", string event.grain_key)
    ∷ (text "placement_id", string event.placement_id)
    ∷ (text "node_identity", string event.node_identity)
    ∷ (text "node_session_id", string event.node_session_id)
    ∷ (text "node_type", string event.node_type)
    ∷ (text "node_group", string event.node_group)
    ∷ (text "node_name", string event.node_name)
    ∷ (text "placement_version", int64 (signed event.placement_version))
    ∷ (text "node_lease_version", int64 (signed event.node_lease_version))
    ∷ []

-- `values["type"].(string)`; an empty string is refused like a missing one.
unfoldable pub type_value : Option Value → Option Text
type_value (some (string s)) = if same s [] then none else some s
type_value v = none

-- The event that is read before it is checked; `now` is time.Now().
unfoldable pub event_from : Text → Map Value → ℕ → PlacementEvent
unfolding text
event_from event_type values now = record {
  type = event_type_of event_type;
  grain_key = string_value (lookup (text "grain_key") values);
  placement_id = string_value (lookup (text "placement_id") values);
  node_identity = string_value (lookup (text "node_identity") values);
  node_session_id = string_value (lookup (text "node_session_id") values);
  node_type = string_value (lookup (text "node_type") values);
  node_group = string_value (lookup (text "node_group") values);
  node_name = string_value (lookup (text "node_name") values);
  placement_version =
      pattern_of (parse_int (string_value (lookup (text "placement_version") values)));
  node_lease_version =
      pattern_of (parse_int (string_value (lookup (text "node_lease_version") values)));
  time = now;
}

-- A lease event without an identity, a session or a positive version.
abbrev pub is_incomplete : PlacementEvent → Bool
is_incomplete e =
    is_node_lease_expired e.type
    && (same e.node_identity []
        || (same e.node_session_id [] || not (is_positive e.node_lease_version)))

-- The check before `parseEvent` returns the event.
unfoldable pub checked : PlacementEvent → Reply PlacementEvent
checked event = if is_incomplete event then failed BusError.lease_event_incomplete else got event

-- `parseEvent`
unfoldable pub parse_event : Map Value → ℕ → Reply PlacementEvent
unfolding text
parse_event values now = elim (type_value (lookup (text "type") values)) [
  | none ↦ failed BusError.event_type_missing
  | some event_type ↦ checked (event_from event_type values now)
]
