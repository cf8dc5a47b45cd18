-- ===== src/Redis/Roundtrip.antt =====
-- redis/event_bus.go: what parseEvent reads of an entry that Publish wrote.
use stable_placement.Base.{
  ◌≡◌, ap, ◌∙◌, ◌≢◌, ℕ, ◌<◌, ◌^◌, false, some, [], map, Text, text, text_eq, same, eq_of_same,
  lookup, signed, pattern_of, parse_int, format_int, pattern_of-signed, parse_int-format_int, arith,
  Map, inl, inr, Bool-cases,
}
use stable_placement.Model.{PlacementEvent}
use stable_placement.Model.EventNames.{event_name, IsSpelled, event_type_of-event_name}
use stable_placement.Redis.Errors.{got}
use stable_placement.Redis.Values.{
  Value, string, int64, string_value, event_values, type_value, event_from, is_incomplete, checked,
  parse_event,
}

-- An entry as the client reads it back.
abbrev pub read_back : (Value → Value) → Map Value → Map Value
read_back stored values = map (λ e. (e.0, stored e.1)) values

read_version : (v : ℕ) → v < 2 ^ 64 → pattern_of (parse_int (format_int (signed v))) ≡ v
read_version v h = ap pattern_of (parse_int-format_int v h) ∙ pattern_of-signed v h

type_value_lem : (s : Text) → s ≢ [] → type_value (some (string s)) ≡ some s
unfolding type_value
type_value_lem s h = elim (Bool-cases (same s [])) [
  | inl e ↦ absurd (h (eq_of_same s [] e))
  | inr e ↦ rw e
]

parse_typed :
    (values : Map Value) (now : ℕ) (s : Text)
    → type_value (lookup (text "type") values) ≡ some s
    → parse_event values now ≡ checked (event_from s values now)
unfolding parse_event
parse_typed values now s h = ground arith

checked_lem : (e : PlacementEvent) → is_incomplete e ≡ false → checked e ≡ got e
unfolding checked
checked_lem e h = rw h

module _ (stored : Value → Value)
    (keeps_text : (v : Value) → string_value (some (stored v)) ≡ string_value (some v))
    (keeps_strings : (s : Text) → stored (string s) ≡ string s) where
  stored_version :
      (v : ℕ)
      → v < 2 ^ 64
      → pattern_of (parse_int (string_value (some (stored (int64 (signed v)))))) ≡ v
  unfolding string_value
  stored_version v h =
      ap (λ (s : Text). pattern_of (parse_int s)) (keeps_text (int64 (signed v))) ∙ read_version v h

  typed :
      (e : PlacementEvent)
      → event_name e.type ≢ []
      → type_value (lookup (text "type") (read_back stored (event_values e)))
        ≡ some (event_name e.type)
  unfolding lookup text text_eq event_values
  typed e named =
      ap (λ (v : Value). type_value (some v)) (keeps_strings (event_name e.type))
      ∙ type_value_lem (event_name e.type) named

  event_from_lem :
      (e : PlacementEvent) (now : ℕ)
      → IsSpelled e.type
      → e.placement_version < 2 ^ 64
      → e.node_lease_version < 2 ^ 64
      → event_from (event_name e.type) (read_back stored (event_values e)) now
        ≡ record e { time = now }
  unfolding event_from event_values lookup text text_eq string_value
  event_from_lem e now h p l = λ i. record {
    type = event_type_of-event_name e.type h i;
    grain_key = keeps_text (string e.grain_key) i;
    placement_id = keeps_text (string e.placement_id) i;
    node_identity = keeps_text (string e.node_identity) i;
    node_session_id = keeps_text (string e.node_session_id) i;
    node_type = keeps_text (string e.node_type) i;
    node_group = keeps_text (string e.node_group) i;
    node_name = keeps_text (string e.node_name) i;
    placement_version = stored_version e.placement_version p i;
    node_lease_version = stored_version e.node_lease_version l i;
    time = now;
  }

  -- What Publish writes of an event, parseEvent reads as the same event with the time of the reading,
  -- if the client gives strings back as they are and integers in decimal, the type is not empty and
  -- spelled as its constant where it has one, the versions fit 64 bits, and a lease event has its node,
  -- session and positive version.
  pub parse_event-event_values :
      (e : PlacementEvent) (now : ℕ)
      → IsSpelled e.type
      → event_name e.type ≢ []
      → e.placement_version < 2 ^ 64
      → e.node_lease_version < 2 ^ 64
      → is_incomplete e ≡ false
      → parse_event (read_back stored (event_values e)) now ≡ got (record e { time = now })
  parse_event-event_values e now h named p l complete =
      parse_typed (read_back stored (event_values e)) now (event_name e.type) (typed e named)
      ∙ (ap checked (event_from_lem e now h p l) ∙ checked_lem (record e { time = now }) complete)
