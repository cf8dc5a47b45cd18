-- ===== src/Redis/Consume/Tests.antt =====
-- A subscription that reads a pending message and a new one, and instances of the theorems.
use stable_placement.Base.{
  ◌≡◌, refl, ◌⊎◌, ℤ, true, false, Option, none, some, List, [], ◌∷◌, Text, text, text_eq, arith,
  any, itoa, format_int, signed, pattern_of, parse_int, lookup,
}
use stable_placement.Samples.{id_a, key_x}
use stable_placement.Model.{PlacementEvent, EventType, no_event}
use stable_placement.Model.EventNames.{event_name, event_type_of, named_among}
use stable_placement.Redis.{consumer_group, key_of}
use stable_placement.Redis.Errors.{BusError, failed, got, contains, mentions}
use stable_placement.Redis.Base64.{encode}
use stable_placement.Redis.Values.{
  Value, type_value, checked, event_from, string_value, event_values, parse_event,
}
use stable_placement.Redis.Roundtrip.{read_back, parse_event-event_values}
use stable_placement.Redis.Stream.{StreamConsumer, EventBus, new_event_bus, valid_stream_consumer}
use stable_placement.Redis.Groups.{Client, cleanup_consumer_group, ensure_consumer_group}
use stable_placement.Redis.Owned.{cleanup, run_call, run_call-owned}
use stable_placement.Redis.Ids.{
  stream_id, compare_redis_stream_id, compare_redis_stream_id-order, below,
}
use stable_placement.Redis.Continuity.Check.{
  Attempt, check_continuity, attempts, attempt, no_report,
}
use stable_placement.Redis.Consume.{
  Reader, Delivery, ReadRound, EventHandler, subscribe, next, consume, consume_all,
  handle_deliveries,
}
use stable_placement.Redis.Consume.Subscribed.{Subscribed}

abbrev session_1 : Text
session_1 = text "s1"

abbrev consumer_1 : StreamConsumer
consumer_1 = record {
  node_identity = id_a;
  node_session_id = session_1;
  group = key_of (consumer_group id_a session_1);
}

abbrev bus_1 : EventBus
bus_1 = new_event_bus consumer_1

abbrev created : PlacementEvent
created = record no_event {
  type = EventType.placement_created;
  grain_key = key_x;
  placement_version = 3;
}

-- Redis stores a number as its decimal digits.
abbrev stored_value : Value → Value
stored_value (Value.string s) = Value.string s
stored_value (Value.bytes s) = Value.string s
stored_value (Value.int n) = Value.string (format_int n)
stored_value (Value.int64 n) = Value.string (format_int n)
stored_value Value.other = Value.other

keeps_text : (v : Value) → string_value (some (stored_value v)) ≡ string_value (some v)
unfolding string_value
keeps_text (Value.string s) = refl
keeps_text (Value.bytes s) = refl
keeps_text (Value.int n) = refl
keeps_text (Value.int64 n) = refl
keeps_text Value.other = refl

parse_event-event_values_example :
    parse_event (read_back stored_value (event_values created)) 9
    ≡ got (record created { time = 9 })
unfolding event_name text
parse_event-event_values_example =
    parse_event-event_values stored_value keeps_text (λ s. refl) created 9 tt
      (λ h. absurd (ground arith)) (omega arith) (omega arith) refl

compare_redis_stream_id-order_example :
    compare_redis_stream_id (stream_id 9 5) (stream_id 10 0) ≡ below
compare_redis_stream_id-order_example =
    compare_redis_stream_id-order 9 5 10 0 (omega arith) (omega arith) (omega arith) (omega arith)

-- A client for which every command succeeds, and a stream that is not there.
abbrev client_1 : Client
client_1 command = got (ℤ.pos 0)

abbrev no_key : BusError
no_key = BusError.other (text "ERR no such key")

abbrev attempt_1 : Attempt
attempt_1 = record {
  info = failed no_key;
  snapshot = record {
    groups = got [];
    pending = failed no_key;
    first = got [];
    page = λ s. got [];
    piped = λ s. none;
  };
  after = failed no_key;
  live = true;
}

abbrev collect : EventHandler (List Text)
collect s event = (event.grain_key ∷ s, none)

abbrev delivery : Text → Delivery
delivery id = record {
  id = id;
  values = event_values created;
  now = 1;
  done_in_handler = false;
  done_after = false;
  acked = none;
}

abbrev round_of : Text → ReadRound
round_of id = record { done = false; reply = got (delivery id ∷ []); done_after_error = false }

abbrev no_more : ReadRound
no_more = record { done = false; reply = got []; done_after_error = false }

abbrev reader_1 : Reader (List Text)
reader_1 = record { bus = bus_1; store = []; handled = []; acks = [] }

abbrev pending_rounds : List ReadRound
pending_rounds = round_of (text "1-0") ∷ no_more ∷ []

abbrev fresh_rounds : List ReadRound
fresh_rounds = round_of (text "2-0") ∷ []

subscribe_runs :
    subscribe client_1 (λ i. attempt_1) true collect pending_rounds fresh_rounds reader_1
    ≡ some (record {
      reader = record {
        bus = bus_1;
        store = key_x ∷ key_x ∷ [];
        handled = text "1-0" ∷ text "2-0" ∷ [];
        acks = text "1-0" ∷ text "2-0" ∷ [];
      };
      flow = next;
    })
unfolding subscribe consume_all consume handle_deliveries parse_event event_values event_name key_of
    encode text text_eq event_type_of string_value format_int itoa signed pattern_of parse_int any
    lookup ensure_consumer_group valid_stream_consumer check_continuity attempts attempt no_report
    contains mentions new_event_bus type_value checked event_from named_among
subscribe_runs = refl

abbrev bus_2 : EventBus
bus_2 = new_event_bus (record {
  node_identity = id_a;
  node_session_id = text "s2";
  group = key_of (consumer_group id_a (text "s2"));
})

run_call-owned_example :
    (consumer_1 ≡ bus_2.consumer)
    ⊎ (◌≡◌ {A = Option StreamConsumer} (some consumer_1) (some consumer_1))
unfolding run_call cleanup_consumer_group valid_stream_consumer key_of encode text text_eq any
    new_event_bus
run_call-owned_example =
    run_call-owned client_1 bus_2 consumer_1 (cleanup consumer_1) refl (omega arith) (omega arith)
      (omega arith) refl
