-- ===== src/Redis/Groups.antt =====
-- redis/event_bus.go: the operations on consumer groups, pending messages and the stream's length.
use stable_placement.Base.{
  ℕ, zero, suc, ℤ, ◌&&◌, ◌||◌, not, Bool, Option, none, some, List, [], ◌∷◌, Text, text, same,
  if◌then◌else◌, Map, leb_int,
}
use stable_placement.Model.{PlacementEvent}
use stable_placement.Redis.Errors.{
  BusError, Reply, failed, got, is_context_error, is_nil_reply, mentions,
}
use stable_placement.Redis.Values.{Value, event_values}
use stable_placement.Redis.Stream.{StreamConsumer, valid_stream_consumer, EventBus, set_degraded}

-- A command of Redis, with the stream first.
pub data Command : Type 0 where
  xadd : Text → Map Value → Command
  xgroup_create xgroup_destroy close_if_idle_script : Text → Text → Command
  replace_script : Text → Text → Text → Command
  -- the group, the idle time, and one entry at most
  xpending_ext : Text → Text → ℕ → Command
  trim_script : Text → ℤ → Command

-- What Redis answers: the number that the code reads, which is a script's result or the number of
-- entries, or an error.
abbrev pub Client : Type 0
Client = Command → Reply ℤ

-- What a call does: the bus it leaves, the commands it sends, the error it returns.
pub record Ran : Type 0 where
  pub bus : EventBus
  pub sent : List Command
  pub result : Option BusError

-- `b.setDegraded(…, err); return err`
abbrev pub degrade_with : BusError → EventBus → List Command → Ran
degrade_with e bus sent = record { bus = set_degraded e bus; sent = sent; result = some e }

abbrev pub answer_with : EventBus → List Command → Option BusError → Ran
answer_with bus sent result = record { bus = bus; sent = sent; result = result }

-- `.Err()`
abbrev pub error_of {ℓ} : {A : Type ℓ} → Reply A → Option BusError
error_of (failed e) = some e
error_of (got a) = none

-- The error, unless it passes the test.
abbrev except : (BusError → Bool) → Option BusError → Option BusError
except p none = none
except p (some e) = if p e then none else some e

-- The answer of one of the two scripts that remove a group.
unfoldable pub script_error : Reply ℤ → Option BusError
script_error (failed e) = some e
script_error (got (ℤ.pos n)) = elim n [
  | zero ↦ none
  | suc zero ↦ some BusError.pending_messages
  | suc (suc k) ↦ some BusError.invalid_script_result
]
script_error (got (ℤ.negsuc n)) = some BusError.invalid_script_result

-- `Publish`
unfoldable pub publish_entry : Client → EventBus → PlacementEvent → Ran
publish_entry client bus event =
    let command = xadd bus.stream (event_values event) in
    answer_with bus (command ∷ []) (error_of (client command))

-- `EnsureConsumerGroup`
unfoldable pub ensure_consumer_group : Client → EventBus → Ran
unfolding text
ensure_consumer_group client bus =
    let command = xgroup_create bus.stream bus.consumer.group in
    if not (valid_stream_consumer bus.consumer)
    then degrade_with BusError.shared_consumer_group bus []
    else answer_with bus (command ∷ [])
        (except (mentions (text "BUSYGROUP")) (error_of (client command)))

-- `CleanupConsumerGroup`
unfoldable pub cleanup_consumer_group : Client → EventBus → StreamConsumer → Ran
cleanup_consumer_group client bus consumer =
    let command = xgroup_destroy bus.stream consumer.group in
    if not (valid_stream_consumer consumer)
    then degrade_with BusError.shared_consumer_group bus []
    else answer_with bus (command ∷ []) (except is_nil_reply (error_of (client command)))

-- `DeleteConsumerGroup`
unfoldable pub delete_consumer_group : Client → EventBus → Ran
delete_consumer_group client bus =
    let command = xgroup_destroy bus.stream bus.consumer.group in
    if not (valid_stream_consumer bus.consumer)
    then degrade_with BusError.shared_consumer_group bus []
    else answer_with bus (command ∷ []) (except is_nil_reply (error_of (client command)))

-- `CloseConsumerGroupIfIdle`
unfoldable pub close_consumer_group_if_idle : Client → EventBus → Ran
unfolding script_error
close_consumer_group_if_idle client bus =
    let command = close_if_idle_script bus.stream bus.consumer.group in
    if not (valid_stream_consumer bus.consumer)
    then degrade_with BusError.shared_consumer_group bus []
    else answer_with bus (command ∷ []) (script_error (client command))

-- The bus after an error that is not a context's.
abbrev degrade_on : Option BusError → EventBus → EventBus
degrade_on none bus = bus
degrade_on (some e) bus = set_degraded e bus

-- `Close`
unfoldable pub close : Client → EventBus → Ran
unfolding close_consumer_group_if_idle
close client bus =
    let closed = close_consumer_group_if_idle client bus in
    record closed { bus = degrade_on closed.result closed.bus }

-- The two consumers are sessions of one node that differ, each with its own group.
unfoldable pub replaceable : StreamConsumer → StreamConsumer → Bool
replaceable old new =
    valid_stream_consumer old
    && (valid_stream_consumer new
        && (same old.node_identity new.node_identity
            && (not (same old.node_session_id new.node_session_id)
                && not (same old.group new.group))))

-- `ReplaceConsumer`
unfoldable pub replace_consumer : Client → EventBus → StreamConsumer → Ran
unfolding replaceable script_error
replace_consumer client bus old =
    let command = replace_script bus.stream old.group bus.consumer.group in
    let result = script_error (client command) in
    if not (replaceable old bus.consumer)
    then degrade_with BusError.shared_consumer_group bus []
    else answer_with (degrade_on result bus) (command ∷ []) result

pending_result : Reply ℤ → Option BusError
pending_result (failed e) = some e
pending_result (got n) = if leb_int n (ℤ.pos 0) then none else some BusError.pending_messages

-- `CheckPending`
unfoldable pub check_pending : Client → EventBus → ℕ → Ran
unfolding pending_result
check_pending client bus threshold =
    let command = xpending_ext bus.stream bus.consumer.group threshold in
    let result = pending_result (client command) in
    answer_with (degrade_on result bus) (command ∷ []) result

-- `Trim`
unfoldable pub trim : Client → EventBus → ℤ → Ran
trim client bus max_len =
    let command = trim_script bus.stream max_len in
    answer_with bus (command ∷ []) (error_of (client command))

-- A round of the loop of `RunTrimLoop`: whether the ticker fired, not ctx.Done; whether ctx.Err() is set
-- then; and the client that the round finds.
pub record TrimRound : Type 0 where
  pub ticked : Bool
  pub done : Bool
  pub client : Client

-- What a round of the loop does to the bus: it goes on, or the loop returns.
abbrev pub after_trim : Option BusError → EventBus → EventBus × Option (Option BusError)
after_trim none bus = (bus, none)
after_trim (some e) bus =
    if is_context_error e then (bus, some none) else (set_degraded e bus, some (some e))

unfoldable pub trim_round : TrimRound → EventBus → ℤ → EventBus × Option (Option BusError)
unfolding trim
trim_round round bus max_len =
    if not round.ticked || round.done
    then (bus, some none)
    else after_trim (trim round.client bus max_len).result bus

abbrev pub or_go_on :
    EventBus × Option (Option BusError)
    → EventBus × Option (Option BusError)
    → EventBus × Option (Option BusError)
or_go_on (bus, none) rest = rest
or_go_on (bus, some result) rest = (bus, some result)

-- The loop, over the rounds so far; the second part is `none` while it runs.
unfoldable pub trim_rounds : List TrimRound → EventBus → ℤ → EventBus × Option (Option BusError)
unfolding trim_round
trim_rounds [] bus max_len = (bus, none)
trim_rounds (round ∷ rounds) bus max_len =
    let here = trim_round round bus max_len in or_go_on here (trim_rounds rounds (here.0) max_len)

-- `RunTrimLoop`: an interval that is not positive trims once.
unfoldable pub run_trim_loop :
    Client → List TrimRound → EventBus → ℤ → ℤ → EventBus × Option (Option BusError)
unfolding trim trim_rounds
run_trim_loop client rounds bus interval max_len =
    if leb_int interval (ℤ.pos 0)
    then (bus, some (trim client bus max_len).result)
    else trim_rounds rounds bus max_len
