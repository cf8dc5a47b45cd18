-- ===== src/Redis/Consume.antt =====
-- redis/event_bus.go: Subscribe and consume, which hand the entries of the stream to a handler and
-- acknowledge them. `S` is what the handler works on.
pub mod Delivers
pub mod Delivered
pub mod Subscribed
mod Tests
use stable_placement.Base.{
  ℕ, ◌&&◌, Bool, true, false, Option, none, some, List, [], ◌∷◌, ◌++◌, Text, if◌then◌else◌, Map,
}
use stable_placement.Model.{PlacementEvent}
use stable_placement.Redis.Errors.{BusError, Reply, failed, got, is_context_error}
use stable_placement.Redis.Values.{Value, parse_event}
use stable_placement.Redis.Stream.{EventBus, set_degraded}
use stable_placement.Redis.Groups.{Client, ensure_consumer_group}
use stable_placement.Redis.Continuity.Check.{Attempt, Answer, check_continuity}

abbrev pub EventHandler : Type 0 → Type 0
EventHandler S = S → PlacementEvent → S × Option BusError

-- A message of a reply, and what happens around it: the time at which it is parsed, whether ctx.Err()
-- is set after an error of the handler and after its success, and the answer to XACK.
pub record Delivery : Type 0 where
  pub id : Text
  pub values : Map Value
  pub now : ℕ
  pub done_in_handler : Bool
  pub done_after : Bool
  pub acked : Option BusError

-- The bus, the handler's state, the ids of the messages whose handler returned nil, and the ids sent
-- with XACK, in order.
pub record Reader (S : Type 0) : Type 0 where
  pub bus : EventBus
  pub store : S
  pub handled : List Text
  pub acks : List Text

-- Where a part of the loop ends: it goes on, or consume returns.
pub data Flow : Type 0 where
  next : Flow
  returned : Option BusError → Flow

pub record Progress (S : Type 0) : Type 0 where
  pub reader : Reader S
  pub flow : Flow

module _ {S : Type 0} where
  abbrev pub stop : Reader S → Option BusError → Progress S
  stop r result = record { reader = r; flow = returned result }

  -- `b.setDegraded(…, err); return err`
  abbrev pub stop_degraded : Reader S → BusError → Progress S
  stop_degraded r e = stop (record r { bus = set_degraded e r.bus }) (some e)

  abbrev pub ack : Delivery → Reader S → Reader S
  ack d r = record r { acks = r.acks ++ d.id ∷ [] }

  -- After XACK.
  abbrev pub after_ack : Option BusError → Reader S → Progress S
  after_ack none r = record { reader = r; flow = next }
  after_ack (some e) r = if is_context_error e then stop r none else stop_degraded r e

  abbrev pub after_handler : Delivery → Option BusError → Reader S → Progress S
  after_handler d (some e) r =
      if d.done_in_handler && is_context_error e then stop r none else stop_degraded r e
  after_handler d none r =
      let r' : Reader S = record r { handled = r.handled ++ d.id ∷ [] } in
      if d.done_after then stop r' none else after_ack d.acked (ack d r')

  abbrev pub handle_parsed :
      EventHandler S → Delivery → Reply PlacementEvent → Reader S → Progress S
  handle_parsed handler d (failed e) r = stop_degraded r e
  handle_parsed handler d (got event) r =
      let answer = handler r.store event in
      after_handler d (answer.1) (record r { store = answer.0 })

  -- The body of the loop over the messages of a reply.
  unfoldable pub handle_delivery : EventHandler S → Delivery → Reader S → Progress S
  unfolding set_degraded parse_event
  handle_delivery handler d r = handle_parsed handler d (parse_event d.values d.now) r

  -- The rest of the loop, if this part of it goes on.
  abbrev pub then_do : Flow → Progress S → Progress S → Progress S
  then_do next here rest = rest
  then_do (returned result) here rest = here

  unfoldable pub handle_deliveries : EventHandler S → List Delivery → Reader S → Progress S
  unfolding handle_delivery
  handle_deliveries handler [] r = record { reader = r; flow = next }
  handle_deliveries handler (d ∷ ds) r =
      let here = handle_delivery handler d r in
      then_do here.flow here (handle_deliveries handler ds here.reader)

-- One round of `consume`: whether ctx is done at its start, the reply of XREADGROUP with its messages,
-- and whether ctx.Err() is set after an error.
pub record ReadRound : Type 0 where
  pub done : Bool
  pub reply : Reply (List Delivery)
  pub done_after_error : Bool

module _ {S : Type 0} where
  -- Nothing to read: the pending entries are all consumed, or new ones are waited for.
  abbrev pub nothing_read : Bool → Reader S → Progress S
  nothing_read beginning r = if beginning then stop r none else record { reader = r; flow = next }

  abbrev pub read_reply :
      EventHandler S → Bool → Bool → Reply (List Delivery) → Reader S → Progress S
  read_reply handler beginning done (failed BusError.redis_nil) r = nothing_read beginning r
  read_reply handler beginning done (failed e) r = if done then stop r none else stop_degraded r e
  read_reply handler beginning done (got []) r = nothing_read beginning r
  read_reply handler beginning done (got (d ∷ ds)) r = handle_deliveries handler (d ∷ ds) r

  unfoldable pub consume_round : EventHandler S → Bool → ReadRound → Reader S → Progress S
  unfolding handle_deliveries set_degraded
  consume_round handler beginning round r =
      if round.done
      then stop r none
      else read_reply handler beginning round.done_after_error round.reply r

  -- `consume`, from the id "0" or from ">", over the rounds that it has had so far; `next` means that
  -- it is still running.
  unfoldable pub consume : EventHandler S → Bool → List ReadRound → Reader S → Progress S
  unfolding consume_round
  consume handler beginning [] r = record { reader = r; flow = next }
  consume handler beginning (round ∷ rounds) r =
      let here = consume_round handler beginning round r in
      then_do here.flow here (consume handler beginning rounds here.reader)

  -- New entries are read once the pending ones are consumed without an error.
  abbrev pub then_new : EventHandler S → List ReadRound → Flow → Progress S → Progress S
  then_new handler fresh next p = p
  then_new handler fresh (returned (some e)) p = p
  then_new handler fresh (returned none) p = consume handler false fresh p.reader

  unfoldable pub consume_all :
      EventHandler S → List ReadRound → List ReadRound → Reader S → Progress S
  unfolding consume
  consume_all handler pending fresh r =
      let p = consume handler true pending r in then_new handler fresh p.flow p

  -- After CheckContinuity; `none` means that it ran out of fuel.
  abbrev pub after_check :
      EventHandler S
      → List ReadRound
      → List ReadRound
      → Reader S
      → Option Answer
      → Option (Progress S)
  after_check handler pending fresh r none = none
  after_check handler pending fresh r (some (bus, some e)) =
      some (stop (record r { bus = bus }) (some e))
  after_check handler pending fresh r (some (bus, none)) =
      some (consume_all handler pending fresh (record r { bus = bus }))

  -- After EnsureConsumerGroup; `live` tells whether ctx.Err() is nil after its error.
  abbrev pub after_ensure :
      (ℕ → Attempt)
      → Bool
      → EventHandler S
      → List ReadRound
      → List ReadRound
      → Reader S
      → EventBus
      → Option BusError
      → Option (Progress S)
  after_ensure env live handler pending fresh r bus (some e) =
      some (stop (record r { bus = if live then set_degraded e bus else bus }) (some e))
  after_ensure env live handler pending fresh r bus none =
      after_check handler pending fresh r (check_continuity env bus)

  -- `Subscribe`
  unfoldable pub subscribe :
      Client
      → (ℕ → Attempt)
      → Bool
      → EventHandler S
      → List ReadRound
      → List ReadRound
      → Reader S
      → Option (Progress S)
  subscribe client env live handler pending fresh r =
      let ensured = ensure_consumer_group client r.bus in
      after_ensure env live handler pending fresh r ensured.bus ensured.result
