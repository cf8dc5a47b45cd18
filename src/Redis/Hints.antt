-- ===== src/Redis/Hints.antt =====
-- redis/event_bus.go: the notifications by Pub/Sub. `decode` stands for json.Unmarshal and `encode` for
-- json.Marshal on an event; `S` is what the handler works on.
use stable_placement.Base.{Bool, Option, none, some, List, [], ◌∷◌, Text, if◌then◌else◌}
use stable_placement.Model.{PlacementEvent}
use stable_placement.Redis.{events_pubsub, key_of}
use stable_placement.Redis.Errors.{BusError, Reply, failed, got}
use stable_placement.Redis.Stream.{EventBus, set_degraded}
use stable_placement.Redis.Consume.{EventHandler}

-- `PublishHint`: what is published, with the channel first, or the error of the encoding.
unfoldable pub publish_hint : (PlacementEvent → Reply Text) → PlacementEvent → Reply (Text × Text)
publish_hint encode event = elim (encode event) [
  | failed e ↦ failed e
  | got payload ↦ got (key_of events_pubsub, payload)
]

-- A round of the loop of `SubscribeHint`: the message received, and whether ctx.Err() is set after an
-- error of receiving and after the handler.
pub record HintRound : Type 0 where
  pub message : Reply Text
  pub done_after_error : Bool
  pub done_after : Bool

-- The bus, the handler's state, and what was returned, if the loop has returned.
pub record HintState (S : Type 0) : Type 0 where
  pub bus : EventBus
  pub store : S
  pub result : Option (Option BusError)

module _ {S : Type 0} where
  abbrev pub hint_degraded : EventBus → S → BusError → HintState S
  hint_degraded bus s e = record { bus = set_degraded e bus; store = s; result = some (some e) }

  abbrev pub hint_handled : EventBus → Bool → S × Option BusError → HintState S
  hint_handled bus done (s, some e) = hint_degraded bus s e
  hint_handled bus done (s, none) = record {
    bus = bus;
    store = s;
    result = if done then some none else none;
  }

  abbrev pub hint_decoded :
      EventHandler S → HintRound → EventBus → S → Reply PlacementEvent → HintState S
  hint_decoded handler round bus s (failed e) = hint_degraded bus s e
  hint_decoded handler round bus s (got event) = hint_handled bus round.done_after (handler s event)

  -- An error of Redis ends the subscription: quietly, if the context is done.
  abbrev pub hint_failed : Bool → EventBus → S → BusError → HintState S
  hint_failed done bus s e =
      if done then record { bus = bus; store = s; result = some none } else hint_degraded bus s e

  abbrev pub hint_received :
      (Text → Reply PlacementEvent)
      → EventHandler S
      → HintRound
      → EventBus
      → S
      → Reply Text
      → HintState S
  hint_received decode handler round bus s (failed e) = hint_failed round.done_after_error bus s e
  hint_received decode handler round bus s (got payload) =
      hint_decoded handler round bus s (decode payload)

  abbrev pub or_next_hint : Option (Option BusError) → HintState S → HintState S → HintState S
  or_next_hint none here rest = rest
  or_next_hint (some result) here rest = here

  -- The loop, over the rounds so far.
  unfoldable pub hint_rounds :
      (Text → Reply PlacementEvent) → EventHandler S → List HintRound → EventBus → S → HintState S
  unfolding set_degraded
  hint_rounds decode handler [] bus s = record { bus = bus; store = s; result = none }
  hint_rounds decode handler (round ∷ rounds) bus s =
      let here = hint_received decode handler round bus s round.message in
      or_next_hint here.result here (hint_rounds decode handler rounds here.bus here.store)

  -- `SubscribeHint`: the answer to the subscription comes first, with ctx.Err() after its error.
  unfoldable pub subscribe_hint :
      (Text → Reply PlacementEvent)
      → EventHandler S
      → Option BusError
      → Bool
      → List HintRound
      → EventBus
      → S
      → HintState S
  unfolding hint_rounds set_degraded
  subscribe_hint decode handler none done rounds bus s = hint_rounds decode handler rounds bus s
  subscribe_hint decode handler (some e) done rounds bus s = hint_failed done bus s e
