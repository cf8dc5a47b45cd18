-- ===== src/Redis/Consume/Delivered.antt =====
-- redis/event_bus.go: consume handles the messages in order and acknowledges what it has handled.
use mathlib.Core.List.{append-nil}
use stable_placement.Base.{
  refl, sym, inl, inr, ◌&&◌, Bool, true, false, Option, none, some, List, [], ◌∷◌, ◌++◌, map, Text,
  arith, Bool-cases,
}
use stable_placement.Model.{PlacementEvent}
use stable_placement.Redis.Errors.{BusError, Reply, failed, got, is_context_error}
use stable_placement.Redis.Stream.{set_degraded}
use stable_placement.Redis.Values.{parse_event}
use stable_placement.Redis.Consume.{
  EventHandler, Delivery, Reader, next, returned, stop_degraded, after_ack, after_handler,
  handle_parsed, handle_delivery, handle_deliveries, ReadRound, nothing_read, read_reply,
  consume_round, consume,
}
use stable_placement.Redis.Consume.Delivers.{
  all, but_last, Delivers, set_degraded_lem, stop-Delivers, handled-Delivers, then_do-Delivers,
  nothing-Delivers,
}

abbrev pub ids_of : List Delivery → List Text
ids_of ds = map (λ d. d.id) ds

-- The messages of a round, none after an error or when the context is done.
abbrev pub messages_of : Reply (List Delivery) → List Text
messages_of (failed e) = []
messages_of (got ds) = ids_of ds

abbrev pub read_ids : List ReadRound → List Text
read_ids [] = []
read_ids (round ∷ rounds) = messages_of round.reply ++ read_ids rounds

module _ {S : Type 0} where
  after_ack-Delivers :
      (d : Delivery) (r : Reader S) (s : S) (o : Option BusError)
      → Delivers (d.id ∷ []) r (
          after_ack o
            (record r { store = s; handled = r.handled ++ d.id ∷ []; acks = r.acks ++ d.id ∷ [] }))
  after_ack-Delivers d r s none =
      handled-Delivers d.id r s r.bus (r.acks ++ d.id ∷ []) next (all refl) (λ q. refl)
        (λ e q. absurd (ground arith))
  after_ack-Delivers d r s (some e) = elim (Bool-cases (is_context_error e)) [
    | inl c ↦ rw c (
        handled-Delivers d.id r s r.bus (r.acks ++ d.id ∷ []) (returned none) (all refl) (λ q. refl)
          (λ x q. absurd (ground arith)))
    | inr c ↦ rw c (
        handled-Delivers d.id r s (set_degraded e r.bus) (r.acks ++ d.id ∷ []) (returned (some e))
          (all refl) (λ q. refl) (λ x q. set_degraded_lem e r.bus x (ground arith)))
  ]

  stop_degraded-Delivers :
      (ids : List Text) (r : Reader S) (s : S) (e : BusError)
      → Delivers ids r (stop_degraded (record r { store = s }) e)
  stop_degraded-Delivers ids r s e =
      stop-Delivers ids r s (set_degraded e r.bus) (some e)
        (λ x q. set_degraded_lem e r.bus x (ground arith))

  after_handler-Delivers :
      (d : Delivery) (r : Reader S) (s : S) (o : Option BusError)
      → Delivers (d.id ∷ []) r (after_handler d o (record r { store = s }))
  after_handler-Delivers d r s (some e) =
      elim (Bool-cases (d.done_in_handler && is_context_error e)) [
        | inl c ↦ rw c (stop-Delivers (d.id ∷ []) r s r.bus none (λ x q. absurd (ground arith)))
        | inr c ↦ rw c (stop_degraded-Delivers (d.id ∷ []) r s e)
      ]
  after_handler-Delivers d r s none = elim (Bool-cases d.done_after) [
    | inl c ↦ rw c (
        handled-Delivers d.id r s r.bus r.acks (returned none)
          (but_last [] d.id refl (sym (append-nil r.acks))) (λ q. absurd (ground arith))
          (λ x q. absurd (ground arith)))
    | inr c ↦ rw c (after_ack-Delivers d r s d.acked)
  ]

  handle_delivery-Delivers :
      (handler : EventHandler S) (d : Delivery) (r : Reader S)
      → Delivers (d.id ∷ []) r (handle_delivery handler d r)
  unfolding handle_delivery
  handle_delivery-Delivers handler d r = parsed (parse_event d.values d.now)
    where
      parsed : (m : Reply PlacementEvent) → Delivers (d.id ∷ []) r (handle_parsed handler d m r)
      parsed (failed e) = stop_degraded-Delivers (d.id ∷ []) r r.store e
      parsed (got event) =
          after_handler-Delivers d r (handler r.store event).0 (handler r.store event).1

  pub handle_deliveries-Delivers :
      (handler : EventHandler S) (ds : List Delivery) (r : Reader S)
      → Delivers (ids_of ds) r (handle_deliveries handler ds r)
  unfolding handle_deliveries
  handle_deliveries-Delivers handler [] r = nothing-Delivers r
  handle_deliveries-Delivers handler (d ∷ ds) r =
      let here = handle_delivery handler d r in
      then_do-Delivers (d.id ∷ []) (ids_of ds) r here (handle_deliveries handler ds here.reader)
        (handle_delivery-Delivers handler d r) (handle_deliveries-Delivers handler ds here.reader)
        here.flow refl

  nothing_read-Delivers :
      (beginning : Bool) (r : Reader S) → Delivers [] r (nothing_read beginning r)
  nothing_read-Delivers true r =
      stop-Delivers [] r r.store r.bus none (λ e q. absurd (ground arith))
  nothing_read-Delivers false r = nothing-Delivers r

  read_reply-Delivers :
      (handler : EventHandler S) (beginning done : Bool) (m : Reply (List Delivery)) (r : Reader S)
      → Delivers (messages_of m) r (read_reply handler beginning done m r)
  read_reply-Delivers handler beginning done (failed BusError.redis_nil) r =
      nothing_read-Delivers beginning r
  read_reply-Delivers handler beginning done (got []) r = nothing_read-Delivers beginning r
  read_reply-Delivers handler beginning done (got (d ∷ ds)) r =
      handle_deliveries-Delivers handler (d ∷ ds) r
  read_reply-Delivers handler beginning true (failed e) r =
      stop-Delivers [] r r.store r.bus none (λ x q. absurd (ground arith))
  read_reply-Delivers handler beginning false (failed e) r = stop_degraded-Delivers [] r r.store e

  consume_round-Delivers :
      (handler : EventHandler S) (beginning : Bool) (round : ReadRound) (r : Reader S)
      → Delivers (messages_of round.reply) r (consume_round handler beginning round r)
  unfolding consume_round
  consume_round-Delivers handler beginning round r = elim (Bool-cases round.done) [
    | inl c ↦ rw c (
        stop-Delivers (messages_of round.reply) r r.store r.bus none (λ e q. absurd (ground arith)))
    | inr c ↦ rw c (read_reply-Delivers handler beginning round.done_after_error round.reply r)
  ]

  -- consume handles the messages that Redis has given in their order, from the first on without a gap,
  -- and acknowledges each after its handler returned nil and before the next is handled: what it sent
  -- XACK for is what was handled, or all of it but the last. While it runs everything read is handled
  -- and acknowledged. If it returns an error, the bus is degraded, unless the error is a context's.
  pub consume-Delivers :
      (handler : EventHandler S) (beginning : Bool) (rounds : List ReadRound) (r : Reader S)
      → Delivers (read_ids rounds) r (consume handler beginning rounds r)
  unfolding consume
  consume-Delivers handler beginning [] r = nothing-Delivers r
  consume-Delivers handler beginning (round ∷ rounds) r =
      let here = consume_round handler beginning round r in
      then_do-Delivers (messages_of round.reply) (read_ids rounds) r here
        (consume handler beginning rounds here.reader)
        (consume_round-Delivers handler beginning round r)
        (consume-Delivers handler beginning rounds here.reader) here.flow refl
