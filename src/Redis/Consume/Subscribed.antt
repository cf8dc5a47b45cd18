-- ===== src/Redis/Consume/Subscribed.antt =====
-- redis/event_bus.go: Subscribe as a whole.
use stable_placement.Base.{◌≡◌, ℕ, ◌<◌, true, none, some, List}
use stable_placement.Redis.Errors.{BusError}
use stable_placement.Redis.Stream.{EventBus, valid_stream_consumer}
use stable_placement.Redis.Continuity.Check.{Attempt}
use stable_placement.Redis.Continuity.Sound.{Assured}
use stable_placement.Redis.Consume.{Reader, ReadRound, returned, Progress, stop}
use stable_placement.Redis.Consume.Delivers.{Delivers}
use stable_placement.Redis.Consume.Delivered.{read_ids}

-- Pending messages are delivered first; new ones only after these are consumed without an error.
pub data InOrder {S : Type 0} (pending fresh : List ReadRound) (r : Reader S)
    : Progress S → Type 0 where
  pending_only : (p : Progress S) → Delivers (read_ids pending) r p → InOrder pending fresh r p
  then_fresh :
      (m p : Progress S)
      → Delivers (read_ids pending) r m
      → m.flow ≡ returned none
      → Delivers (read_ids fresh) m.reader p
      → InOrder pending fresh r p

-- What Subscribe can have done: returned an error before any message was read, or delivered messages
-- after the group was found valid and without a gap.
pub data Subscribed {S : Type 0} (env : ℕ → Attempt) (pending fresh : List ReadRound) (r : Reader S)
    : Progress S → Type 0 where
  refused :
      (e : BusError) (bus : EventBus)
      → Subscribed env pending fresh r (stop (record r { bus = bus }) (some e))
  delivered :
      (i : ℕ) (p : Progress S)
      → i < 3
      → valid_stream_consumer r.bus.consumer ≡ true
      → Assured (env i) r.bus.consumer.group
      → InOrder pending fresh r p
      → Subscribed env pending fresh r p
