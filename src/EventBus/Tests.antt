-- ===== src/EventBus/Tests.antt =====
-- An instance of the theorem about delivery: the second of three handlers fails.
use stable_placement.Base.{ℕ, ◌+◌, ◌≡◌, ◌⊎◌, Option, none, some, [], ◌∷◌}
use stable_placement.Model.{Error, no_event}
use stable_placement.EventBus.{Handler, EventBus, publish}
use stable_placement.EventBus.Delivery.{deliver, EndedAt, publish_delivers}

abbrev counts : Handler ℕ
counts n event = (n + 1, none)

abbrev fails : Handler ℕ
fails n event = (n + 10, some (Error.external 0))

abbrev three_handlers : EventBus ℕ
three_handlers = record { handlers = counts ∷ fails ∷ counts ∷ [] }

abbrev background : ℕ → Option Error
background i = none

publish_delivers_example :
    (publish three_handlers background no_event 0
      ≡ (deliver three_handlers.handlers no_event 0, none))
    ⊎ ((i : ℕ) × EndedAt background three_handlers.handlers no_event 0
          (publish three_handlers background no_event 0)
          i)
publish_delivers_example = publish_delivers three_handlers background no_event 0
