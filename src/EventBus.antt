-- ===== src/EventBus.antt =====
-- memory/event_bus.go: the handlers of events and their delivery. `S` is what the handlers work on.
pub mod Delivery
mod Tests
use stable_placement.Base.{ℕ, zero, suc, ◌≡◌, Option, none, some, List, [], ◌∷◌, ◌++◌}
use stable_placement.Model.{Error, PlacementEvent}

abbrev pub Handler : Type 0 → Type 0
Handler S = S → PlacementEvent → S × Option Error

pub record EventBus (S : Type 0) : Type 0 where
  pub handlers : List (Handler S)

-- `Subscribe`, which never returns an error.
unfoldable pub subscribe : {S : Type 0} → EventBus S → Handler S → EventBus S
subscribe bus handler = record { handlers = bus.handlers ++ handler ∷ [] }

-- The loop of `Publish`. `context i` is the answer of the i-th call of ctx.Err.
unfoldable pub publish_from :
    {S : Type 0} → (ℕ → Option Error) → ℕ → List (Handler S) → PlacementEvent → S → S × Option Error
publish_from context i [] event s = (s, none)
publish_from context i (handler ∷ handlers) event s =
    let (s', failed) = handler s event in
    let rest = publish_from context (suc i) handlers event s' in
    elim (context i) [
      | some e ↦ (s, some e)
      | none ↦ elim failed [ some e ↦ (s', some e) | none ↦ rest ]
    ]

-- `Publish`
unfoldable pub publish :
    {S : Type 0} → EventBus S → (ℕ → Option Error) → PlacementEvent → S → S × Option Error
unfolding publish_from
publish bus context event s = publish_from context 0 bus.handlers event s
