-- ===== src/EventBus/Delivery.antt =====
-- What `Publish` delivers, and to whom.
use stable_placement.Base.{
  ℕ, suc, ◌≡◌, refl, inl, inr, ◌⊎◌, Option, none, some, List, [], ◌∷◌, take, get_elem?,
  Option-cases, ◌∙◌, arith,
}
use stable_placement.Model.{Error, PlacementEvent}
use stable_placement.EventBus.{Handler, EventBus, publish_from, publish}

-- The state after each of the handlers has taken the event, in order.
pub deliver : {S : Type 0} → List (Handler S) → PlacementEvent → S → S
deliver [] event s = s
deliver (handler ∷ handlers) event s = deliver handlers event (handler s event).0

-- Delivery ended with an error: of the context before the i-th handler, which then did not run, or
-- of the i-th handler, which was the last to run.
pub EndedAt :
    {S : Type 0}
    → (ℕ → Option Error)
    → List (Handler S)
    → PlacementEvent
    → S
    → S × Option Error
    → ℕ
    → Type 0
EndedAt {S} context handlers event s out i =
    (handler : Handler S) × (e : Error) × (get_elem? handlers i ≡ some handler)
    × (((context i ≡ some e) × (out ≡ (deliver (take i handlers) event s, some e)))
        ⊎ (((handler (deliver (take i handlers) event s) event).1 ≡ some e)
            × (out ≡ (deliver (take (suc i) handlers) event s, some e))))

shift : (ℕ → Option Error) → ℕ → Option Error
shift context i = context (suc i)

publish_from-shift :
    {S : Type 0} (context : ℕ → Option Error) (from : ℕ) (handlers : List (Handler S))
    (event : PlacementEvent) (s : S)
    → publish_from context (suc from) handlers event s
      ≡ publish_from (shift context) from handlers event s
unfolding publish_from shift
publish_from-shift context from [] event s = refl
publish_from-shift context from (handler ∷ handlers) event s =
    ground (arith, publish_from-shift context (suc from) handlers event (handler s event).0)

publish_from_stop :
    {S : Type 0} (context : ℕ → Option Error) (handler : Handler S) (handlers : List (Handler S))
    (event : PlacementEvent) (s : S) (e : Error)
    → context 0 ≡ some e
    → publish_from context 0 (handler ∷ handlers) event s ≡ (s, some e)
unfolding publish_from
publish_from_stop context handler handlers event s e h = ground arith

publish_from_fail :
    {S : Type 0} (context : ℕ → Option Error) (handler : Handler S) (handlers : List (Handler S))
    (event : PlacementEvent) (s : S) (e : Error)
    → context 0 ≡ none
    → (handler s event).1 ≡ some e
    → publish_from context 0 (handler ∷ handlers) event s ≡ ((handler s event).0, some e)
unfolding publish_from
publish_from_fail context handler handlers event s e h g = ground arith

publish_from_next :
    {S : Type 0} (context : ℕ → Option Error) (handler : Handler S) (handlers : List (Handler S))
    (event : PlacementEvent) (s : S)
    → context 0 ≡ none
    → (handler s event).1 ≡ none
    → publish_from context 0 (handler ∷ handlers) event s
      ≡ publish_from (shift context) 0 handlers event (handler s event).0
unfolding publish_from
publish_from_next context handler handlers event s h g =
    ground (arith, publish_from-shift context 0 handlers event (handler s event).0)

publish_from_lem :
    {S : Type 0} (handlers : List (Handler S)) (context : ℕ → Option Error) (event : PlacementEvent)
    (s : S)
    → (publish_from context 0 handlers event s ≡ (deliver handlers event s, none))
      ⊎ ((i : ℕ) × EndedAt context handlers event s (publish_from context 0 handlers event s) i)
unfolding publish_from deliver EndedAt shift
publish_from_lem [] context event s = inl refl
publish_from_lem (handler ∷ handlers) context event s = elim (Option-cases (context 0)) [
  | inr (e, q) ↦
      inr (0, (handler, e, refl, inl (q, publish_from_stop context handler handlers event s e q)))
  | inl q ↦ elim (Option-cases (handler s event).1) [
    | inr (e, h) ↦
        inr
          (0, (handler, e, refl, inr (h, publish_from_fail context handler handlers event s e q h)))
    | inl h ↦
        let next = publish_from_next context handler handlers event s q h in
        elim (publish_from_lem handlers (shift context) event (handler s event).0) [
          | inl g ↦ inl (next ∙ g)
          | inr (i, (other, e, at, how)) ↦ inr (
            suc i,
            (
              other,
              e,
              at,
              elim how [ inl (a, b) ↦ inl (a, next ∙ b) | inr (a, b) ↦ inr (a, next ∙ b) ],
            ),
          )
        ]
  ]
]

-- `Publish` without an error has given the event to every handler, in the order of subscription.
-- With an error it has given it to the handlers up to some i-th: either the context had ended before
-- the i-th handler ran, or the i-th handler is the last that ran and the error is its own.
pub publish_delivers :
    {S : Type 0} (bus : EventBus S) (context : ℕ → Option Error) (event : PlacementEvent) (s : S)
    → (publish bus context event s ≡ (deliver bus.handlers event s, none))
      ⊎ ((i : ℕ) × EndedAt context bus.handlers event s (publish bus context event s) i)
unfolding publish
publish_delivers bus context event s = publish_from_lem bus.handlers context event s
