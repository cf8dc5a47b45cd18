-- ===== src/Redis/Consume/Delivers.antt =====
-- redis/event_bus.go: what a part of consume does with its messages, and parts one after the other.
use mathlib.Core.List.{append-nil, append_assoc}
use stable_placement.Base.{
  ◌≡◌, refl, sym, ap, ◌∙◌, ◌⊎◌, inl, inr, true, Option, some, List, [], ◌∷◌, ◌++◌, Text, arith,
  Bool-cases, subst,
}
use stable_placement.Redis.Errors.{BusError, is_context_error}
use stable_placement.Redis.Stream.{EventBus, set_degraded}
use stable_placement.Redis.Consume.{Reader, Flow, next, returned, Progress, stop, then_do}

-- All that was handled is acknowledged, or all but the last.
pub data Acked (before done after : List Text) : Type 0 where
  all : after ≡ before ++ done → Acked before done after
  but_last :
      (front : List Text) (id : Text)
      → done ≡ front ++ id ∷ []
      → after ≡ before ++ front
      → Acked before done after

-- Of the messages `ids`, in order, a first part is handled. If the loop goes on then all of them are
-- handled and acknowledged; if it returns an error, the bus is degraded, unless it is a context's.
pub record Delivers {S : Type 0} (ids : List Text) (r : Reader S) (p : Progress S) : Type 0 where
  pub done : List Text
  pub rest : List Text
  pub split : ids ≡ done ++ rest
  pub handled : p.reader.handled ≡ r.handled ++ done
  pub acked : Acked r.acks done p.reader.acks
  pub going : p.flow ≡ next → (rest ≡ []) × (p.reader.acks ≡ r.acks ++ done)
  pub failing :
      (e : BusError)
      → p.flow ≡ returned (some e)
      → (p.reader.bus.degraded ≡ true) ⊎ (is_context_error e ≡ true)

-- The bus that an error leaves, for the error that is then returned.
pub set_degraded_lem :
    (e : BusError) (bus : EventBus) (x : BusError)
    → e ≡ x
    → ((set_degraded e bus).degraded ≡ true) ⊎ (is_context_error x ≡ true)
unfolding set_degraded
set_degraded_lem e bus x q = elim (Bool-cases (is_context_error e)) [
  | inl h ↦ inr (subst (λ y. is_context_error y ≡ true) q h)
  | inr h ↦ inl (ground arith)
]

module _ {S : Type 0} where
  -- Nothing more is handled, and the loop returns.
  pub stop-Delivers :
      (ids : List Text) (r : Reader S) (s : S) (bus : EventBus) (result : Option BusError)
      → ((e : BusError) → result ≡ some e → (bus.degraded ≡ true) ⊎ (is_context_error e ≡ true))
      → Delivers ids r (stop (record r { store = s; bus = bus }) result)
  stop-Delivers ids r s bus result h = record {
    done = [];
    rest = ids;
    split = refl;
    handled = sym (append-nil r.handled);
    acked = all (sym (append-nil r.acks));
    going = λ q. absurd (ground arith);
    failing = λ e q. h e (ground arith);
  }

  -- The message is handled, and the loop returns before or after the acknowledgement.
  pub handled-Delivers :
      (id : Text) (r : Reader S) (s : S) (bus : EventBus) (acks : List Text) (flow : Flow)
      → Acked r.acks (id ∷ []) acks
      → (flow ≡ next → acks ≡ r.acks ++ id ∷ [])
      → ((e : BusError)
          → flow ≡ returned (some e)
          → (bus.degraded ≡ true) ⊎ (is_context_error e ≡ true))
      → Delivers (id ∷ []) r (record {
        reader = record { bus = bus; store = s; handled = r.handled ++ id ∷ []; acks = acks };
        flow = flow;
      })
  handled-Delivers id r s bus acks flow a n h = record {
    done = id ∷ [];
    rest = [];
    split = refl;
    handled = refl;
    acked = a;
    going = λ q. (refl, n q);
    failing = h;
  }

  module _ (ids more : List Text) (r : Reader S) (here rest : Progress S)
      (h : Delivers ids r here) where
    stopped-Delivers :
        (result : Option BusError) → here.flow ≡ returned result → Delivers (ids ++ more) r here
    stopped-Delivers result e = record {
      done = h.done;
      rest = h.rest ++ more;
      split = ap (λ (l : List Text). l ++ more) h.split ∙ append_assoc h.done h.rest more;
      handled = h.handled;
      acked = h.acked;
      going = λ q. absurd (ground arith);
      failing = h.failing;
    }

    -- The acknowledgements of the two parts, one after the other.
    acks_appended :
        (done : List Text)
        → here.reader.acks ≡ r.acks ++ h.done
        → Acked here.reader.acks done rest.reader.acks
        → Acked r.acks (h.done ++ done) rest.reader.acks
    acks_appended done a (all e) =
        all (e ∙ (ap (λ (l : List Text). l ++ done) a ∙ append_assoc r.acks h.done done))
    acks_appended done a (but_last front id q e) =
        but_last (h.done ++ front) id
          (ap (λ (l : List Text). h.done ++ l) q ∙ sym (append_assoc h.done front (id ∷ [])))
          (e ∙ (ap (λ (l : List Text). l ++ front) a ∙ append_assoc r.acks h.done front))

    gone_on-Delivers :
        here.flow ≡ next → Delivers more here.reader rest → Delivers (ids ++ more) r rest
    gone_on-Delivers e g =
        let (nothing_left, acks) = h.going e in
        let whole : ids ≡ h.done =
          h.split ∙ (ap (λ (l : List Text). h.done ++ l) nothing_left ∙ append-nil h.done) in
        record {
          done = h.done ++ g.done;
          rest = g.rest;
          split = (λ i. whole i ++ g.split i) ∙ sym (append_assoc h.done g.done g.rest);
          handled =
              g.handled
              ∙ (ap (λ (l : List Text). l ++ g.done) h.handled
                  ∙ append_assoc r.handled h.done g.done);
          acked = acks_appended g.done acks g.acked;
          going = λ q.
              let (nothing_more, acks') = g.going q in
              (
                nothing_more,
                acks'
                    ∙ (ap (λ (l : List Text). l ++ g.done) acks
                        ∙ append_assoc r.acks h.done g.done),
              );
          failing = g.failing;
        }

    -- What follows a part that goes on.
    pub then_do-Delivers :
        Delivers more here.reader rest
        → (flow : Flow) → here.flow ≡ flow
        → Delivers (ids ++ more) r (then_do flow here rest)
    then_do-Delivers g next e = gone_on-Delivers e g
    then_do-Delivers g (returned result) e = stopped-Delivers result e

  pub nothing-Delivers : (r : Reader S) → Delivers [] r (record { reader = r; flow = next })
  nothing-Delivers r = record {
    done = [];
    rest = [];
    split = refl;
    handled = sym (append-nil r.handled);
    acked = all (sym (append-nil r.acks));
    going = λ q. (refl, sym (append-nil r.acks));
    failing = λ e q. absurd (ground arith);
  }
