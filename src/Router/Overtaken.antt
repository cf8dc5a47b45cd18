-- ===== src/Router/Overtaken.antt =====
-- The epoch keeps a slow caller from caching a route that an event has overtaken.
use stable_placement.Base.{
  ◌≢◌, ℕ, suc, ◌+◌, ◌<◌, ◌^◌, ◌%◌, ◌≡◌, refl, true, false, Option, none, some, List, [], ◌∷◌, Text,
  length, All, subst, sym, ◌∙◌, arith,
}
use stable_placement.Model.{PlacementRoute, PlacementEvent}
use stable_placement.Cache.{get_cached_placement}
use stable_placement.Cache.Index.{IsIndexed}
use stable_placement.Router.{CachedRouter, advance, advance_event}
use stable_placement.Router.Invalidation.{handle_event}
use stable_placement.Router.Events.{
  Scope, nothing, everything, grain, node, group, scope_of, concerns, keep_unless, by_scope,
  with_call, handle_event-by_scope, handle_event_drops,
}
use stable_placement.Router.Epochs.{RouterStep, router_step, router_run, is_overtaken}
use stable_placement.Router.Since.{Shrinks, Since, Shrinks-refl, Shrinks-trans}
use stable_placement.Router.Sections.{Overtaken, step-Overtaken}

run-Shrinks :
    (bound : ℕ) (e : PlacementEvent) (steps : List RouterStep) (r : CachedRouter)
    → All (λ s. is_overtaken bound e s ≡ true) steps
    → Since bound (length steps) e r
    → Shrinks r.cache (router_run r steps).cache
unfolding router_run Overtaken
run-Shrinks bound e [] r h g = Shrinks-refl r.cache
run-Shrinks bound e (s ∷ steps) r h g =
    let (now, later) = step-Overtaken bound (length steps) e r s h.0 g in
    Shrinks-trans r.cache (router_step r s).cache (router_run (router_step r s) steps).cache now
      (run-Shrinks bound e steps (router_step r s) h.1 later)

Since-advanced :
    (r : CachedRouter) (e : PlacementEvent) (n : ℕ) (r' : CachedRouter)
    → r'.epoch ≡ (r.epoch + 1) % 2 ^ 64
    → r'.last_event ≡ e
    → r.epoch + suc n < 2 ^ 64
    → Since r.epoch n e r'
Since-advanced r e n r' h g room =
    let q : r'.epoch ≡ r.epoch + 1 = omega (arith, room) in
    record { later = omega arith; room = omega (arith, room); last = λ x. g }

kept_route :
    (scope : Scope) (k : Text) (route : PlacementRoute) (o : Option PlacementRoute)
    → keep_unless scope k o ≡ some route
    → (o ≡ some route) × (concerns scope k route ≡ false)
unfolding keep_unless
kept_route scope k route none h = cc
kept_route scope k route (some x) h = ground arith

Since-event :
    (r : CachedRouter) (e : PlacementEvent) (scope : Scope) (n : ℕ)
    → scope ≢ nothing
    → r.epoch + suc n < 2 ^ 64
    → Since r.epoch n e (by_scope r e scope)
unfolding by_scope with_call advance_event advance
Since-event r e nothing n h g = absurd (h refl)
Since-event r e everything n h g = Since-advanced r e n _ refl refl g
Since-event r e (grain key) n h g = Since-advanced r e n _ refl refl g
Since-event r e (node identity) n h g = Since-advanced r e n _ refl refl g
Since-event r e (group t u) n h g = Since-advanced r e n _ refl refl g

-- Let a router with a well-formed cache handle an event that is about something, and let any sections
-- follow, in any order, fewer than it takes to wrap the epoch around, whose calls began before the
-- event: every epoch that a fill carries is at most the one before the event, and no allocation is
-- of the very placement whose creation the event announces. Then a route cached at the end was
-- cached before the event and is not one that the event is about: no directory answer that
-- the event has overtaken gets into the cache.
pub no_overtaken_fill :
    (r : CachedRouter) (e : PlacementEvent) (steps : List RouterStep) (k : Text)
    (route : PlacementRoute)
    → IsIndexed r.cache
    → scope_of e ≢ nothing
    → All (λ s. is_overtaken r.epoch e s ≡ true) steps
    → r.epoch + suc (length steps) < 2 ^ 64
    → get_cached_placement (router_run (handle_event r e) steps).cache k ≡ some route
    → (get_cached_placement r.cache k ≡ some route) × (concerns (scope_of e) k route ≡ false)
no_overtaken_fill r e steps k route v about old room h =
    let since = Since-event r e (scope_of e) (length steps) about room in
    let since' = subst (Since r.epoch (length steps) e) (sym (handle_event-by_scope r e)) since in
    let (v', drops) = handle_event_drops r e k v in
    let shrinks = run-Shrinks r.epoch e steps (handle_event r e) old since' in
    kept_route (scope_of e) k route (get_cached_placement r.cache k)
      (sym drops ∙ shrinks.kept k route v' h)
