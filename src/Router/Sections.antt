-- ===== src/Router/Sections.antt =====
-- What one critical section of the router does after an event that overtook its caller.
use stable_placement.Base.{
  ℕ, suc, ◌+◌, ◌^◌, ◌%◌, ◌≡◌, refl, inl, inr, leb, ◌==◌, true, false, some, Text, Bool-cases,
  Option-cases, subst, sym, arith,
}
use stable_placement.Model.{Result, ok, err, Placement, PlacementRoute, PlacementEvent}
use stable_placement.Cache.{
  get_cached_placement, delete_call, by_node_call, by_group_call, clear_call, degrade_call,
  cache_step, delete_cached_placement,
}
use stable_placement.Router.{
  CachedRouter, advance, advance_event, serves, fill, lookup_cached, lookup_fill, resolve_fill,
  matches_synchronous_created, allocate_fill,
}
use stable_placement.Router.Invalidation.{degrade, recover}
use stable_placement.Router.Events.{
  Scope, nothing, everything, grain, node, group, scope_of, by_scope, with_call,
  handle_event-by_scope,
}
use stable_placement.Router.Epochs.{
  RouterStep, look, fill_lookup, fill_resolve, fill_allocate, event, degrading, recovering,
  router_step, announces, is_overtaken,
}
use stable_placement.Router.Since.{
  Shrinks, Since, adds, Shrinks-call, Shrinks-refl, Shrinks-trans, Since-same, Since-next,
}

-- What one section does after the event: nothing new in the cache, and the rest stays in force.
unfoldable pub Overtaken : ℕ → ℕ → PlacementEvent → CachedRouter → CachedRouter → Type 0
Overtaken bound n e r r' = Shrinks r.cache r'.cache × Since bound n e r'

Overtaken-same :
    (bound n : ℕ) (e : PlacementEvent) (r r' : CachedRouter)
    → r' ≡ r
    → Since bound (suc n) e r
    → Overtaken bound n e r r'
unfolding Overtaken
Overtaken-same bound n e r r' h s =
    subst (λ x. Shrinks r.cache x.cache × Since bound n e x) (sym h)
      (Shrinks-refl r.cache, Since-same bound n e r r refl refl s)

look-stale :
    (r : CachedRouter) (key : Text) (now : ℕ) (route : PlacementRoute)
    → get_cached_placement r.cache key ≡ some route
    → serves route now ≡ false
    → record r { cache = delete_cached_placement r.cache key } ≡ (lookup_cached r key now).0
unfolding lookup_cached
look-stale r key now route q dead = ground arith

look-Overtaken :
    (bound n : ℕ) (e : PlacementEvent) (r : CachedRouter) (key : Text) (now : ℕ)
    → Since bound (suc n) e r
    → Overtaken bound n e r (lookup_cached r key now).0
unfolding Overtaken lookup_cached cache_step adds
look-Overtaken bound n e r key now s = elim (Option-cases (get_cached_placement r.cache key)) [
  | inl q ↦ Overtaken-same bound n e r (lookup_cached r key now).0 (ground arith) s
  | inr (route, q) ↦ elim (Bool-cases (serves route now)) [
    | inl live ↦ Overtaken-same bound n e r (lookup_cached r key now).0 (ground arith) s
    | inr dead ↦
        let d = record r { cache = delete_cached_placement r.cache key } in
        subst (Overtaken bound n e r) (look-stale r key now route q dead)
          (Shrinks-call r.cache (delete_call key) refl, Since-same bound n e r d refl refl s)
  ]
]

not_current :
    (bound epoch n : ℕ) (e : PlacementEvent) (r : CachedRouter)
    → leb epoch bound ≡ true
    → Since bound n e r
    → (r.epoch == epoch) ≡ false
not_current bound epoch n e r h s = ground (arith, s.later)

lookup_fill-same :
    (r : CachedRouter) (epoch : ℕ) (key : Text) (answer : Result PlacementRoute) (now : ℕ)
    → (r.epoch == epoch) ≡ false
    → (lookup_fill r epoch key answer now).0 ≡ r
unfolding lookup_fill fill
lookup_fill-same r epoch key (err e) now h = refl
lookup_fill-same r epoch key (ok route) now h = ground arith

resolve_fill-same :
    (r : CachedRouter) (epoch : ℕ) (key : Text) (answer : Result PlacementRoute) (now : ℕ)
    → (r.epoch == epoch) ≡ false
    → (resolve_fill r epoch key answer now).0 ≡ r
unfolding resolve_fill fill
resolve_fill-same r epoch key (err e) now h = refl
resolve_fill-same r epoch key (ok route) now h = ground arith

not_synchronous :
    (bound epoch n : ℕ) (e : PlacementEvent) (r : CachedRouter) (placement : Placement)
    → leb epoch bound ≡ true
    → announces e placement ≡ false
    → Since bound n e r
    → matches_synchronous_created r epoch placement ≡ false
unfolding matches_synchronous_created
not_synchronous bound epoch n e r placement h g s =
    elim (Bool-cases (r.epoch == (epoch + 1) % 2 ^ 64)) [
      | inl q ↦
          let at : r.epoch ≡ suc bound = ground (arith, s.later, s.room) in
          let last : r.last_event ≡ e = s.last at in
          let g' : announces r.last_event placement ≡ false =
            subst (λ x. announces x placement ≡ false) (sym last) g in
          ground arith
      | inr q ↦ ground arith
    ]

allocate_fill-same :
    (r : CachedRouter) (epoch : ℕ) (placement : Placement) (answer : Result PlacementRoute)
    (now : ℕ)
    → (r.epoch == epoch) ≡ false
    → matches_synchronous_created r epoch placement ≡ false
    → allocate_fill r epoch placement answer now ≡ r
unfolding allocate_fill fill
allocate_fill-same r epoch placement (err e) now h g = refl
allocate_fill-same r epoch placement (ok route) now h g = ground arith

by_scope-Overtaken :
    (bound n : ℕ) (e f : PlacementEvent) (r : CachedRouter) (scope : Scope)
    → Since bound (suc n) e r
    → Overtaken bound n e r (by_scope r f scope)
unfolding Overtaken by_scope with_call advance_event advance adds
by_scope-Overtaken bound n e f r nothing s =
    (Shrinks-refl r.cache, Since-same bound n e r r refl refl s)
by_scope-Overtaken bound n e f r everything s =
    (Shrinks-call r.cache clear_call refl, Since-next bound n e r _ refl s)
by_scope-Overtaken bound n e f r (grain key) s =
    (Shrinks-call r.cache (delete_call key) refl, Since-next bound n e r _ refl s)
by_scope-Overtaken bound n e f r (node identity) s =
    (Shrinks-call r.cache (by_node_call identity) refl, Since-next bound n e r _ refl s)
by_scope-Overtaken bound n e f r (group t g) s =
    (Shrinks-call r.cache (by_group_call t g) refl, Since-next bound n e r _ refl s)

degrade-Overtaken :
    (bound n : ℕ) (e : PlacementEvent) (r : CachedRouter)
    → Since bound (suc n) e r
    → Overtaken bound n e r (degrade r)
unfolding Overtaken degrade advance adds cache_step
degrade-Overtaken bound n e r s =
    (Shrinks-call r.cache (degrade_call true) refl, Since-next bound n e r (degrade r) refl s)

recover-Overtaken :
    (bound n : ℕ) (e : PlacementEvent) (r : CachedRouter)
    → Since bound (suc n) e r
    → Overtaken bound n e r (recover r)
unfolding Overtaken recover advance adds cache_step
recover-Overtaken bound n e r s =
    let c = cache_step r.cache clear_call in
    (
      Shrinks-trans r.cache c (cache_step c (degrade_call false))
          (Shrinks-call r.cache clear_call refl) (Shrinks-call c (degrade_call false) refl),
      Since-next bound n e r (recover r) refl s,
    )

pub step-Overtaken :
    (bound n : ℕ) (e : PlacementEvent) (r : CachedRouter) (s : RouterStep)
    → is_overtaken bound e s ≡ true
    → Since bound (suc n) e r
    → Overtaken bound n e r (router_step r s)
unfolding router_step is_overtaken
step-Overtaken bound n e r (look key now) h g = look-Overtaken bound n e r key now g
step-Overtaken bound n e r (fill_lookup epoch key answer now) h g =
    Overtaken-same bound n e r _
      (lookup_fill-same r epoch key answer now (not_current bound epoch (suc n) e r h g)) g
step-Overtaken bound n e r (fill_resolve epoch key answer now) h g =
    Overtaken-same bound n e r _
      (resolve_fill-same r epoch key answer now (not_current bound epoch (suc n) e r h g)) g
step-Overtaken bound n e r (fill_allocate epoch placement answer now) h g =
    let old : leb epoch bound ≡ true = ground arith in
    let other : announces e placement ≡ false = ground arith in
    Overtaken-same bound n e r _
      (allocate_fill-same r epoch placement answer now (not_current bound epoch (suc n) e r old g)
        (not_synchronous bound epoch (suc n) e r placement old other g))
      g
step-Overtaken bound n e r (event f) h g =
    subst (Overtaken bound n e r) (sym (handle_event-by_scope r f))
      (by_scope-Overtaken bound n e f r (scope_of f) g)
step-Overtaken bound n e r degrading h g = degrade-Overtaken bound n e r g
step-Overtaken bound n e r recovering h g = recover-Overtaken bound n e r g
