-- ===== src/Router.antt =====
-- memory/cached_router.go: the router that answers from the placement cache and fills it from the
-- directory. The directory's answers and the times that a method reads are arguments. A method that
-- unlocks around its call of the directory is modelled as its critical sections: the first returns
-- the epoch it saw, the last takes it, and the router may have changed in between.
pub mod Invalidation
pub mod Events
pub mod Epochs
pub mod Answers
pub mod Since
pub mod Sections
pub mod Overtaken
mod Tests
use stable_placement.Base.{
  ℕ, ◌+◌, ◌%◌, ◌^◌, ◌≡◌, ltb, ◌==◌, if◌then◌else◌, Bool, true, false, not, ◌&&◌, ◌||◌, Option, none,
  some, List, [], ◌∷◌, Text, same, is_positive,
}
use stable_placement.Model.{
  Result, ok, err, Error, ◌>>=◌, ◌>>◌, guard, Placement, PlacementRoute, PlacementStatus,
  PlacementEvent, no_event, EventType, node_registered, node_replaced, node_draining,
  node_marked_invalid, node_restored, node_unregistered, placement_created, placement_renewed,
  placement_released, placement_transferred, placement_recovered, node_lease_expired,
  placement_cache_invalidated, manual_cache_clear, unknown, is_active, ResolveRouteCommand,
}
use stable_placement.Identity.{node_type_of, node_group_of, new_grain_key}
use stable_placement.Cache.{
  PlacementCache, get_cached_placement, set_cached_placement, delete_cached_placement,
  delete_cached_placements_by_node, delete_cached_placements_by_group, clear_placement_cache,
  set_degraded,
}

-- `epoch` and `last_event_epoch` are uint64.
pub record CachedRouter : Type 0 where
  pub cache : PlacementCache
  pub epoch : ℕ
  pub last_event : PlacementEvent
  pub last_event_epoch : ℕ

abbrev pub new_cached_router : PlacementCache → CachedRouter
new_cached_router cache = record {
  cache = cache;
  epoch = 0;
  last_event = no_event;
  last_event_epoch = 0;
}

-- The status is active and the time is before the route's end.
unfoldable pub serves : PlacementRoute → ℕ → Bool
serves route now = is_active route.status && ltb now route.valid_until

-- `advanceLocked`
unfoldable pub advance : CachedRouter → CachedRouter
advance r = record r { epoch = (r.epoch + 1) % 2 ^ 64; last_event = no_event; last_event_epoch = 0 }

-- `advanceEventLocked`
unfoldable pub advance_event : CachedRouter → PlacementEvent → CachedRouter
unfolding advance
advance_event r event =
    let r' = advance r in record r' { last_event = event; last_event_epoch = r'.epoch }

-- The first section of `Lookup`: a hit, or the epoch. A route that no longer serves is dropped.
unfoldable pub lookup_cached : CachedRouter → Text → ℕ → CachedRouter × Option PlacementRoute
unfolding serves
lookup_cached r key now = elim (get_cached_placement r.cache key) [
  | none ↦ (r, none)
  | some route ↦
      if serves route now
      then (r, some route)
      else (record r { cache = delete_cached_placement r.cache key }, none)
]

-- `if r.epoch == epoch { SetCachedPlacement(...) }`
unfoldable pub fill : CachedRouter → Bool → Text → PlacementRoute → CachedRouter
fill r allowed key route =
    if allowed then record r { cache = set_cached_placement r.cache key route } else r

-- The rest of `Lookup`, from the directory's answer and the time it is read at.
unfoldable pub lookup_fill :
    CachedRouter → ℕ → Text → Result PlacementRoute → ℕ → CachedRouter × Result PlacementRoute
unfolding serves fill
lookup_fill r epoch key (err e) now = (r, err e)
lookup_fill r epoch key (ok route) now =
    if not (serves route now)
    then (r, err Error.placement_not_found)
    else (fill r (r.epoch == epoch) key route, ok route)

-- `Lookup`: `second` is the router that the last section finds, and the directory's answer and the
-- later time are read only on a miss.
unfoldable pub lookup_through :
    CachedRouter → CachedRouter → Text → ℕ → Result PlacementRoute → ℕ → Result PlacementRoute
unfolding lookup_cached lookup_fill
lookup_through first second key now answer later = elim (lookup_cached first key now).1 [
  | some route ↦ ok route
  | none ↦ (lookup_fill second first.epoch key answer later).1
]

-- `routeMatchesTarget`
unfoldable pub route_matches_target : PlacementRoute → ResolveRouteCommand → Bool
route_matches_target route cmd =
    is_active route.status
    && (same (node_type_of route.node_identity) cmd.target_node_type
        && same (node_group_of route.node_identity) cmd.target_node_group)

unfoldable pub matching : Option PlacementRoute → ResolveRouteCommand → ℕ → Option PlacementRoute
unfolding route_matches_target
matching none cmd now = none
matching (some route) cmd now =
    if route_matches_target route cmd && ltb now route.valid_until then some route else none

-- The first section of `ResolveRoute`, which changes nothing: an error, a hit, or a miss.
unfoldable pub resolve_cached :
    CachedRouter → ResolveRouteCommand → ℕ → Result (Text × Option PlacementRoute)
unfolding matching
resolve_cached r cmd now = do
  key ← new_grain_key cmd.kind cmd.grain_id
  ok (key, matching (get_cached_placement r.cache key) cmd now)

-- The rest of `ResolveRoute`.
unfoldable pub resolve_fill :
    CachedRouter → ℕ → Text → Result PlacementRoute → ℕ → CachedRouter × Result PlacementRoute
unfolding serves fill
resolve_fill r epoch key (err e) now = (r, err e)
resolve_fill r epoch key (ok route) now =
    (fill r (serves route now && r.epoch == epoch) key route, ok route)

abbrev pub is_created : EventType → Bool
is_created placement_created = true
is_created placement_renewed = false
is_created placement_released = false
is_created placement_transferred = false
is_created placement_recovered = false
is_created placement_cache_invalidated = false
is_created node_registered = false
is_created node_replaced = false
is_created node_draining = false
is_created node_marked_invalid = false
is_created node_restored = false
is_created node_unregistered = false
is_created node_lease_expired = false
is_created manual_cache_clear = false
is_created (unknown name) = false

-- `ResolveRoute`
unfoldable pub resolve_route_through :
    CachedRouter
    → CachedRouter
    → ResolveRouteCommand
    → ℕ
    → Result PlacementRoute
    → ℕ
    → Result PlacementRoute
unfolding resolve_cached resolve_fill
resolve_route_through first second cmd now answer later = resolve_cached first cmd now >>= λ found.
    elim found.1 [
      | some route ↦ ok route
      | none ↦ (resolve_fill second first.epoch found.0 answer later).1
    ]

-- `matchesSynchronousCreatedLocked`
unfoldable pub matches_synchronous_created : CachedRouter → ℕ → Placement → Bool
matches_synchronous_created r epoch placement =
    r.epoch == (epoch + 1) % 2 ^ 64
    && (r.last_event_epoch == r.epoch
        && (is_created r.last_event.type
            && (same r.last_event.grain_key placement.grain_key
                && (same r.last_event.placement_id placement.placement_id
                    && (is_positive r.last_event.placement_version
                        && r.last_event.placement_version == placement.version)))))

-- `Allocate` after the directory allocated the placement: the directory's answer to `Lookup`, and
-- the time it is read at. `epoch` is the one before the allocation.
unfoldable pub allocate_fill :
    CachedRouter → ℕ → Placement → Result PlacementRoute → ℕ → CachedRouter
unfolding serves fill matches_synchronous_created
allocate_fill r epoch placement (err e) now = r
allocate_fill r epoch placement (ok route) now =
    if not (serves route now)
    then r
    else fill r (r.epoch == epoch || matches_synchronous_created r epoch placement)
        placement.grain_key route

-- `Allocate`: an error of the directory ends it, and every other outcome is the placement.
unfoldable pub allocate_result :
    CachedRouter
    → ℕ
    → Result Placement
    → Result PlacementRoute
    → ℕ
    → CachedRouter × Result Placement
unfolding allocate_fill
allocate_result r epoch (err e) answer now = (r, err e)
allocate_result r epoch (ok placement) answer now =
    (allocate_fill r epoch placement answer now, ok placement)
