-- ===== src/Router/Epochs.antt =====
-- The critical sections of the router in sequence, and the sections that an event overtakes.
use stable_placement.Base.{ℕ, leb, ◌==◌, Bool, true, not, ◌&&◌, List, [], ◌∷◌, Text, same}
use stable_placement.Model.{Result, Placement, PlacementRoute, PlacementEvent}
use stable_placement.Router.{
  CachedRouter, lookup_cached, lookup_fill, resolve_fill, allocate_fill, is_created,
}
use stable_placement.Router.Invalidation.{handle_event, degrade, recover}

-- The critical sections that change the router. A section that fills the cache carries the epoch
-- that its caller saw before it asked the directory.
pub data RouterStep : Type 0 where
  look : Text → ℕ → RouterStep
  fill_lookup fill_resolve : ℕ → Text → Result PlacementRoute → ℕ → RouterStep
  fill_allocate : ℕ → Placement → Result PlacementRoute → ℕ → RouterStep
  event : PlacementEvent → RouterStep
  degrading recovering : RouterStep

unfoldable pub router_step : CachedRouter → RouterStep → CachedRouter
router_step r (look key now) = (lookup_cached r key now).0
router_step r (fill_lookup epoch key answer now) = (lookup_fill r epoch key answer now).0
router_step r (fill_resolve epoch key answer now) = (resolve_fill r epoch key answer now).0
router_step r (fill_allocate epoch placement answer now) =
    allocate_fill r epoch placement answer now
router_step r (event e) = handle_event r e
router_step r degrading = degrade r
router_step r recovering = recover r

unfoldable pub router_run : CachedRouter → List RouterStep → CachedRouter
router_run r [] = r
router_run r (s ∷ steps) = router_run (router_step r s) steps

-- The event announces the placement that the allocation created.
abbrev pub announces : PlacementEvent → Placement → Bool
announces e placement =
    is_created e.type
    && (same e.grain_key placement.grain_key
        && (same e.placement_id placement.placement_id && e.placement_version == placement.version))

-- The section belongs to a call that saw an epoch up to `bound`, and does not answer for a
-- placement whose creation is the event `e` itself.
unfoldable pub is_overtaken : ℕ → PlacementEvent → RouterStep → Bool
is_overtaken bound e (look key now) = true
is_overtaken bound e (fill_lookup epoch key answer now) = leb epoch bound
is_overtaken bound e (fill_resolve epoch key answer now) = leb epoch bound
is_overtaken bound e (fill_allocate epoch placement answer now) =
    leb epoch bound && not (announces e placement)
is_overtaken bound e (event f) = true
is_overtaken bound e degrading = true
is_overtaken bound e recovering = true
