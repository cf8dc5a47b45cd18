-- ===== src/Router/Invalidation.antt =====
-- memory/cached_router.go: HandleEvent, Degrade and Recover, which drop cached routes.
use stable_placement.Base.{if◌then◌else◌, true, false, ◌||◌, [], Text, same}
use stable_placement.Model.{
  PlacementEvent, EventType, node_registered, node_replaced, node_draining, node_marked_invalid,
  node_restored, node_unregistered, placement_created, placement_renewed, placement_released,
  placement_transferred, placement_recovered, node_lease_expired, placement_cache_invalidated,
  manual_cache_clear, unknown,
}
use stable_placement.Cache.{
  delete_cached_placement, delete_cached_placements_by_node, delete_cached_placements_by_group,
  clear_placement_cache, set_degraded,
}
use stable_placement.Router.{CachedRouter, advance, advance_event}

-- What `HandleEvent` drops from the cache for an event.
unfoldable pub drop_key : CachedRouter → Text → CachedRouter
drop_key r key =
    if same key []
    then record r { cache = clear_placement_cache r.cache }
    else record r { cache = delete_cached_placement r.cache key }

unfoldable pub drop_node : CachedRouter → Text → CachedRouter
drop_node r identity =
    if same identity []
    then record r { cache = clear_placement_cache r.cache }
    else record r { cache = delete_cached_placements_by_node r.cache identity }

unfoldable pub drop_group : CachedRouter → Text → Text → CachedRouter
drop_group r node_type node_group =
    if same node_type [] || same node_group []
    then record r { cache = clear_placement_cache r.cache }
    else record r { cache = delete_cached_placements_by_group r.cache node_type node_group }

unfoldable pub drop_all : CachedRouter → CachedRouter
drop_all r = record r { cache = clear_placement_cache r.cache }

-- The switch on the event's type.
unfoldable pub handle_case : CachedRouter → PlacementEvent → EventType → CachedRouter
unfolding advance_event drop_key drop_node drop_group drop_all
handle_case r event placement_created = drop_key (advance_event r event) event.grain_key
handle_case r event placement_released = drop_key (advance_event r event) event.grain_key
handle_case r event placement_transferred = drop_key (advance_event r event) event.grain_key
handle_case r event placement_recovered = drop_key (advance_event r event) event.grain_key
handle_case r event placement_cache_invalidated = drop_key (advance_event r event) event.grain_key
handle_case r event node_replaced = drop_node (advance_event r event) event.node_identity
handle_case r event node_lease_expired = drop_node (advance_event r event) event.node_identity
handle_case r event node_draining = drop_node (advance_event r event) event.node_identity
handle_case r event node_marked_invalid = drop_node (advance_event r event) event.node_identity
handle_case r event node_unregistered = drop_node (advance_event r event) event.node_identity
handle_case r event node_restored =
    drop_group (advance_event r event) event.node_type event.node_group
handle_case r event node_registered = r
handle_case r event placement_renewed = r
handle_case r event manual_cache_clear = drop_all (advance_event r event)
handle_case r event (unknown name) = drop_all (advance_event r event)

-- `HandleEvent`, which never returns an error.
unfoldable pub handle_event : CachedRouter → PlacementEvent → CachedRouter
unfolding handle_case
handle_event r event = handle_case r event event.type

-- `Degrade`
unfoldable pub degrade : CachedRouter → CachedRouter
unfolding advance
degrade r = let r' = advance r in record r' { cache = set_degraded r'.cache true }

-- `Recover`
unfoldable pub recover : CachedRouter → CachedRouter
unfolding advance
recover r =
    let r' = advance r in record r' { cache = set_degraded (clear_placement_cache r'.cache) false }
