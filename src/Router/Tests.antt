-- ===== src/Router/Tests.antt =====
-- Instances of the theorems about the router: a cached route, an event about another grain, and a
-- fill that the event has overtaken.
use stable_placement.Base.{
  ◌≡◌, ◌≢◌, ◌⊎◌, refl, true, false, some, List, [], ◌∷◌, Text, lookup, insert, text_eq, arith,
}
use stable_placement.Model.{
  ok, err, Error, Result, PlacementRoute, PlacementEvent, no_event, EventType,
}
use stable_placement.Identity.{node_type_of, node_group_of, new_grain_key, part}
use stable_placement.Samples.{id_a, key_x, route_x, resolve_x}
use stable_placement.Cache.{
  get_cached_placement, set_call, set_cached_placement, cache_step, delete_cached_placement,
}
use stable_placement.Cache.Index.{IsIndexed}
use stable_placement.Cache.Refinement.{cache_after, cache_after-IsIndexed}
use stable_placement.Router.{
  CachedRouter, new_cached_router, serves, lookup_through, lookup_cached, resolve_route_through,
  resolve_cached, matching, lookup_fill,
}
use stable_placement.Router.Invalidation.{handle_event}
use stable_placement.Router.Events.{nothing, scope_of, concerns, keep_unless, handle_event_drops}
use stable_placement.Router.Epochs.{RouterStep, fill_lookup, router_run, router_step, is_overtaken}
use stable_placement.Router.Overtaken.{no_overtaken_fill}
use stable_placement.Router.Answers.{lookup_through-serves, resolve_route_through-serves}

abbrev key_y : Text
key_y = 0x6b ∷ 0x2f ∷ 0x79 ∷ []

abbrev with_x : CachedRouter
with_x = new_cached_router (cache_after (set_call key_x route_x ∷ []))

abbrev released_y : PlacementEvent
released_y = record no_event { type = EventType.placement_released; grain_key = key_y }

-- A lookup of the other grain that asked the directory before the event.
abbrev overtaken_y : List RouterStep
overtaken_y = fill_lookup 0 key_y (ok (record route_x { grain_key = key_y })) 5 ∷ []

abbrev no_answer : Result PlacementRoute
no_answer = err Error.placement_not_found

about_y : scope_of released_y ≢ nothing
unfolding scope_of text_eq
about_y h = cc

not_x : concerns (scope_of released_y) key_x route_x ≡ false
unfolding scope_of concerns text_eq
not_x = refl

still_cached :
    get_cached_placement (router_run (handle_event with_x released_y) overtaken_y).cache key_x
    ≡ some route_x
unfolding router_run router_step handle_event lookup_fill cache_after cache_step
    set_cached_placement delete_cached_placement get_cached_placement lookup insert text_eq
still_cached = refl

no_overtaken_fill_example :
    (get_cached_placement with_x.cache key_x ≡ some route_x)
    × (concerns (scope_of released_y) key_x route_x ≡ false)
unfolding is_overtaken
no_overtaken_fill_example =
    no_overtaken_fill with_x released_y overtaken_y key_x route_x
      (cache_after-IsIndexed (set_call key_x route_x ∷ [])) about_y (refl, tt) (omega arith)
      still_cached

handle_event_drops_example :
    IsIndexed (handle_event with_x released_y).cache
    × (get_cached_placement (handle_event with_x released_y).cache key_x
        ≡ keep_unless (scope_of released_y) key_x (get_cached_placement with_x.cache key_x))
handle_event_drops_example =
    handle_event_drops with_x released_y key_x (cache_after-IsIndexed (set_call key_x route_x ∷ []))

lookup_through-serves_example :
    ((get_cached_placement with_x.cache key_x ≡ some route_x) × (serves route_x 5 ≡ true))
    ⊎ ((no_answer ≡ ok route_x) × (serves route_x 6 ≡ true))
unfolding lookup_through lookup_cached cache_after cache_step set_cached_placement
    get_cached_placement lookup insert text_eq
lookup_through-serves_example = lookup_through-serves with_x with_x key_x 5 no_answer 6 route_x refl

resolve_route_through-serves_example :
    (no_answer ≡ ok route_x)
    ⊎ ((key : Text) × (new_grain_key resolve_x.kind resolve_x.grain_id ≡ ok key)
        × (get_cached_placement with_x.cache key ≡ some route_x)
        × (serves route_x 5 ≡ true)
        × (node_type_of id_a ≡ resolve_x.target_node_type)
        × (node_group_of id_a ≡ resolve_x.target_node_group))
unfolding resolve_route_through resolve_cached matching new_grain_key part cache_after cache_step
    set_cached_placement get_cached_placement lookup insert text_eq
resolve_route_through-serves_example =
    resolve_route_through-serves with_x with_x resolve_x 5 no_answer 6 route_x refl
