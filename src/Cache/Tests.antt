-- ===== src/Cache/Tests.antt =====
-- Instances of the theorems about the cache after a write and a degradation.
use stable_placement.Base.{◌≡◌, List, [], ◌∷◌}
use stable_placement.Samples.{id_a, key_x, route_x}
use stable_placement.Cache.{CacheCall, set_call, by_node_call, get_cached_placement}
use stable_placement.Cache.Index.{IsIndexed}
use stable_placement.Cache.Refinement.{
  cache_after, promised_after, cache_after-IsIndexed, cache_after-refines,
}

abbrev write_and_drop : List CacheCall
write_and_drop = by_node_call id_a ∷ set_call key_x route_x ∷ []

cache_after-IsIndexed_example : IsIndexed (cache_after write_and_drop)
cache_after-IsIndexed_example = cache_after-IsIndexed write_and_drop

cache_after-refines_example :
    (get_cached_placement (cache_after write_and_drop) key_x
      ≡ (promised_after write_and_drop).routes key_x)
    × ((cache_after write_and_drop).degraded ≡ (promised_after write_and_drop).degraded)
cache_after-refines_example = cache_after-refines write_and_drop key_x
