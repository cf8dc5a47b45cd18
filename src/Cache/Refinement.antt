-- ===== src/Cache/Refinement.antt =====
-- The cache as its clients see it: a partial function from grain keys to routes that is empty while
-- the cache is degraded. The node index is an implementation detail.
use stable_placement.Base.{
  ◌≡◌, refl, ap, ◌∙◌, inl, inr, if◌then◌else◌, Bool, true, false, Option, none, some, List, [], ◌∷◌,
  Text, same, lookup, lookup-insert, lookup-delete, member, Bool-cases, Option-cases, arith,
}
use stable_placement.Model.{PlacementRoute}
use stable_placement.Registry.{names_of}
use stable_placement.Cache.{
  PlacementCache, get_cached_placement, new_placement_cache, set_cached_placement,
  delete_cached_placement, delete_cached_placements_by_node, group_prefix,
  delete_cached_placements_by_group, clear_placement_cache, set_degraded, CacheCall, set_call,
  delete_call, by_node_call, by_group_call, clear_call, degrade_call, cache_step,
}
use stable_placement.Cache.Index.{
  IsIndexed, routed_to, lookup-delete_keys, set-IsIndexed, delete-IsIndexed, by_node-IsIndexed,
}
use stable_placement.Cache.Groups.{has_prefix_of, lookup-by_group, by_group-IsIndexed}

clear-IsIndexed : (c : PlacementCache) → IsIndexed (clear_placement_cache c)
unfolding lookup member clear_placement_cache
clear-IsIndexed c = record { index = λ n k. refl; distinct = tt; empty = λ h k. refl }

degraded-IsIndexed :
    (c : PlacementCache) (degraded : Bool) → IsIndexed c → IsIndexed (set_degraded c degraded)
unfolding lookup member set_degraded
degraded-IsIndexed c true v = record { index = λ n k. refl; distinct = tt; empty = λ h k. refl }
degraded-IsIndexed c false v = record {
  index = v.index;
  distinct = v.distinct;
  empty = λ h. absurd (ground arith);
}

pub cache_step-IsIndexed :
    (c : PlacementCache) (call : CacheCall) → IsIndexed c → IsIndexed (cache_step c call)
unfolding cache_step
cache_step-IsIndexed c (set_call key route) v = set-IsIndexed c key route v
cache_step-IsIndexed c (delete_call key) v = delete-IsIndexed c key v
cache_step-IsIndexed c (by_node_call identity) v = by_node-IsIndexed c identity v
cache_step-IsIndexed c (by_group_call node_type node_group) v =
    by_group-IsIndexed c node_type node_group v
cache_step-IsIndexed c clear_call v = clear-IsIndexed c
cache_step-IsIndexed c (degrade_call degraded) v = degraded-IsIndexed c degraded v

-- The cache after some calls, the last call first.
unfoldable pub cache_after : List CacheCall → PlacementCache
unfolding cache_step
cache_after [] = new_placement_cache
cache_after (call ∷ calls) = cache_step (cache_after calls) call

-- After any calls on a new cache the node index lists exactly the cached routes, each under its
-- node, each node has one entry in it, and a degraded cache is empty.
pub cache_after-IsIndexed : (calls : List CacheCall) → IsIndexed (cache_after calls)
unfolding cache_after lookup member
cache_after-IsIndexed [] = record { index = λ n k. refl; distinct = tt; empty = λ h k. refl }
cache_after-IsIndexed (call ∷ calls) =
    cache_step-IsIndexed (cache_after calls) call (cache_after-IsIndexed calls)

-- The promise of a cache: what is cached for each key, and whether it is degraded.
pub record CacheView : Type 0 where
  pub routes : Text → Option PlacementRoute
  pub degraded : Bool

abbrev pub view : PlacementCache → CacheView
view c = record { routes = get_cached_placement c; degraded = c.degraded }

abbrev pub drop_if : Bool → Option PlacementRoute → Option PlacementRoute
drop_if b r = if b then none else r

-- What each call promises of the routes cached after it.
unfoldable pub promised : CacheView → CacheCall → Text → Option PlacementRoute
promised v (set_call key route) k =
    if v.degraded then none else if same key k then some route else v.routes k
promised v (delete_call key) k = drop_if (same key k) (v.routes k)
promised v (by_node_call identity) k = drop_if (routed_to identity (v.routes k)) (v.routes k)
promised v (by_group_call node_type node_group) k =
    drop_if (has_prefix_of (group_prefix node_type node_group) (v.routes k)) (v.routes k)
promised v clear_call k = none
promised v (degrade_call degraded) k = drop_if degraded (v.routes k)

unfoldable pub promised_degraded : CacheView → CacheCall → Bool
promised_degraded v (degrade_call degraded) = degraded
promised_degraded v (set_call key route) = v.degraded
promised_degraded v (delete_call key) = v.degraded
promised_degraded v (by_node_call identity) = v.degraded
promised_degraded v (by_group_call node_type node_group) = v.degraded
promised_degraded v clear_call = v.degraded

step_lookup-set :
    (c : PlacementCache) (key : Text) (route : PlacementRoute) (k : Text)
    → get_cached_placement (set_cached_placement c key route) k
      ≡ (if c.degraded then none else if same key k then some route else get_cached_placement c k)
unfolding get_cached_placement set_cached_placement
step_lookup-set c key route k = ground (arith, lookup-insert key k route c.entries)

step_lookup-delete :
    (c : PlacementCache) (key k : Text)
    → (get_cached_placement (delete_cached_placement c key) k
        ≡ drop_if (same key k) (get_cached_placement c k))
      × ((delete_cached_placement c key).degraded ≡ c.degraded)
unfolding get_cached_placement delete_cached_placement
step_lookup-delete c key k = elim (Option-cases (lookup key c.entries)) [
  | inl e ↦ ground arith
  | inr (old, e) ↦ ground (arith, lookup-delete key k c.entries)
]

step_lookup-by_node :
    (c : PlacementCache) (identity k : Text)
    → IsIndexed c
    → get_cached_placement (delete_cached_placements_by_node c identity) k
      ≡ drop_if (routed_to identity (get_cached_placement c k)) (get_cached_placement c k)
unfolding get_cached_placement delete_cached_placements_by_node
step_lookup-by_node c identity k v = ground (
  arith,
  v.index identity k,
  lookup-delete_keys (names_of (lookup identity c.by_node)) k c.entries,
)

set-degraded :
    (c : PlacementCache) (key : Text) (route : PlacementRoute)
    → (set_cached_placement c key route).degraded ≡ c.degraded
unfolding set_cached_placement
set-degraded c key route = ground arith

by_node-degraded :
    (c : PlacementCache) (identity : Text)
    → (delete_cached_placements_by_node c identity).degraded ≡ c.degraded
unfolding delete_cached_placements_by_node
by_node-degraded c identity = refl

by_group-degraded :
    (c : PlacementCache) (node_type node_group : Text)
    → (delete_cached_placements_by_group c node_type node_group).degraded ≡ c.degraded
unfolding delete_cached_placements_by_group
by_group-degraded c node_type node_group = refl

step_lookup-by_group :
    (c : PlacementCache) (node_type node_group k : Text)
    → IsIndexed c
    → get_cached_placement (delete_cached_placements_by_group c node_type node_group) k
      ≡ drop_if
          (has_prefix_of (group_prefix node_type node_group) (get_cached_placement c k))
          (get_cached_placement c k)
unfolding get_cached_placement
step_lookup-by_group c node_type node_group k v =
    ground
      (arith, by_group-degraded c node_type node_group, lookup-by_group c node_type node_group k v)

-- On a well-formed cache every call does to the routes that a reader sees, key by key, what it
-- promises: a write caches the route unless the cache is degraded, and the deletions drop exactly
-- the routes of the key, of the node or of the group's nodes, whatever the node index held.
pub cache_step-refines :
    (c : PlacementCache) (call : CacheCall) (k : Text)
    → IsIndexed c
    → (get_cached_placement (cache_step c call) k ≡ promised (view c) call k)
      × ((cache_step c call).degraded ≡ promised_degraded (view c) call)
unfolding cache_step promised promised_degraded get_cached_placement lookup clear_placement_cache
    set_degraded
cache_step-refines c (set_call key route) k v =
    ground (arith, step_lookup-set c key route k, set-degraded c key route)
cache_step-refines c (delete_call key) k v = ground (arith, step_lookup-delete c key k)
cache_step-refines c (by_node_call identity) k v =
    ground (arith, step_lookup-by_node c identity k v, by_node-degraded c identity)
cache_step-refines c (by_group_call node_type node_group) k v = ground (
  arith,
  step_lookup-by_group c node_type node_group k v,
  by_group-degraded c node_type node_group,
)
cache_step-refines c clear_call k v = ground arith
cache_step-refines c (degrade_call degraded) k v = elim (Bool-cases c.degraded) [
  | inl e ↦ ground (arith, v.empty e k)
  | inr e ↦ ground arith
]

-- What the calls promise together, from the empty view.
pub promised_after : List CacheCall → CacheView
promised_after [] = record { routes = λ k. none; degraded = false }
promised_after (call ∷ calls) =
    let v = promised_after calls in
    record { routes = promised v call; degraded = promised_degraded v call }

promised-cong :
    (v w : CacheView) (call : CacheCall) (k : Text)
    → v.routes k ≡ w.routes k
    → v.degraded ≡ w.degraded
    → promised v call k ≡ promised w call k
unfolding promised
promised-cong v w (set_call key route) k h g = ground arith
promised-cong v w (delete_call key) k h g = ap (drop_if (same key k)) h
promised-cong v w (by_node_call identity) k h g = ap (λ r. drop_if (routed_to identity r) r) h
promised-cong v w (by_group_call node_type node_group) k h g =
    ap (λ r. drop_if (has_prefix_of (group_prefix node_type node_group) r) r) h
promised-cong v w clear_call k h g = refl
promised-cong v w (degrade_call degraded) k h g = ap (drop_if degraded) h

promised_degraded-cong :
    (v w : CacheView) (call : CacheCall)
    → v.degraded ≡ w.degraded
    → promised_degraded v call ≡ promised_degraded w call
unfolding promised_degraded
promised_degraded-cong v w (set_call key route) g = g
promised_degraded-cong v w (delete_call key) g = g
promised_degraded-cong v w (by_node_call identity) g = g
promised_degraded-cong v w (by_group_call node_type node_group) g = g
promised_degraded-cong v w clear_call g = g
promised_degraded-cong v w (degrade_call degraded) g = refl

-- After any calls on a new cache, the cache answers for every key what `promised_after` says,
-- which knows of no node index, and is degraded exactly when that says so.
pub cache_after-refines :
    (calls : List CacheCall) (k : Text)
    → (get_cached_placement (cache_after calls) k ≡ (promised_after calls).routes k)
      × ((cache_after calls).degraded ≡ (promised_after calls).degraded)
unfolding cache_after promised_after get_cached_placement lookup
cache_after-refines [] k = (refl, refl)
cache_after-refines (call ∷ calls) k =
    let c = cache_after calls in
    let (seen, flag) = cache_after-refines calls k in
    let (answer, degraded) = cache_step-refines c call k (cache_after-IsIndexed calls) in
    (
      answer ∙ promised-cong (view c) (promised_after calls) call k seen flag,
      degraded ∙ promised_degraded-cong (view c) (promised_after calls) call flag,
    )
