-- ===== src/Router/Events.antt =====
-- The effect of `HandleEvent`: which cached routes each type of event drops.
use stable_placement.Base.{
  ◌≡◌, refl, inl, inr, if◌then◌else◌, Bool, true, false, Option, none, some, [], Text, same,
  Bool-cases, sym, subst, ◌∙◌, arith,
}
use stable_placement.Model.{
  PlacementRoute, PlacementEvent, EventType, node_registered, node_replaced, node_draining,
  node_marked_invalid, node_restored, node_unregistered, placement_created, placement_renewed,
  placement_released, placement_transferred, placement_recovered, node_lease_expired,
  placement_cache_invalidated, manual_cache_clear, unknown,
}
use stable_placement.Cache.{
  PlacementCache, get_cached_placement, group_prefix, has_prefix, CacheCall, delete_call,
  by_node_call, by_group_call, clear_call, cache_step,
}
use stable_placement.Cache.Index.{IsIndexed, routed_to}
use stable_placement.Cache.Groups.{has_prefix_of}
use stable_placement.Cache.Refinement.{
  cache_step-refines, cache_step-IsIndexed, drop_if, promised, view,
}
use stable_placement.Router.{CachedRouter, advance_event}
use stable_placement.Router.Invalidation.{
  handle_case, handle_event, drop_key, drop_node, drop_group, drop_all,
}

-- What an event is about: an event that does not name its grain, node or group, one of a type that
-- is not known and a manual clear are about everything; a registration and a renewal about nothing.
pub data Scope : Type 0 where
  nothing everything : Scope
  grain node : Text → Scope
  group : Text → Text → Scope

unless_empty : Text → Scope → Scope
unless_empty name scope = if same name [] then everything else scope

scope_of_type : PlacementEvent → EventType → Scope
unfolding unless_empty
scope_of_type e placement_created = unless_empty e.grain_key (grain e.grain_key)
scope_of_type e placement_released = unless_empty e.grain_key (grain e.grain_key)
scope_of_type e placement_transferred = unless_empty e.grain_key (grain e.grain_key)
scope_of_type e placement_recovered = unless_empty e.grain_key (grain e.grain_key)
scope_of_type e placement_cache_invalidated = unless_empty e.grain_key (grain e.grain_key)
scope_of_type e node_replaced = unless_empty e.node_identity (node e.node_identity)
scope_of_type e node_lease_expired = unless_empty e.node_identity (node e.node_identity)
scope_of_type e node_draining = unless_empty e.node_identity (node e.node_identity)
scope_of_type e node_marked_invalid = unless_empty e.node_identity (node e.node_identity)
scope_of_type e node_unregistered = unless_empty e.node_identity (node e.node_identity)
scope_of_type e node_restored =
    unless_empty e.node_type (unless_empty e.node_group (group e.node_type e.node_group))
scope_of_type e node_registered = nothing
scope_of_type e placement_renewed = nothing
scope_of_type e manual_cache_clear = everything
scope_of_type e (unknown name) = everything

unfoldable pub scope_of : PlacementEvent → Scope
unfolding scope_of_type unless_empty
scope_of e = scope_of_type e e.type

-- Whether the scope takes in the route cached for the key.
unfoldable pub concerns : Scope → Text → PlacementRoute → Bool
concerns nothing k route = false
concerns everything k route = true
concerns (grain key) k route = same key k
concerns (node identity) k route = same route.node_identity identity
concerns (group node_type node_group) k route =
    has_prefix route.node_identity (group_prefix node_type node_group)

unfoldable pub keep_unless : Scope → Text → Option PlacementRoute → Option PlacementRoute
unfolding concerns
keep_unless scope k none = none
keep_unless scope k (some route) = if concerns scope k route then none else some route

-- The same as one call on the cache.
unfoldable pub with_call : CachedRouter → PlacementEvent → CacheCall → CachedRouter
with_call r e call = record (advance_event r e) { cache = cache_step r.cache call }

unfoldable pub by_scope : CachedRouter → PlacementEvent → Scope → CachedRouter
unfolding with_call
by_scope r e nothing = r
by_scope r e everything = with_call r e clear_call
by_scope r e (grain key) = with_call r e (delete_call key)
by_scope r e (node identity) = with_call r e (by_node_call identity)
by_scope r e (group node_type node_group) = with_call r e (by_group_call node_type node_group)

drop_key-by_scope :
    (r : CachedRouter) (e : PlacementEvent) (key : Text)
    → drop_key (advance_event r e) key ≡ by_scope r e (unless_empty key (grain key))
unfolding drop_key by_scope with_call unless_empty cache_step advance_event
drop_key-by_scope r e key = elim (Bool-cases (same key [])) [
  | inl s ↦ rw s refl
  | inr s ↦ rw s refl
]

drop_node-by_scope :
    (r : CachedRouter) (e : PlacementEvent) (identity : Text)
    → drop_node (advance_event r e) identity ≡ by_scope r e (unless_empty identity (node identity))
unfolding drop_node by_scope with_call unless_empty cache_step advance_event
drop_node-by_scope r e identity = elim (Bool-cases (same identity [])) [
  | inl s ↦ rw s refl
  | inr s ↦ rw s refl
]

drop_group-by_scope :
    (r : CachedRouter) (e : PlacementEvent) (t g : Text)
    → drop_group (advance_event r e) t g
      ≡ by_scope r e (unless_empty t (unless_empty g (group t g)))
unfolding drop_group by_scope with_call unless_empty cache_step advance_event
drop_group-by_scope r e t g = elim (Bool-cases (same t [])) [
  | inl s ↦ rw s refl
  | inr s ↦ elim (Bool-cases (same g [])) [ inl q ↦ rw (s, q) refl | inr q ↦ rw (s, q) refl ]
]

by_scope-nothing : (r : CachedRouter) (e : PlacementEvent) → r ≡ by_scope r e nothing
unfolding by_scope
by_scope-nothing r e = refl

by_scope-everything :
    (r : CachedRouter) (e : PlacementEvent) → drop_all (advance_event r e) ≡ by_scope r e everything
unfolding by_scope drop_all with_call cache_step advance_event
by_scope-everything r e = refl

handle_case-by_scope :
    (r : CachedRouter) (e : PlacementEvent) (t : EventType)
    → handle_case r e t ≡ by_scope r e (scope_of_type e t)
unfolding handle_case scope_of_type
handle_case-by_scope r e placement_created = drop_key-by_scope r e e.grain_key
handle_case-by_scope r e placement_released = drop_key-by_scope r e e.grain_key
handle_case-by_scope r e placement_transferred = drop_key-by_scope r e e.grain_key
handle_case-by_scope r e placement_recovered = drop_key-by_scope r e e.grain_key
handle_case-by_scope r e placement_cache_invalidated = drop_key-by_scope r e e.grain_key
handle_case-by_scope r e node_replaced = drop_node-by_scope r e e.node_identity
handle_case-by_scope r e node_lease_expired = drop_node-by_scope r e e.node_identity
handle_case-by_scope r e node_draining = drop_node-by_scope r e e.node_identity
handle_case-by_scope r e node_marked_invalid = drop_node-by_scope r e e.node_identity
handle_case-by_scope r e node_unregistered = drop_node-by_scope r e e.node_identity
handle_case-by_scope r e node_restored = drop_group-by_scope r e e.node_type e.node_group
handle_case-by_scope r e node_registered = by_scope-nothing r e
handle_case-by_scope r e placement_renewed = by_scope-nothing r e
handle_case-by_scope r e manual_cache_clear = by_scope-everything r e
handle_case-by_scope r e (unknown name) = by_scope-everything r e

pub handle_event-by_scope :
    (r : CachedRouter) (e : PlacementEvent) → handle_event r e ≡ by_scope r e (scope_of e)
unfolding handle_event scope_of
handle_event-by_scope r e = handle_case-by_scope r e e.type

kept_by_nothing : (k : Text) (o : Option PlacementRoute) → o ≡ keep_unless nothing k o
unfolding keep_unless concerns
kept_by_nothing k none = ground arith
kept_by_nothing k (some route) = ground arith

kept_by_everything : (k : Text) (o : Option PlacementRoute) → none ≡ keep_unless everything k o
unfolding keep_unless concerns
kept_by_everything k none = ground arith
kept_by_everything k (some route) = ground arith

kept_by_grain :
    (key : Text) (k : Text) (o : Option PlacementRoute)
    → drop_if (same key k) o ≡ keep_unless (grain key) k o
unfolding keep_unless concerns
kept_by_grain key k none = ground arith
kept_by_grain key k (some route) = ground arith

kept_by_node :
    (identity : Text) (k : Text) (o : Option PlacementRoute)
    → drop_if (routed_to identity o) o ≡ keep_unless (node identity) k o
unfolding keep_unless concerns
kept_by_node identity k none = ground arith
kept_by_node identity k (some route) = ground arith

kept_by_group :
    (t g : Text) (k : Text) (o : Option PlacementRoute)
    → drop_if (has_prefix_of (group_prefix t g) o) o ≡ keep_unless (group t g) k o
unfolding keep_unless concerns
kept_by_group t g k none = ground arith
kept_by_group t g k (some route) = ground arith

call_drops :
    (c : PlacementCache) (call : CacheCall) (scope : Scope) (k : Text)
    → IsIndexed c
    → promised (view c) call k ≡ keep_unless scope k (get_cached_placement c k)
    → IsIndexed (cache_step c call)
      × (get_cached_placement (cache_step c call) k
          ≡ keep_unless scope k (get_cached_placement c k))
call_drops c call scope k v h =
    (cache_step-IsIndexed c call v, (cache_step-refines c call k v).0 ∙ h)

by_scope_drops :
    (r : CachedRouter) (e : PlacementEvent) (scope : Scope) (k : Text)
    → IsIndexed r.cache
    → IsIndexed (by_scope r e scope).cache
      × (get_cached_placement (by_scope r e scope).cache k
          ≡ keep_unless scope k (get_cached_placement r.cache k))
unfolding by_scope with_call keep_unless concerns promised
by_scope_drops r e nothing k v = (v, kept_by_nothing k (get_cached_placement r.cache k))
by_scope_drops r e everything k v =
    call_drops r.cache clear_call everything k v
      (kept_by_everything k (get_cached_placement r.cache k))
by_scope_drops r e (grain key) k v =
    call_drops r.cache (delete_call key) (grain key) k v
      (kept_by_grain key k (get_cached_placement r.cache k))
by_scope_drops r e (node identity) k v =
    call_drops r.cache (by_node_call identity) (node identity) k v
      (kept_by_node identity k (get_cached_placement r.cache k))
by_scope_drops r e (group t g) k v =
    call_drops r.cache (by_group_call t g) (group t g) k v
      (kept_by_group t g k (get_cached_placement r.cache k))

-- On a well-formed cache `HandleEvent` drops exactly the cached routes that the event is about, key
-- by key, and leaves the cache well formed.
pub handle_event_drops :
    (r : CachedRouter) (e : PlacementEvent) (k : Text)
    → IsIndexed r.cache
    → IsIndexed (handle_event r e).cache
      × (get_cached_placement (handle_event r e).cache k
          ≡ keep_unless (scope_of e) k (get_cached_placement r.cache k))
handle_event_drops r e k v =
    subst
      (λ r'.
        IsIndexed r'.cache
        × (get_cached_placement r'.cache k
            ≡ keep_unless (scope_of e) k (get_cached_placement r.cache k)))
      (sym (handle_event-by_scope r e)) (by_scope_drops r e (scope_of e) k v)
