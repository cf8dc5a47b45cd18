-- ===== src/Router/Since.antt =====
-- What a section leaves of the cache and of the epoch, after an event that overtook its caller.
use stable_placement.Base.{
  ℕ, suc, ◌+◌, ◌<◌, ◌^◌, ◌%◌, ◌≡◌, Bool, true, false, some, Text, sym, ◌∙◌, arith,
}
use stable_placement.Model.{PlacementRoute, PlacementEvent}
use stable_placement.Cache.{
  PlacementCache, get_cached_placement, CacheCall, set_call, delete_call, by_node_call,
  by_group_call, clear_call, degrade_call, cache_step,
}
use stable_placement.Cache.Index.{IsIndexed}
use stable_placement.Cache.Refinement.{cache_step-refines, cache_step-IsIndexed, promised, view}
use stable_placement.Router.{CachedRouter}

-- How a section leaves the cache when it caches nothing new.
pub record Shrinks (c c' : PlacementCache) : Type 0 where
  pub indexed : IsIndexed c → IsIndexed c'
  pub kept :
      (k : Text) (route : PlacementRoute)
      → IsIndexed c
      → get_cached_placement c' k ≡ some route
      → get_cached_placement c k ≡ some route

-- Since the event `e`, handled at the epoch `bound`, no more than the next epoch's last event is `e`,
-- and `n` more sections do not wrap the epoch around.
pub record Since (bound n : ℕ) (e : PlacementEvent) (r : CachedRouter) : Type 0 where
  pub later : bound < r.epoch
  pub room : r.epoch + n < 2 ^ 64
  pub last : r.epoch ≡ suc bound → r.last_event ≡ e

-- Only a write adds a route.
unfoldable pub adds : CacheCall → Bool
adds (set_call key route) = true
adds (delete_call key) = false
adds (by_node_call identity) = false
adds (by_group_call node_type node_group) = false
adds clear_call = false
adds (degrade_call degraded) = false

Shrinks-promised :
    (c : PlacementCache) (call : CacheCall) (k : Text) (route : PlacementRoute)
    → adds call ≡ false
    → promised (view c) call k ≡ some route
    → get_cached_placement c k ≡ some route
unfolding adds promised
Shrinks-promised c (set_call key r) k route h g = cc
Shrinks-promised c (delete_call key) k route h g = ground arith
Shrinks-promised c (by_node_call identity) k route h g = ground arith
Shrinks-promised c (by_group_call node_type node_group) k route h g = ground arith
Shrinks-promised c clear_call k route h g = cc
Shrinks-promised c (degrade_call degraded) k route h g = ground arith

pub Shrinks-call :
    (c : PlacementCache) (call : CacheCall) → adds call ≡ false → Shrinks c (cache_step c call)
Shrinks-call c call h = record {
  indexed = cache_step-IsIndexed c call;
  kept = λ k route v g.
      Shrinks-promised c call k route h ((sym ((cache_step-refines c call k v).0)) ∙ g);
}

pub Shrinks-refl : (c : PlacementCache) → Shrinks c c
Shrinks-refl c = record { indexed = λ v. v; kept = λ k route v h. h }

pub Shrinks-trans : (c c' c'' : PlacementCache) → Shrinks c c' → Shrinks c' c'' → Shrinks c c''
Shrinks-trans c c' c'' a b = record {
  indexed = λ v. b.indexed (a.indexed v);
  kept = λ k route v h. a.kept k route v (b.kept k route (a.indexed v) h);
}

pub Since-same :
    (bound n : ℕ) (e : PlacementEvent) (r r' : CachedRouter)
    → r'.epoch ≡ r.epoch
    → r'.last_event ≡ r.last_event
    → Since bound (suc n) e r
    → Since bound n e r'
Since-same bound n e r r' h g s = record {
  later = omega (arith, s.later);
  room = omega (arith, s.room);
  last = λ q. g ∙ s.last (omega arith);
}

pub Since-next :
    (bound n : ℕ) (e : PlacementEvent) (r r' : CachedRouter)
    → r'.epoch ≡ (r.epoch + 1) % 2 ^ 64
    → Since bound (suc n) e r
    → Since bound n e r'
Since-next bound n e r r' h s =
    let q : r'.epoch ≡ r.epoch + 1 = omega (arith, s.room) in
    record {
      later = omega (arith, s.later);
      room = omega (arith, s.room);
      last = λ g. absurd (omega (arith, s.later));
    }
