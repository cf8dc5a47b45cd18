-- ===== src/Cache.antt =====
-- memory/cache.go: the placement cache, with its index from nodes to the grains cached for them.
pub mod Index
pub mod Groups
pub mod Refinement
mod Tests
use stable_placement.Base.{
  ◌≡◌, ◌==◌, if◌then◌else◌, Bool, true, false, not, ◌&&◌, Option, none, some, List, [], ◌∷◌, ◌++◌,
  ℕ, Text, Map, Set, lookup, insert, delete, select,
}
use stable_placement.Model.{PlacementRoute}
use stable_placement.Identity.{separator}
use stable_placement.Registry.{names_of}
use stable_placement.Directory.{add_node_index, delete_node_index}

pub record PlacementCache : Type 0 where
  pub entries : Map PlacementRoute
  pub by_node : Map Set
  pub degraded : Bool

abbrev pub new_placement_cache : PlacementCache
new_placement_cache = record { entries = []; by_node = []; degraded = false }

-- `GetCachedPlacement`
unfoldable pub get_cached_placement : PlacementCache → Text → Option PlacementRoute
get_cached_placement c key = if c.degraded then none else lookup key c.entries

-- `deleteNodeIndexLocked`: a node that is missing stays missing.
unfoldable pub forget_key : Map Set → Text → Text → Map Set
forget_key by_node key identity = elim (lookup identity by_node) [
  | none ↦ by_node
  | some keys ↦ delete_node_index by_node identity key
]

-- `SetCachedPlacement`
unfoldable pub set_cached_placement : PlacementCache → Text → PlacementRoute → PlacementCache
unfolding forget_key
set_cached_placement c key route =
    let cleared : Map Set = elim (lookup key c.entries) [
      | none ↦ c.by_node
      | some old ↦ forget_key c.by_node key old.node_identity
    ] in
    if c.degraded then c else record c {
      entries = insert key route c.entries;
      by_node = add_node_index cleared route.node_identity key;
    }

-- `DeleteCachedPlacement`
unfoldable pub delete_cached_placement : PlacementCache → Text → PlacementCache
unfolding forget_key
delete_cached_placement c key = elim (lookup key c.entries) [
  | none ↦ c
  | some old ↦ record c {
    entries = delete key c.entries;
    by_node = forget_key c.by_node key old.node_identity;
  }
]

-- The loop `for key := range keys { delete(entries, key) }`.
unfoldable pub delete_keys : Set → Map PlacementRoute → Map PlacementRoute
delete_keys [] entries = entries
delete_keys ((key, u) ∷ keys) entries = delete_keys keys (delete key entries)

-- `DeleteCachedPlacementsByNode`
unfoldable pub delete_cached_placements_by_node : PlacementCache → Text → PlacementCache
unfolding delete_keys
delete_cached_placements_by_node c identity = record c {
  entries = delete_keys (names_of (lookup identity c.by_node)) c.entries;
  by_node = delete identity c.by_node;
}

-- strings.HasPrefix
unfoldable pub has_prefix : Text → Text → Bool
has_prefix value [] = true
has_prefix [] (p ∷ ps) = false
has_prefix (v ∷ vs) (p ∷ ps) = v == p && has_prefix vs ps

-- What the loop of `DeleteCachedPlacementsByGroup` deletes from the entries.
unfoldable pub delete_prefixed : Text → Map Set → Map PlacementRoute → Map PlacementRoute
unfolding delete_keys has_prefix
delete_prefixed prefix [] entries = entries
delete_prefixed prefix ((identity, keys) ∷ m) entries =
    delete_prefixed prefix m
      (if has_prefix identity prefix then delete_keys keys entries else entries)

abbrev pub group_prefix : Text → Text → Text
group_prefix node_type node_group = node_type ++ separator ∷ (node_group ++ separator ∷ [])

-- `DeleteCachedPlacementsByGroup`
unfoldable pub delete_cached_placements_by_group : PlacementCache → Text → Text → PlacementCache
unfolding delete_prefixed
delete_cached_placements_by_group c node_type node_group =
    let prefix = group_prefix node_type node_group in
    record c {
      entries = delete_prefixed prefix c.by_node c.entries;
      by_node = select (λ e. not (has_prefix e.0 prefix)) c.by_node;
    }

-- `ClearPlacementCache`
unfoldable pub clear_placement_cache : PlacementCache → PlacementCache
clear_placement_cache c = record c { entries = []; by_node = [] }

-- `SetDegraded`
unfoldable pub set_degraded : PlacementCache → Bool → PlacementCache
set_degraded c degraded =
    let cleared = if degraded then record c { entries = []; by_node = [] } else c in
    record cleared { degraded = degraded }

-- The calls that change the cache.
pub data CacheCall : Type 0 where
  set_call : Text → PlacementRoute → CacheCall
  delete_call : Text → CacheCall
  by_node_call : Text → CacheCall
  by_group_call : Text → Text → CacheCall
  clear_call : CacheCall
  degrade_call : Bool → CacheCall

unfoldable pub cache_step : PlacementCache → CacheCall → PlacementCache
cache_step c (set_call key route) = set_cached_placement c key route
cache_step c (delete_call key) = delete_cached_placement c key
cache_step c (by_node_call identity) = delete_cached_placements_by_node c identity
cache_step c (by_group_call node_type node_group) =
    delete_cached_placements_by_group c node_type node_group
cache_step c clear_call = clear_placement_cache c
cache_step c (degrade_call degraded) = set_degraded c degraded
