-- ===== src/Redis/Routes/Retries.antt =====
-- redis/directory.go: the tries of ResolveRoute.
use stable_placement.Base.{◌≡◌, ℕ, suc, ◌+◌, ◌≤◌, ◌<◌, Text}
use stable_placement.Model.{Result, err, Error, PlacementRoute}
use stable_placement.Redis.Scripts.{RedisPlacement}
use stable_placement.Redis.Routes.{ResolveTry, resolve_route_once}

abbrev pub Conflict : Result PlacementRoute → Type 0
Conflict r = r ≡ err Error.version_conflict

module _ (decode : Text → Result RedisPlacement) (env : ℕ → ResolveTry) where
  -- The tries from `first` on up to the j-th, of at most `left`, of which only the last may not conflict.
  record Settled (first left : ℕ) (r : Result PlacementRoute) : Type 0 where
    j : ℕ
    from : first ≤ j
    below : j < first + left
    answer : resolve_route_once decode (env j) ≡ r
    earlier : (k : ℕ) → first ≤ k → k < j → Conflict (resolve_route_once decode (env k))
    last : Conflict r → suc j ≡ first + left
