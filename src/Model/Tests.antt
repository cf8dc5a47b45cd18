-- ===== src/Model/Tests.antt =====
-- An instance of the theorem about the rounding of a TTL.
use stable_placement.Base.{ℕ, ℤ, ◌≡◌, ◌<◌, ◌+◌, ◌%◌, ◌^◌, some, arith}
use stable_placement.Model.Lease.{normalize_ttl, normalize_ttl_bounds, millisecond}

normalize_ttl_bounds_example :
    (r : ℕ) × (normalize_ttl (ℤ.pos 1_500_000) ≡ some r)
    × (0 < r)
    × (r < 2 ^ 63)
    × (r % millisecond ≡ 0)
    × (r < 1_500_000 + millisecond)
    × (1_500_000 < r + millisecond)
normalize_ttl_bounds_example = normalize_ttl_bounds 1_500_000 (omega arith) (omega arith)
