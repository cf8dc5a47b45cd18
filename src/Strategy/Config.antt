-- ===== src/Strategy/Config.antt =====
-- The normalised configuration of the resource-aware strategy.
use stable_placement.Base.{◌≡◌, false, ◌||◌, is_zero, is_negative, arith}
use stable_placement.Model.{ok}
use stable_placement.Strategy.ResourceAware.{
  ResourceAwareConfig, normalize_resource_aware_config, or_default,
}

-- The configuration that NormalizeResourceAwareConfig answers has no negative limit, none that is zero
-- but the goroutines', and normalising it again changes nothing.
pub normalize_idempotent :
    (c c' : ResourceAwareConfig)
    → normalize_resource_aware_config c ≡ ok c'
    → (normalize_resource_aware_config c' ≡ ok c')
      × (is_negative c'.metrics_max_age || is_zero c'.metrics_max_age ≡ false)
      × (is_negative c'.min_memory_available_bytes || is_zero c'.min_memory_available_bytes ≡ false)
      × (is_negative c'.min_cpu_available_milli_cores || is_zero c'.min_cpu_available_milli_cores
          ≡ false)
      × (is_negative c'.max_goroutines ≡ false)
unfolding normalize_resource_aware_config or_default
normalize_idempotent c c' h = ground arith
