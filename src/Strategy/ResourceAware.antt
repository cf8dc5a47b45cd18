-- ===== src/Strategy/ResourceAware.antt =====
-- strategy.go and strategies/resource_aware.go: the choice by the nodes' resources.
use stable_placement.Base.{
  ℕ, suc, ◌+◌, ◌-◌, ◌*◌, ◌/◌, ◌%◌, ◌^◌, ltb, leb, ◌==◌, if◌then◌else◌, not, ◌&&◌, ◌||◌, Bool, true,
  false, none, some, List, [], ◌∷◌, get_elem?, select, map, sort, before, lookup, Map, Text, ℤ,
  leb_int, is_zero, is_negative, quot,
}
use stable_placement.Model.{Result, ok, err, Error, Node, NodeMetrics, validate_node_metrics}
use stable_placement.Model.Lease.{millisecond, unix_milli}
use stable_placement.Strategy.{StrategyInput}

-- `Now` is an argument of `choose`; the field only tells whether it was nil, which is replaced by
-- time.Now.
pub record ResourceAwareConfig : Type 0 where
  pub metrics_max_age : ℤ
  pub min_memory_available_bytes : ℤ
  pub min_cpu_available_milli_cores : ℤ
  pub max_goroutines : ℤ

abbrev pub resource_memory_bucket_bytes : ℕ
resource_memory_bucket_bytes = 256 * 2 ^ 20

abbrev pub resource_cpu_bucket_milli_cores : ℕ
resource_cpu_bucket_milli_cores = 100

abbrev pub resource_goroutine_bucket_size : ℕ
resource_goroutine_bucket_size = 100

unfoldable pub or_default : ℤ → ℕ → ℤ
or_default a n = if is_zero a then ℤ.pos n else a

-- `NormalizeResourceAwareConfig`
unfoldable pub normalize_resource_aware_config : ResourceAwareConfig → Result ResourceAwareConfig
unfolding or_default
normalize_resource_aware_config c =
    let c' : ResourceAwareConfig = record c {
      metrics_max_age = or_default c.metrics_max_age (10_000 * millisecond);
      min_memory_available_bytes = or_default c.min_memory_available_bytes (256 * 2 ^ 20);
      min_cpu_available_milli_cores = or_default c.min_cpu_available_milli_cores 100;
    } in
    if is_negative c'.metrics_max_age
      || (is_negative c'.min_memory_available_bytes
          || (is_negative c'.min_cpu_available_milli_cores || is_negative c'.max_goroutines))
    then err Error.placement_config_invalid
    else ok c'

-- The snapshot was taken, not in the future, and is not older than the limit.
fresh_at : ℤ → ℕ → ℤ → Bool
fresh_at (ℤ.negsuc u) now_millis max_age = false
fresh_at (ℤ.pos u) now_millis max_age =
    ltb 0 u && (leb u now_millis && leb_int (ℤ.pos (now_millis - u)) (quot max_age millisecond))

is_ok : Result (Unit {0}) → Bool
is_ok (ok u) = true
is_ok (err e) = false

-- `usable`
unfoldable pub usable : ResourceAwareConfig → NodeMetrics → ℕ → Bool
unfolding fresh_at is_ok validate_node_metrics
usable c m now_millis =
    is_ok (validate_node_metrics m)
    && (fresh_at m.updated_at_unix_milli now_millis c.metrics_max_age
        && (leb_int c.min_memory_available_bytes m.memory_available_bytes
            && (leb_int c.min_cpu_available_milli_cores m.cpu_available_milli_cores
                && (is_zero c.max_goroutines || leb_int m.goroutines c.max_goroutines))))

-- The metrics of a candidate are not negative, and neither are its buckets.
pub record ResourceCandidate : Type 0 where
  pub node : Node
  pub memory_bucket : ℕ
  pub cpu_bucket : ℕ
  pub goroutine_bucket : ℕ
  pub placement_count : ℕ

bucket : ℤ → ℕ → ℕ
bucket (ℤ.pos n) k = n / k
bucket (ℤ.negsuc n) k = 0

count_of : Map ℕ → Text → ℕ
count_of counts identity = elim (lookup identity counts) [ none ↦ 0 | some n ↦ n ]

unfoldable pub candidate_of : Map ℕ → Node → ResourceCandidate
unfolding bucket count_of
candidate_of counts node = record {
  node = node;
  memory_bucket = bucket node.metrics.memory_available_bytes resource_memory_bucket_bytes;
  cpu_bucket = bucket node.metrics.cpu_available_milli_cores resource_cpu_bucket_milli_cores;
  goroutine_bucket = bucket node.metrics.goroutines resource_goroutine_bucket_size;
  placement_count = count_of counts node.node_identity;
}

-- -1, 1 and 0
pub data Comparison : Type 0 where
  better worse tied : Comparison

-- `compareResourceCandidates`
unfoldable pub compare_resource_candidates : ResourceCandidate → ResourceCandidate → Comparison
compare_resource_candidates left right =
    if not (left.memory_bucket == right.memory_bucket)
    then if ltb right.memory_bucket left.memory_bucket then better else worse
    else if not (left.cpu_bucket == right.cpu_bucket)
    then if ltb right.cpu_bucket left.cpu_bucket then better else worse
    else if not (left.goroutine_bucket == right.goroutine_bucket)
    then if ltb left.goroutine_bucket right.goroutine_bucket then better else worse
    else if ltb left.placement_count right.placement_count
    then better
    else if ltb right.placement_count left.placement_count
    then worse
    else tied

unfoldable pub by_comparison : Comparison → Bool → Bool
by_comparison better b = true
by_comparison worse b = false
by_comparison tied b = b

-- The order of the call of `sort.Slice`.
unfoldable pub candidate_before : ResourceCandidate → ResourceCandidate → Bool
unfolding by_comparison
candidate_before a b =
    by_comparison (compare_resource_candidates a b)
      (before a.node.node_identity b.node.node_identity)

unfoldable pub is_tied : Comparison → Bool
is_tied better = false
is_tied worse = false
is_tied tied = true

-- The loop that counts the candidates tied with the first.
unfoldable pub count_tied : ResourceCandidate → List ResourceCandidate → ℕ
unfolding is_tied
count_tied first [] = 0
count_tied first (c ∷ cs) =
    let rest = count_tied first cs in
    if is_tied (compare_resource_candidates first c) then suc rest else 0

unfoldable pub candidates : ResourceAwareConfig → StrategyInput → ℕ → List ResourceCandidate
candidates c input now =
    map (candidate_of input.placement_counts)
      (select (λ (n : Node). usable c n.metrics (unix_milli now)) input.effective_nodes)

unfoldable pub choose_sorted : ℕ → List ResourceCandidate → ℕ × Result Node
choose_sorted next [] = (next, err Error.no_available_node)
choose_sorted next (first ∷ rest) =
    elim (get_elem? (first ∷ rest) (next % suc (count_tied first rest))) [
      | none ↦ (next, err Error.index_out_of_range)
      | some c ↦ ((next + 1) % 2 ^ 64, ok c.node)
    ]

-- `Choose`: the counter `next` is a uint64 that is read and advanced in one step.
unfoldable pub resource_choose : ℕ → ResourceAwareConfig → StrategyInput → ℕ → ℕ × Result Node
unfolding choose_sorted
resource_choose next c input now =
    choose_sorted next (sort candidate_before (candidates c input now))
