-- ===== src/Strategy/Tests.antt =====
-- Instances of the theorems about the strategies on two nodes.
use stable_placement.Base.{
  ℕ, ℤ, ◌≡◌, ◌≢◌, ◌⊎◌, ◌+◌, ◌%◌, ◌^◌, refl, true, some, [], ◌∷◌, get_elem?, length, All, arith,
}
use stable_placement.Model.{ok, err, Error, Node}
use stable_placement.Model.Lease.{unix_milli}
use stable_placement.Samples.{of_byte, node_a, node_b}
use stable_placement.Strategy.{StrategyInput}
use stable_placement.Strategy.RoundRobin.{choose_times, every_candidate_chosen}
use stable_placement.Strategy.ResourceAware.{
  ResourceAwareConfig, candidates, candidate_of, compare_resource_candidates, better,
  resource_choose, usable,
}
use stable_placement.Strategy.Best.{resource_choose_best}

abbrev two_candidates : StrategyInput
two_candidates = record {
  grain_id = of_byte 0x78;
  kind = of_byte 0x6b;
  node_type = of_byte 0x74;
  node_group = of_byte 0x67;
  effective_nodes = node_a ∷ node_b ∷ [];
  placement_counts = [];
}

every_candidate_chosen_example :
    (j : ℕ) × (get_elem? (choose_times 2 (record { next = 7 }) two_candidates) j ≡ some (ok node_b))
every_candidate_chosen_example =
    every_candidate_chosen 1 7 two_candidates node_b refl (omega arith) (omega arith)

-- A configuration that takes any fresh snapshot.
abbrev any_node : ResourceAwareConfig
any_node = record {
  metrics_max_age = ℤ.pos 10_000_000_000;
  min_memory_available_bytes = ℤ.pos 0;
  min_cpu_available_milli_cores = ℤ.pos 0;
  max_goroutines = ℤ.pos 0;
}

abbrev fresh_candidates : StrategyInput
fresh_candidates = record two_candidates {
  effective_nodes =
      record node_a { metrics = record node_a.metrics { updated_at_unix_milli = ℤ.pos 1 } }
      ∷ record node_b {
        metrics = record node_b.metrics {
          updated_at_unix_milli = ℤ.pos 1;
          cpu_available_milli_cores = ℤ.pos 500;
        };
      }
      ∷ [];
}

resource_choose_best_example :
    ((length (candidates any_node fresh_candidates 2_000_000) ≡ 0)
      × (resource_choose 4 any_node fresh_candidates 2_000_000 ≡ (4, err Error.no_available_node)))
    ⊎ ((n : Node) × (resource_choose 4 any_node fresh_candidates 2_000_000
          ≡ ((4 + 1) % 2 ^ 64, ok n))
        × (usable any_node n.metrics (unix_milli 2_000_000) ≡ true)
        × All
            (λ x. compare_resource_candidates x (candidate_of [] n) ≢ better)
            (candidates any_node fresh_candidates 2_000_000))
resource_choose_best_example = resource_choose_best 4 any_node fresh_candidates 2_000_000

-- A configuration that leaves everything to the defaults.
abbrev unset : ResourceAwareConfig
unset = record {
  metrics_max_age = ℤ.pos 0;
  min_memory_available_bytes = ℤ.pos 0;
  min_cpu_available_milli_cores = ℤ.pos 0;
  max_goroutines = ℤ.pos 0;
}

abbrev defaults : ResourceAwareConfig
defaults = record {
  metrics_max_age = ℤ.pos 10_000_000_000;
  min_memory_available_bytes = ℤ.pos 268_435_456;
  min_cpu_available_milli_cores = ℤ.pos 100;
  max_goroutines = ℤ.pos 0;
}
