-- ===== src/Strategy.antt =====
-- strategy.go: what a placement strategy is asked and answers.
pub mod RoundRobin
pub mod ResourceAware
pub mod Best
pub mod Config
mod Tests
use stable_placement.Base.{ℕ, List, Text, Map}
use stable_placement.Model.{Node, Result}

pub data StrategyMode : Type 0 where
  go redis_round_robin redis_resource_aware : StrategyMode

pub record StrategyInput : Type 0 where
  pub grain_id : Text
  pub kind : Text
  pub node_type : Text
  pub node_group : Text
  pub effective_nodes : List Node
  pub placement_counts : Map ℕ

-- The answer of a `PlacementStrategy` to one call of `Choose`.
abbrev pub Chooser : Type 0
Chooser = StrategyInput → Result Node
