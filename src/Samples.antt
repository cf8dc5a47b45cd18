-- ===== src/Samples.antt =====
-- Small inputs for the tests: two nodes of one group, and the commands for one grain.
use stable_placement.Base.{ℕ, ℤ, List, [], ◌∷◌, Text}
use stable_placement.Model.{
  Result, ok, err, Error, Node, NodeStatus, NodeLease, no_metrics, Placement, PlacementStatus,
  PlacementRoute, ResolveRouteCommand,
}
use stable_placement.Strategy.{Chooser}
use stable_placement.Registry.{NodeRegistry}
use stable_placement.Directory.{Directory}

-- The texts "t/g/a", "t/g/b" and "k/x".
abbrev pub id_a : Text
id_a = 0x74 ∷ 0x2f ∷ 0x67 ∷ 0x2f ∷ 0x61 ∷ []

abbrev pub id_b : Text
id_b = 0x74 ∷ 0x2f ∷ 0x67 ∷ 0x2f ∷ 0x62 ∷ []

abbrev pub key_x : Text
key_x = 0x6b ∷ 0x2f ∷ 0x78 ∷ []

abbrev pub of_byte : ℕ → Text
of_byte b = b ∷ []

abbrev pub some_lease : NodeLease
some_lease = record { version = 1; ttl_millis = 1000; expire_at_unix_milli = 1000 }

abbrev pub node_a : Node
node_a = record {
  node_type = of_byte 0x74;
  node_group = of_byte 0x67;
  node_name = of_byte 0x61;
  node_identity = id_a;
  node_session_id = of_byte 1;
  address = [];
  weight = ℤ.pos 0;
  metrics = no_metrics;
  status = NodeStatus.active;
  lease = some_lease;
}

abbrev pub node_b : Node
node_b = record node_a {
  node_name = of_byte 0x62;
  node_identity = id_b;
  node_session_id = of_byte 2;
}

-- What the registry keeps of them: a lease of one second from the epoch.
abbrev pub one_second : ℕ
one_second = 1_000_000_000

abbrev pub empty_registry : NodeRegistry
empty_registry = record { nodes = []; invalid = []; ttl = one_second }

abbrev pub two_nodes : NodeRegistry
two_nodes = record empty_registry { nodes = (id_a, node_a) ∷ (id_b, node_b) ∷ [] }

abbrev pub empty_directory : Directory
empty_directory = record { placements = []; by_node = []; registry = empty_registry }

abbrev pub placement_x : Placement
placement_x = record {
  grain_id = of_byte 0x78;
  kind = of_byte 0x6b;
  grain_key = key_x;
  placement_id = of_byte 9;
  node_identity = id_a;
  owner_node_session_id = of_byte 1;
  version = 1;
  status = PlacementStatus.active;
  create_time = 1;
  update_time = 1;
}

abbrev pub one_placement : Directory
one_placement = record {
  placements = (key_x, placement_x) ∷ [];
  by_node = (id_a, (key_x, tt) ∷ []) ∷ [];
  registry = two_nodes;
}

abbrev pub route_x : PlacementRoute
route_x = record {
  grain_key = key_x;
  placement_id = of_byte 9;
  node_identity = id_a;
  owner_node_session_id = of_byte 1;
  version = 1;
  status = PlacementStatus.active;
  node_lease_version = 1;
  valid_until = one_second;
}

abbrev pub resolve_x : ResolveRouteCommand
resolve_x = record {
  grain_id = of_byte 0x78;
  kind = of_byte 0x6b;
  target_node_type = of_byte 0x74;
  target_node_group = of_byte 0x67;
}

-- The strategy that takes the first candidate.
abbrev pub first_of : List Node → Result Node
first_of [] = err Error.no_available_node
first_of (node ∷ nodes) = ok node

abbrev pub choose_first : Chooser
choose_first input = first_of input.effective_nodes
