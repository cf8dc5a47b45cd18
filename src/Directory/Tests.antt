-- ===== src/Directory/Tests.antt =====
-- Runs of the directory on small inputs, and instances of the theorems about it.
use stable_placement.Base.{
  ℕ, ℤ, ◌≡◌, ◌≢◌, ◌⊎◌, refl, subst, none, some, true, false, List, [], ◌∷◌, Text, lookup, insert,
  text_eq, select, sort, before, member, size, arith,
}
use stable_placement.Model.{
  ok, err, Error, Placement, AllocateCommand, TransferCommand, ReleaseCommand,
}
use stable_placement.Model.Lease.{normalize_ttl}
use stable_placement.Identity.{new_grain_key}
use stable_placement.Strategy.{StrategyMode}
use stable_placement.Samples.{
  id_a, id_b, key_x, of_byte, node_a, node_b, empty_registry, two_nodes, empty_directory,
  one_placement, placement_x, route_x, choose_first, resolve_x, one_second,
}
use stable_placement.Registry.Calls
use stable_placement.Registry.Transitions
use stable_placement.Registry.{
  register_node, normalize_node_identity, is_invalid, new_node_registry,
}
use stable_placement.Registry.Lifecycle.{complete_drain}
use stable_placement.Directory.{
  Directory, new_directory, target_available, placement_routeable, find_active, moved, route_of,
  lookup_route, exists, release, check_release,
}
use stable_placement.Directory.Moves.{transfer, check_transfer}
use stable_placement.Directory.Index.{IsConsistent, indexed}
use stable_placement.Directory.Ownership.{Stale, transfer_fences}
use stable_placement.Directory.Decisions.{InTarget}
use stable_placement.Directory.Routing.{resolve_route_agrees}
use stable_placement.Directory.Safety.{lookup_route_until, complete_drain_safe, release_removes}
use stable_placement.Directory.Resolve.{
  new_placement, resolve_route, resolve_prepare, resolve_locked, resolve_new, resolve_active,
  choose_target, place, effective_nodes, Times,
}
use stable_placement.Directory.Allocate.{
  allocate, allocate_prepare, existing_allocation, allocate_choose, allocate_commit, allocate_new,
  current_target, AllocateTimes,
}
use stable_placement.Directory.Allocation.{InGroup, allocate_agrees}
use stable_placement.Directory.Calls.{Call, registry_call, resolves, step, has_placements}
use stable_placement.Directory.Reachable.{run, run_well_formed}

abbrev setup : List (ℕ × Call)
setup =
    (0, registry_call (Calls.registers node_a))
    ∷ (0, registry_call (Calls.registers node_b))
    ∷ (1, resolves choose_first resolve_x (ok (of_byte 9)) 1 1)
    ∷ []

run-setup : run none none empty_directory setup ≡ one_placement
unfolding run step Calls.step register_node normalize_node_identity insert lookup text_eq
    resolve_route resolve_prepare resolve_locked resolve_new choose_target place effective_nodes
    select sort before target_available is_invalid member
run-setup = refl

run_well_formed_example :
    IsConsistent (run none none empty_directory setup)
    × Transitions.IsValid (run none none empty_directory setup).registry
unfolding new_node_registry normalize_ttl new_directory
run_well_formed_example =
    run_well_formed none none (ℤ.pos one_second) StrategyMode.go empty_registry empty_directory
      setup refl refl

one_placement-WellFormed : IsConsistent one_placement × Transitions.IsValid two_nodes
unfolding new_node_registry normalize_ttl new_directory
one_placement-WellFormed =
    subst (λ d. IsConsistent d × Transitions.IsValid d.registry) run-setup
      (run_well_formed none none (ℤ.pos one_second) StrategyMode.go empty_registry empty_directory
        setup refl refl)

abbrev transfer_x : TransferCommand
transfer_x = record {
  grain_key = key_x;
  placement_id = of_byte 9;
  from_node_identity = id_a;
  to_node_identity = id_b;
  placement_version = 1;
}

abbrev release_x : ReleaseCommand
release_x = record {
  grain_key = key_x;
  placement_id = of_byte 9;
  node_identity = id_a;
  node_session_id = of_byte 1;
  placement_version = 1;
}

transfer_fences_example :
    Stale (transfer one_placement none transfer_x 5 6).state key_x (of_byte 9) 1
unfolding transfer check_transfer find_active lookup text_eq target_available is_invalid member
transfer_fences_example =
    transfer_fences one_placement none transfer_x 5 6 (moved placement_x node_b 5)
      one_placement-WellFormed.0 (omega arith) refl

abbrev at_five : Times
at_five = record { now = 5; choosing = 5; published = 6 }

resolve_route_agrees_example :
    (lookup_route
        (resolve_route one_placement none choose_first resolve_x (ok (of_byte 8)) at_five).state
        key_x
        5
      ≡ ok route_x)
    × InTarget resolve_x id_a
unfolding resolve_route resolve_prepare resolve_locked resolve_active lookup text_eq
    placement_routeable new_grain_key route_of
resolve_route_agrees_example =
    resolve_route_agrees one_placement none choose_first resolve_x (ok (of_byte 8)) at_five key_x
      route_x one_placement-WellFormed.0 one_placement-WellFormed.1 (omega arith) refl refl

lookup_route_until_example : exists one_placement key_x 999_999_999 ≡ true
unfolding lookup_route lookup text_eq placement_routeable
lookup_route_until_example =
    lookup_route_until one_placement key_x 5 999_999_999 route_x refl (omega arith)

complete_drain_safe_example :
    (lookup id_b
        (complete_drain two_nodes none
          (some (has_placements one_placement))
          id_b
          (of_byte 2)
          5).state.nodes
      ≡ none)
    × ((k : Text) (o : Placement)
        → lookup k one_placement.placements ≡ some o
        → o.node_identity ≢ id_b)
unfolding complete_drain has_placements lookup text_eq size
complete_drain_safe_example =
    complete_drain_safe one_placement none id_b (of_byte 2) 5 one_placement-WellFormed.0 refl

release_removes_example :
    let d' = (release one_placement none release_x 5 6).state in
    (lookup key_x d'.placements ≡ none)
    × ((n : Text) → indexed d'.by_node n key_x ≡ false)
    × ((t : ℕ) → lookup_route d' key_x t ≡ err Error.placement_not_found)
unfolding check_release find_active lookup text_eq
release_removes_example =
    release_removes one_placement none release_x 5 6 placement_x one_placement-WellFormed.0 refl

abbrev no_placements : Directory
no_placements = record empty_directory { registry = two_nodes }

abbrev allocate_x : AllocateCommand
allocate_x = record {
  grain_id = of_byte 0x78;
  kind = of_byte 0x6b;
  target_node_type = of_byte 0x74;
  target_node_group = of_byte 0x67;
}

abbrev times_x : AllocateTimes
times_x = record { looking = 1; listing = 1; now = 1; published = 2 }

allocate_agrees_example :
    let d' =
      (allocate no_placements no_placements no_placements none choose_first allocate_x
        (ok (of_byte 9))
        times_x).state in
    ((lookup key_x no_placements.placements ≡ some placement_x)
      × (placement_routeable no_placements placement_x 1 ≡ true)
      × (d' ≡ no_placements))
    ⊎ ((lookup_route d' key_x 1 ≡ ok (route_of placement_x (lookup id_a d'.registry.nodes) 1))
        × ((lookup key_x no_placements.placements ≡ some placement_x) ⊎ InGroup allocate_x id_a))
unfolding allocate allocate_prepare existing_allocation allocate_choose allocate_commit allocate_new
    current_target new_grain_key effective_nodes select sort before target_available is_invalid
    member lookup text_eq new_placement
allocate_agrees_example =
    allocate_agrees no_placements no_placements no_placements none choose_first allocate_x
      (ok (of_byte 9)) times_x key_x placement_x one_placement-WellFormed.1 refl refl
