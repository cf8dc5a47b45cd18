-- ===== src/Registry/Tests.antt =====
-- Instances of the theorems about the registry on two nodes.
use stable_placement.Base.{
  ◌≡◌, ◌≤◌, refl, none, some, if◌then◌else◌, [], ◌∷◌, ◌&&◌, ◌||◌, not, same, lookup, insert, member,
  text_eq, select, arith,
}
use stable_placement.Model.{Node, NodeStatus, is_offline, RenewNodeCommand}
use stable_placement.Samples.{id_a, id_b, of_byte, node_a, two_nodes, one_second, empty_registry}
use stable_placement.Registry.{is_invalid, NodeRegistry, lease_expired, renew_node, renewed}
use stable_placement.Registry.Lifecycle.{
  mark_node_invalid, restore_node, expire_node_leases, expirable,
}
use stable_placement.Registry.Marks.{marks_exact}
use stable_placement.Identity.{new_node_identity}
use stable_placement.Registry.Calls.{step, expires, renews}
use stable_placement.Registry.Sessions.{ChangeAt}
use stable_placement.Registry.Transitions.{session_rank, step-Change, step_session_monotone}
use stable_placement.Registry.Expiry.{expire_node_leases_exact}

step-Change_example :
    ChangeAt one_second two_nodes
      (step none two_nodes (one_second, expires (of_byte 0x74) (of_byte 0x67) 1))
      id_a
step-Change_example =
    step-Change none two_nodes one_second (expires (of_byte 0x74) (of_byte 0x67) 1) id_a

abbrev renew_a : RenewNodeCommand
renew_a = record { node_identity = id_a; node_session_id = of_byte 1; metrics = none }

abbrev renewed_a : Node
renewed_a = record node_a {
  lease = record { version = 2; ttl_millis = 1000; expire_at_unix_milli = 1500 };
}

step_session_monotone_example :
    (1000 ≤ renewed_a.lease.expire_at_unix_milli)
    × (session_rank NodeStatus.active ≤ session_rank renewed_a.status)
unfolding step renew_node lookup insert text_eq renewed
step_session_monotone_example =
    step_session_monotone none two_nodes 500_000_000 (renews renew_a) id_a node_a renewed_a refl
      refl refl

abbrev offline_a : Node
offline_a = record node_a { status = NodeStatus.offline }

abbrev one_offline : NodeRegistry
one_offline = record empty_registry { nodes = (id_a, offline_a) ∷ [] }

-- At one second both leases have run out.
expire_node_leases_exact_example :
    lookup id_a
      (expire_node_leases two_nodes none (of_byte 0x74) (of_byte 0x67) 2 one_second).state.nodes
    ≡ some (
        if same (of_byte 0x74) (of_byte 0x74)
          && same (of_byte 0x67) (of_byte 0x67)
          && not (is_offline NodeStatus.active)
          && lease_expired node_a one_second
        then record node_a { status = NodeStatus.offline }
        else node_a)
unfolding lookup text_eq expirable select member
expire_node_leases_exact_example =
    expire_node_leases_exact two_nodes none (of_byte 0x74) (of_byte 0x67) id_a 2 one_second node_a
      (refl, (refl, tt)) (omega arith) (omega arith) refl

marks_exact_example :
    (is_invalid
        (mark_node_invalid two_nodes none (of_byte 0x74) (of_byte 0x67) (of_byte 0x61) 5).state
        (of_byte 0x74)
        (of_byte 0x67)
        (of_byte 0x62)
      ≡ (same id_a id_b || is_invalid two_nodes (of_byte 0x74) (of_byte 0x67) (of_byte 0x62)))
    × (is_invalid
          (restore_node two_nodes none (of_byte 0x74) (of_byte 0x67) (of_byte 0x61) 5).state
          (of_byte 0x74)
          (of_byte 0x67)
          (of_byte 0x62)
        ≡ (not (same id_a id_b)
            && is_invalid two_nodes (of_byte 0x74) (of_byte 0x67) (of_byte 0x62)))
unfolding new_node_identity
marks_exact_example =
    marks_exact two_nodes none (of_byte 0x74) (of_byte 0x67) (of_byte 0x61) (of_byte 0x74)
      (of_byte 0x67) (of_byte 0x62) id_a id_b 5 refl refl
