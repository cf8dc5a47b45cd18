-- ===== src/Directory/Checks.antt =====
-- What the guards of a command let through.
use stable_placement.Base.{ℕ, ◌≡◌, true, false, some, Text, lookup, arith}
use stable_placement.Model.{ok, Node, Placement, ReleaseCommand, TransferCommand, RecoverCommand}
use stable_placement.Directory.{
  Directory, find_active, check_release, placement_routeable, target_available,
}
use stable_placement.Directory.Moves.{check_transfer, check_recover}

-- A command is about the placement when it names its lifetime and the version that it has.
abbrev pub Fits : Directory → Text → Placement → Text → ℕ → Type 0
Fits d key p id version =
    (lookup key d.placements ≡ some p) × (p.placement_id ≡ id) × (p.version ≡ version)

pub check_release-ok :
    (d : Directory) (cmd : ReleaseCommand) (p : Placement)
    → check_release d cmd ≡ ok p
    → Fits d cmd.grain_key p cmd.placement_id cmd.placement_version
      × (p.node_identity ≡ cmd.node_identity)
      × (p.owner_node_session_id ≡ cmd.node_session_id)
unfolding check_release find_active
check_release-ok d cmd p h = ground arith

pub check_transfer-ok :
    (d : Directory) (cmd : TransferCommand) (now : ℕ) (p : Placement) (n : Node)
    → check_transfer d cmd now ≡ ok (p, n)
    → Fits d cmd.grain_key p cmd.placement_id cmd.placement_version
      × (lookup cmd.to_node_identity d.registry.nodes ≡ some n)
      × (target_available d n now ≡ true)
unfolding check_transfer find_active
check_transfer-ok d cmd now p n h = ground arith

pub check_recover-ok :
    (d : Directory) (cmd : RecoverCommand) (now : ℕ) (p : Placement) (n : Node)
    → check_recover d cmd now ≡ ok (p, n)
    → Fits d cmd.grain_key p cmd.placement_id cmd.placement_version
      × (placement_routeable d p now ≡ false)
      × (lookup cmd.new_node_identity d.registry.nodes ≡ some n)
      × (target_available d n now ≡ true)
unfolding check_recover
check_recover-ok d cmd now p n h = ground arith
