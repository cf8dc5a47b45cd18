-- ===== src/Directory/Effects.antt =====
-- The effect of each method on the directory, with the reason that it had.
use stable_placement.Base.{
  ℕ, ◌≡◌, refl, inl, inr, Bool, true, false, not, Option, none, some, Text, lookup, delete, arith,
}
use stable_placement.Model.{
  Result-cases, ok, Node, Placement, Publisher, is_active, AllocateCommand, ReleaseCommand,
  TransferCommand, RecoverCommand,
}
use stable_placement.Identity.{node_type_of, node_group_of, node_name_of}
use stable_placement.Registry.{is_invalid}
use stable_placement.Directory.{
  Directory, move_placement, release, check_release, delete_node_index, placement_routeable,
  target_available, session_usable,
}
use stable_placement.Directory.Moves.{transfer, check_transfer, recover, check_recover}
use stable_placement.Directory.Resolve.{place, new_placement}
use stable_placement.Directory.Allocate.{
  allocate_commit, allocate_new, existing_allocation, current_target,
}
use stable_placement.Directory.Checks.{Fits, check_release-ok, check_transfer-ok, check_recover-ok}

-- Why a placement was moved to the session of a node at the time `now`.
pub data Cause (d : Directory) (o : Placement) (n : Node) (now : ℕ) : Type 0 where
  -- a command that names the lifetime and the version, to an available node
  transferred :
      (k id : Text) (version : ℕ)
      → Fits d k o id version
      → target_available d n now ≡ true
      → Cause d o n now
  -- the same, of a placement that no request can reach
  recovered :
      (k id : Text) (version : ℕ)
      → Fits d k o id version
      → placement_routeable d o now ≡ false
      → target_available d n now ≡ true
      → Cause d o n now
  -- the owner runs a new session, which takes the placement over
  resumed :
      placement_routeable d o now ≡ false
      → lookup o.node_identity d.registry.nodes ≡ some n
      → session_usable n now ≡ true
      → Cause d o n now
  -- the owner cannot serve and is marked invalid; the strategy chose another node
  reassigned :
      placement_routeable d o now ≡ false
      → is_invalid d.registry
          (node_type_of o.node_identity)
          (node_group_of o.node_identity)
          (node_name_of o.node_identity)
        ≡ true
      → Cause d o n now

abbrev pub inactive : Option Placement → Bool
inactive none = true
inactive (some p) = not (is_active p.status)

pub data Effect (now : ℕ) (d d' : Directory) : Type 0 where
  nothing : d' ≡ d → Effect now d d'
  moves :
      (k : Text) (o : Placement) (n : Node)
      → lookup k d.placements ≡ some o
      → Cause d o n now
      → d' ≡ move_placement d o n now
      → Effect now d d'
  places :
      (p : Placement)
      → is_active p.status ≡ true
      → p.version ≡ 1
      → inactive (lookup p.grain_key d.placements) ≡ true
      → d' ≡ place d (lookup p.grain_key d.placements) p
      → Effect now d d'
  removes :
      (k id : Text) (version : ℕ) (o : Placement)
      → Fits d k o id version
      → d' ≡ record d {
        placements = delete k d.placements;
        by_node = delete_node_index d.by_node o.node_identity k;
      }
      → Effect now d d'

module _ (d : Directory) (p : Option Publisher) (now published : ℕ) where
  pub release-Effect : (cmd : ReleaseCommand) → Effect now d (release d p cmd now published).state
  unfolding release
  release-Effect cmd = elim (Result-cases (check_release d cmd)) [
    | inr (e, h) ↦ nothing (rw (h, release))
    | inl (o, h) ↦
        removes cmd.grain_key cmd.placement_id cmd.placement_version o
          (check_release-ok d cmd o h).0 (rw (h, release))
  ]

  pub transfer-Effect :
      (cmd : TransferCommand) → Effect now d (transfer d p cmd now published).state
  unfolding transfer
  transfer-Effect cmd = elim (Result-cases (check_transfer d cmd now)) [
    | inr (e, h) ↦ nothing (rw (h, transfer))
    | inl ((o, n), h) ↦
        let (fits, _, available) = check_transfer-ok d cmd now o n h in
        moves cmd.grain_key o n fits.0
          (transferred cmd.grain_key cmd.placement_id cmd.placement_version fits available)
          (rw (h, transfer))
  ]

  pub recover-Effect : (cmd : RecoverCommand) → Effect now d (recover d p cmd now published).state
  unfolding recover
  recover-Effect cmd = elim (Result-cases (check_recover d cmd now)) [
    | inr (e, h) ↦ nothing (rw (h, recover))
    | inl ((o, n), h) ↦
        let (fits, lost, _, available) = check_recover-ok d cmd now o n h in
        moves cmd.grain_key o n fits.0
          (recovered cmd.grain_key cmd.placement_id cmd.placement_version fits lost available)
          (rw (h, recover))
  ]

existing-inactive :
    (d : Directory) (key : Text) (now : ℕ)
    → existing_allocation d key now ≡ ok none
    → inactive (lookup key d.placements) ≡ true
unfolding existing_allocation
existing-inactive d key now h = ground arith

module _ (d : Directory) (p : Option Publisher) (now published : ℕ) where
  pub commit-Effect :
      (cmd : AllocateCommand) (key id : Text) (chosen : Node)
      → Effect now d (allocate_commit d p cmd key id chosen now published).state
  unfolding allocate_commit
  commit-Effect cmd key id chosen = elim (Result-cases (existing_allocation d key now)) [
    | inr (e, h) ↦ nothing (rw (h, allocate_commit))
    | inl (some o, h) ↦ nothing (rw (h, allocate_commit))
    | inl (none, h) ↦ elim (Result-cases (current_target d cmd chosen now)) [
      | inr (e, g) ↦ nothing (unfold allocate_new in rw (h, allocate_commit, g, allocate_new))
      | inl (n, g) ↦
          let q = new_placement cmd.grain_id cmd.kind key id n now in
          unfold new_placement in
          places q refl refl (existing-inactive d key now h)
            (unfold allocate_new in rw (h, allocate_commit, g, allocate_new))
    ]
  ]
