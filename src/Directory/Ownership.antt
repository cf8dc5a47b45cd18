-- ===== src/Directory/Ownership.antt =====
-- The placement of a grain is stable: what can change its owner, its version and its lifetime, and
-- which commands are refused.
use stable_placement.Base.{
  ℕ, ◌^◌, ◌<◌, ◌≡◌, ◌≢◌, sym, subst, inl, inr, Option, none, some, Text, lookup, lookup-insert,
  arith,
}
use stable_placement.Model.{
  refuse, Result-cases, ok, err, Error, Node, Placement, Publisher, TransferCommand,
}
use stable_placement.Directory.{
  Directory, move_placement, moved, release, find_active, check_release,
}
use stable_placement.Directory.Moves.{transfer, check_transfer, recover, check_recover}
use stable_placement.Directory.Index.{IsConsistent}
use stable_placement.Directory.Effects.{Cause}
use stable_placement.Directory.Checks.{Fits, check_transfer-ok}

-- What a call can make of the placement of a grain.
pub data Fate (d : Directory) (now : ℕ) (o : Placement) (new : Option Placement) : Type 0 where
  untouched : new ≡ some o → Fate d now o new
  handed_over : (n : Node) → Cause d o n now → new ≡ some (moved o n now) → Fate d now o new
  gone : (k id : Text) (version : ℕ) → Fits d k o id version → new ≡ none → Fate d now o new

-- The commands that a holder of the lifetime `id` and the version `version` could still send.
abbrev pub Stale : Directory → Text → Text → ℕ → Type 0
Stale d k id version =
    (p : Option Publisher) (now published : ℕ) (node session from to : Text)
    → ((release d p
          (record {
            grain_key = k;
            placement_id = id;
            node_identity = node;
            node_session_id = session;
            placement_version = version;
          })
          now published).state
        ≡ d)
      × ((transfer d p
            (record {
              grain_key = k;
              placement_id = id;
              from_node_identity = from;
              to_node_identity = to;
              placement_version = version;
            })
            now published)
          ≡ refuse d Error.version_conflict)
      × ((recover d p
            (record {
              grain_key = k;
              placement_id = id;
              new_node_identity = to;
              placement_version = version;
            })
            now published)
          ≡ refuse d Error.version_conflict)

moved_fences :
    (d : Directory) (k : Text) (o : Placement) (n : Node) (t : ℕ)
    → o.version < 2 ^ 64
    → lookup k d.placements ≡ some (moved o n t)
    → Stale d k o.placement_id o.version
unfolding release check_release find_active transfer check_transfer recover check_recover moved
moved_fences d k o n t small h p now published node session from to =
    (ground arith, ground arith, ground arith)

lookup-move_placement :
    (d : Directory) (k : Text) (o : Placement) (n : Node) (t : ℕ)
    → o.grain_key ≡ k
    → lookup k (move_placement d o n t).placements ≡ some (moved o n t)
unfolding move_placement
lookup-move_placement d k o n t e =
    ground (arith, lookup-insert o.grain_key k (moved o n t) d.placements)

transfer-state :
    (d : Directory) (p : Option Publisher) (cmd : TransferCommand) (now published : ℕ)
    (o : Placement) (n : Node)
    → check_transfer d cmd now ≡ ok (o, n)
    → (transfer d p cmd now published).state ≡ move_placement d o n now
unfolding transfer
transfer-state d p cmd now published o n g = rw (g, transfer)

refused-not-ok :
    (d : Directory) (p : Option Publisher) (cmd : TransferCommand) (now published : ℕ) (e : Error)
    (r : Placement)
    → check_transfer d cmd now ≡ err e
    → (transfer d p cmd now published).result ≢ ok r
unfolding transfer
refused-not-ok d p cmd now published e r g h = ground arith

-- Fencing: after a transfer that succeeds on a consistent directory, the lifetime and the version
-- that its command named are worth nothing. A transfer or a recovery that names them is refused as
-- a version conflict, and a release that names them leaves the directory as it is. The version is
-- one of an int64.
pub transfer_fences :
    (d : Directory) (p : Option Publisher) (cmd : TransferCommand) (now published : ℕ)
    (r : Placement)
    → IsConsistent d
    → cmd.placement_version < 2 ^ 64
    → (transfer d p cmd now published).result ≡ ok r
    → Stale
        (transfer d p cmd now published).state
        cmd.grain_key
        cmd.placement_id
        cmd.placement_version
transfer_fences d p cmd now published r v small h = elim (Result-cases (check_transfer d cmd now)) [
  | inr (e, g) ↦ absurd (refused-not-ok d p cmd now published e r g h)
  | inl ((o, n), g) ↦
      let ((found, same_id, same_version), _, _) = check_transfer-ok d cmd now o n g in
      let keyed : o.grain_key ≡ cmd.grain_key = (v.keyed cmd.grain_key o found).0 in
      subst (λ x. Stale x cmd.grain_key cmd.placement_id cmd.placement_version)
        (sym (transfer-state d p cmd now published o n g))
        (subst (λ x. Stale (move_placement d o n now) cmd.grain_key x cmd.placement_version) same_id
          (subst (Stale (move_placement d o n now) cmd.grain_key o.placement_id) same_version (
            moved_fences (move_placement d o n now) cmd.grain_key o n now (omega arith)
              (lookup-move_placement d cmd.grain_key o n now keyed))))
]
