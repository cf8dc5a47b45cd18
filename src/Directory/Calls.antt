-- ===== src/Directory/Calls.antt =====
-- The calls of a directory and of its registry as steps, one critical section each, and the
-- invariants that every sequence of them keeps.
use stable_placement.Base.{
  ℕ, ◌≡◌, refl, sym, subst, ◌⊎◌, inl, inr, ◌==◌, Bool, not, Option, some, Text, same, eq_of_same,
  lookup, delete, size, lookup-delete, Bool-cases, arith,
}
use stable_placement.Model.{
  Result, Node, Placement, Publisher, AllocateCommand, ResolveRouteCommand, ReleaseCommand,
  TransferCommand, RecoverCommand, RenewCommand,
}
use stable_placement.Registry.{names_of}
use stable_placement.Registry.Lifecycle.{complete_drain}
use stable_placement.Registry.Calls
use stable_placement.Strategy.{Chooser}
use stable_placement.Directory.{Directory, release, renew, delete_node_index}
use stable_placement.Directory.Moves.{transfer, recover}
use stable_placement.Directory.Resolve.{resolve_route}
use stable_placement.Directory.Allocate.{allocate_commit}
use stable_placement.Directory.Effects.{
  Effect, nothing, moves, places, removes, release-Effect, transfer-Effect, recover-Effect,
  commit-Effect,
}
use stable_placement.Directory.Decisions.{resolve-Effect}
use stable_placement.Directory.Index.{
  IsConsistent, move-IsConsistent, place-IsConsistent, indexed-delete_node_index,
}

-- The hook that NewDirectory hands to the registry: whether the index lists a grain on the node.
unfoldable pub has_placements : Directory → Text → Bool
has_placements d identity = not (size (names_of (lookup identity d.by_node)) == 0)

pub data Call : Type 0 where
  registry_call : Calls.Call → Call
  completes_drain : Text → Text → Call
  renews : RenewCommand → ℕ → Call
  releases : ReleaseCommand → ℕ → Call
  transfers : TransferCommand → ℕ → Call
  recovers : RecoverCommand → ℕ → Call
  -- with the times of the strategy's candidates and of the event
  resolves : Chooser → ResolveRouteCommand → Result Text → ℕ → ℕ → Call
  -- the last section of Allocate, whatever the earlier ones found
  commits : AllocateCommand → Text → Text → Node → ℕ → Call

-- The directory after a call: `p` publishes for the directory and `q` for the registry.
unfoldable pub step : Option Publisher → Option Publisher → Directory → ℕ × Call → Directory
step p q d (now, registry_call c) = record d { registry = Calls.step q d.registry (now, c) }
step p q d (now, completes_drain identity session) = record d {
  registry = (complete_drain d.registry q (some (has_placements d)) identity session now).state;
}
step p q d (now, renews cmd published) = (renew d p cmd now published).state
step p q d (now, releases cmd published) = (release d p cmd now published).state
step p q d (now, transfers cmd published) = (transfer d p cmd now published).state
step p q d (now, recovers cmd published) = (recover d p cmd now published).state
step p q d (now, resolves choose cmd drawn choosing published) =
    (resolve_route d p choose cmd drawn
      (record { now = now; choosing = choosing; published = published })).state
step p q d (now, commits cmd key placement_id chosen published) =
    (allocate_commit d p cmd key placement_id chosen now published).state

-- The call is made on the registry alone, so that the placements and the index stay.
abbrev pub Stays : Directory → Directory → Type 0
Stays d d' = (d'.placements ≡ d.placements) × (d'.by_node ≡ d.by_node)

pub renew-state :
    (d : Directory) (p : Option Publisher) (cmd : RenewCommand) (now published : ℕ)
    → (renew d p cmd now published).state ≡ d
unfolding renew
renew-state d p cmd now published = ground arith

-- Every call has an effect that `Effect` describes, or touches the registry only.
pub step-Effect :
    (p q : Option Publisher) (d : Directory) (now : ℕ) (c : Call)
    → Effect now d (step p q d (now, c)) ⊎ Stays d (step p q d (now, c))
unfolding step
step-Effect p q d now (registry_call c) = inr (refl, refl)
step-Effect p q d now (completes_drain identity session) = inr (refl, refl)
step-Effect p q d now (renews cmd published) = inl (nothing (renew-state d p cmd now published))
step-Effect p q d now (releases cmd published) = inl (release-Effect d p now published cmd)
step-Effect p q d now (transfers cmd published) = inl (transfer-Effect d p now published cmd)
step-Effect p q d now (recovers cmd published) = inl (recover-Effect d p now published cmd)
step-Effect p q d now (resolves choose cmd drawn choosing published) =
    inl (resolve-Effect d p choose cmd drawn _)
step-Effect p q d now (commits cmd key id chosen published) =
    inl (commit-Effect d p now published cmd key id chosen)

remove-IsConsistent :
    (d : Directory) (k : Text) (o : Placement)
    → lookup k d.placements ≡ some o
    → IsConsistent d
    → IsConsistent (record d {
      placements = delete k d.placements;
      by_node = delete_node_index d.by_node o.node_identity k;
    })
remove-IsConsistent d k o h v = record {
  keyed = λ j r g. v.keyed j r (ground (arith, lookup-delete k j d.placements));
  index = λ n j. elim (Bool-cases (same k j)) [
    | inl s ↦
        let kj : k ≡ j = eq_of_same k j s in
        ground (
          arith,
          v.index n j,
          lookup-delete k j d.placements,
          indexed-delete_node_index d.by_node o.node_identity k n j,
        )
    | inr s ↦ ground (
      arith,
      v.index n j,
      lookup-delete k j d.placements,
      indexed-delete_node_index d.by_node o.node_identity k n j,
    )
  ];
}

Effect-IsConsistent :
    (now : ℕ) (d d' : Directory) → Effect now d d' → IsConsistent d → IsConsistent d'
Effect-IsConsistent now d d' (nothing e) v = subst IsConsistent (sym e) v
Effect-IsConsistent now d d' (moves k o n h c e) v =
    subst IsConsistent (sym e) (move-IsConsistent d o k n now h v)
Effect-IsConsistent now d d' (places q a b f e) v =
    subst IsConsistent (sym e) (place-IsConsistent d q a v)
Effect-IsConsistent now d d' (removes k id version o h e) v =
    subst IsConsistent (sym e) (remove-IsConsistent d k o h.0 v)

-- After any call, of the directory or of its registry, the placements are active and stored under
-- their grain keys, and the index lists exactly them, each under its owner.
pub step-IsConsistent :
    (p q : Option Publisher) (d : Directory) (now : ℕ) (c : Call)
    → IsConsistent d
    → IsConsistent (step p q d (now, c))
step-IsConsistent p q d now c v = elim (step-Effect p q d now c) [
  | inl e ↦ Effect-IsConsistent now d _ e v
  | inr (e, f) ↦ record {
    keyed = λ k o h. v.keyed k o (rw (← e) h);
    index = λ n k. rw (e, f) (v.index n k);
  }
]

pub release-IsConsistent :
    (d : Directory) (p : Option Publisher) (cmd : ReleaseCommand) (now published : ℕ)
    → IsConsistent d
    → IsConsistent (release d p cmd now published).state
release-IsConsistent d p cmd now published v =
    Effect-IsConsistent now d _ (release-Effect d p now published cmd) v
