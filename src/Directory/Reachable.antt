-- ===== src/Directory/Reachable.antt =====
-- The directories that calls can reach from a new one.
use stable_placement.Base.{
  ℕ, ℤ, ◌≡◌, refl, sym, ap, subst, ◌⊎◌, inl, inr, Option, some, List, [], ◌∷◌, Text, lookup, member,
  Distinct, Option-cases, arith,
}
use stable_placement.Model.{ok, Publisher}
use stable_placement.Model.Lease.{normalize_ttl}
use stable_placement.Strategy.{StrategyMode}
use stable_placement.Registry.{NodeRegistry, new_node_registry}
use stable_placement.Registry.Lifecycle.{complete_drain}
use stable_placement.Registry.Calls
use stable_placement.Registry.Transitions.{step-IsValid}
use stable_placement.Registry.Transitions
use stable_placement.Directory.{Directory, new_directory, move_placement}
use stable_placement.Directory.Resolve.{place}
use stable_placement.Directory.Index.{IsConsistent}
use stable_placement.Directory.Effects.{
  Effect, nothing, moves, places, removes, release-Effect, transfer-Effect, recover-Effect,
  commit-Effect,
}
use stable_placement.Directory.Decisions.{resolve-Effect}
use stable_placement.Directory.Calls.{
  Call, registry_call, completes_drain, renews, releases, transfers, recovers, resolves, commits,
  has_placements, step, step-IsConsistent, renew-state,
}

-- The directory after some calls, in order, each at its time.
unfoldable pub run : Option Publisher → Option Publisher → Directory → List (ℕ × Call) → Directory
run p q d [] = d
run p q d (call ∷ calls) = run p q (step p q d call) calls

Effect-registry : (now : ℕ) (d d' : Directory) → Effect now d d' → d'.registry ≡ d.registry
unfolding move_placement place
Effect-registry now d d' (nothing e) = ap (λ (x : Directory). x.registry) e
Effect-registry now d d' (moves k o n h c e) = ap (λ (x : Directory). x.registry) e
Effect-registry now d d' (places q a b f e) = ap (λ (x : Directory). x.registry) e
Effect-registry now d d' (removes k id version o h e) = ap (λ (x : Directory). x.registry) e

drain-step :
    (q : Option Publisher) (d : Directory) (n session : Text) (now : ℕ)
    → (complete_drain d.registry q (some (has_placements d)) n session now).state
      ≡ Calls.step q d.registry (now, Calls.completes (some (has_placements d)) n session)
unfolding Calls.step complete_drain
drain-step q d n session now = refl

-- What a call does to the registry is a call of the registry, or nothing.
step-registry :
    (p q : Option Publisher) (d : Directory) (now : ℕ) (c : Call)
    → ((s : Calls.Call) × ((step p q d (now, c)).registry ≡ Calls.step q d.registry (now, s)))
      ⊎ ((step p q d (now, c)).registry ≡ d.registry)
unfolding step complete_drain
step-registry p q d now (registry_call c) = inl (c, refl)
step-registry p q d now (completes_drain n session) =
    inl (Calls.completes (some (has_placements d)) n session, drain-step q d n session now)
step-registry p q d now (renews cmd published) =
    inr (ap (λ (x : Directory). x.registry) (renew-state d p cmd now published))
step-registry p q d now (releases cmd published) =
    inr (Effect-registry now d _ (release-Effect d p now published cmd))
step-registry p q d now (transfers cmd published) =
    inr (Effect-registry now d _ (transfer-Effect d p now published cmd))
step-registry p q d now (recovers cmd published) =
    inr (Effect-registry now d _ (recover-Effect d p now published cmd))
step-registry p q d now (resolves choose cmd drawn choosing published) =
    inr (Effect-registry now d _ (resolve-Effect d p choose cmd drawn _))
step-registry p q d now (commits cmd key id chosen published) =
    inr (Effect-registry now d _ (commit-Effect d p now published cmd key id chosen))

-- Both halves of a well-formed directory.
pub IsWellFormed : Directory → Type 0
IsWellFormed d = IsConsistent d × Transitions.IsValid d.registry

step-IsWellFormed :
    (p q : Option Publisher) (d : Directory) (call : ℕ × Call)
    → IsWellFormed d
    → IsWellFormed (step p q d call)
unfolding IsWellFormed
step-IsWellFormed p q d (now, c) (v, w) = (
  step-IsConsistent p q d now c v,
  elim (step-registry p q d now c) [
    | inl (s, e) ↦ subst Transitions.IsValid (sym e) (step-IsValid q d.registry now s w)
    | inr e ↦ subst Transitions.IsValid (sym e) w
  ],
)

run-IsWellFormed :
    (p q : Option Publisher) (calls : List (ℕ × Call)) (d : Directory)
    → IsWellFormed d
    → IsWellFormed (run p q d calls)
unfolding run
run-IsWellFormed p q [] d v = v
run-IsWellFormed p q (call ∷ calls) d v =
    run-IsWellFormed p q calls (step p q d call) (step-IsWellFormed p q d call v)

new_node_registry-empty : (ttl : ℤ) (r : NodeRegistry) → new_node_registry ttl ≡ ok r → r.nodes ≡ []
unfolding new_node_registry
new_node_registry-empty ttl r h = elim (Option-cases (normalize_ttl ttl)) [
  | inl e ↦ absurd (ground arith)
  | inr (n, e) ↦ ground arith
]

new_directory-empty :
    (mode : StrategyMode) (r : NodeRegistry) (d : Directory)
    → new_directory r mode ≡ ok d
    → (d.placements ≡ []) × (d.by_node ≡ []) × (d.registry ≡ r)
unfolding new_directory
new_directory-empty StrategyMode.go r d h = ground arith
new_directory-empty StrategyMode.redis_round_robin r d h = absurd (ground arith)
new_directory-empty StrategyMode.redis_resource_aware r d h = absurd (ground arith)

empty-IsConsistent : (d : Directory) → d.placements ≡ [] → d.by_node ≡ [] → IsConsistent d
unfolding lookup member
empty-IsConsistent d h g = record {
  keyed = λ k p e. absurd (ground arith);
  index = λ n k. ground arith;
}

empty-IsValid : (r : NodeRegistry) → r.nodes ≡ [] → Transitions.IsValid r
unfolding lookup
empty-IsValid r h = record {
  distinct = subst Distinct (sym h) tt;
  valid = λ k n e. absurd (ground arith);
}

new_directory-IsWellFormed :
    (ttl : ℤ) (mode : StrategyMode) (r : NodeRegistry) (d : Directory)
    → new_node_registry ttl ≡ ok r
    → new_directory r mode ≡ ok d
    → IsWellFormed d
unfolding IsWellFormed
new_directory-IsWellFormed ttl mode r d h g =
    let (ps, ns, same_registry) = new_directory-empty mode r d g in
    let empty = new_node_registry-empty ttl r h in
    (
      empty-IsConsistent d ps ns,
      subst Transitions.IsValid (sym same_registry) (empty-IsValid r empty),
    )

-- Take a new directory on a new registry, and any calls on the two, in any order and at any times.
-- Afterwards the placements are active and stored under their grain keys, the index lists exactly
-- them, each under its owner, and each node has one entry, with a session, stored under the
-- identity that its validated parts make.
pub run_well_formed :
    (p q : Option Publisher) (ttl : ℤ) (mode : StrategyMode) (r : NodeRegistry) (d : Directory)
    (calls : List (ℕ × Call))
    → new_node_registry ttl ≡ ok r
    → new_directory r mode ≡ ok d
    → IsConsistent (run p q d calls) × Transitions.IsValid (run p q d calls).registry
unfolding IsWellFormed
run_well_formed p q ttl mode r d calls h g =
    run-IsWellFormed p q calls d (new_directory-IsWellFormed ttl mode r d h g)
