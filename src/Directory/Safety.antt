-- ===== src/Directory/Safety.antt =====
-- What a caller may rely on: routes until their deadline, drained nodes and released placements.
use stable_placement.Base.{
  ℕ, ◌<◌, ◌≡◌, ◌≢◌, refl, sym, ap, ◌∙◌, inl, inr, Bool, true, false, Option, none, some, Text,
  eq_of_same, lookup, size, size_pos, member_of_size, lookup-delete, Option-cases, arith,
}
use stable_placement.Model.{
  ok, err, Error, Node, Placement, PlacementRoute, Publisher, ReleaseCommand,
}
use stable_placement.Model.Lease.{deadline_from, unix_milli}
use stable_placement.Registry.{NodeRegistry, lease_expired, names_of}
use stable_placement.Registry.Lifecycle.{complete_drain, unregister_locked, finish_unregister}
use stable_placement.Directory.{
  Directory, lookup_route, exists, placement_routeable, routeable_on, session_usable, route_of,
  release, check_release,
}
use stable_placement.Directory.Index.{IsConsistent, indexed, owned_by}
use stable_placement.Directory.Calls.{has_placements, release-IsConsistent}

-- Before the deadline that was computed from a lease that had not run out, it has not run out.
deadline_from-live : (now m t : ℕ) → unix_milli now < m → t < deadline_from now m → unix_milli t < m
unfolding deadline_from
deadline_from-live now m t h e = ground arith

routeable_until :
    (node : Node) (placement : Placement) (now t : ℕ)
    → routeable_on (some node) placement now ≡ true
    → t < deadline_from now node.lease.expire_at_unix_milli
    → routeable_on (some node) placement t ≡ true
unfolding routeable_on session_usable lease_expired
routeable_until node placement now t h e =
    ground (arith, deadline_from-live now node.lease.expire_at_unix_milli t)

-- A route that Lookup hands out can be used until its deadline: while the directory and the registry
-- stay as they are, Exists answers true for the grain at every time before it.
pub lookup_route_until :
    (d : Directory) (k : Text) (now t : ℕ) (r : PlacementRoute)
    → lookup_route d k now ≡ ok r
    → t < r.valid_until
    → exists d k t ≡ true
unfolding lookup_route exists placement_routeable route_of
lookup_route_until d k now t r h e = elim (Option-cases (lookup k d.placements)) [
  | inl f ↦ absurd (ground arith)
  | inr (o, f) ↦ elim (Option-cases (lookup o.node_identity d.registry.nodes)) [
    | inl g ↦ absurd (unfold routeable_on in ground arith)
    | inr (n, g) ↦ ground (arith, routeable_until n o now t)
  ]
]

owned_of_true :
    (n : Text) (m : Option Placement)
    → owned_by n m ≡ true
    → (o : Placement) × (m ≡ some o) × (o.node_identity ≡ n)
owned_of_true n none h = cc
owned_of_true n (some o) h = (o, refl, eq_of_same o.node_identity n h)

-- The test that guards CompleteDrain is exact: where it holds some grain is placed on the node, and
-- where it fails none is.
pub has_placements_exact :
    (d : Directory) (n : Text)
    → IsConsistent d
    → (has_placements d n ≡ true
        → (k : Text) × (o : Placement) × (lookup k d.placements ≡ some o) × (o.node_identity ≡ n))
      × (has_placements d n ≡ false
          → (k : Text) (o : Placement) → lookup k d.placements ≡ some o
          → o.node_identity ≢ n)
unfolding has_placements
has_placements_exact d n v = (
  λ h.
      let keys = names_of (lookup n d.by_node) in
      let some_key : size keys ≢ 0 = λ z. ground arith in
      let (k, listed) = size_pos keys some_key in
      let (o, found, owner) =
        owned_of_true n (lookup k d.placements) (sym (v.index n k) ∙ listed) in
      (k, o, found, owner),
  λ h k o f e.
      let unlisted : indexed d.by_node n k ≡ false =
        member_of_size (names_of (lookup n d.by_node)) (ground arith) k in
      ground (arith, v.index n k),
)

complete_drain-ok :
    (r : NodeRegistry) (p : Option Publisher) (hook : Text → Bool) (n session : Text) (now : ℕ)
    → (complete_drain r p (some hook) n session now).result ≡ ok tt
    → (hook n ≡ false)
      × (lookup n (complete_drain r p (some hook) n session now).state.nodes ≡ none)
unfolding complete_drain unregister_locked finish_unregister
complete_drain-ok r p hook n session now h = ground (arith, lookup-delete n n r.nodes)

-- CompleteDrain, with the hook of a consistent directory, orphans no grain: when it succeeds, the
-- node has left the registry and no placement names it.
pub complete_drain_safe :
    (d : Directory) (q : Option Publisher) (n session : Text) (now : ℕ)
    → IsConsistent d
    → (complete_drain d.registry q (some (has_placements d)) n session now).result ≡ ok tt
    → (lookup n (complete_drain d.registry q (some (has_placements d)) n session now).state.nodes
        ≡ none)
      × ((k : Text) (o : Placement) → lookup k d.placements ≡ some o → o.node_identity ≢ n)
complete_drain_safe d q n session now v h =
    let (free, left) = complete_drain-ok d.registry q (has_placements d) n session now h in
    (left, (has_placements_exact d n v).1 free)

release-lookup :
    (d : Directory) (p : Option Publisher) (cmd : ReleaseCommand) (now published : ℕ)
    (o : Placement)
    → check_release d cmd ≡ ok o
    → lookup cmd.grain_key (release d p cmd now published).state.placements ≡ none
unfolding release
release-lookup d p cmd now published o h =
    ground (arith, lookup-delete cmd.grain_key cmd.grain_key d.placements)

-- On a consistent directory, a release that passes its checks removes the placement, whatever the
-- publisher answers: the grain is not found any more, at any time, and the index does not list it
-- under any node.
pub release_removes :
    (d : Directory) (p : Option Publisher) (cmd : ReleaseCommand) (now published : ℕ)
    (o : Placement)
    → IsConsistent d
    → check_release d cmd ≡ ok o
    → let d' = (release d p cmd now published).state in
      (lookup cmd.grain_key d'.placements ≡ none)
      × ((n : Text) → indexed d'.by_node n cmd.grain_key ≡ false)
      × ((t : ℕ) → lookup_route d' cmd.grain_key t ≡ err Error.placement_not_found)
release_removes d p cmd now published o v h =
    let d' = (release d p cmd now published).state in
    let gone = release-lookup d p cmd now published o h in
    let w = release-IsConsistent d p cmd now published v in
    (
      gone,
      λ n. w.index n cmd.grain_key ∙ ap (owned_by n) gone,
      λ t. unfold lookup_route in ground arith,
    )
