-- ===== src/Directory/Allocation.antt =====
-- What Allocate returns, whatever other calls do between its critical sections.
use stable_placement.Base.{
  ℕ, ◌≡◌, refl, sym, ap, subst, subst₂, ◌∙◌, ◌⊎◌, inl, inr, true, Option, some, Text, lookup,
  Option-cases, arith,
}
use stable_placement.Model.{
  Result, Result-cases, ok, Outcome, Node, Placement, Publisher, AllocateCommand,
}
use stable_placement.Identity.{new_grain_key, node_type_of, node_group_of}
use stable_placement.Identity.Parts.{new_node_identity-parts}
use stable_placement.Registry.{lease_expired}
use stable_placement.Registry.Transitions
use stable_placement.Strategy.{Chooser}
use stable_placement.Directory.{
  Directory, lookup_route, placement_routeable, session_usable, target_available, route_of,
}
use stable_placement.Directory.Resolve.{place, new_placement}
use stable_placement.Directory.Allocate.{
  existing_allocation, Prepared, found, proposed, allocate_prepare, allocate_choose, current_target,
  allocate_new, allocate_commit, AllocateTimes, allocate,
}
use stable_placement.Directory.Candidates.{Reaches, lookup_of_Reaches, place-Reaches}

existing-Reaches :
    (d : Directory) (key : Text) (now : ℕ) (o : Placement)
    → existing_allocation d key now ≡ ok (some o)
    → Reaches d key o now
unfolding existing_allocation
existing-Reaches d key now o h = elim (Option-cases (lookup key d.placements)) [
  | inl e ↦ absurd (ground arith)
  | inr (x, e) ↦ ground arith
]

-- The session that the strategy's answer stands for at the end.
current-facts :
    (d : Directory) (cmd : AllocateCommand) (chosen n : Node) (now : ℕ)
    → current_target d cmd chosen now ≡ ok n
    → (lookup chosen.node_identity d.registry.nodes ≡ some n)
      × (n.node_type ≡ cmd.target_node_type)
      × (n.node_group ≡ cmd.target_node_group)
      × (session_usable n now ≡ true)
unfolding current_target target_available session_usable lease_expired
current-facts d cmd chosen n now h =
    elim (Option-cases (lookup chosen.node_identity d.registry.nodes)) [
      | inl e ↦ absurd (ground arith)
      | inr (x, e) ↦ ground arith
    ]

-- The node is of the type and the group that the command asks for.
abbrev pub InGroup : AllocateCommand → Text → Type 0
InGroup cmd identity =
    (node_type_of identity ≡ cmd.target_node_type)
    × (node_group_of identity ≡ cmd.target_node_group)

new-Reaches :
    (d : Directory) (cmd : AllocateCommand) (key id : Text) (chosen n : Node) (now : ℕ)
    → Transitions.IsValid d.registry
    → current_target d cmd chosen now ≡ ok n
    → Reaches
        (place d (lookup key d.placements) (new_placement cmd.grain_id cmd.kind key id n now))
        key
        (new_placement cmd.grain_id cmd.kind key id n now)
        now
      × InGroup cmd n.node_identity
new-Reaches d cmd key id chosen n now w h =
    let (at, t, g, usable) = current-facts d cmd chosen n now h in
    let valid = w.valid chosen.node_identity n at in
    let own : lookup n.node_identity d.registry.nodes ≡ some n =
      subst (λ k. lookup k d.registry.nodes ≡ some n) (sym valid.key) at in
    let (a, b, _) =
      new_node_identity-parts n.node_type n.node_group n.node_name chosen.node_identity
        valid.parts in
    (
      place-Reaches d key now n own usable (lookup key d.placements) cmd.grain_id cmd.kind id,
      subst (InGroup cmd) (sym valid.key) (a ∙ t, b ∙ g),
    )

-- The placement that the last section answers with can be reached in the state that it leaves.
pub Committed : Directory → AllocateCommand → Text → ℕ → Directory → Placement → Type 0
Committed d cmd key now d' o =
    Reaches d' key o now × ((lookup key d.placements ≡ some o) ⊎ InGroup cmd o.node_identity)

commit-Committed :
    (d : Directory) (p : Option Publisher) (cmd : AllocateCommand) (key id : Text) (chosen : Node)
    (now published : ℕ) (o : Placement)
    → Transitions.IsValid d.registry
    → (allocate_commit d p cmd key id chosen now published).result ≡ ok o
    → Committed d cmd key now (allocate_commit d p cmd key id chosen now published).state o
unfolding allocate_commit allocate_new Committed new_placement
commit-Committed d p cmd key id chosen now published o w h =
    elim (Result-cases (existing_allocation d key now)) [
      | inr (e, g) ↦ absurd (ground arith)
      | inl (found_one, g) ↦ elim (Option-cases found_one) [
        | inr (x, q) ↦
            let at = existing-Reaches d key now x (ground arith) in
            let same_one : x ≡ o = ground arith in ground (arith, at)
        | inl q ↦ elim (Result-cases (current_target d cmd chosen now)) [
          | inr (e, f) ↦ absurd (ground arith)
          | inl (n, f) ↦
              let (reaches, inside) = new-Reaches d cmd key id chosen n now w f in
              let fresh = new_placement cmd.grain_id cmd.kind key id n now in
              let left : (allocate_commit d p cmd key id chosen now published).state
                  ≡ place d (lookup key d.placements) fresh =
                ground arith in
              let given : fresh ≡ o = ground arith in
              (
                subst₂ (λ x y. Reaches x key y now) (sym left) given reaches,
                inr (subst (λ (x : Placement). InGroup cmd x.node_identity) given inside),
              )
        ]
      ]
    ]

Led : Directory → Text → ℕ → Prepared → Type 0
Led d key now (found o) = Reaches d key o now
Led d key now (proposed key' id chosen) = key' ≡ key

-- Where the sections before the last lead, for a command whose grain key is `key`.
prepare-key :
    (d1 d2 : Directory) (choose : Chooser) (cmd : AllocateCommand) (drawn : Result Text)
    (looking listing : ℕ) (key : Text) (r : Prepared)
    → new_grain_key cmd.kind cmd.grain_id ≡ ok key
    → allocate_prepare d1 d2 choose cmd drawn looking listing ≡ ok r
    → Led d1 key looking r
unfolding allocate_prepare Led
prepare-key d1 d2 choose cmd drawn looking listing key r named h =
    elim (Result-cases (existing_allocation d1 key looking)) [
      | inr (e, g) ↦ absurd (ground arith)
      | inl (one, g) ↦ elim (Option-cases one) [
        | inr (x, q) ↦
            let at = existing-Reaches d1 key looking x (ground arith) in
            let e : found x ≡ r = ground arith in subst (Led d1 key looking) e at
        | inl q ↦ elim (Result-cases drawn) [
          | inr (e, f) ↦ absurd (ground arith)
          | inl (id, f) ↦ elim (Result-cases (allocate_choose d2 choose cmd listing)) [
            | inr (e, c) ↦ absurd (ground arith)
            | inl (chosen, c) ↦
                let e : proposed key id chosen ≡ r = ground arith in
                subst (Led d1 key looking) e refl
          ]
        ]
      ]
    ]

allocate-proposed :
    (d1 d2 d3 : Directory) (p : Option Publisher) (choose : Chooser) (cmd : AllocateCommand)
    (drawn : Result Text) (times : AllocateTimes) (key id : Text) (chosen : Node)
    → allocate_prepare d1 d2 choose cmd drawn times.looking times.listing
      ≡ ok (proposed key id chosen)
    → allocate d1 d2 d3 p choose cmd drawn times
      ≡ allocate_commit d3 p cmd key id chosen times.now times.published
unfolding allocate
allocate-proposed d1 d2 d3 p choose cmd drawn times key id chosen h = ground arith

-- A placement that Allocate returns, whatever other calls did between its three sections: either the
-- first section found it, reachable then, and nothing was changed; or it can be reached in the
-- state that the last section leaves, so that Lookup gives its route, and it was there before or
-- is in the group that was asked for. The registry that the last section sees is well formed.
pub allocate_agrees :
    (d1 d2 d3 : Directory) (p : Option Publisher) (choose : Chooser) (cmd : AllocateCommand)
    (drawn : Result Text) (times : AllocateTimes) (key : Text) (o : Placement)
    → Transitions.IsValid d3.registry
    → new_grain_key cmd.kind cmd.grain_id ≡ ok key
    → (allocate d1 d2 d3 p choose cmd drawn times).result ≡ ok o
    → let d' = (allocate d1 d2 d3 p choose cmd drawn times).state in
      ((lookup key d1.placements ≡ some o)
        × (placement_routeable d1 o times.looking ≡ true)
        × (d' ≡ d3))
      ⊎ ((lookup_route d' key times.now
            ≡ ok (route_of o (lookup o.node_identity d'.registry.nodes) times.now))
          × ((lookup key d3.placements ≡ some o) ⊎ InGroup cmd o.node_identity))
unfolding allocate Led Committed
allocate_agrees d1 d2 d3 p choose cmd drawn times key o w named h =
    let prepared = allocate_prepare d1 d2 choose cmd drawn times.looking times.listing in
    elim (Result-cases prepared) [
      | inr (e, g) ↦ absurd (ground arith)
      | inl (found x, g) ↦
          let at =
            prepare-key d1 d2 choose cmd drawn times.looking times.listing key (found x) named g in
          let same_one : x ≡ o = ground arith in
          let (stored, reached) = subst (λ y. Reaches d1 key y times.looking) same_one at in
          inl (stored, reached, ground arith)
      | inl (proposed key' id chosen, g) ↦
          let at =
            prepare-key d1 d2 choose cmd drawn times.looking times.listing key
              (proposed key' id chosen) named g in
          let whole =
            allocate-proposed d1 d2 d3 p choose cmd drawn times key id chosen
              (subst (λ k. prepared ≡ ok (proposed k id chosen)) at g) in
          let (reaches, origin) =
            commit-Committed d3 p cmd key id chosen times.now times.published o w
              (ap (λ (x : Outcome Directory Placement). x.result) (sym whole) ∙ h) in
          inr (
            subst
                (λ (x : Outcome Directory Placement).
                  lookup_route x.state key times.now
                  ≡ ok (route_of o (lookup o.node_identity x.state.registry.nodes) times.now))
                (sym whole)
                (lookup_of_Reaches
                  (allocate_commit d3 p cmd key id chosen times.now times.published).state key o
                  times.now reaches),
            origin,
          )
    ]
