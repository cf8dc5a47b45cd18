-- ===== src/Directory/Candidates.antt =====
-- The candidates of a target, and the placements that can be reached.
use stable_placement.Base.{
  ℕ, ◌≤◌, ◌≡◌, sym, subst, inl, inr, true, ◌&&◌, Option, some, List, [], ◌∷◌, Text, same, lookup,
  lookup-insert, before, All, All-imp, All-map, All-select, sort-All, entries-lookup, Bool-cases,
  arith,
}
use stable_placement.Model.{Result-cases, ok, Node, Placement, ResolveRouteCommand}
use stable_placement.Registry.{lease_expired}
use stable_placement.Registry.Transitions
use stable_placement.Strategy.{Chooser, StrategyInput}
use stable_placement.Directory.{
  Directory, lookup_route, placement_routeable, routeable_on, session_usable, target_available,
  route_of, move_placement, moved,
}
use stable_placement.Directory.Resolve.{
  effective_nodes, eligible, confirm, choose_target, placement_counts, place, new_placement,
}

-- What is known of a candidate: it is the registry's node under its identity, and it is eligible.
abbrev pub Candidate : Directory → Text → Text → ℕ → Node → Type 0
Candidate d t g now n =
    (lookup n.node_identity d.registry.nodes ≡ some n) × (eligible d t g now n ≡ true)

effective_nodes-Candidate :
    (d : Directory) (t g : Text) (now : ℕ)
    → Transitions.IsValid d.registry
    → All (Candidate d t g now) (effective_nodes d t g now)
unfolding effective_nodes
effective_nodes-Candidate d t g now v =
    let nodes = d.registry.nodes in
    let own : All (λ (e : Text × Node). lookup e.1.node_identity nodes ≡ some e.1) nodes =
      All-imp (λ e h. subst (λ k. lookup k nodes ≡ some e.1) (sym (v.valid e.0 e.1 h).key) h) nodes
        (entries-lookup nodes v.distinct) in
    sort-All (λ a b. before a.node_identity b.node_identity) (Candidate d t g now) _
      (All-select (λ n. lookup n.node_identity nodes ≡ some n) (eligible d t g now) _
        (All-map (λ n. lookup n.node_identity nodes ≡ some n) (λ e. e.1) nodes own))

confirm-All :
    (P : Node → Type 0) (xs : List Node) (chosen n : Node)
    → All P xs
    → confirm xs chosen ≡ ok n
    → P n
unfolding confirm
confirm-All P [] chosen n a h = cc
confirm-All P (x ∷ xs) chosen n a h =
    elim (Bool-cases (
      same x.node_identity chosen.node_identity && same x.node_session_id chosen.node_session_id)) [
        | inl e ↦ let q : x ≡ n = ground arith in subst P q a.0
        | inr e ↦ confirm-All P xs chosen n a.1 (ground arith)
      ]

-- Whatever the strategy answers, the node that is taken is a candidate.
pub choose_target-Candidate :
    (d : Directory) (choose : Chooser) (cmd : ResolveRouteCommand) (now : ℕ) (n : Node)
    → Transitions.IsValid d.registry
    → choose_target d choose cmd now ≡ ok n
    → Candidate d cmd.target_node_type cmd.target_node_group now n
unfolding choose_target
choose_target-Candidate d choose cmd now n v h =
    let nodes = effective_nodes d cmd.target_node_type cmd.target_node_group now in
    let asked : StrategyInput = record {
      grain_id = cmd.grain_id;
      kind = cmd.kind;
      node_type = cmd.target_node_type;
      node_group = cmd.target_node_group;
      effective_nodes = nodes;
      placement_counts = placement_counts d nodes;
    } in
    elim (Result-cases (choose asked)) [
      | inl (chosen, e) ↦
          confirm-All (Candidate d cmd.target_node_type cmd.target_node_group now) nodes chosen n
            (effective_nodes-Candidate d cmd.target_node_type cmd.target_node_group now v)
            (ground arith)
      | inr (x, e) ↦ absurd (ground arith)
    ]

-- The placement can be reached at this time.
abbrev pub Reaches : Directory → Text → Placement → ℕ → Type 0
Reaches d key o now = (lookup key d.placements ≡ some o) × (placement_routeable d o now ≡ true)

pub lookup_of_Reaches :
    (d : Directory) (key : Text) (o : Placement) (now : ℕ)
    → Reaches d key o now
    → lookup_route d key now ≡ ok (route_of o (lookup o.node_identity d.registry.nodes) now)
unfolding lookup_route
lookup_of_Reaches d key o now h = ground arith

pub eligible_facts :
    (d : Directory) (t g : Text) (now choosing : ℕ) (n : Node)
    → now ≤ choosing
    → eligible d t g choosing n ≡ true
    → (n.node_type ≡ t) × (n.node_group ≡ g) × (session_usable n now ≡ true)
unfolding eligible target_available session_usable lease_expired
eligible_facts d t g now choosing n forward h = ground arith

module _ (d : Directory) (key : Text) (now : ℕ) (n : Node)
    (found : lookup n.node_identity d.registry.nodes ≡ some n)
    (usable : session_usable n now ≡ true) where
  pub moved-Reaches :
      (o : Placement)
      → o.grain_key ≡ key
      → Reaches (move_placement d o n now) key (moved o n now) now
  unfolding move_placement moved placement_routeable routeable_on
  moved-Reaches o e =
      (ground (arith, lookup-insert o.grain_key key (moved o n now) d.placements), ground arith)

  pub place-Reaches :
      (old : Option Placement) (grain_id kind id : Text)
      → Reaches
          (place d old (new_placement grain_id kind key id n now))
          key
          (new_placement grain_id kind key id n now)
          now
  unfolding place new_placement placement_routeable routeable_on
  place-Reaches old grain_id kind id = (
    ground (arith, lookup-insert key key (new_placement grain_id kind key id n now) d.placements),
    ground arith,
  )
