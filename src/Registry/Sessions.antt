-- ===== src/Registry/Sessions.antt =====
-- How one call changes the entry of one node: the state machine of a node session.
use stable_placement.Base.{
  ℕ, ◌≡◌, refl, sym, ap, subst, eq_of_same, same_refl, ◌≢◌, inl, inr, true, false, Option, none,
  some, [], Text, same, lookup, delete, lookup-insert, lookup-delete, Bool-cases, Option-cases,
  arith,
}
use stable_placement.Model.{Result-cases, ok, Node, NodeStatus, NodeMetrics, is_offline}
use stable_placement.Identity.{new_node_identity}
use stable_placement.Registry.{
  NodeRegistry, lease_expired, renewed, put_node, normalize_node_identity,
}

-- What the registry demands of a node that it stores under an identity.
pub record ValidNode (identity : Text) (n : Node) : Type 0 where
  pub key : n.node_identity ≡ identity
  pub parts : new_node_identity n.node_type n.node_group n.node_name ≡ ok identity
  pub session : same n.node_session_id [] ≡ false

-- The entry of the node `k` before and after a call at the time `now`.
pub data Change (now : ℕ) (k : Text) (old new : Option Node) : Type 0 where
  unchanged : new ≡ old → Change now k old new
  -- a session that was not there: active, with a first lease
  joined :
      (n : Node)
      → new ≡ some n
      → ValidNode k n
      → n.status ≡ NodeStatus.active
      → n.lease.version ≡ 1
      → ((o : Node) → old ≡ some o → o.node_session_id ≢ n.node_session_id)
      → Change now k old new
  -- a live lease is extended
  extended :
      (o : Node) (m : Option NodeMetrics)
      → old ≡ some o
      → is_offline o.status ≡ false
      → lease_expired o now ≡ false
      → new ≡ some (renewed o m now)
      → Change now k old new
  -- a lease has run out
  expired :
      (o : Node)
      → old ≡ some o
      → is_offline o.status ≡ false
      → lease_expired o now ≡ true
      → new ≡ some (record o { status = NodeStatus.offline })
      → Change now k old new
  drained :
      (o : Node)
      → old ≡ some o
      → is_offline o.status ≡ false
      → new ≡ some (record o { status = NodeStatus.draining })
      → Change now k old new
  removed : (o : Node) → old ≡ some o → new ≡ none → Change now k old new

abbrev pub ChangeAt : ℕ → NodeRegistry → NodeRegistry → Text → Type 0
ChangeAt now r r' identity =
    Change now identity (lookup identity r.nodes) (lookup identity r'.nodes)

pub stays : (now : ℕ) (r r' : NodeRegistry) (k : Text) → r' ≡ r → ChangeAt now r r' k
stays now r r' k e = unchanged (ap (λ (s : NodeRegistry). lookup k s.nodes) e)

-- One entry is written: the others do not change.
pub put_node-Change :
    (now : ℕ) (r : NodeRegistry) (j k : Text) (n : Node)
    → Change now j (lookup j r.nodes) (some n)
    → ChangeAt now r (put_node r j n) k
put_node-Change now r j k n c = elim (Bool-cases (same j k)) [
  | inl e ↦
      subst (λ x. ChangeAt now r (put_node r j n) x) (eq_of_same j k e)
        (subst (Change now j (lookup j r.nodes))
          (sym (ground (arith, lookup-insert j j n r.nodes, same_refl j))) c)
  | inr e ↦ unchanged (ground (arith, lookup-insert j k n r.nodes))
]

pub delete-Change :
    (now : ℕ) (r : NodeRegistry) (j k : Text)
    → ChangeAt now r (record r { nodes = delete j r.nodes }) k
delete-Change now r j k = elim (Option-cases (lookup k r.nodes)) [
  | inl e ↦ unchanged (ground (arith, lookup-delete j k r.nodes))
  | inr (o, e) ↦ elim (Bool-cases (same j k)) [
    | inl s ↦ removed o e (ground (arith, lookup-delete j k r.nodes))
    | inr s ↦ unchanged (ground (arith, lookup-delete j k r.nodes))
  ]
]

pub normalize-ValidNode :
    (node : Node) → normalize_node_identity node ≡ ok tt → ValidNode node.node_identity node
unfolding normalize_node_identity
normalize-ValidNode node h =
    elim (Result-cases (new_node_identity node.node_type node.node_group node.node_name)) [
      | inl (x, e) ↦
          let q : x ≡ node.node_identity = ground arith in
          record { key = refl; parts = rw (← q) e; session = ground arith }
      | inr (x, e) ↦ absurd (ground arith)
    ]
