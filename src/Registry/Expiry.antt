-- ===== src/Registry/Expiry.antt =====
-- ExpireNodeLeases: which sessions it puts offline, how many, and what it leaves alone.
use stable_placement.Base.{
  Distinct, picked_of_lookup, lookup_of_picked, any-take, sym, ◌∙◌, ◌<◌, any, length,
  length-take-le, select, sort, before, map, length-sort, any-sort, take_of_length-le, ◌≤◌, ℕ, ◌≡◌,
  refl, sym, inl, inr, if◌then◌else◌, Bool, true, false, not, ◌&&◌, ◌||◌, Option, none, some, List,
  [], ◌∷◌, Text, same, Map, lookup, lookup-insert, Bool-cases, Option-cases, arith,
}
use stable_placement.Model.{Error, ok, Node, NodeStatus, Publisher, is_offline}
use stable_placement.Registry.{NodeRegistry, lease_expired, put_node}
use stable_placement.Registry.Lifecycle.{
  expirable, expire_node_leases, expire_each, expiry_candidates,
}

abbrev pub listed : Text → List Text → Bool
listed k ids = any (λ i. same i k) ids

-- What the expiry makes of one entry.
unfoldable pub expired_entry : ℕ → Option Node → Option Node
expired_entry now none = none
expired_entry now (some n) =
    if is_offline n.status || not (lease_expired n now)
    then some n
    else some (record n { status = NodeStatus.offline })

pub expire_each-lookup :
    (now : ℕ) (ids : List Text) (r : NodeRegistry) (k : Text)
    → lookup k (expire_each now ids r).0.nodes
      ≡ (if listed k ids then expired_entry now (lookup k r.nodes) else lookup k r.nodes)
unfolding expire_each expired_entry any
expire_each-lookup now [] r k = refl
expire_each-lookup now (i ∷ ids) r k = elim (Option-cases (lookup i r.nodes)) [
  | inl e ↦ ground (arith, expire_each-lookup now ids r k)
  | inr (n, e) ↦ ground (
    arith,
    expire_each-lookup now ids r k,
    expire_each-lookup now ids (put_node r i (record n { status = NodeStatus.offline })) k,
    lookup-insert i k (record n { status = NodeStatus.offline }) r.nodes,
  )
]

length-expire_each-le :
    (now : ℕ) (ids : List Text) (r : NodeRegistry) → length (expire_each now ids r).1 ≤ length ids
unfolding expire_each
length-expire_each-le now [] r = omega arith
length-expire_each-le now (i ∷ ids) r = elim (Option-cases (lookup i r.nodes)) [
  | inl e ↦ ground (arith, length-expire_each-le now ids r)
  | inr (n, e) ↦ ground (
    arith,
    length-expire_each-le now ids r,
    length-expire_each-le now ids (put_node r i (record n { status = NodeStatus.offline })),
  )
]

candidates-le-limit :
    (r : NodeRegistry) (t g : Text) (limit now : ℕ)
    → length (expiry_candidates r t g limit now) ≤ limit
unfolding expiry_candidates
candidates-le-limit r t g limit now = length-take-le limit _

-- ExpireNodeLeases never answers that it put more sessions offline than the limit says.
pub expire_node_leases-le-limit :
    (r : NodeRegistry) (p : Option Publisher) (t g : Text) (limit now n : ℕ) (e : Option Error)
    → (expire_node_leases r p t g limit now).result ≡ ok (n, e)
    → n ≤ limit
unfolding expire_node_leases
expire_node_leases-le-limit r p t g limit now n e h = ground (
  arith,
  length-expire_each-le now (expiry_candidates r t g limit now) r,
  candidates-le-limit r t g limit now,
)

length-picked :
    (p : Text × Node → Bool) (m : Map Node)
    → length (map (λ e. e.0) (select p m)) ≡ length (select p m)
unfolding select
length-picked p [] = refl
length-picked p (e ∷ m) = ground (arith, length-picked p m)

candidate_of_expirable :
    (r : NodeRegistry) (t g k : Text) (limit now : ℕ) (n : Node)
    → length (select (expirable t g now) r.nodes) ≤ limit
    → lookup k r.nodes ≡ some n
    → expirable t g now (k, n) ≡ true
    → listed k (expiry_candidates r t g limit now) ≡ true
unfolding expiry_candidates
candidate_of_expirable r t g k limit now n fits h x =
    let names = map (λ e. e.0) (select (expirable t g now) r.nodes) in
    rw
      (
        take_of_length-le limit (sort before names)
            (omega (arith, length-sort before names, length-picked (expirable t g now) r.nodes)),
        any-sort before (λ i. same i k) names,
      )
      (picked_of_lookup (expirable t g now) k n r.nodes h x)

expirable_of_candidate :
    (r : NodeRegistry) (t g k : Text) (limit now : ℕ) (n : Node)
    → Distinct r.nodes
    → lookup k r.nodes ≡ some n
    → listed k (expiry_candidates r t g limit now) ≡ true
    → expirable t g now (k, n) ≡ true
unfolding expiry_candidates
expirable_of_candidate r t g k limit now n d h x =
    let names = map (λ e. e.0) (select (expirable t g now) r.nodes) in
    lookup_of_picked (expirable t g now) k n r.nodes d h (
      sym (any-sort before (λ i. same i k) names)
      ∙ any-take (λ i. same i k) limit (sort before names) x)

-- Where the keys of the registry are distinct, a session that is offline, whose lease still runs,
-- or that is in another group is not touched, whatever the limit.
pub expire_node_leases-keeps :
    (r : NodeRegistry) (p : Option Publisher) (t g k : Text) (limit now : ℕ) (n : Node)
    → Distinct r.nodes
    → lookup k r.nodes ≡ some n
    → expirable t g now (k, n) ≡ false
    → lookup k (expire_node_leases r p t g limit now).state.nodes ≡ some n
unfolding expire_node_leases
expire_node_leases-keeps r p t g k limit now n d h x = ground (
  arith,
  expire_each-lookup now (expiry_candidates r t g limit now) r k,
  expirable_of_candidate r t g k limit now n d h,
)

-- Where the keys of the registry are distinct and the limit is positive and not below the number
-- of expired sessions of the group, every node ends as it should: offline if its session was in
-- the group, not offline and past its lease, and as it was otherwise.
pub expire_node_leases_exact :
    (r : NodeRegistry) (p : Option Publisher) (t g k : Text) (limit now : ℕ) (n : Node)
    → Distinct r.nodes
    → length (select (expirable t g now) r.nodes) ≤ limit
    → 0 < limit
    → lookup k r.nodes ≡ some n
    → lookup k (expire_node_leases r p t g limit now).state.nodes
      ≡ some (
          if same n.node_type t
            && same n.node_group g
            && not (is_offline n.status)
            && lease_expired n now
          then record n { status = NodeStatus.offline }
          else n)
unfolding expire_node_leases
expire_node_leases_exact r p t g k limit now n d fits some_limit h =
    elim (Bool-cases (expirable t g now (k, n))) [
      | inl x ↦
          unfold expirable expired_entry in
          ground (
            arith,
            expire_each-lookup now (expiry_candidates r t g limit now) r k,
            candidate_of_expirable r t g k limit now n fits h x,
          )
      | inr x ↦
          unfold expirable in ground (arith, expire_node_leases-keeps r p t g k limit now n d h x)
    ]
