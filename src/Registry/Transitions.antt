-- ===== src/Registry/Transitions.antt =====
-- Every call of the registry, at any time and in any order, moves each node session along one state
-- machine, and keeps the table of nodes well formed.
use stable_placement.Base.{
  ◌∙◌, ◌==◌, ℕ, ◌≤◌, ◌≡◌, refl, sym, subst, inl, inr, Bool, Option, none, some, List, [], ◌∷◌, Text,
  lookup, Bool-cases, Option-cases, arith, Distinct, insert-Distinct, delete-Distinct,
}
use stable_placement.Model.{Node, NodeStatus, Publisher, is_offline, NodeMetrics}
use stable_placement.Registry.{NodeRegistry, lease_expired, put_node, renewed}
use stable_placement.Registry.Lifecycle.{
  expire_node_leases, expire_each, expiry_candidates, unregister_node, complete_drain,
  unregister_locked, finish_unregister,
}
use stable_placement.Registry.Calls.{
  Call, step, registers, replaces, renews, unregisters, completes, expires, drains, marks, restores,
}
use stable_placement.Registry.Sessions.{
  Change, unchanged, joined, extended, expired, drained, removed, ChangeAt, ValidNode,
}
use stable_placement.Registry.Methods.{
  Writes, Writes-Change, register-Writes, replace-Writes, renew-Writes, drain-Writes, mark-nodes,
  restore-nodes, unregister-Change,
}
use stable_placement.Registry.Expiry.{listed, expired_entry, expire_each-lookup}

expired_entry-Change : (now : ℕ) (k : Text) (o : Option Node) → Change now k o (expired_entry now o)
unfolding expired_entry
expired_entry-Change now k none = unchanged refl
expired_entry-Change now k (some n) = elim (Bool-cases (is_offline n.status)) [
  | inl e ↦ unchanged (ground arith)
  | inr e ↦ elim (Bool-cases (lease_expired n now)) [
    | inl f ↦ expired n refl e f (ground arith)
    | inr f ↦ unchanged (ground arith)
  ]
]

expire-Change :
    (p : Option Publisher) (r : NodeRegistry) (now : ℕ) (t g k : Text) (limit : ℕ)
    → ChangeAt now r (expire_node_leases r p t g limit now).state k
unfolding expire_node_leases
expire-Change p r now t g k limit =
    let ids = expiry_candidates r t g limit now in
    elim (Bool-cases (listed k ids)) [
      | inl e ↦ elim (Bool-cases (limit == 0)) [
        | inl z ↦ unchanged (ground arith)
        | inr z ↦
            let after : lookup k (expire_node_leases r p t g limit now).state.nodes
                ≡ expired_entry now (lookup k r.nodes) =
              ground (arith, expire_each-lookup now ids r k) in
            subst (Change now k (lookup k r.nodes)) (sym after)
              (expired_entry-Change now k (lookup k r.nodes))
      ]
      | inr e ↦ unchanged (ground (arith, expire_each-lookup now ids r k))
    ]

-- Whatever call is made on a registry, the entry of every node stays, joins as a new session, has
-- its live lease extended, expires, starts to drain or is removed, under the conditions of
-- `Change`.
pub step-Change :
    (p : Option Publisher) (r : NodeRegistry) (now : ℕ) (c : Call) (k : Text)
    → ChangeAt now r (step p r (now, c)) k
unfolding step unregister_node complete_drain
step-Change p r now (registers node) k = Writes-Change now r _ (register-Writes p r now node) k
step-Change p r now (replaces node) k = Writes-Change now r _ (replace-Writes p r now node) k
step-Change p r now (renews cmd) k = Writes-Change now r _ (renew-Writes p r now cmd) k
step-Change p r now (unregisters i session) k = unregister-Change p r now none i session k
step-Change p r now (completes none i session) k = unregister-Change p r now none i session k
step-Change p r now (completes (some hook) i session) k =
    unregister-Change p r now (some (hook i)) i session k
step-Change p r now (expires t g limit) k = expire-Change p r now t g k limit
step-Change p r now (drains i) k = Writes-Change now r _ (drain-Writes p r now i) k
step-Change p r now (marks t g n) k = unchanged (rw (mark-nodes p r now t g n))
step-Change p r now (restores t g n) k = unchanged (rw (restore-nodes p r now t g n))

-- Active, then draining, then offline.
pub session_rank : NodeStatus → ℕ
session_rank NodeStatus.active = 0
session_rank NodeStatus.draining = 1
session_rank NodeStatus.offline = 2

Change-monotone :
    (now : ℕ) (k : Text) (old new : Option Node)
    → Change now k old new
    → (o n : Node) → old ≡ some o
    → new ≡ some n
    → n.node_session_id ≡ o.node_session_id
    → (o.lease.expire_at_unix_milli ≤ n.lease.expire_at_unix_milli)
      × (session_rank o.status ≤ session_rank n.status)
unfolding session_rank renewed
Change-monotone now k old new (unchanged e) o n h h' s = ground arith
Change-monotone now k old new (joined m e valid a b c) o n h h' s = absurd (c o h (ground arith))
Change-monotone now k old new (extended x m e a b f) o n h h' s = ground arith
Change-monotone now k old new (expired x e a b f) o n h h' s = ground arith
Change-monotone now k old new (drained x e a f) o n h h' s = ground arith
Change-monotone now k old new (removed x e f) o n h h' s = cc

renewed-ValidNode :
    (now : ℕ) (k : Text) (o : Node) (m : Option NodeMetrics)
    → ValidNode k o
    → ValidNode k (renewed o m now)
unfolding renewed
renewed-ValidNode now k o m v = record { key = v.key; parts = v.parts; session = v.session }

-- Where a node has an entry before and after a call, of the same session, the call did not move
-- the expiry back, nor the status: not from draining to active, and not out of offline.
pub step_session_monotone :
    (p : Option Publisher) (r : NodeRegistry) (now : ℕ) (c : Call) (k : Text) (o n : Node)
    → lookup k r.nodes ≡ some o
    → lookup k (step p r (now, c)).nodes ≡ some n
    → n.node_session_id ≡ o.node_session_id
    → (o.lease.expire_at_unix_milli ≤ n.lease.expire_at_unix_milli)
      × (session_rank o.status ≤ session_rank n.status)
step_session_monotone p r now c k o n before after same_session =
    Change-monotone now k (lookup k r.nodes) (lookup k (step p r (now, c)).nodes)
      (step-Change p r now c k) o n before after same_session

-- The table of nodes: one entry to an identity, stored under the identity that its validated parts
-- make, with a session.
pub record IsValid (r : NodeRegistry) : Type 0 where
  pub distinct : Distinct r.nodes
  pub valid : (k : Text) (n : Node) → lookup k r.nodes ≡ some n → ValidNode k n

Change-ValidNode :
    (now : ℕ) (k : Text) (old new : Option Node)
    → Change now k old new
    → ((n : Node) → old ≡ some n → ValidNode k n)
    → (n : Node) → new ≡ some n
    → ValidNode k n
Change-ValidNode now k old new (unchanged e) v n h = v n (sym e ∙ h)
Change-ValidNode now k old new (joined m e valid a b c) v n h =
    let q : m ≡ n = cc in subst (ValidNode k) q valid
Change-ValidNode now k old new (extended o m e a b f) v n h =
    let q : renewed o m now ≡ n = cc in subst (ValidNode k) q (renewed-ValidNode now k o m (v o e))
Change-ValidNode now k old new (expired o e a b f) v n h =
    let w = v o e in
    let q : record o { status = NodeStatus.offline } ≡ n = cc in
    subst (ValidNode k) q (record { key = w.key; parts = w.parts; session = w.session })
Change-ValidNode now k old new (drained o e a f) v n h =
    let w = v o e in
    let q : record o { status = NodeStatus.draining } ≡ n = cc in
    subst (ValidNode k) q (record { key = w.key; parts = w.parts; session = w.session })
Change-ValidNode now k old new (removed o e f) v n h = cc

Writes-Distinct :
    (now : ℕ) (r r' : NodeRegistry) → Writes now r r' → Distinct r.nodes → Distinct r'.nodes
Writes-Distinct now r r' (inl e) d = subst (λ (x : NodeRegistry). Distinct x.nodes) (sym e) d
Writes-Distinct now r r' (inr (j, n, c, e)) d =
    subst (λ (x : NodeRegistry). Distinct x.nodes) (sym e) (insert-Distinct j n r.nodes d)

expire_each-Distinct :
    (now : ℕ) (ids : List Text) (r : NodeRegistry)
    → Distinct r.nodes
    → Distinct (expire_each now ids r).0.nodes
unfolding expire_each
expire_each-Distinct now [] r d = d
expire_each-Distinct now (i ∷ ids) r d = elim (Option-cases (lookup i r.nodes)) [
  | inl e ↦ ground (arith, expire_each-Distinct now ids r d)
  | inr (n, e) ↦
      let n' : Node = record n { status = NodeStatus.offline } in
      ground (
        arith,
        expire_each-Distinct now ids r d,
        expire_each-Distinct now ids (put_node r i n') (insert-Distinct i n' r.nodes d),
      )
]

unregister-Distinct :
    (r : NodeRegistry) (p : Option Publisher) (now : ℕ) (active : Option Bool) (i session : Text)
    → Distinct r.nodes
    → Distinct (finish_unregister r p (unregister_locked r i session active now)).state.nodes
unfolding finish_unregister unregister_locked
unregister-Distinct r p now active i session d = ground (arith, delete-Distinct i r.nodes d)

step-Distinct :
    (p : Option Publisher) (r : NodeRegistry) (now : ℕ) (c : Call)
    → Distinct r.nodes
    → Distinct (step p r (now, c)).nodes
unfolding step unregister_node complete_drain expire_node_leases
step-Distinct p r now (registers node) d = Writes-Distinct now r _ (register-Writes p r now node) d
step-Distinct p r now (replaces node) d = Writes-Distinct now r _ (replace-Writes p r now node) d
step-Distinct p r now (renews cmd) d = Writes-Distinct now r _ (renew-Writes p r now cmd) d
step-Distinct p r now (unregisters i session) d = unregister-Distinct r p now none i session d
step-Distinct p r now (completes none i session) d = unregister-Distinct r p now none i session d
step-Distinct p r now (completes (some hook) i session) d =
    unregister-Distinct r p now (some (hook i)) i session d
step-Distinct p r now (expires t g limit) d =
    ground (arith, expire_each-Distinct now (expiry_candidates r t g limit now) r d)
step-Distinct p r now (drains i) d = Writes-Distinct now r _ (drain-Writes p r now i) d
step-Distinct p r now (marks t g n) d = rw (mark-nodes p r now t g n) d
step-Distinct p r now (restores t g n) d = rw (restore-nodes p r now t g n) d

-- Every call keeps the table of nodes well formed.
pub step-IsValid :
    (p : Option Publisher) (r : NodeRegistry) (now : ℕ) (c : Call)
    → IsValid r
    → IsValid (step p r (now, c))
step-IsValid p r now c v = record {
  distinct = step-Distinct p r now c v.distinct;
  valid = λ k n h. Change-ValidNode now k _ _ (step-Change p r now c k) (v.valid k) n h;
}
