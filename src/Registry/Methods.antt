-- ===== src/Registry/Methods.antt =====
-- Every method of the registry changes one entry at most, but for the expiry, which changes several.
use stable_placement.Base.{
  ℕ, ◌≡◌, refl, sym, subst, ◌≢◌, ◌⊎◌, inl, inr, Bool, false, Option, none, some, Text, lookup,
  delete, Option-cases, arith,
}
use stable_placement.Model.{ok, Node, NodeStatus, RenewNodeCommand, Publisher, is_offline}
use stable_placement.Registry.{
  NodeRegistry, lease_expired, renewed, fresh_node, put_node, register_node, register_valid,
  renew_node, renew_found, replace_node_session, normalize_node_identity,
}
use stable_placement.Registry.Lifecycle.{
  unregister_locked, finish_unregister, drain_node, mark_node_invalid, restore_node,
}
use stable_placement.Registry.Sessions.{
  ValidNode, normalize-ValidNode, Change, joined, extended, drained, ChangeAt, stays,
  put_node-Change, delete-Change,
}

-- A method that stores one node, or nothing.
abbrev pub Writes : ℕ → NodeRegistry → NodeRegistry → Type 0
Writes now r r' =
    (r' ≡ r)
    ⊎ ((j : Text) × (n : Node) × Change now j (lookup j r.nodes) (some n) × (r' ≡ put_node r j n))

pub Writes-Change :
    (now : ℕ) (r r' : NodeRegistry) → Writes now r r' → (k : Text) → ChangeAt now r r' k
Writes-Change now r r' (inl e) k = stays now r r' k e
Writes-Change now r r' (inr (j, n, c, e)) k =
    subst (λ x. ChangeAt now r x k) (sym e) (put_node-Change now r j k n c)

module _ (p : Option Publisher) (r : NodeRegistry) (now : ℕ) where
  fresh-ValidNode :
      (node : Node)
      → normalize_node_identity node ≡ ok tt
      → ValidNode node.node_identity (fresh_node r node now)
  unfolding fresh_node
  fresh-ValidNode node h =
      let v = normalize-ValidNode node h in
      record { key = refl; parts = v.parts; session = v.session }

  registered :
      (node : Node)
      → ((register_node r p node now).state ≡ r)
        ⊎ ((lookup node.node_identity r.nodes ≡ none)
            × (normalize_node_identity node ≡ ok tt)
            × ((register_node r p node now).state
                ≡ put_node r node.node_identity (fresh_node r node now)))
  unfolding register_node register_valid
  registered node = ground arith

  pub register-Writes : (node : Node) → Writes now r (register_node r p node now).state
  unfolding fresh_node
  register-Writes node = elim (registered node) [
    | inl e ↦ inl e
    | inr (e, valid, s) ↦ inr (
      node.node_identity,
      fresh_node r node now,
      joined (fresh_node r node now) refl (fresh-ValidNode node valid) refl refl
          (λ o h. ground arith),
      s,
    )
  ]

  replaced_new :
      (node : Node)
      → lookup node.node_identity r.nodes ≡ none
      → ((replace_node_session r p node now).state ≡ r)
        ⊎ ((normalize_node_identity node ≡ ok tt)
            × ((replace_node_session r p node now).state
                ≡ put_node r node.node_identity (fresh_node r node now)))
  unfolding replace_node_session
  replaced_new node e = ground arith

  replaced_old :
      (node o : Node)
      → lookup node.node_identity r.nodes ≡ some o
      → ((replace_node_session r p node now).state ≡ r)
        ⊎ ((o.node_session_id ≢ node.node_session_id)
            × (normalize_node_identity node ≡ ok tt)
            × ((replace_node_session r p node now).state
                ≡ put_node r node.node_identity (fresh_node r node now)))
  unfolding replace_node_session
  replaced_old node o e = ground arith

  pub replace-Writes : (node : Node) → Writes now r (replace_node_session r p node now).state
  unfolding fresh_node
  replace-Writes node = elim (Option-cases (lookup node.node_identity r.nodes)) [
    | inl e ↦ elim (replaced_new node e) [
      | inl s ↦ inl s
      | inr (valid, s) ↦ inr (
        node.node_identity,
        fresh_node r node now,
        joined (fresh_node r node now) refl (fresh-ValidNode node valid) refl refl
            (λ o h. ground arith),
        s,
      )
    ]
    | inr (o, e) ↦ elim (replaced_old node o e) [
      | inl s ↦ inl s
      | inr (d, valid, s) ↦ inr (
        node.node_identity,
        fresh_node r node now,
        joined (fresh_node r node now) refl (fresh-ValidNode node valid) refl refl (λ o' h.
            let q : o ≡ o' = ground arith in
            subst (λ (x : Node). x.node_session_id ≢ node.node_session_id) q d),
        s,
      )
    ]
  ]

  renewed_old :
      (cmd : RenewNodeCommand) (o : Node)
      → lookup cmd.node_identity r.nodes ≡ some o
      → ((renew_node r cmd now).state ≡ r)
        ⊎ ((is_offline o.status ≡ false)
            × (lease_expired o now ≡ false)
            × ((renew_node r cmd now).state
                ≡ put_node r cmd.node_identity (renewed o cmd.metrics now)))
  unfolding renew_node renew_found
  renewed_old cmd o e = ground arith

  pub renew-Writes : (cmd : RenewNodeCommand) → Writes now r (renew_node r cmd now).state
  unfolding renew_node
  renew-Writes cmd = elim (Option-cases (lookup cmd.node_identity r.nodes)) [
    | inl e ↦ inl (ground arith)
    | inr (o, e) ↦ elim (renewed_old cmd o e) [
      | inl s ↦ inl s
      | inr (a, b, s) ↦
          inr (cmd.node_identity, renewed o cmd.metrics now, extended o cmd.metrics e a b refl, s)
    ]
  ]

  drained_old :
      (j : Text) (o : Node)
      → lookup j r.nodes ≡ some o
      → ((drain_node r p j now).state ≡ r)
        ⊎ ((is_offline o.status ≡ false)
            × ((drain_node r p j now).state
                ≡ put_node r j (record o { status = NodeStatus.draining })))
  unfolding drain_node
  drained_old j o e = ground arith

  pub drain-Writes : (j : Text) → Writes now r (drain_node r p j now).state
  unfolding drain_node
  drain-Writes j = elim (Option-cases (lookup j r.nodes)) [
    | inl e ↦ inl (ground arith)
    | inr (o, e) ↦ elim (drained_old j o e) [
      | inl s ↦ inl s
      | inr (a, s) ↦ inr (j, record o { status = NodeStatus.draining }, drained o e a refl, s)
    ]
  ]

  pub mark-nodes : (t g n : Text) → (mark_node_invalid r p t g n now).state.nodes ≡ r.nodes
  unfolding mark_node_invalid
  mark-nodes t g n = ground arith

  pub restore-nodes : (t g n : Text) → (restore_node r p t g n now).state.nodes ≡ r.nodes
  unfolding restore_node
  restore-nodes t g n = ground arith

  unregistered :
      (active : Option Bool) (j session : Text)
      → ((finish_unregister r p (unregister_locked r j session active now)).state ≡ r)
        ⊎ ((finish_unregister r p (unregister_locked r j session active now)).state
            ≡ record r { nodes = delete j r.nodes })
  unfolding unregister_locked finish_unregister
  unregistered active j session = ground arith

  pub unregister-Change :
      (active : Option Bool) (j session k : Text)
      → ChangeAt now r (finish_unregister r p (unregister_locked r j session active now)).state k
  unregister-Change active j session k = elim (unregistered active j session) [
    | inl e ↦ stays now r _ k e
    | inr e ↦ subst (λ x. ChangeAt now r x k) (sym e) (delete-Change now r j k)
  ]
