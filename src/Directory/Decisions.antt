-- ===== src/Directory/Decisions.antt =====
-- What ResolveRoute decides under the lock, read back from its result.
use stable_placement.Base.{
  ℕ, ◌≡◌, ◌≢◌, refl, sym, subst, ◌∙◌, ◌⊎◌, inl, inr, true, false, Option, none, some, Text, lookup,
  Bool-cases, Option-cases, arith,
}
use stable_placement.Model.{
  Result, Result-cases, ok, Node, Placement, EventType, Publisher, is_active, ResolveRouteCommand,
}
use stable_placement.Identity.{node_type_of, node_group_of, node_name_of}
use stable_placement.Registry.{is_invalid}
use stable_placement.Strategy.{Chooser}
use stable_placement.Directory.{
  Directory, move_placement, moved, placement_routeable, session_usable,
}
use stable_placement.Directory.Resolve.{
  resolve_route, resolve_result, resolve_prepare, resolve_locked, resolve_active, resolve_new,
  resolve_unavailable, resolve_moved, same_node_session, Resolved, stands, changed, Times, place,
  new_placement, choose_target,
}
use stable_placement.Directory.Effects.{
  Effect, nothing, moves, places, resumed, reassigned, inactive,
}

same_node_session-some :
    (m : Option Node) (o : Placement) (now : ℕ) (n : Node)
    → same_node_session m o now ≡ some n
    → (m ≡ some n) × (session_usable n now ≡ true)
unfolding same_node_session
same_node_session-some none o now n h = cc
same_node_session-some (some m) o now n h = ground arith

-- The two ways in which ResolveRoute moves an active placement that its owner cannot serve.
pub unavailable-ok :
    (d : Directory) (choose : Chooser) (cmd : ResolveRouteCommand) (o : Placement)
    (now choosing : ℕ) (d' : Directory) (o' : Placement) (type : EventType)
    → resolve_unavailable d choose cmd o now choosing ≡ ok (changed d' o' type)
    → (n : Node) × (d' ≡ move_placement d o n now)
      × (o' ≡ moved o n now)
      × (((lookup o.node_identity d.registry.nodes ≡ some n) × (session_usable n now ≡ true))
          ⊎ ((is_invalid d.registry
                  (node_type_of o.node_identity)
                  (node_group_of o.node_identity)
                  (node_name_of o.node_identity)
                ≡ true)
              × (choose_target d choose cmd choosing ≡ ok n)))
unfolding resolve_unavailable resolve_moved
unavailable-ok d choose cmd o now choosing d' o' type h =
    let owner = lookup o.node_identity d.registry.nodes in
    elim (Option-cases (same_node_session owner o now)) [
      | inr (n, e) ↦ (n, ground arith, ground arith, inl (same_node_session-some owner o now n e))
      | inl e ↦ elim (Result-cases (choose_target d choose cmd choosing)) [
        | inl (n, g) ↦ (n, ground arith, ground arith, inr (ground arith, g))
        | inr (x, g) ↦ absurd (ground arith)
      ]
    ]

pub new-ok :
    (d : Directory) (choose : Chooser) (cmd : ResolveRouteCommand) (key id : Text)
    (old : Option Placement) (now choosing : ℕ) (r : Resolved)
    → resolve_new d choose cmd key id old now choosing ≡ ok r
    → (n : Node) × (choose_target d choose cmd choosing ≡ ok n)
      × (r
          ≡ changed
              (place d old (new_placement cmd.grain_id cmd.kind key id n now))
              (new_placement cmd.grain_id cmd.kind key id n now)
              EventType.placement_created)
unfolding resolve_new
new-ok d choose cmd key id old now choosing r h =
    elim (Result-cases (choose_target d choose cmd choosing)) [
      | inl (n, g) ↦ (n, g, ground arith)
      | inr (x, g) ↦ absurd (ground arith)
    ]

unavailable-moves :
    (d : Directory) (choose : Chooser) (cmd : ResolveRouteCommand) (o : Placement)
    (now choosing : ℕ) (p : Placement)
    → resolve_unavailable d choose cmd o now choosing ≢ ok (stands p)
unfolding resolve_unavailable resolve_moved
unavailable-moves d choose cmd o now choosing p h = ground arith

-- The owner is in the group that the command asks for.
abbrev pub InTarget : ResolveRouteCommand → Text → Type 0
InTarget cmd owner =
    (node_type_of owner ≡ cmd.target_node_type) × (node_group_of owner ≡ cmd.target_node_group)

-- What ResolveRoute decided, when it decided something.
pub data Decided (d : Directory) (choose : Chooser) (cmd : ResolveRouteCommand) (key id : Text)
    (now choosing : ℕ) : Resolved → Type 0 where
  kept :
      (o : Placement)
      → lookup key d.placements ≡ some o
      → placement_routeable d o now ≡ true
      → InTarget cmd o.node_identity
      → Decided d choose cmd key id now choosing (stands o)
  relocated :
      (o : Placement) (n : Node) (d' : Directory) (o' : Placement) (type : EventType)
      → lookup key d.placements ≡ some o
      → is_active o.status ≡ true
      → placement_routeable d o now ≡ false
      → ((lookup o.node_identity d.registry.nodes ≡ some n) × (session_usable n now ≡ true))
        ⊎ ((is_invalid d.registry
                (node_type_of o.node_identity)
                (node_group_of o.node_identity)
                (node_name_of o.node_identity)
              ≡ true)
            × (choose_target d choose cmd choosing ≡ ok n))
      → d' ≡ move_placement d o n now
      → o' ≡ moved o n now
      → InTarget cmd o.node_identity
      → Decided d choose cmd key id now choosing (changed d' o' type)
  created :
      (n : Node) (d' : Directory) (o' : Placement) (type : EventType)
      → inactive (lookup key d.placements) ≡ true
      → choose_target d choose cmd choosing ≡ ok n
      → o' ≡ new_placement cmd.grain_id cmd.kind key id n now
      → d' ≡ place d (lookup key d.placements) o'
      → Decided d choose cmd key id now choosing (changed d' o' type)

module _ (d : Directory) (choose : Chooser) (cmd : ResolveRouteCommand) (key id : Text)
    (now choosing : ℕ) where
  created-Decided :
      (old : Option Placement) (r : Resolved)
      → lookup key d.placements ≡ old
      → inactive old ≡ true
      → resolve_new d choose cmd key id old now choosing ≡ ok r
      → Decided d choose cmd key id now choosing r
  created-Decided old r e free h =
      let (n, g, q) = new-ok d choose cmd key id old now choosing r h in
      subst (Decided d choose cmd key id now choosing) (sym q)
        (created n _ _ _ (rw e free) g refl (rw e))

  unavailable-Decided :
      (o : Placement) (r : Resolved)
      → lookup key d.placements ≡ some o
      → is_active o.status ≡ true
      → placement_routeable d o now ≡ false
      → InTarget cmd o.node_identity
      → resolve_unavailable d choose cmd o now choosing ≡ ok r
      → Decided d choose cmd key id now choosing r
  unfolding resolve_unavailable resolve_moved
  unavailable-Decided o (stands p) e active lost inside h =
      absurd (unavailable-moves d choose cmd o now choosing p h)
  unavailable-Decided o (changed d' o' type) e active lost inside h =
      let (n, a, b, c) = unavailable-ok d choose cmd o now choosing d' o' type h in
      relocated o n d' o' type e active lost c a b inside

  active-Decided :
      (o : Placement) (r : Resolved)
      → lookup key d.placements ≡ some o
      → is_active o.status ≡ true
      → resolve_active d choose cmd o now choosing ≡ ok r
      → Decided d choose cmd key id now choosing r
  unfolding resolve_active
  active-Decided o r e active h = elim (Bool-cases (placement_routeable d o now)) [
    | inl live ↦
        let q : stands o ≡ r = ground arith in
        subst (Decided d choose cmd key id now choosing) q
          (kept o e live (ground arith, ground arith))
    | inr lost ↦ unavailable-Decided o r e active lost (ground arith, ground arith) (ground arith)
  ]

  -- Every success of the locked part of ResolveRoute is one of the three.
  pub resolve_locked-Decided :
      (r : Resolved)
      → resolve_locked d choose cmd key id now choosing ≡ ok r
      → Decided d choose cmd key id now choosing r
  unfolding resolve_locked
  resolve_locked-Decided r h = elim (Option-cases (lookup key d.placements)) [
    | inl e ↦ created-Decided none r e refl (ground arith)
    | inr (o, e) ↦ elim (Bool-cases (is_active o.status)) [
      | inl active ↦ active-Decided o r e active (ground arith)
      | inr gone ↦ created-Decided (some o) r e (ground arith) (ground arith)
    ]
  ]

-- The state that a decision leaves.
abbrev decided_state : Directory → Resolved → Directory
decided_state d (stands o) = d
decided_state d (changed d' o type) = d'

Decided-Effect :
    (d : Directory) (choose : Chooser) (cmd : ResolveRouteCommand) (key id : Text)
    (now choosing : ℕ) (r : Resolved)
    → Decided d choose cmd key id now choosing r
    → Effect now d (decided_state d r)
unfolding new_placement
Decided-Effect d choose cmd key id now choosing r (kept o e live inside) = nothing refl
Decided-Effect d choose cmd key id now choosing r
      (relocated o n d' o' type e active lost (inl (f, u)) a b inside) =
    moves key o n e (resumed lost f u) a
Decided-Effect d choose cmd key id now choosing r
      (relocated o n d' o' type e active lost (inr (f, u)) a b inside) =
    moves key o n e (reassigned lost f) a
Decided-Effect d choose cmd key id now choosing r (created n d' o' type free g a b) =
    let named : o'.grain_key ≡ key = ground arith in
    places o' (ground arith) (ground arith) (simp named free) (simp named b)

result-state :
    (d : Directory) (p : Option Publisher) (times : Times) (r : Resolved)
    → decided_state d r ≡ (resolve_result d p times (ok r)).state
unfolding resolve_result
result-state d p times (stands o) = refl
result-state d p times (changed d' o type) = refl

-- The methods above and ResolveRoute have an effect that `Effect` describes.
pub resolve-Effect :
    (d : Directory) (p : Option Publisher) (choose : Chooser) (cmd : ResolveRouteCommand)
    (drawn : Result Text) (times : Times)
    → Effect times.now d (resolve_route d p choose cmd drawn times).state
unfolding resolve_route
resolve-Effect d p choose cmd drawn times = elim (Result-cases (resolve_prepare cmd drawn)) [
  | inr (e, h) ↦ nothing (rw (h, resolve_route))
  | inl ((key, id), h) ↦
      elim (Result-cases (resolve_locked d choose cmd key id times.now times.choosing)) [
        | inr (e, g) ↦ nothing (unfold resolve_result in ground arith)
        | inl (r, g) ↦ subst (Effect times.now d) (result-state d p times r ∙ ground arith) (
            Decided-Effect d choose cmd key id times.now times.choosing r
              (resolve_locked-Decided d choose cmd key id times.now times.choosing r g))
      ]
]
