-- ===== src/Directory/Routing.antt =====
-- What ResolveRoute returns: a route in the group that was asked for, to a live session, which is the
-- route that Lookup then gives.
use stable_placement.Base.{
  ℕ, ◌≤◌, ◌≡◌, refl, sym, ap, subst, subst₂, ◌∙◌, inl, inr, true, Option, some, Text, lookup, arith,
}
use stable_placement.Model.{
  Result, Result-cases, ok, Node, Placement, PlacementRoute, Publisher, ResolveRouteCommand,
}
use stable_placement.Identity.{new_grain_key}
use stable_placement.Identity.Parts.{new_node_identity-parts}
use stable_placement.Registry.Transitions
use stable_placement.Strategy.{Chooser}
use stable_placement.Directory.{
  Directory, lookup_route, session_usable, route_of, move_placement, moved,
}
use stable_placement.Directory.Resolve.{
  choose_target, resolve_route, resolve_result, resolve_prepare, resolve_locked, Resolved, stands,
  changed, Times, place, new_placement,
}
use stable_placement.Directory.Index.{IsConsistent}
use stable_placement.Directory.Decisions.{
  Decided, kept, relocated, created, InTarget, resolve_locked-Decided,
}
use stable_placement.Directory.Candidates.{
  choose_target-Candidate, Reaches, lookup_of_Reaches, eligible_facts, moved-Reaches, place-Reaches,
}

-- The state that a decision leaves, and the placement that it is about.
abbrev after : Directory → Resolved → Directory
after d (stands o) = d
after d (changed d' o type) = d'

abbrev about : Resolved → Placement
about (stands o) = o
about (changed d' o type) = o

module _ (d : Directory) (choose : Chooser) (cmd : ResolveRouteCommand) (key id : Text)
    (now choosing : ℕ) (v : IsConsistent d) (w : Transitions.IsValid d.registry)
    (forward : now ≤ choosing) where
  -- a candidate at the later time is usable at the earlier one
  chosen_usable :
      (n : Node)
      → choose_target d choose cmd choosing ≡ ok n
      → (lookup n.node_identity d.registry.nodes ≡ some n)
        × (session_usable n now ≡ true)
        × InTarget cmd n.node_identity
  chosen_usable n h =
      let (found, fit) = choose_target-Candidate d choose cmd choosing n w h in
      let valid = w.valid n.node_identity n found in
      let (t, g, _) =
        new_node_identity-parts n.node_type n.node_group n.node_name n.node_identity valid.parts in
      let (a, b, usable) =
        eligible_facts d cmd.target_node_type cmd.target_node_group now choosing n forward fit in
      (found, usable, (t ∙ a, g ∙ b))

  relocated-Reaches :
      (o o' : Placement) (n : Node) (d' : Directory)
      → lookup key d.placements ≡ some o
      → lookup n.node_identity d.registry.nodes ≡ some n
      → session_usable n now ≡ true
      → d' ≡ move_placement d o n now
      → o' ≡ moved o n now
      → InTarget cmd n.node_identity
      → Reaches d' key o' now × InTarget cmd o'.node_identity
  unfolding moved
  relocated-Reaches o o' n d' e found usable a b inside =
      subst₂ (λ (x : Directory) (y : Placement). Reaches x key y now × InTarget cmd y.node_identity)
        (sym a) (sym b) (moved-Reaches d key now n found usable o (v.keyed key o e).0, inside)

  Decided-Reaches :
      (r : Resolved)
      → Decided d choose cmd key id now choosing r
      → Reaches (after d r) key (about r) now × InTarget cmd (about r).node_identity
  unfolding new_placement
  Decided-Reaches r (kept o e live inside) = ((e, live), inside)
  Decided-Reaches r (relocated o n d' o' type e active lost (inl (f, u)) a b inside) =
      let same_node : n.node_identity ≡ o.node_identity = (w.valid o.node_identity n f).key in
      relocated-Reaches o o' n d' e
        (subst (λ x. lookup x d.registry.nodes ≡ some n) (sym same_node) f) u a b
        (subst (InTarget cmd) (sym same_node) inside)
  Decided-Reaches r (relocated o n d' o' type e active lost (inr (f, g)) a b inside) =
      let (found, usable, target) = chosen_usable n g in
      relocated-Reaches o o' n d' e found usable a b target
  Decided-Reaches r (created n d' o' type free g a b) =
      let (found, usable, target) = chosen_usable n g in
      subst₂ (λ (x : Directory) (y : Placement). Reaches x key y now × InTarget cmd y.node_identity)
        (sym (b ∙ ap (place d (lookup key d.placements)) a)) (sym a)
        (
          place-Reaches d key now n found usable (lookup key d.placements) cmd.grain_id cmd.kind id,
          target,
        )

resolve_result-ok :
    (d : Directory) (p : Option Publisher) (times : Times) (r : Resolved)
    → ((resolve_result d p times (ok r)).state ≡ after d r)
      × ((resolve_result d p times (ok r)).result
          ≡ ok (
              route_of
                (about r)
                (lookup (about r).node_identity (after d r).registry.nodes)
                times.now))
unfolding resolve_result
resolve_result-ok d p times (stands o) = (refl, refl)
resolve_result-ok d p times (changed d' o type) = (refl, refl)

resolve_prepare-key :
    (cmd : ResolveRouteCommand) (drawn : Result Text) (key key' id : Text)
    → new_grain_key cmd.kind cmd.grain_id ≡ ok key
    → resolve_prepare cmd drawn ≡ ok (key', id)
    → key' ≡ key
unfolding resolve_prepare
resolve_prepare-key cmd drawn key key' id named h = ground arith

route_of-node_identity :
    (o : Placement) (n : Option Node) (t : ℕ) → (route_of o n t).node_identity ≡ o.node_identity
unfolding route_of
route_of-node_identity o n t = refl

-- On a consistent directory over a valid registry, a route that ResolveRoute returns is the one
-- that Lookup then returns for the grain at the time that the call began, and it leads to a node
-- of the type and the group that were asked for. The clock does not run backwards within the call.
pub resolve_route_agrees :
    (d : Directory) (p : Option Publisher) (choose : Chooser) (cmd : ResolveRouteCommand)
    (drawn : Result Text) (times : Times) (key : Text) (r : PlacementRoute)
    → IsConsistent d
    → Transitions.IsValid d.registry
    → times.now ≤ times.choosing
    → new_grain_key cmd.kind cmd.grain_id ≡ ok key
    → (resolve_route d p choose cmd drawn times).result ≡ ok r
    → (lookup_route (resolve_route d p choose cmd drawn times).state key times.now ≡ ok r)
      × InTarget cmd r.node_identity
unfolding resolve_route
resolve_route_agrees d p choose cmd drawn times key r v w forward named h =
    elim (Result-cases (resolve_prepare cmd drawn)) [
      | inr (e, g) ↦ absurd (ground arith)
      | inl ((key', id), g) ↦
          elim (Result-cases (resolve_locked d choose cmd key' id times.now times.choosing)) [
            | inr (e, f) ↦ absurd (unfold resolve_result in ground arith)
            | inl (s, f) ↦
                let same_key = resolve_prepare-key cmd drawn key key' id named g in
                let (reaches, inside) =
                  Decided-Reaches d choose cmd key' id times.now times.choosing v w forward s
                    (resolve_locked-Decided d choose cmd key' id times.now times.choosing s f) in
                let (left, given) = resolve_result-ok d p times s in
                let route =
                  route_of (about s) (lookup (about s).node_identity (after d s).registry.nodes)
                    times.now in
                let returned : route ≡ r = ground arith in
                let found : lookup_route (after d s) key times.now ≡ ok route =
                  lookup_of_Reaches (after d s) key (about s) times.now
                    (subst (λ k. Reaches (after d s) k (about s) times.now) same_key reaches) in
                let arrived : (resolve_route d p choose cmd drawn times).state ≡ after d s =
                  ground arith in
                (
                  subst (λ x. lookup_route x key times.now ≡ ok r) (sym arrived)
                      (found ∙ ap ok returned),
                  subst (λ (x : PlacementRoute). InTarget cmd x.node_identity) returned
                      (subst (InTarget cmd) (sym (route_of-node_identity (about s) _ times.now))
                        inside),
                )
          ]
    ]
