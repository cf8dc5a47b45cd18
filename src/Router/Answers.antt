-- ===== src/Router/Answers.antt =====
-- The routes that the router answers with.
use stable_placement.Base.{
  ℕ, ◌≡◌, refl, inl, inr, ◌⊎◌, true, ◌&&◌, ltb, Option, none, some, Text, eq_of_same, subst,
  Option-cases, Bool-cases, arith,
}
use stable_placement.Model.{Result, ok, err, PlacementRoute, ResolveRouteCommand, Result-cases}
use stable_placement.Identity.{node_type_of, node_group_of, new_grain_key}
use stable_placement.Cache.{get_cached_placement}
use stable_placement.Router.{
  CachedRouter, serves, lookup_cached, lookup_fill, lookup_through, route_matches_target, matching,
  resolve_cached, resolve_fill, resolve_route_through,
}

lookup_fill-serves :
    (r : CachedRouter) (epoch : ℕ) (key : Text) (answer : Result PlacementRoute) (later : ℕ)
    (route : PlacementRoute)
    → (lookup_fill r epoch key answer later).1 ≡ ok route
    → (answer ≡ ok route) × (serves route later ≡ true)
unfolding lookup_fill
lookup_fill-serves r epoch key (err e) later route h = ground arith
lookup_fill-serves r epoch key (ok x) later route h = elim (Bool-cases (serves x later)) [
  | inl live ↦ ground arith
  | inr dead ↦ absurd (ground arith)
]

resolve_fill_answers :
    (r : CachedRouter) (epoch : ℕ) (key : Text) (answer : Result PlacementRoute) (later : ℕ)
    (route : PlacementRoute)
    → (resolve_fill r epoch key answer later).1 ≡ ok route
    → answer ≡ ok route
unfolding resolve_fill
resolve_fill_answers r epoch key (err e) later route h = ground arith
resolve_fill_answers r epoch key (ok x) later route h = h

-- What a hit of `ResolveRoute` satisfies.
Hit : PlacementRoute → ResolveRouteCommand → ℕ → Type 0
Hit route cmd now =
    (serves route now ≡ true)
    × (node_type_of route.node_identity ≡ cmd.target_node_type)
    × (node_group_of route.node_identity ≡ cmd.target_node_group)

matching-some :
    (o : Option PlacementRoute) (cmd : ResolveRouteCommand) (now : ℕ) (route : PlacementRoute)
    → matching o cmd now ≡ some route
    → (o ≡ some route) × Hit route cmd now
unfolding matching route_matches_target serves Hit
matching-some none cmd now route h = cc
matching-some (some x) cmd now route h =
    elim (Bool-cases (route_matches_target x cmd && ltb now x.valid_until)) [
      | inl e ↦
          let q : x ≡ route = ground arith in
          subst (λ y. (some x ≡ some y) × Hit y cmd now) q
            (
              refl,
              (
                ground arith,
                eq_of_same (node_type_of x.node_identity) cmd.target_node_type (ground arith),
                eq_of_same (node_group_of x.node_identity) cmd.target_node_group (ground arith),
              ),
            )
      | inr e ↦ absurd (ground arith)
    ]

-- A route that `Lookup` answers is active and its end lies ahead of the time that the router read,
-- and it is the cached one or the directory's answer.
pub lookup_through-serves :
    (first second : CachedRouter) (key : Text) (now : ℕ) (answer : Result PlacementRoute)
    (later : ℕ) (route : PlacementRoute)
    → lookup_through first second key now answer later ≡ ok route
    → ((get_cached_placement first.cache key ≡ some route) × (serves route now ≡ true))
      ⊎ ((answer ≡ ok route) × (serves route later ≡ true))
unfolding lookup_through lookup_cached
lookup_through-serves first second key now answer later route h =
    elim (Option-cases (get_cached_placement first.cache key)) [
      | inl q ↦ inr (lookup_fill-serves second first.epoch key answer later route (ground arith))
      | inr (cached, q) ↦ elim (Bool-cases (serves cached now)) [
        | inl live ↦ inl (ground arith)
        | inr dead ↦
            inr (lookup_fill-serves second first.epoch key answer later route (ground arith))
      ]
    ]

-- A route that `ResolveRoute` answers is the directory's answer, or it is the one cached for the
-- command's grain key, is active and unexpired, and leads to a node of the command's type and group.
pub resolve_route_through-serves :
    (first second : CachedRouter) (cmd : ResolveRouteCommand) (now : ℕ)
    (answer : Result PlacementRoute) (later : ℕ) (route : PlacementRoute)
    → resolve_route_through first second cmd now answer later ≡ ok route
    → (answer ≡ ok route)
      ⊎ ((key : Text) × (new_grain_key cmd.kind cmd.grain_id ≡ ok key)
          × (get_cached_placement first.cache key ≡ some route)
          × (serves route now ≡ true)
          × (node_type_of route.node_identity ≡ cmd.target_node_type)
          × (node_group_of route.node_identity ≡ cmd.target_node_group))
unfolding resolve_route_through resolve_cached Hit
resolve_route_through-serves first second cmd now answer later route h =
    elim (Result-cases (new_grain_key cmd.kind cmd.grain_id)) [
      | inr (e, q) ↦ absurd (ground arith)
      | inl (key, q) ↦
          elim (Option-cases (matching (get_cached_placement first.cache key) cmd now)) [
            | inl m ↦
                inl (resolve_fill_answers second first.epoch key answer later route (ground arith))
            | inr (cached, m) ↦
                let e : cached ≡ route = ground arith in
                let (at, (live, type_of, group_of)) =
                  matching-some (get_cached_placement first.cache key) cmd now route (rw e at m) in
                inr (key, q, at, live, type_of, group_of)
          ]
    ]
