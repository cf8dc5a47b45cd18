-- ===== src/Protoactor/Resolver/Answers.antt =====
-- adapters/protoactor/resolver.go: what ResolvePID answers.
use stable_placement.Base.{
  ◌≡◌, refl, sym, ap, ◌∙◌, inl, inr, ℕ, ◌<◌, ltb, ◌&&◌, Bool, true, false, Option, none, some, Text,
  eq_of_same, lookup, arith, subst₂, Bool-cases, subst,
}
use stable_placement.Model.{Result, Result-cases, ok, err, PlacementRoute, ResolveRouteCommand}
use stable_placement.Identity.{new_grain_key, node_type_of, node_group_of}
use stable_placement.Target.{NodeTarget, build_node_group}
use stable_placement.Protoactor.{
  PidRoute, ClusterIdentity, PlacementContext, pid_route, same_authorization,
}
use stable_placement.Protoactor.Resolver.{
  Resolver, Prepared, labels_of, context_agrees, resolve_prepare, route_target_matches, usable_hit,
  store_unless, reusable, answered, reuse_or, resolve_answer, command_for, serve_hit_or,
  resolve_prepared, resolve_pid,
}

route_target_matches-parts :
    (id : Text) (t : NodeTarget)
    → route_target_matches id t ≡ true
    → (node_type_of id ≡ t.node_type) × (node_group_of id ≡ t.node_group)
unfolding route_target_matches
route_target_matches-parts id t h =
    ground
      (arith, eq_of_same (node_type_of id) t.node_type, eq_of_same (node_group_of id) t.node_group)

usable_hit-some :
    {Pid : Type 0} (o : Option (PidRoute Pid)) (degraded : Bool) (t : NodeTarget) (now : ℕ)
    (route : PidRoute Pid)
    → usable_hit o degraded t now ≡ some route
    → (o ≡ some route)
      × (degraded ≡ false)
      × (now < route.valid_until)
      × (route_target_matches route.node_identity t ≡ true)
unfolding usable_hit
usable_hit-some none degraded t now route h = absurd (ground arith)
usable_hit-some (some c) true t now route h = absurd (ground arith)
usable_hit-some (some c) false t now route h =
    elim (Bool-cases (ltb now c.valid_until && route_target_matches c.node_identity t)) [
      | inr e ↦ absurd (ground arith)
      | inl e ↦
          let q : c ≡ route = ground arith in
          let before : now < c.valid_until = ground arith in
          let target : route_target_matches c.node_identity t ≡ true = ground arith in
          (
            ap (λ (x : PidRoute _). some x) q,
            refl,
            subst (λ (x : PidRoute _). now < x.valid_until) q before,
            subst (λ (x : PidRoute _). route_target_matches x.node_identity t ≡ true) q target,
          )
    ]

module _ {Pid : Type 0} (directory : ResolveRouteCommand → Result PlacementRoute)
    (activate : PlacementRoute → Result (Option Pid)) (identity : ClusterIdentity) where
  -- Where the PID of an answer comes from: the activator, for exactly that route, or the cached route of
  -- the grain, which the directory still authorizes.
  pub data PidFrom (found : Option (PidRoute Pid)) (placement : PlacementRoute) (pid : Pid)
      : Type 0 where
    from_activator : activate placement ≡ ok (some pid) → PidFrom found placement pid
    from_cache :
        (cached : PidRoute Pid)
        → found ≡ some cached
        → cached.pid ≡ some pid
        → same_authorization cached placement ≡ true
        → PidFrom found placement pid

  -- Where an answer comes from: the cache, which then stays as it is, or the directory.
  pub data Source (p : Prepared Pid) (now later : ℕ) (second : Resolver Pid)
      : Resolver Pid → PidRoute Pid → Type 0 where
    cached :
        (route : PidRoute Pid)
        → p.found ≡ some route
        → p.degraded ≡ false
        → now < route.valid_until
        → node_type_of route.node_identity ≡ p.target.node_type
        → node_group_of route.node_identity ≡ p.target.node_group
        → Source p now later second second route
    asked :
        (placement : PlacementRoute) (pid : Pid)
        → directory (command_for identity p.target) ≡ ok placement
        → later < placement.valid_until
        → PidFrom p.found placement pid
        → Source p now later second
            (store_unless p.degraded (pid_route (some pid) placement) second)
            (pid_route (some pid) placement)

  reusable_lem :
      (o : Option (PidRoute Pid)) (placement : PlacementRoute) (pid : Pid)
      → reusable o placement ≡ some pid
      → PidFrom o placement pid
  unfolding reusable
  reusable_lem none placement pid h = absurd (ground arith)
  reusable_lem (some c) placement pid h = elim (Bool-cases (same_authorization c placement)) [
    | inl e ↦ from_cache c refl (ground arith) e
    | inr e ↦ absurd (ground arith)
  ]

  -- An answer of the directory, with the PID it is given.
  given-Source :
      (p : Prepared Pid) (now later : ℕ) (second r : Resolver Pid) (placement : PlacementRoute)
      (pid : Pid) (route : PidRoute Pid)
      → directory (command_for identity p.target) ≡ ok placement
      → later < placement.valid_until
      → PidFrom p.found placement pid
      → answered p.degraded pid placement second ≡ (r, ok route)
      → Source p now later second r route
  given-Source p now later second r placement pid route d v f h =
      let stored : store_unless p.degraded (pid_route (some pid) placement) second ≡ r =
        ap (λ x. x.0) h in
      let result : ok (pid_route (some pid) placement) ≡ ok route = ap (λ x. x.1) h in
      let same_route : pid_route (some pid) placement ≡ route = cc result in
      subst₂ (Source p now later second) stored same_route (asked placement pid d v f)

  placed-Source :
      (p : Prepared Pid) (now later : ℕ) (second r : Resolver Pid) (placement : PlacementRoute)
      (o : Option Pid) (activation : Result (Option Pid)) (route : PidRoute Pid)
      → directory (command_for identity p.target) ≡ ok placement
      → later < placement.valid_until
      → reusable p.found placement ≡ o
      → activate placement ≡ activation
      → reuse_or p.degraded o activation placement second ≡ (r, ok route)
      → Source p now later second r route
  placed-Source p now later second r placement (some pid) activation route d v u a h =
      given-Source p now later second r placement pid route d v
        (reusable_lem p.found placement pid u) h
  placed-Source p now later second r placement none (ok (some pid)) route d v u a h =
      given-Source p now later second r placement pid route d v (from_activator a) h
  placed-Source p now later second r placement none (ok none) route d v u a h =
      absurd (ground arith)
  placed-Source p now later second r placement none (err e) route d v u a h = absurd (ground arith)

  answer-Source :
      (p : Prepared Pid) (now later : ℕ) (second r : Resolver Pid) (answer : Result PlacementRoute)
      (route : PidRoute Pid)
      → directory (command_for identity p.target) ≡ answer
      → resolve_answer p answer later activate second ≡ (r, ok route)
      → Source p now later second r route
  answer-Source p now later second r (err e) route d h = absurd (ground arith)
  answer-Source p now later second r (ok placement) route d h =
      elim (Bool-cases (ltb later placement.valid_until)) [
        | inr e ↦ absurd (ground arith)
        | inl e ↦
            placed-Source p now later second r placement (reusable p.found placement)
              (activate placement) route d (ground arith) refl refl (ground arith)
      ]

  hit_or-Source :
      (p : Prepared Pid) (now later : ℕ) (second r : Resolver Pid) (o : Option (PidRoute Pid))
      (route : PidRoute Pid)
      → usable_hit p.found p.degraded p.target now ≡ o
      → serve_hit_or o
          (resolve_answer p (directory (command_for identity p.target)) later activate second)
          second
        ≡ (r, ok route)
      → Source p now later second r route
  hit_or-Source p now later second r none route u h =
      answer-Source p now later second r (directory (command_for identity p.target)) route refl h
  hit_or-Source p now later second r (some hit) route u h =
      let (found, live, before, matches) = usable_hit-some p.found p.degraded p.target now hit u in
      let (type, group) = route_target_matches-parts hit.node_identity p.target matches in
      let result : ok hit ≡ ok route = ap (λ x. x.1) h in
      let same_route : hit ≡ route = cc result in
      subst₂ (Source p now later second) (ap (λ x. x.0) h) same_route
        (cached hit found live before type group)

  prepared-Source :
      (prepared : Result (Prepared Pid)) (now later : ℕ) (second r : Resolver Pid)
      (route : PidRoute Pid)
      → resolve_prepared directory activate identity now later second prepared ≡ (r, ok route)
      → (p : Prepared Pid) × (prepared ≡ ok p) × Source p now later second r route
  prepared-Source (err e) now later second r route h = absurd (ground arith)
  prepared-Source (ok p) now later second r route h =
      (p, refl, hit_or-Source p now later second r _ route refl h)

  -- What the first section has read.
  pub record PreparedOf (first : Resolver Pid) (context : Option PlacementContext)
      (p : Prepared Pid) : Type 0 where
    pub open_gate : first.fenced ≡ false
    pub target : build_node_group identity.kind (labels_of context) first.routes ≡ ok p.target
    pub agrees : context_agrees context p.target ≡ true
    pub key : new_grain_key identity.kind identity.identity ≡ ok p.key
    pub found : p.found ≡ lookup p.key first.cache
    pub degraded : p.degraded ≡ first.degraded

  prepare-PreparedOf :
      (first : Resolver Pid) (context : Option PlacementContext) (p : Prepared Pid)
      → resolve_prepare first identity context ≡ ok p
      → PreparedOf first context p
  unfolding resolve_prepare
  prepare-PreparedOf first context p h =
      elim (Result-cases (build_node_group identity.kind (labels_of context) first.routes)) [
        | inr (e, q) ↦ absurd (ground arith)
        | inl (target, q) ↦ elim (Result-cases (new_grain_key identity.kind identity.identity)) [
          | inr (e, k) ↦ absurd (ground arith)
          | inl (key, k) ↦
              let open_gate : first.fenced ≡ false = ground arith in
              let agrees : context_agrees context target ≡ true = ground arith in
              let whole : p ≡ record {
                key = key;
                target = target;
                found = lookup key first.cache;
                degraded = first.degraded;
              } =
                ground arith in
              record {
                open_gate = open_gate;
                target = q ∙ ap (λ (x : Prepared Pid). ok x.target) (sym whole);
                agrees =
                    subst (λ (x : Prepared Pid). context_agrees context x.target ≡ true) (sym whole)
                      agrees;
                key = k ∙ ap (λ (x : Prepared Pid). ok x.key) (sym whole);
                found =
                    subst (λ (x : Prepared Pid). x.found ≡ lookup x.key first.cache) (sym whole)
                      refl;
                degraded = ap (λ (x : Prepared Pid). x.degraded) whole;
              }
        ]
      ]

  -- An answer of ResolvePID is given only while the gate is open, for the target of the identity's kind
  -- and the context's labels, which the context's node type does not contradict. Whatever other calls did
  -- between its two sections, it is either the route that was cached for the grain, not degraded, before
  -- its end and on a node of the target's type and group; or the directory's answer to exactly this grain
  -- and target, before its end, with the PID that the activator gave for that answer or the cached PID
  -- that the answer still authorizes. It is stored exactly if the resolver was not degraded in the first
  -- section, and nothing else of the resolver changes.
  pub resolve_pid-Source :
      (context : Option PlacementContext) (now later : ℕ) (first second r : Resolver Pid)
      (route : PidRoute Pid)
      → resolve_pid directory activate identity context now later first second ≡ (r, ok route)
      → (p : Prepared Pid) × PreparedOf first context p × Source p now later second r route
  unfolding resolve_pid
  resolve_pid-Source context now later first second r route h =
      let (p, q, s) =
        prepared-Source (resolve_prepare first identity context) now later second r route h in
      (p, prepare-PreparedOf first context p q, s)
