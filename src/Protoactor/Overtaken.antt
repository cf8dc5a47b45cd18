-- ===== src/Protoactor/Overtaken.antt =====
-- adapters/protoactor/resolver.go: a route that is read before an event and stored after it.
use stable_placement.Base.{
  ◌≡◌, refl, ap, ◌∙◌, ℕ, ltb, Bool, true, false, Option, none, some, Map, lookup, insert,
  lookup-insert, same_refl, Text, if◌then◌else◌,
}
use stable_placement.Model.{Result, ok, PlacementRoute, ResolveRouteCommand, PlacementEvent}
use stable_placement.Target.{NodeTarget}
use stable_placement.Protoactor.{ClusterIdentity, PlacementContext, pid_route}
use stable_placement.Protoactor.Resolver.{
  Resolver, Prepared, resolve_prepare, usable_hit, reusable, store_unless, command_for,
  resolve_prepared, resolve_pid, handle_event,
}

lookup-insert_self : {V : Type 0} (k : Text) (v : V) (m : Map V) → lookup k (insert k v m) ≡ some v
lookup-insert_self k v m =
    lookup-insert k k v m ∙ ap (λ (b : Bool). if b then some v else lookup k m) (same_refl k)

-- An event that is handled while a resolution asks the directory does not keep the resolution from
-- storing what the directory had answered: the route is in the cache after the event, also where the
-- event names the grain.
pub resolve_pid-overtaken :
    {Pid : Type 0} (directory : ResolveRouteCommand → Result PlacementRoute)
    (activate : PlacementRoute → Result (Option Pid)) (identity : ClusterIdentity)
    (context : Option PlacementContext) (now later : ℕ) (r : Resolver Pid) (event : PlacementEvent)
    (key : Text) (target : NodeTarget) (placement : PlacementRoute) (pid : Pid)
    → resolve_prepare r identity context
      ≡ ok (record { key = key; target = target; found = none; degraded = false })
    → directory (command_for identity target) ≡ ok placement
    → ltb later placement.valid_until ≡ true
    → activate placement ≡ ok (some pid)
    → lookup placement.grain_key
        (resolve_pid directory activate identity context now later r (handle_event r event)).0.cache
      ≡ some (pid_route (some pid) placement)
unfolding resolve_pid usable_hit reusable store_unless pid_route
resolve_pid-overtaken directory activate identity context now later r event key target placement pid
      prepared d v a =
    let second = handle_event r event in
    let run : (resolve_prepared directory activate identity now later second
          (ok (record { key = key; target = target; found = none; degraded = false }))).0.cache
        ≡ insert placement.grain_key (pid_route (some pid) placement) second.cache =
      rw (d, v, a) refl in
    ap
      (λ (o : Result (Prepared _)).
        lookup placement.grain_key
          (resolve_prepared directory activate identity now later second o).0.cache)
      prepared
    ∙ (ap (lookup placement.grain_key) run
        ∙ lookup-insert_self placement.grain_key (pid_route (some pid) placement) second.cache)
