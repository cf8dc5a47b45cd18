-- ===== src/Protoactor/Resolver.antt =====
-- adapters/protoactor/resolver.go: the resolver from a cluster identity to the PID of its actor. A
-- resolution holds the gate throughout, so no Fence runs in it, but other calls may change the cache
-- while it asks the directory and the activator: it is modelled as the section that reads the cache and
-- the section that stores the result. `Pid` is the type of PIDs, `equal` is `PID.Equal`.
pub mod Answers
use stable_placement.Base.{
  ℕ, ltb, not, ◌&&◌, ◌||◌, Bool, true, false, Option, none, some, List, [], ◌∷◌, Text, same, Map,
  lookup, insert, delete, select, if◌then◌else◌,
}
use stable_placement.Model.{
  Result, ok, err, Error, ◌>>=◌, ◌>>◌, guard, PlacementRoute, ResolveRouteCommand, PlacementEvent,
}
use stable_placement.Identity.{new_grain_key, node_type_of, node_group_of}
use stable_placement.Target.{KindRouteConfig, NodeTarget, build_node_group}
use stable_placement.Protoactor.{
  PidRoute, ClusterIdentity, PlacementContext, pid_route, same_authorization,
}

-- The fields but the directory and the activator; `configured` tells whether both are set.
pub record Resolver (Pid : Type 0) : Type 0 where
  pub configured : Bool
  pub routes : Map KindRouteConfig
  pub fenced : Bool
  pub cache : Map (PidRoute Pid)
  pub degraded : Bool

abbrev pub new_resolver : {Pid : Type 0} → Bool → Map KindRouteConfig → Resolver Pid
new_resolver configured routes = record {
  configured = configured;
  routes = routes;
  fenced = false;
  cache = [];
  degraded = false;
}

-- `routeTargetMatches`
unfoldable pub route_target_matches : Text → NodeTarget → Bool
route_target_matches identity target =
    same (node_type_of identity) target.node_type && same (node_group_of identity) target.node_group

abbrev pub labels_of : Option PlacementContext → Map Text
labels_of none = []
labels_of (some c) = c.labels

-- The context names no node type, or the target's.
abbrev pub context_agrees : Option PlacementContext → NodeTarget → Bool
context_agrees none target = true
context_agrees (some c) target = same c.node_type [] || same c.node_type target.node_type

abbrev pub command_for : ClusterIdentity → NodeTarget → ResolveRouteCommand
command_for identity target = record {
  grain_id = identity.identity;
  kind = identity.kind;
  target_node_type = target.node_type;
  target_node_group = target.node_group;
}

-- What the first section hands to the rest.
pub record Prepared (Pid : Type 0) : Type 0 where
  pub key : Text
  pub target : NodeTarget
  pub found : Option (PidRoute Pid)
  pub degraded : Bool

module _ {Pid : Type 0} where
  -- The first section, up to the cache.
  unfoldable pub resolve_prepare :
      Resolver Pid → ClusterIdentity → Option PlacementContext → Result (Prepared Pid)
  resolve_prepare r identity context = do
    guard r.configured Error.adapter_not_configured
    guard (not r.fenced) Error.invalid_node_session
    target ← build_node_group identity.kind (labels_of context) r.routes
    guard (context_agrees context target) Error.placement_config_invalid
    key ← new_grain_key identity.kind identity.identity
    ok (record { key = key; target = target; found = lookup key r.cache; degraded = r.degraded })

  -- The cached route, if it may be answered at the time `now`.
  unfoldable pub usable_hit : Option (PidRoute Pid) → Bool → NodeTarget → ℕ → Option (PidRoute Pid)
  unfolding route_target_matches
  usable_hit none degraded target now = none
  usable_hit (some cached) degraded target now =
      if not degraded
        && (ltb now cached.valid_until && route_target_matches cached.node_identity target)
      then some cached
      else none

  -- `if !degraded { r.store(route) }`
  unfoldable pub store_unless : Bool → PidRoute Pid → Resolver Pid → Resolver Pid
  store_unless degraded route r =
      if degraded then r else record r { cache = insert route.grain_key route r.cache }

  -- The PID of the cached route, if the directory still authorizes it.
  unfoldable pub reusable : Option (PidRoute Pid) → PlacementRoute → Option Pid
  unfolding same_authorization
  reusable none route = none
  reusable (some cached) route = if same_authorization cached route then cached.pid else none

  abbrev pub answered :
      Bool → Pid → PlacementRoute → Resolver Pid → Resolver Pid × Result (PidRoute Pid)
  answered degraded pid route r =
      let resolved = pid_route (some pid) route in (store_unless degraded resolved r, ok resolved)

  abbrev pub activated :
      Bool
      → Result (Option Pid)
      → PlacementRoute
      → Resolver Pid
      → Resolver Pid × Result (PidRoute Pid)
  activated degraded (err e) route r = (r, err e)
  activated degraded (ok none) route r = (r, err Error.pid_missing)
  activated degraded (ok (some pid)) route r = answered degraded pid route r

  -- A PID that is still authorized is kept; else the activator is asked.
  abbrev pub reuse_or :
      Bool
      → Option Pid
      → Result (Option Pid)
      → PlacementRoute
      → Resolver Pid
      → Resolver Pid × Result (PidRoute Pid)
  reuse_or degraded (some pid) activation route r = answered degraded pid route r
  reuse_or degraded none activation route r = activated degraded activation route r

  abbrev pub resolve_answer :
      Prepared Pid
      → Result PlacementRoute
      → ℕ
      → (PlacementRoute → Result (Option Pid))
      → Resolver Pid
      → Resolver Pid × Result (PidRoute Pid)
  resolve_answer p (err e) later activate r = (r, err e)
  resolve_answer p (ok route) later activate r =
      if not (ltb later route.valid_until)
      then (r, err Error.placement_owner_unavailable)
      else reuse_or p.degraded (reusable p.found route) (activate route) route r

  abbrev pub serve_hit_or :
      Option (PidRoute Pid)
      → Resolver Pid × Result (PidRoute Pid)
      → Resolver Pid
      → Resolver Pid × Result (PidRoute Pid)
  serve_hit_or (some cached) rest r = (r, ok cached)
  serve_hit_or none rest r = rest

  abbrev pub resolve_prepared :
      (ResolveRouteCommand → Result PlacementRoute)
      → (PlacementRoute → Result (Option Pid))
      → ClusterIdentity
      → ℕ
      → ℕ
      → Resolver Pid
      → Result (Prepared Pid)
      → Resolver Pid × Result (PidRoute Pid)
  resolve_prepared directory activate identity now later r (err e) = (r, err e)
  resolve_prepared directory activate identity now later r (ok p) =
      serve_hit_or (usable_hit p.found p.degraded p.target now)
        (resolve_answer p (directory (command_for identity p.target)) later activate r) r

  -- `ResolvePID` in the first section's resolver `first` and the last section's `second`, at the times
  -- `now` and `later`.
  unfoldable pub resolve_pid :
      (ResolveRouteCommand → Result PlacementRoute)
      → (PlacementRoute → Result (Option Pid))
      → ClusterIdentity
      → Option PlacementContext
      → ℕ
      → ℕ
      → Resolver Pid
      → Resolver Pid
      → Resolver Pid × Result (PidRoute Pid)
  resolve_pid directory activate identity context now later first second =
      resolve_prepared directory activate identity now later second
        (resolve_prepare first identity context)

  -- The entry is the PID's, or any PID's where none is given.
  abbrev pub entry_of : (Option Pid → Pid → Bool) → Option Pid → PidRoute Pid → Bool
  entry_of equal none current = true
  entry_of equal (some pid) current = equal current.pid pid

  abbrev pub remove_entry :
      (Option Pid → Pid → Bool)
      → Option Pid
      → Text
      → Option (PidRoute Pid)
      → Map (PidRoute Pid)
      → Map (PidRoute Pid)
  remove_entry equal pid key none cache = cache
  remove_entry equal pid key (some current) cache =
      if entry_of equal pid current then delete key cache else cache

  abbrev pub remove_key :
      (Option Pid → Pid → Bool) → Option Pid → Result Text → Map (PidRoute Pid) → Map (PidRoute Pid)
  remove_key equal pid (err e) cache = cache
  remove_key equal pid (ok key) cache = remove_entry equal pid key (lookup key cache) cache

  -- `Remove`, without the activator's
  unfoldable pub remove :
      (Option Pid → Pid → Bool) → Resolver Pid → ClusterIdentity → Option Pid → Resolver Pid
  remove equal r identity pid = record r {
    cache = remove_key equal pid (new_grain_key identity.kind identity.identity) r.cache;
  }

  -- The event, which names no grain, drops the route.
  abbrev pub dropped_by : PlacementEvent → PidRoute Pid → Bool
  dropped_by event route =
      same event.node_identity [] || same route.node_identity event.node_identity

  -- `HandleEvent`
  unfoldable pub handle_event : Resolver Pid → PlacementEvent → Resolver Pid
  handle_event r event =
      if not (same event.grain_key [])
      then record r { cache = delete event.grain_key r.cache }
      else record r { cache = select (λ e. not (dropped_by event e.1)) r.cache }

  -- `Degrade`, `Recover` and `Fence`
  unfoldable pub degrade : Resolver Pid → Resolver Pid
  degrade r = record r { degraded = true; cache = [] }

  unfoldable pub recover : Resolver Pid → Resolver Pid
  recover r = record r { cache = []; degraded = false }

  unfoldable pub fence : Resolver Pid → Resolver Pid
  fence r = record r { fenced = true; cache = [] }
