-- ===== src/Protoactor/Tests.antt =====
-- Activations and resolutions of one grain, and instances of the theorems.
use stable_placement.Base.{
  ◌≡◌, refl, ℕ, Bool, ◌==◌, true, false, Option, none, some, List, [], ◌∷◌, Text, text_eq, Map,
  lookup, insert,
}
use stable_placement.Samples.{id_a, key_x, of_byte}
use stable_placement.Model.{
  Result, ok, err, Error, PlacementRoute, PlacementStatus, ResolveRouteCommand,
}
use stable_placement.Identity.{new_grain_key, validate_identity_part}
use stable_placement.Target.{KindRouteConfig, build_node_group}
use stable_placement.Protoactor.{ClusterIdentity, PlacementContext, pid_route, same_authorization}
use stable_placement.Protoactor.Resolver.{
  Resolver, Prepared, new_resolver, resolve_pid, resolve_prepare, usable_hit, reusable,
  store_unless,
}
use stable_placement.Protoactor.Resolver.Answers.{PreparedOf, Source, resolve_pid-Source}
use stable_placement.Protoactor.Activator.{
  SerialActivator, Surroundings, activate, fence, activation_key, is_current, active_pid,
}
use stable_placement.Protoactor.Activator.Sessions.{Granted, activate-Granted}
use stable_placement.Protoactor.Activator.Fenced.{
  activation, fencing, activated, stopped, ActivatorCall, activator_step, run_activator,
}

-- A PID is a number, and its address is a text of one byte.
abbrev here : ℕ → Text
here n = of_byte 1

abbrev equal_pid : Option ℕ → ℕ → Bool
equal_pid none n = false
equal_pid (some m) n = m == n

abbrev version_route : ℕ → PlacementRoute
version_route version = record {
  grain_key = key_x;
  placement_id = of_byte 7;
  node_identity = id_a;
  owner_node_session_id = of_byte 1;
  version = version;
  status = PlacementStatus.active;
  node_lease_version = 1;
  valid_until = 100;
}

abbrev grain_x : ClusterIdentity
grain_x = record { kind = of_byte 0x6b; identity = of_byte 0x78 }

abbrev activator_a : SerialActivator ℕ
activator_a = record {
  configured = true;
  node_identity = id_a;
  node_session_id = of_byte 1;
  active = [];
  fenced = false;
}

abbrev around : ℕ → ℕ → Surroundings ℕ
around version pid = record {
  looked_up = ok (version_route version);
  now = 5;
  spawned = ok (some pid);
  local_address = of_byte 1;
}

-- A second version of the placement spawns a second actor; Fence stops the second only.
runs :
    (run_activator here equal_pid
      (activation (around 1 10) grain_x (version_route 1)
        ∷ activation (around 1 11) grain_x (version_route 1)
        ∷ activation (around 2 12) grain_x (version_route 2)
        ∷ fencing (λ n. none)
        ∷ activation (around 2 13) grain_x (version_route 2)
        ∷ [])
      activator_a).1
    ≡ activated (ok 10) true
      ∷ activated (ok 10) false
      ∷ activated (ok 12) true
      ∷ stopped (12 ∷ [])
      ∷ activated (err Error.invalid_node_session) false
      ∷ []
unfolding run_activator activator_step activate fence activation_key is_current active_pid
    same_authorization new_grain_key lookup insert text_eq pid_route
runs = refl

activate-Granted_example : Granted here activator_a (around 1 10) grain_x (version_route 1) 10
unfolding activate activation_key is_current active_pid new_grain_key lookup text_eq
activate-Granted_example =
    activate-Granted here activator_a (around 1 10) grain_x (version_route 1) 10 refl

abbrev all_stop : ℕ → Option Error
all_stop n = none

abbrev later_calls : List (ActivatorCall ℕ)
later_calls = activation (around 1 10) grain_x (version_route 1) ∷ []

abbrev kinds : Map KindRouteConfig
kinds =
    (
      of_byte 0x6b,
      record { node_type = of_byte 0x74; node_group_prefix = []; group_id_label = of_byte 0x6c },
    )
    ∷ []

abbrev context_g : Option PlacementContext
context_g = some (record { labels = (of_byte 0x6c, of_byte 0x67) ∷ []; node_type = [] })

abbrev resolver_a : Resolver ℕ
resolver_a = new_resolver true kinds

abbrev directory_x : ResolveRouteCommand → Result PlacementRoute
directory_x cmd = ok (version_route 1)

abbrev spawn_10 : PlacementRoute → Result (Option ℕ)
spawn_10 route = ok (some 10)

abbrev stored_x : Resolver ℕ
stored_x = record resolver_a { cache = (key_x, pid_route (some 10) (version_route 1)) ∷ [] }

resolve_pid-Source_example :
    (p : Prepared ℕ) × PreparedOf directory_x spawn_10 grain_x resolver_a context_g p
    × Source directory_x spawn_10 grain_x p 1 2 resolver_a stored_x
        (pid_route (some 10) (version_route 1))
unfolding resolve_pid resolve_prepare build_node_group validate_identity_part lookup text_eq
    new_grain_key usable_hit reusable store_unless insert pid_route
resolve_pid-Source_example =
    resolve_pid-Source directory_x spawn_10 grain_x context_g 1 2 resolver_a resolver_a stored_x
      (pid_route (some 10) (version_route 1)) refl
