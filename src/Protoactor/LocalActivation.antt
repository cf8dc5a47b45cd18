-- ===== src/Protoactor/LocalActivation.antt =====
-- adapters/protoactor/local_activation.go: the resolution of a PID that must be local and as expected.
use stable_placement.Base.{ℕ, ltb, ◌==◌, not, ◌&&◌, Bool, false, Option, none, some, Text, [], same}
use stable_placement.Model.{Result, ok, Error, ◌>>=◌, ◌>>◌, guard}
use stable_placement.Protoactor.{PidRoute, ExpectedRoute}

module _ {Pid : Type 0} (address : Pid → Text) where
  -- The PID is there and its address is the local one.
  abbrev pub is_local : Text → Option Pid → Bool
  is_local local_address none = false
  is_local local_address (some pid) = same (address pid) local_address

  unfoldable pub is_expected : PidRoute Pid → ExpectedRoute → Bool
  is_expected route expected =
      same route.placement_id expected.placement_id
      && (same route.node_identity expected.node_identity
          && (same route.node_session_id expected.owner_node_session_id
              && route.placement_version == expected.placement_version))

  -- `ResolveLocalPID`: `resolved` is the answer of the resolver, `configured` tells whether there is one.
  unfoldable pub resolve_local_pid :
      Bool → Text → Result (PidRoute Pid) → ExpectedRoute → ℕ → Result (PidRoute Pid)
  resolve_local_pid configured local_address resolved expected now = do
    guard (configured && not (same local_address [])) Error.adapter_not_configured
    route ← resolved
    guard (is_expected route expected) Error.version_conflict
    guard (is_local local_address route.pid) Error.pid_not_local
    guard (ltb now route.valid_until) Error.placement_owner_unavailable
    ok route
