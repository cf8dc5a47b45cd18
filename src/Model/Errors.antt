-- ===== src/Model/Errors.antt =====
-- errors.go: the errors as values, and the results of calls that can fail.
use stable_placement.Base.{◌≡◌, refl, ◌⊎◌, inl, inr, ℕ, Bool, true, false, Option, none, some}

-- The sentinel errors of errors.go, the errors of identity.go, and those made on the spot. Message
-- texts and the wrapping that errors.Is sees through are left out. `external n` is an error of
-- code that the repository does not contain: a strategy, a publisher, a context.
pub data Error : Type 0 where
  placement_not_found : Error
  placement_not_recoverable : Error
  no_available_node : Error
  invalid_owner : Error
  invalid_node_session : Error
  version_conflict : Error
  node_lease_expired : Error
  invalid_node_lease_ttl : Error
  placement_owner_unavailable : Error
  node_not_found : Error
  node_has_placements : Error
  node_not_invalid : Error
  unsupported_strategy_mode : Error
  placement_config_invalid : Error
  placement_target_mismatch : Error
  value_empty : Error
  value_too_long : Error
  value_not_utf8 : Error
  value_whitespace : Error
  value_reserved : Error
  session_empty : Error
  identity_mismatch : Error
  cursor_malformed : Error
  cursor_negative : Error
  -- a run-time panic of the indexing in strategies/round_robin.go
  index_out_of_range : Error
  -- the errors that adapters/protoactor makes on the spot
  adapter_not_configured pid_missing pid_not_local max_retries_reached : Error
  -- the errors that redis/directory.go and redis/node_lease.go make on the spot
  unexpected_script_result invalid_lease_version invalid_owner_identity : Error
  invalid_index_score invalid_index_member events_not_a_stream : Error
  invalid_lease_snapshot invalid_lease_interval : Error
  external : ℕ → Error

-- A Go result: the error comes first in the source's tests.
pub data Result {ℓ} (A : Type ℓ) : Type ℓ where
  err : Error → Result A
  ok : A → Result A

-- `if err != nil { return err }`, then the rest.
abbrev pub ◌>>=◌ {ℓ κ} : {A : Type ℓ} {B : Type κ} → Result A → (A → Result B) → Result B
err e >>= rest = err e
ok value >>= rest = rest value

-- The same where only the error of the first part matters.
abbrev pub ◌>>◌ {ℓ} : {B : Type ℓ} → Result (Unit {0}) → Result B → Result B
first >> rest = first >>= λ _. rest

infixl 5 ◌>>=◌ ◌>>◌
pub Result-cases {ℓ} :
    {A : Type ℓ} (m : Result A) → ((a : A) × (m ≡ ok a)) ⊎ ((e : Error) × (m ≡ err e))
Result-cases (ok a) = inl (a, refl)
Result-cases (err e) = inr (e, refl)

-- An early return with an error when the test fails.
abbrev pub guard : Bool → Error → Result (Unit {0})
guard true e = ok tt
guard false e = err e

abbrev pub or_fail {ℓ} : {A : Type ℓ} → Option A → Error → Result A
or_fail none e = err e
or_fail (some a) e = ok a
