-- ===== src/Redis/Placements.antt =====
-- redis/directory.go: Allocate, Renew, Release, Transfer and Recover, each of which reads
-- the placement and runs a script on it.
use stable_placement.Base.{
  ◌==◌, ◌||◌, not, Bool, false, Option, none, some, [], ◌∷◌, Text, text, same, if◌then◌else◌,
}
use stable_placement.Model.{
  Result, ok, err, Error, ◌>>=◌, ◌>>◌, guard, Placement, AllocateCommand, RenewCommand,
}
use stable_placement.Identity.{new_grain_key, node_type_of}
use stable_placement.Redis.Scripts.{
  RedisPlacement, placement_of, ScriptResult, ScriptCall, status, items, placement_result_error,
}
use stable_placement.Redis.Routes.{get_placement_raw}
use stable_placement.Redis.Calls.{
  RedisDirectory, old_placement, allocate_call, Mutation, mutation_call, renew_call,
}

-- A string that does not start with a brace is an error.
abbrev pub is_object : Text → Bool
is_object [] = false
is_object (b ∷ bs) = b == 0x7b

-- The errors that the script of Allocate gives as a string.
unfoldable pub allocate_error : Text → Option Error
unfolding text
allocate_error s =
    if same s (text "owner_unavailable")
    then some Error.placement_owner_unavailable
    else if same s (text "no_available_node")
    then some Error.no_available_node
    else if same s (text "conflict")
    then some Error.version_conflict
    else none

-- `decode` stands for json.Unmarshal of a stored placement, of a text that no list prints as.
module _ (decode : Text → Result RedisPlacement) where
  abbrev pub decoded : Text → Result Placement
  decoded raw = do wire ← decode raw; ok (placement_of wire)

  -- `decodePlacement` of a result that is a string or prints as one
  unfoldable pub decode_placement : ScriptResult → Result Placement
  decode_placement (status s) = decoded s
  decode_placement (ScriptResult.other s) = decoded s
  decode_placement (items xs) = err Error.unexpected_script_result

  abbrev or_decode : Option Error → Text → Result Placement
  or_decode none s = decoded s
  or_decode (some e) s = err e

  unfoldable pub allocate_answer : ScriptResult → Result Placement
  unfolding allocate_error decode_placement
  allocate_answer (status s) = or_decode (allocate_error s) s
  allocate_answer r = decode_placement r

  unfoldable pub mutate_answer : ScriptResult → Result Placement
  unfolding placement_result_error decode_placement
  mutate_answer (status s) = if is_object s then decoded s else err (placement_result_error s)
  mutate_answer r = decode_placement r

  -- `Allocate`: `run` is the answer to the call of the script.
  unfoldable pub allocate_in_redis :
      RedisDirectory
      → AllocateCommand
      → Result Text
      → Result (Option Text)
      → (ScriptCall → Result ScriptResult)
      → Result Placement
  unfolding allocate_call allocate_answer
  allocate_in_redis d cmd new_id stored run = do
    key ← new_grain_key cmd.kind cmd.grain_id
    placement_id ← new_id
    old ← old_placement (get_placement_raw decode stored)
    result ← run (allocate_call d key cmd (old.0) (old.1) placement_id)
    allocate_answer result

  -- `Renew`
  unfoldable pub renew_in_redis :
      RenewCommand → Result (Option Text) → (ScriptCall → Result ScriptResult) → Result Placement
  unfolding renew_call mutate_answer
  renew_in_redis cmd stored run = do
    found ← get_placement_raw decode stored
    result ← run (renew_call cmd (found.0) (found.1))
    mutate_answer result

  -- `mutate`, by which Release, Transfer and Recover are `release_mutation` and so on
  unfoldable pub mutate :
      Mutation → Result (Option Text) → (ScriptCall → Result ScriptResult) → Result Placement
  unfolding mutation_call mutate_answer
  mutate m stored run = do
    found ← get_placement_raw decode stored
    guard (same m.target [] || not (same (node_type_of m.target) [])) Error.invalid_owner_identity
    result ← run (mutation_call m (found.0) (found.1).node_identity)
    mutate_answer result
