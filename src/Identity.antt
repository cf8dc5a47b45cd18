-- ===== src/Identity.antt =====
-- identity.go: validated names, grain keys and node identities.
pub mod Utf8
pub mod Parts
mod Tests
use stable_placement.Base.{
  ℕ, zero, suc, ◌≡◌, ltb, ◌==◌, if◌then◌else◌, Bool, true, false, ◌&&◌, ◌||◌, Option, none, some,
  List, [], ◌∷◌, ◌++◌, Text, length, get_elem?, any, not, leb,
}
use stable_placement.Model.{Result, ok, err, Error, ◌>>=◌, ◌>>◌, guard}
use stable_placement.Model.Lease.{max_identity_part_bytes, max_grain_id_bytes}
use Utf8.{decode, has_surrounding_space, split}

-- '/', the separator of both kinds of name.
abbrev pub separator : ℕ
separator = 0x2f

unfoldable pub is_reserved : ℕ → Bool
is_reserved r = r == separator || (leb r 0x1f || r == 0x7f)

validate_runes : Option (List ℕ) → Result (Unit {0})
unfolding is_reserved has_surrounding_space any
validate_runes none = err Error.value_not_utf8
validate_runes (some rs) = do
  guard (not (has_surrounding_space rs)) Error.value_whitespace
  guard (not (any is_reserved rs)) Error.value_reserved
  ok tt

-- `ValidateIdentityPart(value, maxBytes)`
unfoldable pub validate_identity_part : Text → ℕ → Result (Unit {0})
unfolding validate_runes decode
validate_identity_part value max_bytes = do
  guard (not (length value == 0)) Error.value_empty
  guard (not (max_bytes == 0 || ltb max_bytes (length value))) Error.value_too_long
  validate_runes (decode value)

-- `NewGrainKey(kind, grainID)`
unfoldable pub new_grain_key : Text → Text → Result Text
unfolding validate_identity_part
new_grain_key kind grain_id = do
  validate_identity_part kind max_identity_part_bytes
  validate_identity_part grain_id max_grain_id_bytes
  ok (kind ++ separator ∷ grain_id)

-- `NewNodeIdentity(nodeType, nodeGroup, nodeName)`
unfoldable pub new_node_identity : Text → Text → Text → Result Text
unfolding validate_identity_part
new_node_identity node_type node_group node_name = do
  validate_identity_part node_type max_identity_part_bytes
  validate_identity_part node_group max_identity_part_bytes
  validate_identity_part node_name max_identity_part_bytes
  ok (node_type ++ separator ∷ (node_group ++ separator ∷ node_name))

text_at : List Text → ℕ → Text
text_at xs i = elim (get_elem? xs i) [ none ↦ [] | some x ↦ x ]

-- `NodeIdentity.part(index)`
unfoldable pub part : Text → ℕ → Text
unfolding split text_at
part identity index =
    let parts = split separator identity in if length parts == 3 then text_at parts index else []

abbrev pub node_type_of : Text → Text
node_type_of identity = part identity 0

abbrev pub node_group_of : Text → Text
node_group_of identity = part identity 1

abbrev pub node_name_of : Text → Text
node_name_of identity = part identity 2
