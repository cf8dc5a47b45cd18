-- ===== src/Identity/Tests.antt =====
-- Runs of the operations on names, and the instances of the theorems about them.
use stable_placement.Base.{◌≡◌, ◌<◌, ◌≤◌, refl, false, length, text}
use stable_placement.Identity.Utf8.{contains}
use stable_placement.Identity.Parts.{
  new_grain_key-injective, new_node_identity-parts, validate_identity_part_bytes,
}
use stable_placement.Samples.{of_byte, id_a, key_x}
use stable_placement.Model.{ok, err, Error}
use stable_placement.Identity.{
  new_node_identity, new_grain_key, node_type_of, node_group_of, node_name_of, part,
  validate_identity_part, is_reserved,
}

group_of_identity : node_group_of (text "game/default/n1") ≡ text "default"
unfolding part text
group_of_identity = refl

identity_of_parts :
    new_node_identity (text "game") (text "default") (text "n1") ≡ ok (text "game/default/n1")
unfolding new_node_identity text
identity_of_parts = refl

separator_in_kind : new_grain_key (text "a/b") (text "c") ≡ err Error.value_reserved
unfolding new_grain_key text
separator_in_kind = refl

trailing_space : new_grain_key (text "a ") (text "c") ≡ err Error.value_whitespace
unfolding new_grain_key text
trailing_space = refl

new_grain_key-injective_example : (of_byte 0x6b ≡ of_byte 0x6b) × (of_byte 0x78 ≡ of_byte 0x78)
unfolding new_grain_key
new_grain_key-injective_example =
    new_grain_key-injective (of_byte 0x6b) (of_byte 0x78) (of_byte 0x6b) (of_byte 0x78) key_x refl
      refl

new_node_identity-parts_example :
    (node_type_of id_a ≡ of_byte 0x74)
    × (node_group_of id_a ≡ of_byte 0x67)
    × (node_name_of id_a ≡ of_byte 0x61)
unfolding new_node_identity
new_node_identity-parts_example =
    new_node_identity-parts (of_byte 0x74) (of_byte 0x67) (of_byte 0x61) id_a refl

validate_identity_part_bytes_example :
    (contains 0x2f (of_byte 0x61) ≡ false)
    × (0 < length (of_byte 0x61))
    × (length (of_byte 0x61) ≤ 128)
unfolding validate_identity_part is_reserved
validate_identity_part_bytes_example =
    validate_identity_part_bytes (of_byte 0x61) 128 0x2f refl refl
