-- ===== src/Target/Tests.antt =====
-- An instance of the theorem about targets: kind "k", type "t", groups "g" with the label's value.
use stable_placement.Base.{◌≡◌, refl, [], ◌∷◌, Text, Map, lookup, text_eq}
use stable_placement.Model.{ok}
use stable_placement.Samples.{of_byte}
use stable_placement.Identity.{
  validate_identity_part, new_node_identity, node_type_of, node_group_of,
}
use stable_placement.Target.{KindRouteConfig, NodeTarget, build_node_group}
use stable_placement.Target.Address.{build_node_group-addressable}

abbrev labels : Map Text
labels = (of_byte 0x6c, of_byte 0x31) ∷ []

abbrev routes : Map KindRouteConfig
routes =
    (
      of_byte 0x6b,
      record {
        node_type = of_byte 0x74;
        node_group_prefix = of_byte 0x67;
        group_id_label = of_byte 0x6c;
      },
    )
    ∷ []

abbrev built : NodeTarget
built = record { node_type = of_byte 0x74; node_group = 0x67 ∷ 0x31 ∷ [] }

build_node_group-addressable_example :
    (identity : Text) × (new_node_identity built.node_type built.node_group (of_byte 0x61)
      ≡ ok identity)
    × (node_type_of identity ≡ built.node_type)
    × (node_group_of identity ≡ built.node_group)
unfolding build_node_group validate_identity_part lookup text_eq
build_node_group-addressable_example =
    build_node_group-addressable (of_byte 0x6b) labels routes built (of_byte 0x61) refl refl
