-- ===== src/Target/Address.antt =====
-- A target that was built can be the address of nodes.
use stable_placement.Base.{◌≡◌, Text, Map, inl, inr, ◌++◌, ◌∷◌, arith}
use stable_placement.Model.{ok, Result-cases}
use stable_placement.Model.Lease.{max_identity_part_bytes}
use stable_placement.Identity.{
  separator, validate_identity_part, new_node_identity, node_type_of, node_group_of,
}
use stable_placement.Identity.Parts.{new_node_identity-parts}
use stable_placement.Target.{KindRouteConfig, NodeTarget, check_part, build_node_group}

check_part-ok :
    (value : Text)
    → check_part value ≡ ok tt
    → validate_identity_part value max_identity_part_bytes ≡ ok tt
unfolding check_part
check_part-ok value h = elim (Result-cases (validate_identity_part value max_identity_part_bytes)) [
  | inl (u, e) ↦ e
  | inr (x, e) ↦ absurd (ground arith)
]

build_node_group-parts :
    (kind : Text) (labels : Map Text) (routes : Map KindRouteConfig) (target : NodeTarget)
    → build_node_group kind labels routes ≡ ok target
    → (check_part target.node_type ≡ ok tt) × (check_part target.node_group ≡ ok tt)
unfolding build_node_group
build_node_group-parts kind labels routes target h = ground arith

identity_of_parts :
    (t g n : Text)
    → validate_identity_part t max_identity_part_bytes ≡ ok tt
    → validate_identity_part g max_identity_part_bytes ≡ ok tt
    → validate_identity_part n max_identity_part_bytes ≡ ok tt
    → (identity : Text) × (new_node_identity t g n ≡ ok identity)
unfolding new_node_identity
identity_of_parts t g n ht hg hn = (t ++ separator ∷ (g ++ separator ∷ n), ground arith)

-- A target that `BuildNodeGroup` answers, with any name that is valid, makes a node identity whose
-- type and group are the target's.
pub build_node_group-addressable :
    (kind : Text) (labels : Map Text) (routes : Map KindRouteConfig) (target : NodeTarget)
    (node_name : Text)
    → build_node_group kind labels routes ≡ ok target
    → validate_identity_part node_name max_identity_part_bytes ≡ ok tt
    → (identity : Text) × (new_node_identity target.node_type target.node_group node_name
        ≡ ok identity)
      × (node_type_of identity ≡ target.node_type)
      × (node_group_of identity ≡ target.node_group)
build_node_group-addressable kind labels routes target node_name h valid =
    let (t, g) = build_node_group-parts kind labels routes target h in
    let (identity, e) =
      identity_of_parts target.node_type target.node_group node_name (check_part-ok _ t)
        (check_part-ok _ g) valid in
    let (type_of, group_of, name_of) =
      new_node_identity-parts target.node_type target.node_group node_name identity e in
    (identity, e, type_of, group_of)
