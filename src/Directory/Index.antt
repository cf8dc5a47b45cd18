-- ===== src/Directory/Index.antt =====
-- The index from nodes to grains agrees with the placements, and every method keeps it so.
use stable_placement.Base.{
  ℕ, ◌≡◌, inl, inr, ◌==◌, if◌then◌else◌, Bool, true, false, ◌&&◌, ◌||◌, Option, none, some, Text,
  same, eq_of_same, Map, Set, lookup, insert, delete, member, size, lookup-insert, lookup-delete,
  member-insert, member-delete, member_of_size, Bool-cases, Option-cases, arith,
}
use stable_placement.Model.{Node, Placement, is_active}
use stable_placement.Directory.Resolve.{place}
use stable_placement.Registry.{names_of}
use stable_placement.Directory.{Directory, add_node_index, delete_node_index, move_placement, moved}

-- Whether the index has the grain under the node.
abbrev pub indexed : Map Set → Text → Text → Bool
indexed m identity key = member key (names_of (lookup identity m))

pub indexed-add_node_index :
    (m : Map Set) (n k n' k' : Text)
    → indexed (add_node_index m n k) n' k' ≡ (same n n' && same k k' || indexed m n' k')
unfolding add_node_index
indexed-add_node_index m n k n' k' = elim (Bool-cases (same n n')) [
  | inl e ↦
      let q : n ≡ n' = eq_of_same n n' e in
      ground (
        arith,
        lookup-insert n n' (insert k tt (names_of (lookup n m))) m,
        member-insert k k' tt (names_of (lookup n m)),
      )
  | inr e ↦ ground (arith, lookup-insert n n' (insert k tt (names_of (lookup n m))) m)
]

pub indexed-delete_node_index :
    (m : Map Set) (n k n' k' : Text)
    → indexed (delete_node_index m n k) n' k'
      ≡ (if same n n' && same k k' then false else indexed m n' k')
unfolding delete_node_index member
indexed-delete_node_index m n k n' k' =
    let keys = delete k (names_of (lookup n m)) in
    elim (Bool-cases (size keys == 0)) [
      | inl z ↦
          let gone : member k' keys ≡ false = member_of_size keys (ground arith) k' in
          elim (Bool-cases (same n n')) [
            | inl e ↦
                let q : n ≡ n' = eq_of_same n n' e in
                ground (arith, lookup-delete n n' m, member-delete k k' (names_of (lookup n m)))
            | inr e ↦ ground (arith, lookup-delete n n' m)
          ]
      | inr z ↦ elim (Bool-cases (same n n')) [
        | inl e ↦
            let q : n ≡ n' = eq_of_same n n' e in
            ground (arith, lookup-insert n n' keys m, member-delete k k' (names_of (lookup n m)))
        | inr e ↦ ground (arith, lookup-insert n n' keys m)
      ]
    ]

-- Whether the placement, if there is one, is on the node.
abbrev pub owned_by : Text → Option Placement → Bool
owned_by n none = false
owned_by n (some p) = same p.node_identity n

-- Placements are stored under their grain key and are active, and the index lists exactly them, each
-- under its owner.
pub record IsConsistent (d : Directory) : Type 0 where
  pub keyed :
      (k : Text) (p : Placement)
      → lookup k d.placements ≡ some p
      → (p.grain_key ≡ k) × (is_active p.status ≡ true)
  pub index : (n k : Text) → indexed d.by_node n k ≡ owned_by n (lookup k d.placements)

pub move-IsConsistent :
    (d : Directory) (p : Placement) (k : Text) (target : Node) (now : ℕ)
    → lookup k d.placements ≡ some p
    → IsConsistent d
    → IsConsistent (move_placement d p target now)
unfolding move_placement moved
move-IsConsistent d p k target now h v =
    let e : p.grain_key ≡ k = (v.keyed k p h).0 in
    record {
      keyed = λ j q g. elim (Bool-cases (same p.grain_key j)) [
        | inl s ↦
            let jq : p.grain_key ≡ j = eq_of_same p.grain_key j s in
            ground (arith, lookup-insert p.grain_key j (moved p target now) d.placements)
        | inr s ↦
            v.keyed j q
              (ground (arith, lookup-insert p.grain_key j (moved p target now) d.placements))
      ];
      index = λ n j. ground (
        arith,
        v.index n j,
        indexed-add_node_index (delete_node_index d.by_node p.node_identity p.grain_key)
            target.node_identity p.grain_key n j,
        indexed-delete_node_index d.by_node p.node_identity p.grain_key n j,
        lookup-insert p.grain_key j (moved p target now) d.placements,
      );
    }

pub place-IsConsistent :
    (d : Directory) (p : Placement)
    → is_active p.status ≡ true
    → IsConsistent d
    → IsConsistent (place d (lookup p.grain_key d.placements) p)
unfolding place
place-IsConsistent d p active v = record {
  keyed = λ j q g. elim (Bool-cases (same p.grain_key j)) [
    | inl s ↦
        let jq : p.grain_key ≡ j = eq_of_same p.grain_key j s in
        ground (arith, lookup-insert p.grain_key j p d.placements)
    | inr s ↦ v.keyed j q (ground (arith, lookup-insert p.grain_key j p d.placements))
  ];
  index = λ n j. elim (Option-cases (lookup p.grain_key d.placements)) [
    | inl e ↦ ground (
      arith,
      v.index n j,
      indexed-add_node_index d.by_node p.node_identity p.grain_key n j,
      lookup-insert p.grain_key j p d.placements,
    )
    | inr (o, e) ↦ ground (
      arith,
      v.index n j,
      indexed-add_node_index (delete_node_index d.by_node o.node_identity p.grain_key)
          p.node_identity p.grain_key n j,
      indexed-delete_node_index d.by_node o.node_identity p.grain_key n j,
      lookup-insert p.grain_key j p d.placements,
    )
  ];
}
