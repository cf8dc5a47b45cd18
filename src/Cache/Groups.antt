-- ===== src/Cache/Groups.antt =====
-- Dropping a group: the index loses the nodes with the prefix, the entries lose their routes.
use stable_placement.Base.{
  ◌≡◌, refl, inl, inr, if◌then◌else◌, Bool, true, false, not, ◌&&◌, ◌||◌, Option, none, some, [],
  ◌∷◌, Text, same, eq_of_same, same_refl, Map, Set, lookup, member, select, Distinct, Bool-cases,
  Option-cases, arith,
}
use stable_placement.Model.{PlacementRoute}
use stable_placement.Cache.Index.{routed_to, lookup-delete_keys, IsIndexed}
use stable_placement.Directory.Index.{indexed}
use stable_placement.Cache.{
  PlacementCache, delete_keys, has_prefix, delete_prefixed, group_prefix,
  delete_cached_placements_by_group,
}

-- Whether the route, if there is one, leads to a node whose identity has the prefix.
abbrev pub has_prefix_of : Text → Option PlacementRoute → Bool
has_prefix_of prefix none = false
has_prefix_of prefix (some r) = has_prefix r.node_identity prefix

-- Whether one of the groups' nodes has the key.
prefixed : Text → Map Set → Text → Bool
unfolding has_prefix member
prefixed prefix [] k = false
prefixed prefix ((n, keys) ∷ m) k = has_prefix n prefix && member k keys || prefixed prefix m k

lookup-delete_prefixed :
    (prefix : Text) (m : Map Set) (k : Text) (es : Map PlacementRoute)
    → lookup k (delete_prefixed prefix m es) ≡ (if prefixed prefix m k then none else lookup k es)
unfolding delete_prefixed prefixed
lookup-delete_prefixed prefix [] k es = refl
lookup-delete_prefixed prefix ((n, keys) ∷ m) k es = elim (Bool-cases (has_prefix n prefix)) [
  | inl e ↦
      ground (
        arith,
        lookup-delete_prefixed prefix m k (delete_keys keys es),
        lookup-delete_keys keys k es,
      )
  | inr e ↦ ground (arith, lookup-delete_prefixed prefix m k es)
]

indexed-select :
    (prefix : Text) (m : Map Set) (n k : Text)
    → indexed (select (λ e. not (has_prefix e.0 prefix)) m) n k
      ≡ (if has_prefix n prefix then false else indexed m n k)
unfolding select member lookup
indexed-select prefix [] n k = ground arith
indexed-select prefix ((j, keys) ∷ m) n k = elim (Bool-cases (same j n)) [
  | inl s ↦ let q : j ≡ n = eq_of_same j n s in ground (arith, indexed-select prefix m n k)
  | inr s ↦ ground (arith, indexed-select prefix m n k)
]

member-select :
    (p : Text × Set → Bool) (n : Text) (m : Map Set)
    → member n m ≡ false
    → member n (select p m) ≡ false
unfolding select member
member-select p n [] h = refl
member-select p n ((j, keys) ∷ m) h = ground (arith, member-select p n m)

select-Distinct : (p : Text × Set → Bool) (m : Map Set) → Distinct m → Distinct (select p m)
unfolding select
select-Distinct p [] d = tt
select-Distinct p ((j, keys) ∷ m) d = ground (arith, member-select p j m, select-Distinct p m d.1)

prefixed_of_indexed :
    (prefix : Text) (m : Map Set) (n k : Text)
    → indexed m n k ≡ true
    → has_prefix n prefix ≡ true
    → prefixed prefix m k ≡ true
unfolding prefixed lookup member
prefixed_of_indexed prefix [] n k h e = cc
prefixed_of_indexed prefix ((j, keys) ∷ m) n k h e = elim (Bool-cases (same j n)) [
  | inl s ↦ let q : j ≡ n = eq_of_same j n s in ground arith
  | inr s ↦ ground (arith, prefixed_of_indexed prefix m n k)
]

indexed-absent : (m : Map Set) (n k : Text) → member n m ≡ false → indexed m n k ≡ false
unfolding lookup member
indexed-absent [] n k h = refl
indexed-absent ((j, keys) ∷ m) n k h = ground (arith, indexed-absent m n k)

indexed_of_prefixed :
    (prefix : Text) (m : Map Set) (k : Text)
    → Distinct m
    → prefixed prefix m k ≡ true
    → (n : Text) × (indexed m n k ≡ true) × (has_prefix n prefix ≡ true)
unfolding prefixed lookup
indexed_of_prefixed prefix [] k d h = cc
indexed_of_prefixed prefix ((j, keys) ∷ m) k d h =
    elim (Bool-cases (has_prefix j prefix && member k keys)) [
      | inl e ↦ (j, ground (arith, same_refl j), ground arith)
      | inr e ↦
          let (n, at, px) = indexed_of_prefixed prefix m k d.1 (ground arith) in
          (
            n,
            elim (Bool-cases (same j n)) [
              | inl s ↦
                  let q : j ≡ n = eq_of_same j n s in absurd (ground (arith, indexed-absent m n k))
              | inr s ↦ ground arith
            ],
            px,
          )
    ]

-- Where the index agrees, the loop over the groups deletes the routes to nodes with the prefix.
prefixed-routed :
    (c : PlacementCache) (prefix k : Text)
    → IsIndexed c
    → prefixed prefix c.by_node k ≡ has_prefix_of prefix (lookup k c.entries)
prefixed-routed c prefix k v = elim (Option-cases (lookup k c.entries)) [
  | inl e ↦ elim (Bool-cases (prefixed prefix c.by_node k)) [
    | inl p ↦
        let (n, at, px) = indexed_of_prefixed prefix c.by_node k v.distinct p in
        absurd (ground (arith, v.index n k))
    | inr p ↦ ground arith
  ]
  | inr (r, e) ↦ elim (Bool-cases (prefixed prefix c.by_node k)) [
    | inl p ↦
        let (n, at, px) = indexed_of_prefixed prefix c.by_node k v.distinct p in
        let s : same r.node_identity n ≡ true = ground (arith, v.index n k) in
        let q : r.node_identity ≡ n = eq_of_same r.node_identity n s in ground arith
    | inr p ↦ ground (
      arith,
      v.index r.node_identity k,
      same_refl r.node_identity,
      prefixed_of_indexed prefix c.by_node r.node_identity k,
    )
  ]
]

pub lookup-by_group :
    (c : PlacementCache) (node_type node_group k : Text)
    → IsIndexed c
    → lookup k (delete_cached_placements_by_group c node_type node_group).entries ≡ (
        if has_prefix_of (group_prefix node_type node_group) (lookup k c.entries)
        then none
        else lookup k c.entries)
unfolding delete_cached_placements_by_group
lookup-by_group c node_type node_group k v =
    let prefix = group_prefix node_type node_group in
    ground
      (arith, lookup-delete_prefixed prefix c.by_node k c.entries, prefixed-routed c prefix k v)

index_of_by_group :
    (c : PlacementCache) (node_type node_group n k : Text)
    → IsIndexed c
    → indexed (delete_cached_placements_by_group c node_type node_group).by_node n k
      ≡ routed_to n (lookup k (delete_cached_placements_by_group c node_type node_group).entries)
unfolding delete_cached_placements_by_group
index_of_by_group c node_type node_group n k v =
    let prefix = group_prefix node_type node_group in
    elim (Option-cases (lookup k c.entries)) [
      | inl e ↦ ground (
        arith,
        lookup-by_group c node_type node_group k v,
        indexed-select prefix c.by_node n k,
        v.index n k,
      )
      | inr (r, e) ↦ elim (Bool-cases (same r.node_identity n)) [
        | inl s ↦
            let q : r.node_identity ≡ n = eq_of_same r.node_identity n s in
            ground (
              arith,
              lookup-by_group c node_type node_group k v,
              indexed-select prefix c.by_node n k,
              v.index n k,
            )
        | inr s ↦ ground (
          arith,
          lookup-by_group c node_type node_group k v,
          indexed-select prefix c.by_node n k,
          v.index n k,
        )
      ]
    ]

by_group-Distinct :
    (c : PlacementCache) (node_type node_group : Text)
    → Distinct c.by_node
    → Distinct (delete_cached_placements_by_group c node_type node_group).by_node
unfolding delete_cached_placements_by_group
by_group-Distinct c node_type node_group d = select-Distinct _ c.by_node d

empty_of_by_group :
    (c : PlacementCache) (node_type node_group k : Text)
    → IsIndexed c
    → (delete_cached_placements_by_group c node_type node_group).degraded ≡ true
    → lookup k (delete_cached_placements_by_group c node_type node_group).entries ≡ none
unfolding delete_cached_placements_by_group
empty_of_by_group c node_type node_group k v h =
    let g : lookup k c.entries ≡ none = v.empty h k in
    ground (arith, lookup-by_group c node_type node_group k v)

pub by_group-IsIndexed :
    (c : PlacementCache) (node_type node_group : Text)
    → IsIndexed c
    → IsIndexed (delete_cached_placements_by_group c node_type node_group)
by_group-IsIndexed c node_type node_group v =
    let prefix = group_prefix node_type node_group in
    record {
      index = λ n k. index_of_by_group c node_type node_group n k v;
      distinct = by_group-Distinct c node_type node_group v.distinct;
      empty = λ h k. empty_of_by_group c node_type node_group k v h;
    }
