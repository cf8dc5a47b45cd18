-- ===== src/Cache/Index.antt =====
-- The node index of the cache lists exactly the cached routes, after every call.
use stable_placement.Base.{
  ◌≡◌, refl, sym, subst, inl, inr, if◌then◌else◌, Bool, true, false, ◌&&◌, Option, none, some, [],
  ◌∷◌, Text, same, eq_of_same, Map, Set, lookup, insert, delete, member, lookup-insert,
  lookup-delete, Distinct, insert-Distinct, delete-Distinct, Bool-cases, Option-cases, arith,
}
use stable_placement.Model.{PlacementRoute}
use stable_placement.Registry.{names_of}
use stable_placement.Directory.{add_node_index, delete_node_index}
use stable_placement.Directory.Index.{indexed, indexed-add_node_index, indexed-delete_node_index}
use stable_placement.Cache.{
  PlacementCache, forget_key, set_cached_placement, delete_cached_placement, delete_keys,
  delete_cached_placements_by_node,
}

-- Whether the route, if there is one, leads to the node.
abbrev pub routed_to : Text → Option PlacementRoute → Bool
routed_to n none = false
routed_to n (some r) = same r.node_identity n

-- The index lists each cached route under its node and nothing else, a Go map has a key once, and a
-- degraded cache is empty.
pub record IsIndexed (c : PlacementCache) : Type 0 where
  pub index : (n k : Text) → indexed c.by_node n k ≡ routed_to n (lookup k c.entries)
  pub distinct : Distinct c.by_node
  pub empty : c.degraded ≡ true → (k : Text) → lookup k c.entries ≡ none

indexed-forget_key :
    (m : Map Set) (k n j n' : Text)
    → indexed (forget_key m k n) n' j ≡ (if same n n' && same k j then false else indexed m n' j)
unfolding forget_key member
indexed-forget_key m k n j n' = elim (Option-cases (lookup n m)) [
  | inl e ↦ elim (Bool-cases (same n n')) [
    | inl s ↦ let q : n ≡ n' = eq_of_same n n' s in ground arith
    | inr s ↦ ground arith
  ]
  | inr (keys, e) ↦ ground (arith, indexed-delete_node_index m n k n' j)
]

delete_node_index-Distinct :
    (m : Map Set) (n k : Text) → Distinct m → Distinct (delete_node_index m n k)
unfolding delete_node_index
delete_node_index-Distinct m n k d =
    ground (arith, delete-Distinct n m d, insert-Distinct n (delete k (names_of (lookup n m))) m d)

forget_key-Distinct : (m : Map Set) (k n : Text) → Distinct m → Distinct (forget_key m k n)
unfolding forget_key
forget_key-Distinct m k n d = ground (arith, delete_node_index-Distinct m n k d)

add_node_index-Distinct : (m : Map Set) (n k : Text) → Distinct m → Distinct (add_node_index m n k)
unfolding add_node_index
add_node_index-Distinct m n k d = insert-Distinct n (insert k tt (names_of (lookup n m))) m d

pub lookup-delete_keys :
    (keys : Set) (k : Text) (m : Map PlacementRoute)
    → lookup k (delete_keys keys m) ≡ (if member k keys then none else lookup k m)
unfolding delete_keys member
lookup-delete_keys [] k m = refl
lookup-delete_keys ((j, u) ∷ keys) k m =
    ground (arith, lookup-delete_keys keys k (delete j m), lookup-delete j k m)

set_degraded-same :
    (c : PlacementCache) (key : Text) (route : PlacementRoute)
    → c.degraded ≡ true
    → set_cached_placement c key route ≡ c
unfolding set_cached_placement
set_degraded-same c key route h = ground arith

index_of_set :
    (c : PlacementCache) (key : Text) (route : PlacementRoute) (n k : Text)
    → IsIndexed c
    → c.degraded ≡ false
    → indexed (set_cached_placement c key route).by_node n k
      ≡ routed_to n (lookup k (set_cached_placement c key route).entries)
unfolding set_cached_placement
index_of_set c key route n k v dg = elim (Bool-cases (same key k)) [
  | inl s ↦
      let q : key ≡ k = eq_of_same key k s in
      elim (Option-cases (lookup key c.entries)) [
        | inl e ↦ ground (
          arith,
          v.index n k,
          lookup-insert key k route c.entries,
          indexed-add_node_index c.by_node route.node_identity key n k,
        )
        | inr (old, e) ↦ ground (
          arith,
          v.index n k,
          lookup-insert key k route c.entries,
          indexed-add_node_index (forget_key c.by_node key old.node_identity) route.node_identity
              key n k,
          indexed-forget_key c.by_node key old.node_identity k n,
        )
      ]
  | inr s ↦ elim (Option-cases (lookup key c.entries)) [
    | inl e ↦ ground (
      arith,
      v.index n k,
      lookup-insert key k route c.entries,
      indexed-add_node_index c.by_node route.node_identity key n k,
    )
    | inr (old, e) ↦ ground (
      arith,
      v.index n k,
      lookup-insert key k route c.entries,
      indexed-add_node_index (forget_key c.by_node key old.node_identity) route.node_identity key n
          k,
      indexed-forget_key c.by_node key old.node_identity k n,
    )
  ]
]

pub set-IsIndexed :
    (c : PlacementCache) (key : Text) (route : PlacementRoute)
    → IsIndexed c
    → IsIndexed (set_cached_placement c key route)
unfolding set_cached_placement
set-IsIndexed c key route v = elim (Bool-cases c.degraded) [
  | inl dg ↦ subst IsIndexed (sym (set_degraded-same c key route dg)) v
  | inr dg ↦ elim (Option-cases (lookup key c.entries)) [
    | inl e ↦ record {
      index = λ n k. index_of_set c key route n k v dg;
      distinct =
          ground (arith, add_node_index-Distinct c.by_node route.node_identity key v.distinct);
      empty = λ h. absurd (ground arith);
    }
    | inr (old, e) ↦ record {
      index = λ n k. index_of_set c key route n k v dg;
      distinct = ground (
        arith,
        add_node_index-Distinct (forget_key c.by_node key old.node_identity) route.node_identity key
            (forget_key-Distinct c.by_node key old.node_identity v.distinct),
      );
      empty = λ h. absurd (ground arith);
    }
  ]
]

delete-absent :
    (c : PlacementCache) (key : Text)
    → lookup key c.entries ≡ none
    → delete_cached_placement c key ≡ c
unfolding delete_cached_placement
delete-absent c key h = ground arith

same_comm : (a b : Text) → same a b ≡ same b a
same_comm a b = ground arith

pub delete-IsIndexed :
    (c : PlacementCache) (key : Text) → IsIndexed c → IsIndexed (delete_cached_placement c key)
unfolding delete_cached_placement
delete-IsIndexed c key v = elim (Option-cases (lookup key c.entries)) [
  | inl e ↦ subst IsIndexed (sym (delete-absent c key e)) v
  | inr (old, e) ↦ record {
    index = λ n k. elim (Bool-cases (same key k)) [
      | inl s ↦
          let q : key ≡ k = eq_of_same key k s in
          ground (
            arith,
            v.index n k,
            lookup-delete key k c.entries,
            indexed-forget_key c.by_node key old.node_identity k n,
          )
      | inr s ↦ ground (
        arith,
        v.index n k,
        lookup-delete key k c.entries,
        indexed-forget_key c.by_node key old.node_identity k n,
      )
    ];
    distinct = ground (arith, forget_key-Distinct c.by_node key old.node_identity v.distinct);
    empty = λ h k.
        let g : c.degraded ≡ true = ground arith in
        ground (arith, v.empty g k, lookup-delete key k c.entries);
  }
]

pub by_node-IsIndexed :
    (c : PlacementCache) (identity : Text)
    → IsIndexed c
    → IsIndexed (delete_cached_placements_by_node c identity)
unfolding delete_cached_placements_by_node member
by_node-IsIndexed c identity v = record {
  index = λ n k.
      let at = lookup-delete_keys (names_of (lookup identity c.by_node)) k c.entries in
      elim (Bool-cases (same identity n)) [
        | inl s ↦
            let q : identity ≡ n = eq_of_same identity n s in
            ground (arith, at, v.index n k, lookup-delete identity n c.by_node)
        | inr s ↦ elim (Option-cases (lookup k c.entries)) [
          | inl e ↦ ground (arith, at, v.index n k, lookup-delete identity n c.by_node)
          | inr (r, e) ↦ elim (Bool-cases (same r.node_identity n)) [
            | inl t ↦
                let q : r.node_identity ≡ n = eq_of_same r.node_identity n t in
                ground (
                  arith,
                  at,
                  v.index n k,
                  v.index identity k,
                  lookup-delete identity n c.by_node,
                  same_comm identity n,
                )
            | inr t ↦ ground (arith, at, v.index n k, lookup-delete identity n c.by_node)
          ]
        ]
      ];
  distinct = delete-Distinct identity c.by_node v.distinct;
  empty = λ h k.
      ground
        (arith, v.empty h k, lookup-delete_keys (names_of (lookup identity c.by_node)) k c.entries);
}
