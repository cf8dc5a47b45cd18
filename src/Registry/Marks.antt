-- ===== src/Registry/Marks.antt =====
-- The invalid marks: they are kept by group and name, and act by node identity.
use stable_placement.Base.{
  ◌≡◌, refl, sym, ap, subst, ◌∙◌, inl, inr, if◌then◌else◌, Bool, true, false, not, ◌&&◌, ◌||◌, ◌==◌,
  Option, [], ◌∷◌, ◌++◌, ℕ, Text, same, eq_of_same, same_refl, lookup, insert, delete, member, size,
  lookup-insert, lookup-delete, member-insert, member-delete, member_of_size, Map, Set, Bool-cases,
  arith,
}
use stable_placement.Model.{ok, Publisher}
use stable_placement.Identity.{new_node_identity, separator}
use stable_placement.Identity.Parts.{new_node_identity-parts}
use stable_placement.Registry.{NodeRegistry, is_invalid, group_key, names_of}
use stable_placement.Registry.Lifecycle.{mark_node_invalid, restore_node}

marked : Map Set → Text → Text → Bool
marked m key name = member name (names_of (lookup key m))

marked-insert :
    (m : Map Set) (key name key' name' : Text)
    → marked (insert key (insert name tt (names_of (lookup key m))) m) key' name'
      ≡ (same key key' && same name name' || marked m key' name')
unfolding marked
marked-insert m key name key' name' = elim (Bool-cases (same key key')) [
  | inl s ↦
      let q : key ≡ key' = eq_of_same key key' s in
      ground (
        arith,
        lookup-insert key key' (insert name tt (names_of (lookup key m))) m,
        member-insert name name' tt (names_of (lookup key m)),
      )
  | inr s ↦ ground (arith, lookup-insert key key' (insert name tt (names_of (lookup key m))) m)
]

-- The set of the group without the name, dropped where it is empty.
left : Map Set → Text → Text → Map Set
left m key name =
    let names = delete name (names_of (lookup key m)) in
    if size names == 0 then delete key m else insert key names m

marked-left :
    (m : Map Set) (key name key' name' : Text)
    → marked (left m key name) key' name'
      ≡ (if same key key' && same name name' then false else marked m key' name')
unfolding marked left member
marked-left m key name key' name' =
    let names = delete name (names_of (lookup key m)) in
    elim (Bool-cases (size names == 0)) [
      | inl z ↦
          let gone : member name' names ≡ false = member_of_size names (ground arith) name' in
          elim (Bool-cases (same key key')) [
            | inl s ↦
                let q : key ≡ key' = eq_of_same key key' s in
                ground (
                  arith,
                  lookup-delete key key' m,
                  member-delete name name' (names_of (lookup key m)),
                )
            | inr s ↦ ground (arith, lookup-delete key key' m)
          ]
      | inr z ↦ elim (Bool-cases (same key key')) [
        | inl s ↦
            let q : key ≡ key' = eq_of_same key key' s in
            ground (
              arith,
              lookup-insert key key' names m,
              member-delete name name' (names_of (lookup key m)),
            )
        | inr s ↦ ground (arith, lookup-insert key key' names m)
      ]
    ]

append_group :
    (t g n : Text) → t ++ separator ∷ (g ++ separator ∷ n) ≡ (t ++ separator ∷ g) ++ separator ∷ n
append_group [] g n = refl
append_group (b ∷ t) g n = ap (◌∷◌ b) (append_group t g n)

identity_text :
    (t g n i : Text) → new_node_identity t g n ≡ ok i → i ≡ group_key t g ++ separator ∷ n
unfolding new_node_identity group_key
identity_text t g n i h =
    let q : t ++ separator ∷ (g ++ separator ∷ n) ≡ i = ground arith in sym q ∙ append_group t g n

-- The group and the name that a mark is kept under are those of the identity.
same-identity :
    (t g n t' g' n' i i' : Text)
    → new_node_identity t g n ≡ ok i
    → new_node_identity t' g' n' ≡ ok i'
    → (same (group_key t g) (group_key t' g') && same n n') ≡ same i i'
same-identity t g n t' g' n' i i' h h' = elim (Bool-cases (same i i')) [
  | inl s ↦
      let q : i ≡ i' = eq_of_same i i' s in
      let (a, b, c) = new_node_identity-parts t g n i h in
      let (a', b', c') = new_node_identity-parts t' g' n' i' h' in
      let et : t ≡ t' = cc in
      let eg : g ≡ g' = cc in
      let en : n ≡ n' = cc in ground (arith, same_refl (group_key t' g'), same_refl n')
  | inr s ↦ elim (Bool-cases (same (group_key t g) (group_key t' g') && same n n')) [
    | inl e ↦
        let ek : group_key t g ≡ group_key t' g' = eq_of_same _ _ (ground arith) in
        let en : n ≡ n' = eq_of_same n n' (ground arith) in
        let ei : i ≡ i' =
          identity_text t g n i h
          ∙ (ap (λ k. k ++ separator ∷ n) ek
              ∙ (ap (λ m. group_key t' g' ++ separator ∷ m) en
                  ∙ sym (identity_text t' g' n' i' h'))) in
        let both : same i i' ≡ true = subst (λ x. same i x ≡ true) ei (same_refl i) in
        absurd (ground arith)
    | inr e ↦ ground arith
  ]
]

unless_same : (a b c : Bool) → a ≡ b → (if a then false else c) ≡ (not b && c)
unless_same a b c h = ground arith

mark-invalid :
    (r : NodeRegistry) (p : Option Publisher) (t g n i : Text) (now : ℕ)
    → new_node_identity t g n ≡ ok i
    → (mark_node_invalid r p t g n now).state.invalid
      ≡ insert (group_key t g) (insert n tt (names_of (lookup (group_key t g) r.invalid))) r.invalid
unfolding mark_node_invalid
mark-invalid r p t g n i now h = ground arith

restore-invalid :
    (r : NodeRegistry) (p : Option Publisher) (t g n i : Text) (now : ℕ)
    → new_node_identity t g n ≡ ok i
    → (restore_node r p t g n now).state.invalid ≡ left r.invalid (group_key t g) n
unfolding restore_node left
restore-invalid r p t g n i now h = ground arith

-- Marking a node invalid marks the node of that identity and no other, and restoring it takes the
-- mark from the node of that identity and from no other: for any two names that make node
-- identities, the marks after the call are those before it but for that node.
pub marks_exact :
    (r : NodeRegistry) (p : Option Publisher) (t g n t' g' n' i i' : Text) (now : ℕ)
    → new_node_identity t g n ≡ ok i
    → new_node_identity t' g' n' ≡ ok i'
    → (is_invalid (mark_node_invalid r p t g n now).state t' g' n'
        ≡ (same i i' || is_invalid r t' g' n'))
      × (is_invalid (restore_node r p t g n now).state t' g' n'
          ≡ (not (same i i') && is_invalid r t' g' n'))
unfolding is_invalid marked
marks_exact r p t g n t' g' n' i i' now h h' =
    let one = same-identity t g n t' g' n' i i' h h' in
    let marks = marked-insert r.invalid (group_key t g) n (group_key t' g') n' in
    let restores = marked-left r.invalid (group_key t g) n (group_key t' g') n' in
    (
      ap (λ m. member n' (names_of (lookup (group_key t' g') m))) (mark-invalid r p t g n i now h)
          ∙ (marks ∙ ap (λ b. b || is_invalid r t' g' n') one),
      ap (λ m. member n' (names_of (lookup (group_key t' g') m)))
            (restore-invalid r p t g n i now h)
          ∙ (restores ∙ unless_same _ _ _ one),
    )
