-- ===== src/Strategy/Best.antt =====
-- The resource-aware choice is the best one.
use stable_placement.Base.{
  ℕ, zero, suc, ◌+◌, ◌%◌, ◌^◌, ◌<◌, ◌≤◌, ◌≡◌, ◌≢◌, refl, sym, ap, subst, ◌∙◌, true, false, Option,
  none, some, List, [], ◌∷◌, length, get_elem?, select, sort, before_asym, before_negtrans, All,
  All-imp, All-get_elem?, select-All, ap, length-sort, sort-All_rev, ◌⊎◌, All-map, sort-All,
  sort-Least, Least, Bool-cases, inl, inr, arith,
}
use stable_placement.Model.{Result, ok, err, Error, Node}
use native.Mathlib.Nat.{mod-lt}
use stable_placement.Model.Lease.{unix_milli}
use stable_placement.Strategy.{StrategyInput}
use stable_placement.Strategy.ResourceAware.{
  ResourceAwareConfig, ResourceCandidate, better, tied, compare_resource_candidates, candidate_of,
  usable, candidate_before, count_tied, candidates, choose_sorted, resource_choose, is_tied,
  by_comparison,
}

candidate_before_asym :
    (a b : ResourceCandidate) → candidate_before a b ≡ true → candidate_before b a ≡ false
unfolding candidate_before compare_resource_candidates
candidate_before_asym a b h = ground (arith, before_asym a.node.node_identity b.node.node_identity)

candidate_before_negtrans :
    (a b c : ResourceCandidate)
    → candidate_before a b ≡ false
    → candidate_before b c ≡ false
    → candidate_before a c ≡ false
unfolding candidate_before compare_resource_candidates
candidate_before_negtrans a b c h g =
    ground (arith, before_negtrans a.node.node_identity b.node.node_identity c.node.node_identity)

tied_with_self : (a : ResourceCandidate) → compare_resource_candidates a a ≡ tied
unfolding compare_resource_candidates
tied_with_self a = ground arith

tied_prefix :
    (first : ResourceCandidate) (rest : List ResourceCandidate) (i : ℕ) (k : ResourceCandidate)
    → i < count_tied first rest
    → get_elem? rest i ≡ some k
    → compare_resource_candidates first k ≡ tied
unfolding count_tied is_tied
tied_prefix first [] i k lt h = cc
tied_prefix first (c ∷ cs) zero k lt h = ground arith
tied_prefix first (c ∷ cs) (suc i) k lt h = ground (arith, tied_prefix first cs i k)

tied_index :
    (first : ResourceCandidate) (rest : List ResourceCandidate) (i : ℕ) (k : ResourceCandidate)
    → i < suc (count_tied first rest)
    → get_elem? (first ∷ rest) i ≡ some k
    → compare_resource_candidates first k ≡ tied
tied_index first rest zero k lt h =
    let q : first ≡ k = cc in
    subst (λ x. compare_resource_candidates first x ≡ tied) q (tied_with_self first)
tied_index first rest (suc i) k lt h = tied_prefix first rest i k (omega arith) h

-- Nothing is better than a candidate that is tied with the first.
not_better :
    (first k x : ResourceCandidate)
    → compare_resource_candidates first k ≡ tied
    → candidate_before x first ≡ false
    → compare_resource_candidates x k ≢ better
unfolding compare_resource_candidates candidate_before by_comparison
not_better first k x t h e = ground arith

first_not_before : (first : ResourceCandidate) → candidate_before first first ≡ false
first_not_before first = elim (Bool-cases (candidate_before first first)) [
  | inl e ↦ ground (arith, candidate_before_asym first first e)
  | inr e ↦ e
]

get_elem?-total :
    {A : Type 0} (xs : List A) (i : ℕ) → i < length xs → (x : A) × (get_elem? xs i ≡ some x)
get_elem?-total [] i h = absurd (omega arith)
get_elem?-total (x ∷ xs) zero h = (x, refl)
get_elem?-total (x ∷ xs) (suc i) h = get_elem?-total xs i (omega arith)

count_tied-le :
    (first : ResourceCandidate) (rest : List ResourceCandidate)
    → count_tied first rest ≤ length rest
unfolding count_tied
count_tied-le first [] = omega arith
count_tied-le first (c ∷ cs) = ground (arith, count_tied-le first cs)

-- The chosen candidate is one of a sorted list, and none of the list is better.
IsChosen : ResourceCandidate → List ResourceCandidate → Type 0
IsChosen k sorted =
    ((i : ℕ) × (get_elem? sorted i ≡ some k))
    × All (λ x. compare_resource_candidates x k ≢ better) sorted

choose_sorted_at :
    (next : ℕ) (first : ResourceCandidate) (rest : List ResourceCandidate) (k : ResourceCandidate)
    → get_elem? (first ∷ rest) (next % suc (count_tied first rest)) ≡ some k
    → choose_sorted next (first ∷ rest) ≡ ((next + 1) % 2 ^ 64, ok k.node)
unfolding choose_sorted
choose_sorted_at next first rest k h =
    ap {A = Option ResourceCandidate} {B = ℕ × Result Node}
      (λ m. elim m [
        | none ↦ (next, err Error.index_out_of_range)
        | some c ↦ ((next + 1) % 2 ^ 64, ok c.node)
      ])
      h

choose_sorted_best :
    (next : ℕ) (first : ResourceCandidate) (rest : List ResourceCandidate)
    → Least candidate_before (first ∷ rest)
    → (k : ResourceCandidate) × (choose_sorted next (first ∷ rest)
        ≡ ((next + 1) % 2 ^ 64, ok k.node))
      × IsChosen k (first ∷ rest)
unfolding IsChosen
choose_sorted_best next first rest least =
    let i = next % suc (count_tied first rest) in
    let lt : i < suc (count_tied first rest) = mod-lt next (omega arith) in
    let (k, at) = get_elem?-total (first ∷ rest) i (omega (arith, lt, count_tied-le first rest)) in
    let t = tied_index first rest i k lt at in
    (
      k,
      choose_sorted_at next first rest k at,
      (
        (i, at),
        (
          not_better first k first t (first_not_before first),
          All-imp (λ x h. not_better first k x t h) rest least,
        ),
      ),
    )

-- What every candidate satisfies.
candidates-All :
    (c : ResourceAwareConfig) (input : StrategyInput) (now : ℕ)
    → All
        (λ k.
          (k ≡ candidate_of input.placement_counts k.node)
          × (usable c k.node.metrics (unix_milli now) ≡ true))
        (candidates c input now)
unfolding candidates candidate_of
candidates-All c input now = All-map _ (candidate_of input.placement_counts) _ (
    All-imp (λ n h. (refl, h))
      (select (λ n. usable c n.metrics (unix_milli now)) input.effective_nodes)
      (select-All (λ n. usable c n.metrics (unix_milli now)) input.effective_nodes))

Found : ℕ → ResourceAwareConfig → StrategyInput → ℕ → Type 0
Found next c input now =
    ((length (candidates c input now) ≡ 0)
      × (resource_choose next c input now ≡ (next, err Error.no_available_node)))
    ⊎ ((n : Node) × (resource_choose next c input now ≡ ((next + 1) % 2 ^ 64, ok n))
        × (usable c n.metrics (unix_milli now) ≡ true)
        × All (λ x. compare_resource_candidates x (candidate_of input.placement_counts n) ≢ better)
            (candidates c input now))

-- The same of a list already sorted.
best_of_sorted :
    (next : ℕ) (c : ResourceAwareConfig) (input : StrategyInput) (now : ℕ)
    (sorted : List ResourceCandidate)
    → sort candidate_before (candidates c input now) ≡ sorted
    → Least candidate_before sorted
    → Found next c input now
unfolding resource_choose IsChosen choose_sorted Found
best_of_sorted next c input now [] e least = inl (
  sym (length-sort candidate_before (candidates c input now)) ∙ ap length e,
  ap (choose_sorted next) e,
)
best_of_sorted next c input now (first ∷ rest) e least =
    let (k, chosen, ((i, at), best)) = choose_sorted_best next first rest least in
    let cs = candidates c input now in
    let P = λ (x : ResourceCandidate).
      (x ≡ candidate_of input.placement_counts x.node)
      × (usable c x.node.metrics (unix_milli now) ≡ true) in
    let facts = sort-All candidate_before P cs (candidates-All c input now) in
    let (same_k, fits) = All-get_elem? P (first ∷ rest) i k (subst (All P) e facts) at in
    let Q = λ (y x : ResourceCandidate). compare_resource_candidates x y ≢ better in
    inr (
      k.node,
      ap (choose_sorted next) e ∙ chosen,
      fits,
      subst (λ y. All (Q y) cs) same_k
          (sort-All_rev candidate_before (Q k) cs (subst (All (Q k)) (sym e) best)),
    )

-- With no usable node the choice fails and leaves the counter. Otherwise it answers a usable node
-- and advances the counter by one modulo 2^64, and no candidate compares as better than the
-- candidate of that node.
pub resource_choose_best :
    (next : ℕ) (c : ResourceAwareConfig) (input : StrategyInput) (now : ℕ)
    → ((length (candidates c input now) ≡ 0)
        × (resource_choose next c input now ≡ (next, err Error.no_available_node)))
      ⊎ ((n : Node) × (resource_choose next c input now ≡ ((next + 1) % 2 ^ 64, ok n))
          × (usable c n.metrics (unix_milli now) ≡ true)
          × All
              (λ x. compare_resource_candidates x (candidate_of input.placement_counts n) ≢ better)
              (candidates c input now))
unfolding Found
resource_choose_best next c input now =
    best_of_sorted next c input now (sort candidate_before (candidates c input now)) refl (
      sort-Least candidate_before candidate_before_asym candidate_before_negtrans
        (candidates c input now))
