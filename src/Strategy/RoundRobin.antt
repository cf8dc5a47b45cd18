-- ===== src/Strategy/RoundRobin.antt =====
-- strategies/round_robin.go: the candidates in turn.
use stable_placement.Base.{
  ℕ, zero, suc, ◌+◌, ◌-◌, ◌%◌, ◌^◌, ◌<◌, ◌≡◌, refl, ltb, ◌==◌, if◌then◌else◌, ◌||◌, ap, subst, sym,
  ◌∙◌, ◌*◌, none, some, List, [], ◌∷◌, length, get_elem?, increment, arith, Bool-cases, leb, leb→le,
  inl, inr,
}
use native.Mathlib.Nat.{mod-lt, mod-eq_of_lt, mod-add-mod, add-mul-mod_self_left}
use stable_placement.Model.{Result, ok, err, Error, Node}
use stable_placement.Strategy.{StrategyInput}

-- `next` is an int, kept as its bit pattern.
pub record RoundRobin : Type 0 where
  pub next : ℕ

abbrev pub new_round_robin : RoundRobin
new_round_robin = record { next = 0 }

-- `nodes[next % len(nodes)]`. The remainder takes the sign of `next`, and a negative index panics.
unfoldable pub node_at : List Node → ℕ → Result Node
node_at nodes next =
    if ltb next (2 ^ 63) || (2 ^ 64 - next) % length nodes == 0
    then elim (get_elem? nodes (if ltb next (2 ^ 63) then next % length nodes else 0)) [
      | none ↦ err Error.index_out_of_range
      | some node ↦ ok node
    ]
    else err Error.index_out_of_range

-- `Choose`
unfoldable pub choose : RoundRobin → StrategyInput → RoundRobin × Result Node
unfolding node_at
choose r input =
    if length input.effective_nodes == 0
    then (r, err Error.no_available_node)
    else elim (node_at input.effective_nodes r.next) [
      | err e ↦ (r, err e)
      | ok node ↦ (record { next = increment r.next }, ok node)
    ]

-- The answers of `k` calls in a row with the same candidates.
unfoldable pub choose_times : ℕ → RoundRobin → StrategyInput → List (Result Node)
unfolding choose
choose_times zero r input = []
choose_times (suc k) r input = let (r', node) = choose r input in node ∷ choose_times k r' input

get_elem?-some : (xs : List Node) (i : ℕ) → i < length xs → (x : Node) × (get_elem? xs i ≡ some x)
get_elem?-some [] i h = absurd (omega arith)
get_elem?-some (x ∷ xs) zero h = (x, refl)
get_elem?-some (x ∷ xs) (suc i) h = get_elem?-some xs i (omega arith)

-- Below the wrap-around of the counter, a call takes the candidate at its turn and moves on.
choose_turn :
    (next : ℕ) (input : StrategyInput) (node : Node)
    → 0 < length input.effective_nodes
    → next < 2 ^ 63 - 1
    → get_elem? input.effective_nodes (next % length input.effective_nodes) ≡ some node
    → choose (record { next = next }) input ≡ (record { next = next + 1 }, ok node)
unfolding choose node_at
choose_turn next input node some_node small h = ground arith

-- The call number `j` of a row takes the candidate `(next + j) % n`.
pub choose_times-turn :
    (j k next : ℕ) (input : StrategyInput) (node : Node)
    → j < k
    → 0 < length input.effective_nodes
    → next + k < 2 ^ 63
    → get_elem? input.effective_nodes ((next + j) % length input.effective_nodes) ≡ some node
    → get_elem? (choose_times k (record { next = next }) input) j ≡ some (ok node)
unfolding choose_times
choose_times-turn j zero next input node lt some_node small h = absurd (omega arith)
choose_times-turn zero (suc k) next input node lt some_node small h =
    let q : (next + 0) % length input.effective_nodes ≡ next % length input.effective_nodes =
      ap (λ (t : ℕ). t % length input.effective_nodes) (omega arith) in
    ground (
      arith,
      choose_turn next input node some_node (omega arith)
          (subst (λ (i : ℕ). get_elem? input.effective_nodes i ≡ some node) q h),
    )
choose_times-turn (suc j) (suc k) next input node lt some_node small h =
    let n = length input.effective_nodes in
    let (first, e) = get_elem?-some input.effective_nodes (next % n) (grind arith) in
    let q : (next + suc j) % n ≡ (next + 1 + j) % n = ap (λ (t : ℕ). t % n) (omega arith) in
    rw (choose_turn next input first some_node (omega arith) e) (
      choose_times-turn j k (next + 1) input node (omega arith) some_node (omega arith)
        (subst (λ (i : ℕ). get_elem? input.effective_nodes i ≡ some node) q h))

turn_at : (next i n k : ℕ) → i < n → next % n + k ≡ i → (next + k) % n ≡ i
turn_at next i n k h e = sym (mod-add-mod next n k) ∙ (ap (λ (t : ℕ). t % n) e ∙ mod-eq_of_lt h)

turn_after : (next i n k : ℕ) → i < n → next % n + k ≡ i + n * 1 → (next + k) % n ≡ i
turn_after next i n k h e =
    sym (mod-add-mod next n k)
    ∙ (ap (λ (t : ℕ). t % n) e ∙ (add-mul-mod_self_left i n 1 ∙ mod-eq_of_lt h))

turn : (next i n : ℕ) → i < n → (j : ℕ) × (j < n) × ((next + j) % n ≡ i)
turn next i n h =
    let r = next % n in
    let small : r < n = mod-lt next (omega arith) in
    elim (Bool-cases (leb r i)) [
      | inl e ↦ (
        i - r,
        omega (arith, leb→le r i e),
        turn_at next i n (i - r) h (omega (arith, leb→le r i e)),
      )
      | inr e ↦
          let above : i < r = ground arith in
          (i + n - r, omega arith, turn_after next i n (i + n - r) h (omega arith))
    ]

-- Nobody starves: in any row of as many calls as there are candidates, with the same candidates and
-- the counter below its wrap-around, every candidate is chosen.
pub every_candidate_chosen :
    (i next : ℕ) (input : StrategyInput) (node : Node)
    → get_elem? input.effective_nodes i ≡ some node
    → i < length input.effective_nodes
    → next + length input.effective_nodes < 2 ^ 63
    → (j : ℕ) × (get_elem?
          (choose_times (length input.effective_nodes) (record { next = next }) input)
          j
        ≡ some (ok node))
every_candidate_chosen i next input node h lt small =
    let n = length input.effective_nodes in
    let (j, below, q) = turn next i n lt in
    (
      j,
      choose_times-turn j n next input node below (omega arith) small
          (subst (λ (t : ℕ). get_elem? input.effective_nodes t ≡ some node) (sym q) h),
    )
