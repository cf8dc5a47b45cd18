-- ===== src/Redis/Batches/Index.antt =====
-- redis/directory.go: the index of a node's placements that FindByNode reads, and what a scan of two
-- parts of it does.
use stable_placement.Base.{
  ◌≡◌, refl, sym, ap, ◌∙◌, subst, inl, inr, ℕ, zero, suc, ◌+◌, ◌≤◌, ltb, ℤ, Bool, Bool-cases,
  Option, none, some, List, [], ◌∷◌, ◌++◌, Text, length, take, arith, if◌then◌else◌,
}
use stable_placement.Redis.Scripts.{ScoredMember}
use stable_placement.Redis.Pages.{max_placement_index_score}

-- The members of an index as Redis answers with them.
unfoldable pub stored : List (ℕ × Text) → List ScoredMember
stored [] = []
stored ((s, k) ∷ es) = record { member = some k; score = some (ℤ.pos s) } ∷ stored es

-- The entries whose score is at least the given one.
unfoldable pub from_score : ℕ → List (ℕ × Text) → List (ℕ × Text)
from_score s [] = []
from_score s ((t, k) ∷ es) = if ltb t s then from_score s es else (t, k) ∷ es

abbrev pub from_place : Option ℕ → List (ℕ × Text) → List (ℕ × Text)
from_place none es = es
from_place (some s) es = from_score s es

-- Scores are unique, increase from a bound on, and are in range.
unfoldable pub IsIndex : ℕ → List (ℕ × Text) → Type 0
IsIndex b [] = Unit
IsIndex b ((s, k) ∷ es) = (b ≤ s) × (s ≤ max_placement_index_score) × IsIndex (suc s) es

pub length-stored : (es : List (ℕ × Text)) → length (stored es) ≡ length es
unfolding stored
length-stored [] = refl
length-stored ((s, k) ∷ es) = ap suc (length-stored es)

IsIndex-weaken : (b c : ℕ) (es : List (ℕ × Text)) → c ≤ b → IsIndex b es → IsIndex c es
unfolding IsIndex
IsIndex-weaken b c [] le h = tt
IsIndex-weaken b c ((s, k) ∷ es) le (h, g, rest) = (omega arith, g, rest)

pub IsIndex-entry :
    (b s : ℕ) (k : Text) (xs ys : List (ℕ × Text))
    → IsIndex b (xs ++ (s, k) ∷ ys)
    → (b ≤ s) × (s ≤ max_placement_index_score)
unfolding IsIndex
IsIndex-entry b s k [] ys (h, g, rest) = (h, g)
IsIndex-entry b s k ((t, l) ∷ xs) ys (h, g, rest) =
    let (le, bound) = IsIndex-entry (suc t) s k xs ys rest in (omega arith, bound)

pub from_score-IsIndex :
    (b s : ℕ) (es : List (ℕ × Text)) → IsIndex b es → IsIndex s (from_score s es)
unfolding IsIndex from_score
from_score-IsIndex b s [] h = tt
from_score-IsIndex b s ((t, k) ∷ es) (h, g, rest) = elim (Bool-cases (ltb t s)) [
  | inl e ↦
      subst (IsIndex s) (sym (ap (λ (c : Bool). if c then from_score s es else (t, k) ∷ es) e))
        (from_score-IsIndex (suc t) s es rest)
  | inr e ↦
      subst (IsIndex s) (sym (ap (λ (c : Bool). if c then from_score s es else (t, k) ∷ es) e))
        (ground arith, g, rest)
]

pub from_score-from_score :
    (s t : ℕ) (es : List (ℕ × Text)) → s ≤ t → from_score t (from_score s es) ≡ from_score t es
unfolding from_score
from_score-from_score s t [] le = refl
from_score-from_score s t ((r, k) ∷ es) le = elim (Bool-cases (ltb r s)) [
  | inl e ↦ ground (arith, from_score-from_score s t es le)
  | inr e ↦ ground arith
]

from_score-entry :
    (b s : ℕ) (k : Text) (xs ys : List (ℕ × Text))
    → IsIndex b (xs ++ (s, k) ∷ ys)
    → from_score s (xs ++ (s, k) ∷ ys) ≡ (s, k) ∷ ys
unfolding IsIndex from_score
from_score-entry b s k [] ys h = ground arith
from_score-entry b s k ((t, l) ∷ xs) ys (h, g, rest) =
    let (le, bound) = IsIndex-entry (suc t) s k xs ys rest in
    let ih = from_score-entry (suc t) s k xs ys rest in ground (arith, ih)

-- Read from the last entry of a batch on, the index goes on after the batch.
pub from_place-entry :
    (place : Option ℕ) (s : ℕ) (k : Text) (es xs ys : List (ℕ × Text))
    → IsIndex 0 es
    → from_place place es ≡ xs ++ (s, k) ∷ ys
    → (s ≤ max_placement_index_score) × (from_score s es ≡ (s, k) ∷ ys)
from_place-entry none s k es xs ys h e =
    let here = subst (IsIndex 0) e h in
    ((IsIndex-entry 0 s k xs ys here).1, ap (from_score s) e ∙ from_score-entry 0 s k xs ys here)
from_place-entry (some t) s k es xs ys h e =
    let here = subst (IsIndex t) e (from_score-IsIndex 0 t es h) in
    let (le, bound) = IsIndex-entry t s k xs ys here in
    (
      bound,
      sym (from_score-from_score t s es le)
          ∙ (ap (from_score s) e ∙ from_score-entry t s k xs ys here),
    )

-- A list that is at least as long as a batch, at the last entry of the batch.
pub record CutAt (n : ℕ) (es : List (ℕ × Text)) : Type 0 where
  pub before : List (ℕ × Text)
  pub score : ℕ
  pub key : Text
  pub after : List (ℕ × Text)
  pub whole : es ≡ before ++ (score, key) ∷ after
  pub batch : take n es ≡ before ++ (score, key) ∷ []
  pub count : length es ≡ n + length after

pub CutAt-of : (n : ℕ) (es : List (ℕ × Text)) → 1 ≤ n → n ≤ length es → CutAt n es
CutAt-of zero es h le = absurd (omega arith)
CutAt-of (suc n) [] h le = absurd (omega arith)
CutAt-of (suc zero) ((s, k) ∷ es) h le = record {
  before = [];
  score = s;
  key = k;
  after = es;
  whole = refl;
  batch = refl;
  count = omega arith;
}
CutAt-of (suc (suc n)) ((s, k) ∷ es) h le =
    let c = CutAt-of (suc n) es (omega arith) (omega arith) in
    record {
      before = (s, k) ∷ c.before;
      score = c.score;
      key = c.key;
      after = c.after;
      whole = ap (◌∷◌ (s, k)) c.whole;
      batch = ap (◌∷◌ (s, k)) c.batch;
      count = omega (arith, c.count);
    }

pub length-take_full : (n : ℕ) (es : List (ℕ × Text)) → n ≤ length es → length (take n es) ≡ n
length-take_full zero es le = refl
length-take_full (suc n) [] le = absurd (omega arith)
length-take_full (suc n) (e ∷ es) le = ap suc (length-take_full n es (omega arith))
