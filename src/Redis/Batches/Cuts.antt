-- ===== src/Redis/Batches/Cuts.antt =====
-- redis/directory.go: the entry at which a page of FindByNode ends, which its cursor names.
use stable_placement.Base.{
  ◌≡◌, ◌≢◌, refl, sym, ap, subst, ◌∙◌, inl, inr, ℕ, zero, suc, ◌-◌, ◌≤◌, ◌<◌, Option, Option-cases,
  none, some, List, [], ◌∷◌, ◌++◌, Text, length, take, get_elem?, arith,
}
use stable_placement.Model.{Placement, PlacementStatus}
use stable_placement.Redis.Pages.{format_cursor, Hit}
use stable_placement.Redis.Batches.{placements_of, cursor_of}
use stable_placement.Redis.Batches.Hits.{kept, hits_of, hits_of-none, hits_of-some}

module _ (find : Text → Option Placement) (s : PlacementStatus) where
  -- The entry of the last hit of a page, where `hs` are the hits of the entries.
  pub record HitCut (limit : ℕ) (es : List (ℕ × Text)) (hs : List Hit) : Type 0 where
    pub before : List (ℕ × Text)
    pub score : ℕ
    pub key : Text
    pub after : List (ℕ × Text)
    pub whole : es ≡ before ++ (score, key) ∷ after
    pub cursor : cursor_of (get_elem? hs (limit - 1)) ≡ format_cursor score key
    pub joined :
        placements_of (take limit hs) ++ placements_of (hits_of find s after) ≡ placements_of hs
    pub found : find key ≢ none
    pub fewer : length (hits_of find s after) < length hs

  found_of_kept : (o : Option Placement) (p : Placement) → kept s o ≡ some p → o ≢ none
  found_of_kept none p e = absurd (ground arith)
  found_of_kept (some q) p e = λ h. ground arith

  HitCut-skip :
      (n t : ℕ) (k : Text) (es : List (ℕ × Text)) (hs : List Hit)
      → HitCut n es hs
      → HitCut n ((t, k) ∷ es) hs
  HitCut-skip n t k es hs c = record {
    before = (t, k) ∷ c.before;
    score = c.score;
    key = c.key;
    after = c.after;
    whole = ap (◌∷◌ (t, k)) c.whole;
    cursor = c.cursor;
    joined = c.joined;
    found = c.found;
    fewer = c.fewer;
  }

  HitCut-hit :
      (n t : ℕ) (k : Text) (es : List (ℕ × Text)) (h : Hit) (hs : List Hit)
      → HitCut (suc n) es hs
      → HitCut (suc (suc n)) ((t, k) ∷ es) (h ∷ hs)
  unfolding placements_of
  HitCut-hit n t k es h hs c = record {
    before = (t, k) ∷ c.before;
    score = c.score;
    key = c.key;
    after = c.after;
    whole = ap (◌∷◌ (t, k)) c.whole;
    cursor =
        let e : suc (suc n) - 1 ≡ suc (suc n - 1) = omega arith in
        ap (λ (i : ℕ). cursor_of (get_elem? (h ∷ hs) i)) e ∙ c.cursor;
    joined = ap (◌∷◌ h.placement) c.joined;
    found = c.found;
    fewer = omega (arith, c.fewer);
  }

  HitCut-first :
      (t : ℕ) (k : Text) (es : List (ℕ × Text)) (p : Placement)
      → kept s (find k) ≡ some p
      → HitCut 1 ((t, k) ∷ es) (record { placement = p; score = t; key = k } ∷ hits_of find s es)
  unfolding placements_of
  HitCut-first t k es p e = record {
    before = [];
    score = t;
    key = k;
    after = es;
    whole = refl;
    cursor = refl;
    joined = refl;
    found = found_of_kept (find k) p e;
    fewer = omega arith;
  }

  pub HitCut-of :
      (limit : ℕ) (es : List (ℕ × Text))
      → 1 ≤ limit
      → limit ≤ length (hits_of find s es)
      → HitCut limit es (hits_of find s es)
  unfolding hits_of
  HitCut-of limit [] one le = absurd (omega arith)
  HitCut-of zero ((t, k) ∷ es) one le = absurd (omega arith)
  HitCut-of (suc zero) ((t, k) ∷ es) one le = elim (Option-cases (kept s (find k))) [
    | inl e ↦ subst (HitCut 1 ((t, k) ∷ es)) (sym (hits_of-none find s t k es e)) (
        HitCut-skip 1 t k es (hits_of find s es)
          (HitCut-of 1 es one (ground (arith, hits_of-none find s t k es e))))
    | inr (p, e) ↦
        subst (HitCut 1 ((t, k) ∷ es)) (sym (hits_of-some find s t k es p e))
          (HitCut-first t k es p e)
  ]
  HitCut-of (suc (suc n)) ((t, k) ∷ es) one le = elim (Option-cases (kept s (find k))) [
    | inl e ↦ subst (HitCut (suc (suc n)) ((t, k) ∷ es)) (sym (hits_of-none find s t k es e)) (
        HitCut-skip (suc (suc n)) t k es (hits_of find s es)
          (HitCut-of (suc (suc n)) es one (ground (arith, hits_of-none find s t k es e))))
    | inr (p, e) ↦
        subst (HitCut (suc (suc n)) ((t, k) ∷ es)) (sym (hits_of-some find s t k es p e)) (
          HitCut-hit n t k es (record { placement = p; score = t; key = k }) (hits_of find s es)
            (HitCut-of (suc n) es (omega arith) (ground (arith, hits_of-some find s t k es p e))))
  ]
