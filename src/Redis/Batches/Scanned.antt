-- ===== src/Redis/Batches/Scanned.antt =====
-- redis/directory.go: a scan of an index in FindByNode finds the hits of its entries.
use stable_placement.Base.{
  ◌≡◌, refl, sym, ap, subst, ◌∙◌, inl, inr, ℕ, suc, ◌-◌, ◌≤◌, ◌<◌, ltb, true, Bool-cases, Option,
  Option-cases, none, some, List, [], ◌∷◌, ◌++◌, Text, length, length-append, take, get_elem?,
  arith,
}
use stable_placement.Model.{Result, ok, Placement, PlacementStatus}
use stable_placement.Redis.Scripts.{RedisPlacement}
use stable_placement.Redis.Routes.{get_placement_raw}
use stable_placement.Redis.Pages.{
  max_placement_index_score, Hit, Step, scanned, full, first_entry, increasing, found_or_none,
  count_hit, or_broken, scan_entry, scan_member, then_scan, scan_batch,
}
use stable_placement.Redis.Batches.{in_order, full_page, last_page}
use stable_placement.Redis.Batches.Index.{stored, IsIndex}
use stable_placement.Redis.Batches.Joined.{outcome, scan_stored, entry_of-stored}
use stable_placement.Redis.Batches.Hits.{
  Below, kept, hits_of, page_for, append-nil, in_order-hit, length-in_order, take-append,
  get_elem?-append, hits_of-none, hits_of-some,
}

increasing-Below : (prev : Option ℕ) (b t : ℕ) → Below prev b → b ≤ t → increasing prev t ≡ true
increasing-Below none b t h le = refl
increasing-Below (some p) b t h le = ground arith

module _ (decode : Text → Result RedisPlacement) (get : Text → Result (Option Text))
    (find : Text → Option Placement)
    (finds : (k : Text) → found_or_none decode get (get_placement_raw decode (get k)) ≡ ok (find k))
    (limit : ℕ) (s : PlacementStatus) where
  entry-step :
      (prev : Option ℕ) (acc : List Hit) (b t : ℕ) (k : Text)
      → Below prev b
      → b ≤ t
      → scan_entry decode get limit s (record { previous = prev; hits = acc }) t k
        ≡ count_hit decode get limit s t k acc (find k)
  unfolding scan_entry
  entry-step prev acc b t k below le =
      let up = increasing-Below prev b t below le in
      let found =
        ap (λ (r : Result (Option Placement)). or_broken decode get limit s t k acc r) (finds k) in
      ground (arith, found, up)

  -- A scan that goes on has found all hits, within the limit; one that is full found one more.
  data Scanned (acc hs : List Hit) : Step → Type 0 where
    all :
        (prev : Option ℕ) (found : List Hit)
        → length found ≤ limit
        → in_order acc [] ++ hs ≡ in_order found []
        → Scanned acc hs (scanned (record { previous = prev; hits = found }))
    part :
        (prev : Option ℕ) (found rest : List Hit)
        → length found ≡ suc limit
        → in_order acc [] ++ hs ≡ in_order found [] ++ rest
        → Scanned acc hs (full (record { previous = prev; hits = found }))

  Scanned-hit :
      (h : Hit) (acc hs : List Hit) (step : Step)
      → Scanned (h ∷ acc) hs step
      → Scanned acc (h ∷ hs) step
  Scanned-hit h acc hs step (all prev found le e) = all prev found le (in_order-hit h acc hs ∙ e)
  Scanned-hit h acc hs step (part prev found rest n e) =
      part prev found rest n (in_order-hit h acc hs ∙ e)

  scan_stored-first :
      (prev : Option ℕ) (acc : List Hit) (b t : ℕ) (k : Text) (es : List (ℕ × Text))
      → Below prev b
      → b ≤ t
      → t ≤ max_placement_index_score
      → scan_stored decode get limit s none ((t, k) ∷ es) (record { previous = prev; hits = acc })
        ≡ then_scan decode get
            (count_hit decode get limit s t k acc (find k))
            (scan_stored decode get limit s none es)
  unfolding scan_batch stored first_entry
  scan_stored-first prev acc b t k es below le bound =
      let one = entry-step prev acc b t k below le in
      let entry = entry_of-stored t k bound in
      ap
        (λ r.
          then_scan decode get
            (scan_member decode get limit s none (record { previous = prev; hits = acc }) r)
            (scan_stored decode get limit s none es))
        entry
      ∙ ap (λ step. then_scan decode get step (scan_stored decode get limit s none es)) one

  count_hit-none :
      (t : ℕ) (k : Text) (acc : List Hit) (o : Option Placement)
      → kept s o ≡ none
      → count_hit decode get limit s t k acc o ≡ scanned (record { previous = some t; hits = acc })
  count_hit-none t k acc none e = refl
  count_hit-none t k acc (some p) e = ground arith

  count_hit-full :
      (t : ℕ) (k : Text) (acc : List Hit) (o : Option Placement) (p : Placement)
      → kept s o ≡ some p
      → limit ≤ length acc
      → count_hit decode get limit s t k acc o
        ≡ full (record {
          previous = some t;
          hits = record { placement = p; score = t; key = k } ∷ acc;
        })
  count_hit-full t k acc none p e le = absurd (ground arith)
  count_hit-full t k acc (some q) p e le = ground arith

  count_hit-some :
      (t : ℕ) (k : Text) (acc : List Hit) (o : Option Placement) (p : Placement)
      → kept s o ≡ some p
      → length acc < limit
      → count_hit decode get limit s t k acc o
        ≡ scanned (record {
          previous = some t;
          hits = record { placement = p; score = t; key = k } ∷ acc;
        })
  count_hit-some t k acc none p e le = absurd (ground arith)
  count_hit-some t k acc (some q) p e le = ground arith

  Scanned-of :
      (acc hs hs' : List Hit) (step step' : Step)
      → hs ≡ hs'
      → step ≡ step'
      → Scanned acc hs' step'
      → Scanned acc hs step
  Scanned-of acc hs hs' step step' e f h =
      subst (λ xs. Scanned acc xs step) (sym e) (subst (Scanned acc hs') (sym f) h)

  scan_stored-Scanned :
      (prev : Option ℕ) (acc : List Hit) (b : ℕ) (es : List (ℕ × Text))
      → Below prev b
      → IsIndex b es
      → length acc ≤ limit
      → Scanned acc
          (hits_of find s es)
          (scan_stored decode get limit s none es (record { previous = prev; hits = acc }))
  unfolding IsIndex scan_batch stored hits_of
  scan_stored-Scanned prev acc b [] below h le = all prev acc le (append-nil (in_order acc []))
  scan_stored-Scanned prev acc b ((t, k) ∷ es) below (low, bound, more) le =
      let rest =
        λ (step : Step). then_scan decode get step (scan_stored decode get limit s none es) in
      let whole =
        scan_stored decode get limit s none ((t, k) ∷ es)
          (record { previous = prev; hits = acc }) in
      let hs = hits_of find s es in
      let first = scan_stored-first prev acc b t k es below low bound in
      elim (Option-cases (kept s (find k))) [
        | inl e ↦
            let step = scanned (record { previous = some t; hits = acc }) in
            Scanned-of acc (hits_of find s ((t, k) ∷ es)) hs whole (rest step)
              (hits_of-none find s t k es e) (first ∙ ap rest (count_hit-none t k acc (find k) e))
              (scan_stored-Scanned (some t) acc (suc t) es (omega arith) more le)
        | inr (p, e) ↦
            let hit : Hit = record { placement = p; score = t; key = k } in
            elim (Bool-cases (ltb (length acc) limit)) [
              | inl f ↦
                  let step = scanned (record { previous = some t; hits = hit ∷ acc }) in
                  Scanned-of acc (hits_of find s ((t, k) ∷ es)) (hit ∷ hs) whole (rest step)
                    (hits_of-some find s t k es p e)
                    (first ∙ ap rest (count_hit-some t k acc (find k) p e (ground arith)))
                    (Scanned-hit hit acc hs (rest step) (
                      scan_stored-Scanned (some t) (hit ∷ acc) (suc t) es (omega arith) more
                        (ground arith)))
              | inr f ↦
                  let step = full (record { previous = some t; hits = hit ∷ acc }) in
                  Scanned-of acc (hits_of find s ((t, k) ∷ es)) (hit ∷ hs) whole step
                    (hits_of-some find s t k es p e)
                    (first ∙ ap rest (count_hit-full t k acc (find k) p e (ground arith)))
                    (part (some t) (hit ∷ acc) hs (ground arith) (in_order-hit hit acc hs))
            ]
      ]

  outcome-page_for :
      (hs : List Hit) (step : Step)
      → 1 ≤ limit
      → Scanned [] hs step
      → outcome limit step ≡ ok (page_for limit hs)
  unfolding in_order page_for last_page full_page
  outcome-page_for hs step one (all prev found le e) =
      let n = length-in_order found [] in
      let same_length = ap length e in ground (arith, n, same_length, e)
  outcome-page_for hs step one (part prev found rest n e) =
      let a = in_order found [] in
      let full_length : length a ≡ suc limit = omega (arith, length-in_order found [], n) in
      let longer : limit < length hs =
        subst (λ (xs : List Hit). limit < length xs) (sym e)
          (omega (arith, length-append a rest, full_length)) in
      let front : take limit a ≡ take limit hs =
        sym (take-append limit a rest (omega arith)) ∙ ap (take limit) (sym e) in
      let cursor : get_elem? a (limit - 1) ≡ get_elem? hs (limit - 1) =
        sym (get_elem?-append (limit - 1) a rest (omega arith))
        ∙ ap (λ (xs : List Hit). get_elem? xs (limit - 1)) (sym e) in
      ground (arith, front, cursor, longer)

  -- The page of a scan, by the hits of the entries that it reads.
  pub scan_stored-page :
      (prev : Option ℕ) (b : ℕ) (es : List (ℕ × Text))
      → Below prev b
      → IsIndex b es
      → 1 ≤ limit
      → outcome limit
          (scan_stored decode get limit s none es (record { previous = prev; hits = [] }))
        ≡ ok (page_for limit (hits_of find s es))
  scan_stored-page prev b es below h one =
      outcome-page_for (hits_of find s es)
        (scan_stored decode get limit s none es (record { previous = prev; hits = [] })) one
        (scan_stored-Scanned prev [] b es below h (omega arith))
