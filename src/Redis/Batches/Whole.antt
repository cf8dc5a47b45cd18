-- ===== src/Redis/Batches/Whole.antt =====
-- redis/directory.go: FindByNode reads an index in batches as if it read it at once.
use stable_placement.Base.{
  ◌≡◌, sym, ap, ◌∙◌, inl, inr, ℕ, zero, suc, ◌≤◌, ◌<◌, ltb, true, Bool-cases, Option, none, some,
  List, [], ◌∷◌, Text, length, take, take_of_length-le, subst, arith,
}
use stable_placement.Model.{Result, ok, ◌>>=◌, PlacementStatus}
use stable_placement.Directory.Paging.{FindByNodeQuery, PlacementPage, limit_of, status_of}
use stable_placement.Redis.{KeyName, key_of}
use stable_placement.Redis.Scripts.{RedisPlacement}
use stable_placement.Redis.Pages.{
  max_placement_index_score, start_after, Scan, then_scan, scan_batch,
}
use stable_placement.Redis.Batches.{
  last_place, Fetch, batch_of, score_of_place, next_batch, scan_index, batch_size_of,
  find_by_node_in_redis,
}
use stable_placement.Redis.Batches.Index.{
  stored, from_score, from_place, IsIndex, length-stored, from_place-entry, CutAt, CutAt-of,
  length-take_full,
}
use stable_placement.Redis.Batches.Joined.{
  outcome, scan_stored, Result-cases, last_place-stored, next_batch-more, next_batch-done,
  scan_stored-append, scan_stored-at,
}

module _ (decode : Text → Result RedisPlacement) (get : Text → Result (Option Text)) (limit : ℕ)
    (s : PlacementStatus) where
  -- An index that does not change, of which `fetch` reads what is asked for.
  module _ (idx : List (ℕ × Text)) (sorted : IsIndex 0 idx) (fetch : Fetch)
      (reads : (place : Option ℕ) (n : ℕ)
        → fetch place n ≡ ok (stored (take n (from_place place idx)))) where
    -- One batch of the loop.
    scan_index-batch :
        (fuel size : ℕ) (place : Option (ℕ × Text)) (scan : Scan)
        → scan_index decode get fetch (suc fuel) limit size s place scan
          ≡ next_batch limit size place
              (stored (take size (from_place (score_of_place place) idx)))
              (scan_stored decode get limit s place
                (take size (from_place (score_of_place place) idx))
                scan)
              (λ place' scan'. scan_index decode get fetch fuel limit size s place' scan')
    unfolding scan_index
    scan_index-batch fuel size place scan =
        ap
          (λ r. batch_of r λ ms.
            next_batch limit size place ms (scan_batch decode get limit s place ms scan)
              λ place' scan'. scan_index decode get fetch fuel limit size s place' scan')
          (reads (score_of_place place) size)

    -- A full batch, if the rest of the loop is as if it were read at once.
    scan_index-more :
        (fuel size : ℕ) (place : Option (ℕ × Text)) (scan : Scan)
        (c : CutAt size (from_place (score_of_place place) idx))
        → c.score ≤ max_placement_index_score
        → ((scan' : Scan)
            → scan_index decode get fetch fuel limit size s (some (c.score, c.key)) scan'
              ≡ some (outcome limit (scan_stored decode get limit s none c.after scan')))
        → scan_index decode get fetch (suc fuel) limit size s place scan
          ≡ some (
              outcome limit
                (scan_stored decode get limit s place (from_place (score_of_place place) idx) scan))
    scan_index-more fuel size place scan c bound rest =
        let base = from_place (score_of_place place) idx in
        let e : ℕ × Text = (c.score, c.key) in
        let ms = stored (take size base) in
        let loop = λ (place' : Option (ℕ × Text)) (scan' : Scan).
          scan_index decode get fetch fuel limit size s place' scan' in
        let count : length ms ≡ size =
          length-stored (take size base) ∙ length-take_full size base (omega (arith, c.count)) in
        let last : last_place place ms ≡ some e =
          ap (λ es. last_place place (stored es)) c.batch
          ∙ last_place-stored c.before c.score c.key place bound in
        let joined : then_scan decode get
              (scan_stored decode get limit s place (take size base) scan)
              (scan_stored decode get limit s none c.after)
            ≡ scan_stored decode get limit s place base scan =
          ap
            (λ es.
              then_scan decode get (scan_stored decode get limit s place es scan)
                (scan_stored decode get limit s none c.after))
            c.batch
          ∙ (sym (scan_stored-append decode get limit s place c.before e c.after scan)
              ∙ ap (λ es. scan_stored decode get limit s place es scan) (sym c.whole)) in
        scan_index-batch fuel size place scan
        ∙ (next_batch-more decode get limit size place ms
              (scan_stored decode get limit s place (take size base) scan) loop
              (scan_stored decode get limit s none c.after) (ground arith)
              (λ scan'. ap (λ p. loop p scan') last ∙ rest scan')
            ∙ ap (λ step. some (outcome limit step)) joined)

    scan_index-whole :
        (fuel size : ℕ) (place : Option (ℕ × Text)) (scan : Scan)
        → 2 ≤ size
        → length (from_place (score_of_place place) idx) < fuel
        → scan_index decode get fetch fuel limit size s place scan
          ≡ some (
              outcome limit
                (scan_stored decode get limit s place (from_place (score_of_place place) idx) scan))
    scan_index-whole zero size place scan two enough = absurd (omega arith)
    scan_index-whole (suc fuel) size place scan two enough =
        let base = from_place (score_of_place place) idx in
        let ms = stored (take size base) in
        let loop = λ (place' : Option (ℕ × Text)) (scan' : Scan).
          scan_index decode get fetch fuel limit size s place' scan' in
        elim (Bool-cases (ltb (length base) size)) [
          | inl e ↦
              let all : take size base ≡ base = take_of_length-le size base (ground arith) in
              let short : ltb (length ms) size ≡ true =
                ap (λ es. ltb (length (stored es)) size) all
                ∙ (ap (λ n. ltb n size) (length-stored base) ∙ e) in
              scan_index-batch fuel size place scan
              ∙ (next_batch-done decode get limit size place ms
                    (scan_stored decode get limit s place (take size base) scan) loop short
                  ∙ ap (λ es. some (outcome limit (scan_stored decode get limit s place es scan)))
                      all)
          | inr e ↦
              let c = CutAt-of size base (omega arith) (ground arith) in
              let (bound, after) =
                from_place-entry (score_of_place place) c.score c.key idx c.before c.after sorted
                  c.whole in
              scan_index-more fuel size place scan c bound λ scan'.
                scan_index-whole fuel size (some (c.score, c.key)) scan' two
                  (subst (λ es. length es < fuel) (sym after) (omega (arith, c.count)))
                ∙ ap (λ step. some (outcome limit step))
                    (ap (λ es. scan_stored decode get limit s (some (c.score, c.key)) es scan')
                        after
                      ∙ scan_stored-at decode get limit s c.score c.key c.after scan' bound)
        ]

-- The page of a query, with the index read at once.
unfoldable pub page_at_once :
    (Text → Result RedisPlacement)
    → (Text → Result (Option Text))
    → List (ℕ × Text)
    → FindByNodeQuery
    → Result PlacementPage
page_at_once decode get idx q = do
  place ← start_after q.cursor
  outcome (limit_of q.limit) (
      scan_stored decode get (limit_of q.limit) (status_of q.status) place
        (from_place (score_of_place place) idx)
        (record { previous = score_of_place place; hits = [] }))

batch_size_of-two : (limit : ℕ) → 2 ≤ batch_size_of limit
batch_size_of-two limit = ground arith

from_place-le : (place : Option ℕ) (es : List (ℕ × Text)) → length (from_place place es) ≤ length es
unfolding from_score
from_place-le none es = omega arith
from_place-le (some s) [] = omega arith
from_place-le (some s) ((t, k) ∷ es) = ground (arith, from_place-le (some s) es)

-- FindByNode answers as if it had read the whole index at once, so its batches cannot be seen: for
-- an index with unique increasing scores in range, which does not change and from which each read
-- takes as many entries as it asks for, from the score it asks for on. More batches than the index
-- has entries are enough for an answer, a page or an error.
pub find_by_node_in_redis_at_once :
    (decode : Text → Result RedisPlacement) (get : Text → Result (Option Text))
    (fetch : Text → Fetch) (idx : List (ℕ × Text)) (fuel : ℕ) (q : FindByNodeQuery)
    → IsIndex 0 idx
    → ((place : Option ℕ) (n : ℕ)
        → fetch (key_of (KeyName.placement_node q.node_identity)) place n
          ≡ ok (stored (take n (from_place place idx))))
    → length idx < fuel
    → find_by_node_in_redis decode get fetch fuel q ≡ some (page_at_once decode get idx q)
unfolding find_by_node_in_redis page_at_once
find_by_node_in_redis_at_once decode get fetch idx fuel q sorted reads enough =
    elim (Result-cases (start_after q.cursor)) [
      | inl (e, h) ↦ ground arith
      | inr (place, h) ↦
          let answer =
            scan_index-whole decode get (limit_of q.limit) (status_of q.status) idx sorted
              (fetch (key_of (KeyName.placement_node q.node_identity))) reads fuel
              (batch_size_of (limit_of q.limit)) place
              (record { previous = score_of_place place; hits = [] })
              (batch_size_of-two (limit_of q.limit))
              (omega (arith, from_place-le (score_of_place place) idx, enough)) in
          ground (arith, answer)
    ]
