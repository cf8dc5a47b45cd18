-- ===== src/Redis/Batches/Complete.antt =====
-- redis/directory.go: following the cursors of FindByNode gives all of a node's placements.
use stable_placement.Base.{
  ◌≡◌, ◌≢◌, refl, sym, ap, subst, ◌∙◌, ◌⊎◌, inl, inr, ℕ, zero, suc, ◌-◌, ◌≤◌, ◌<◌, leb, Bool-cases,
  Option, none, some, List, [], ◌∷◌, ◌++◌, Text, length, take, get_elem?, itoa, itoa-ne, arith,
}
use stable_placement.Model.{Result, ok, ◌>>=◌, Placement, PlacementStatus}
use stable_placement.Directory.Paging.{FindByNodeQuery, PlacementPage, limit_of, status_of}
use stable_placement.Directory.Paging.Completeness.{limit_of-pos}
use stable_placement.Redis.{KeyName, key_of}
use stable_placement.Redis.Scripts.{RedisPlacement}
use stable_placement.Redis.Routes.{get_placement_raw}
use stable_placement.Redis.Pages.{
  max_placement_index_score, format_cursor, parse_cursor, start_after, Hit, Scan, found_or_none,
}
use stable_placement.Redis.Pages.Cursors.{parse_cursor-format_cursor}
use stable_placement.Redis.Batches.{
  placements_of, cursor_of, score_of_place, Fetch, find_by_node_in_redis,
}
use stable_placement.Redis.Batches.Index.{
  stored, from_score, from_place, IsIndex, from_place-entry, from_score-IsIndex,
}
use stable_placement.Redis.Batches.Joined.{outcome, scan_stored, scan_stored-at}
use stable_placement.Redis.Batches.Whole.{page_at_once, find_by_node_in_redis_at_once}
use stable_placement.Redis.Batches.Hits.{hits_of, page_for}
use stable_placement.Redis.Batches.Scanned.{scan_stored-page}
use stable_placement.Redis.Batches.Cuts.{HitCut, HitCut-of}

-- What a caller gets who follows the cursors from a query to the last page.
pub data Pages (answer : FindByNodeQuery → Option (Result PlacementPage))
    : FindByNodeQuery → List Placement → Type 0 where
  last :
      (q : FindByNodeQuery) (page : PlacementPage)
      → answer q ≡ some (ok page)
      → page.next_cursor ≡ []
      → Pages answer q page.placements
  more :
      (q : FindByNodeQuery) (page : PlacementPage) (rest : List Placement)
      → answer q ≡ some (ok page)
      → page.next_cursor ≢ []
      → Pages answer (record q { cursor = page.next_cursor }) rest
      → Pages answer q (page.placements ++ rest)

head_or_nil : (t : Text) → (t ≡ []) ⊎ ((b : ℕ) × (bs : Text) × (t ≡ b ∷ bs))
head_or_nil [] = inl refl
head_or_nil (b ∷ bs) = inr (b, bs, refl)

format_cursor-ne : (score : ℕ) (key : Text) → format_cursor score key ≢ []
unfolding format_cursor
format_cursor-ne score key h = elim (head_or_nil (itoa score)) [
  | inl e ↦ itoa-ne score e
  | inr (b, bs, e) ↦ cc
]

start_after-format_cursor :
    (score : ℕ) (key : Text)
    → score ≤ max_placement_index_score
    → key ≢ []
    → start_after (format_cursor score key) ≡ ok (some (score, key))
unfolding start_after
start_after-format_cursor score key le named =
    let parsed = parse_cursor-format_cursor score key le named in
    elim (head_or_nil (format_cursor score key)) [
      | inl e ↦ absurd (format_cursor-ne score key e)
      | inr (b, bs, e) ↦
          ap start_after e
          ∙ ap (λ (r : Result (ℕ × Text)). r >>= λ place. ok (some place))
              (sym (ap parse_cursor e) ∙ parsed)
    ]

abbrev page_with : List Placement → Text → PlacementPage
page_with ps cursor = record { placements = ps; next_cursor = cursor }

module _ (decode : Text → Result RedisPlacement) (get : Text → Result (Option Text))
    (fetch : Text → Fetch) (idx : List (ℕ × Text)) (fuel : ℕ) (find : Text → Option Placement)
    (identity : Text) (sorted : IsIndex 0 idx)
    (reads : (place : Option ℕ) (n : ℕ)
      → fetch (key_of (KeyName.placement_node identity)) place n
        ≡ ok (stored (take n (from_place place idx))))
    (enough : length idx < fuel)
    (finds : (k : Text) → found_or_none decode get (get_placement_raw decode (get k)) ≡ ok (find k))
    (nameless : find [] ≡ none) where
  abbrev answers : FindByNodeQuery → Option (Result PlacementPage)
  answers q = find_by_node_in_redis decode get fetch fuel q

  -- The entries that are left at a place.
  abbrev Left : Option (ℕ × Text) → List (ℕ × Text) → Type 0
  Left none es = es ≡ idx
  Left (some (t, k)) es = from_score t idx ≡ (t, k) ∷ es

  abbrev page_at : FindByNodeQuery → Option (ℕ × Text) → List (ℕ × Text) → Result PlacementPage
  page_at q place es = outcome (limit_of q.limit) (
      scan_stored decode get (limit_of q.limit) (status_of q.status) place es
        (record { previous = score_of_place place; hits = [] }))

  abbrev page_of_rest : FindByNodeQuery → List (ℕ × Text) → PlacementPage
  page_of_rest q es = page_for (limit_of q.limit) (hits_of find (status_of q.status) es)

  page_at-Left :
      (q : FindByNodeQuery) (place : Option (ℕ × Text)) (es : List (ℕ × Text))
      → Left place es
      → page_at q place (from_place (score_of_place place) idx) ≡ ok (page_of_rest q es)
  unfolding IsIndex
  page_at-Left q none es left =
      scan_stored-page decode get find finds (limit_of q.limit) (status_of q.status) none 0 idx tt
        sorted (limit_of-pos q.limit)
      ∙ ap (λ xs. ok (page_of_rest q xs)) (sym left)
  page_at-Left q (some (t, k)) es left =
      let (le, bound, rest) = subst (IsIndex t) left (from_score-IsIndex 0 t idx sorted) in
      let start : Scan = record { previous = some t; hits = [] } in
      ap (page_at q (some (t, k))) left
      ∙ (ap (outcome (limit_of q.limit))
            (scan_stored-at decode get (limit_of q.limit) (status_of q.status) t k es start bound)
          ∙ scan_stored-page decode get find finds (limit_of q.limit) (status_of q.status) (some t)
              (suc t) es (omega arith) rest (limit_of-pos q.limit))

  answers-Left :
      (q : FindByNodeQuery) (place : Option (ℕ × Text)) (es : List (ℕ × Text))
      → q.node_identity ≡ identity
      → start_after q.cursor ≡ ok place
      → Left place es
      → answers q ≡ some (ok (page_of_rest q es))
  unfolding page_at_once
  answers-Left q place es own h left =
      find_by_node_in_redis_at_once decode get fetch idx fuel q sorted
        (λ place n.
          ap (λ id. fetch (key_of (KeyName.placement_node id)) place n) own ∙ reads place n)
        enough
      ∙ ap some (
          ap
            (λ (r : Result (Option (ℕ × Text))).
              r >>= λ place. page_at q place (from_place (score_of_place place) idx))
            h
          ∙ page_at-Left q place es left)

  page_for-last :
      (limit : ℕ) (hs : List Hit)
      → length hs ≤ limit
      → page_for limit hs ≡ record { placements = placements_of hs; next_cursor = [] }
  unfolding page_for
  page_for-last limit hs le = ground arith

  page_for-more :
      (limit : ℕ) (hs : List Hit)
      → limit < length hs
      → page_for limit hs ≡ record {
        placements = placements_of (take limit hs);
        next_cursor = cursor_of (get_elem? hs (limit - 1));
      }
  unfolding page_for
  page_for-more limit hs le = ground arith

  Left-entry :
      (place : Option (ℕ × Text)) (s : PlacementStatus) (limit : ℕ) (es : List (ℕ × Text))
      (c : HitCut find s limit es (hits_of find s es))
      → Left place es
      → (c.score ≤ max_placement_index_score) × Left (some (c.score, c.key)) c.after
  Left-entry none s limit es c left =
      from_place-entry none c.score c.key idx c.before c.after sorted (sym left ∙ c.whole)
  Left-entry (some (t, k)) s limit es c left =
      from_place-entry (some t) c.score c.key idx ((t, k) ∷ c.before) c.after sorted
        (left ∙ ap (◌∷◌ (t, k)) c.whole)

  Pages-Left :
      (n : ℕ) (q : FindByNodeQuery) (place : Option (ℕ × Text)) (es : List (ℕ × Text))
      → q.node_identity ≡ identity
      → start_after q.cursor ≡ ok place
      → Left place es
      → length (hits_of find (status_of q.status) es) < n
      → Pages answers q (placements_of (hits_of find (status_of q.status) es))
  Pages-Left zero q place es own h left less = absurd (omega arith)
  Pages-Left (suc n) q place es own h left less =
      let limit = limit_of q.limit in
      let s = status_of q.status in
      let hs = hits_of find s es in
      let answer = answers-Left q place es own h left in
      elim (Bool-cases (leb (length hs) limit)) [
        | inl e ↦
            last q (record { placements = placements_of hs; next_cursor = [] })
              (answer ∙ ap (λ page. some (ok page)) (page_for-last limit hs (ground arith))) refl
        | inr e ↦
            let c : HitCut find s limit es hs =
              HitCut-of find s limit es (limit_of-pos q.limit) (ground arith) in
            let cursor = format_cursor c.score c.key in
            let (bound, rest_left) = Left-entry place s limit es c left in
            let named : c.key ≢ [] = λ f. c.found (ap find f ∙ nameless) in
            let page : PlacementPage = record {
              placements = placements_of (take limit hs);
              next_cursor = cursor;
            } in
            let answered : answers q ≡ some (ok page) =
              answer
              ∙ ap (λ page. some (ok page))
                  (page_for-more limit hs (ground arith)
                    ∙ ap (page_with (placements_of (take limit hs))) c.cursor) in
            subst (Pages answers q) c.joined (
              more q page (placements_of (hits_of find s c.after)) answered
                (format_cursor-ne c.score c.key)
                (Pages-Left n (record q { cursor = cursor }) (some (c.score, c.key)) c.after own
                  (start_after-format_cursor c.score c.key bound named) rest_left
                  (omega (arith, c.fewer))))
      ]

-- A caller who asks FindByNode for the first page and follows the cursors comes to a last page, and has
-- then got the placements that are stored under the keys of the node's index, of the status that was
-- asked for, one for each entry, in the order of the index. Meanwhile the index does not change, has unique
-- increasing scores in range, and each read takes as many of its entries as it asks for, from the
-- score it asks for on; each key has a valid placement stored or none, and the empty key none. The
-- loop is given more batches than the index has entries.
pub find_by_node_in_redis_complete :
    (decode : Text → Result RedisPlacement) (get : Text → Result (Option Text))
    (fetch : Text → Fetch) (idx : List (ℕ × Text)) (fuel : ℕ) (find : Text → Option Placement)
    (q : FindByNodeQuery)
    → IsIndex 0 idx
    → ((place : Option ℕ) (n : ℕ)
        → fetch (key_of (KeyName.placement_node q.node_identity)) place n
          ≡ ok (stored (take n (from_place place idx))))
    → length idx < fuel
    → ((k : Text) → found_or_none decode get (get_placement_raw decode (get k)) ≡ ok (find k))
    → find [] ≡ none
    → q.cursor ≡ []
    → Pages
        (find_by_node_in_redis decode get fetch fuel)
        q
        (placements_of (hits_of find (status_of q.status) idx))
unfolding start_after
find_by_node_in_redis_complete decode get fetch idx fuel find q sorted reads enough finds nameless
      first =
    Pages-Left decode get fetch idx fuel find q.node_identity sorted reads enough finds nameless
      (suc (length (hits_of find (status_of q.status) idx))) q none idx refl (ap start_after first)
      refl (omega arith)
