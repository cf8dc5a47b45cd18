-- ===== src/Redis/Pages.antt =====
-- redis/directory.go: FindByNode, which reads a node's index of placements in batches, by scores that
-- must be unique and increasing. `decode` stands for json.Unmarshal of a stored placement.
pub mod Cursors
use stable_placement.Base.{
  ℕ, zero, suc, ◌+◌, ◌^◌, ◌-◌, ◌==◌, ltb, leb, ℤ, ◌&&◌, ◌||◌, not, Bool, true, false, Option, none,
  some, List, [], ◌∷◌, ◌++◌, Text, text, same, length, take, get_elem?, atoi, itoa, if◌then◌else◌,
}
use stable_placement.Model.{
  Result, ok, err, Error, ◌>>=◌, ◌>>◌, guard, or_fail, Placement, PlacementStatus,
}
use stable_placement.Directory.Paging.{
  FindByNodeQuery, PlacementPage, limit_of, status_of, has_status, default_placement_page_limit,
}
use stable_placement.Redis.{KeyName, key_of}
use stable_placement.Redis.Ids.{cut}
use stable_placement.Redis.Scripts.{RedisPlacement, ScoredMember}
use stable_placement.Redis.Routes.{get_placement_raw}

abbrev pub max_placement_index_score : ℕ
max_placement_index_score = 2 ^ 53 - 1

-- `formatCursor`
unfoldable pub format_cursor : ℕ → Text → Text
format_cursor score key = itoa score ++ 0x3a ∷ key

-- The score of a cursor, in the range of scores.
abbrev pub checked_score : Option ℤ → Text → Result (ℕ × Text)
checked_score none key = err Error.cursor_malformed
checked_score (some (ℤ.negsuc n)) key = err Error.invalid_index_score
checked_score (some (ℤ.pos n)) key =
    if leb n max_placement_index_score then ok (n, key) else err Error.invalid_index_score

abbrev pub cursor_parts : Option (Text × Text) → Result (ℕ × Text)
cursor_parts none = err Error.cursor_malformed
cursor_parts (some (score, [])) = err Error.cursor_malformed
cursor_parts (some (score, b ∷ bs)) = checked_score (atoi score) (b ∷ bs)

-- `parseCursor`, with the check of the score that follows it
unfoldable pub parse_cursor : Text → Result (ℕ × Text)
unfolding cut
parse_cursor cursor = cursor_parts (cut 0x3a cursor)

-- The place after which a page starts: none for an empty cursor.
unfoldable pub start_after : Text → Result (Option (ℕ × Text))
unfolding parse_cursor
start_after [] = ok none
start_after (b ∷ bs) = do place ← parse_cursor (b ∷ bs); ok (some place)

-- A placement of the page, with its score and key in the index.
pub record Hit : Type 0 where
  pub placement : Placement
  pub score : ℕ
  pub key : Text

-- What the loop keeps: the last score that passed, and the hits so far, the last one first.
pub record Scan : Type 0 where
  pub previous : Option ℕ
  pub hits : List Hit

-- What an entry does: the scan goes on, the page is full, or there is an error.
pub data Step : Type 0 where
  scanned : Scan → Step
  full : Scan → Step
  broken : Error → Step

-- A valid entry: a whole score in range, and a string.
unfoldable pub entry_of : ScoredMember → Result (ℕ × Text)
entry_of m = elim (m.score) [
  | none ↦ err Error.invalid_index_score
  | some (ℤ.negsuc n) ↦ err Error.invalid_index_score
  | some (ℤ.pos n) ↦
      if leb n max_placement_index_score
      then elim (m.member) [ none ↦ err Error.invalid_index_member | some key ↦ ok (n, key) ]
      else err Error.invalid_index_score
]

-- The first entry of a batch that starts at a place: it may be the place itself, which is passed over.
pub data First : Type 0 where
  at_place beyond : First
  wrong : First

unfoldable pub first_entry : Option (ℕ × Text) → ℕ → Text → First
first_entry none score key = beyond
first_entry (some (place_score, place_key)) score key =
    if ltb score place_score
    then wrong
    else if score == place_score
    then (if same key place_key then at_place else wrong)
    else beyond

abbrev pub increasing : Option ℕ → ℕ → Bool
increasing none score = true
increasing (some previous) score = ltb previous score

module _ (decode : Text → Result RedisPlacement) (get : Text → Result (Option Text)) where
  -- The placement of the entry, if it is stored.
  abbrev pub found_or_none : Result (Text × Placement) → Result (Option Placement)
  found_or_none (ok (raw, p)) = ok (some p)
  found_or_none (err Error.placement_not_found) = ok none
  found_or_none (err e) = err e

  abbrev pub count_hit : ℕ → PlacementStatus → ℕ → Text → List Hit → Option Placement → Step
  count_hit limit s score key hits none = scanned (record { previous = some score; hits = hits })
  count_hit limit s score key hits (some p) =
      let more = record { placement = p; score = score; key = key } ∷ hits in
      if not (has_status s p)
      then scanned (record { previous = some score; hits = hits })
      else if ltb limit (length more)
      then full (record { previous = some score; hits = more })
      else scanned (record { previous = some score; hits = more })

  abbrev pub or_broken :
      ℕ → PlacementStatus → ℕ → Text → List Hit → Result (Option Placement) → Step
  or_broken limit s score key hits (err e) = broken e
  or_broken limit s score key hits (ok o) = count_hit limit s score key hits o

  -- An entry after the first checks.
  unfoldable pub scan_entry : ℕ → PlacementStatus → Scan → ℕ → Text → Step
  unfolding get_placement_raw
  scan_entry limit s scan score key =
      if not (increasing scan.previous score)
      then broken Error.invalid_index_score
      else or_broken limit s score key scan.hits
          (found_or_none (get_placement_raw decode (get key)))

  abbrev pub scan_first : ℕ → PlacementStatus → Scan → ℕ → Text → First → Step
  scan_first limit s scan score key at_place = scanned scan
  scan_first limit s scan score key wrong = broken Error.invalid_index_score
  scan_first limit s scan score key beyond = scan_entry limit s scan score key

  abbrev pub scan_member : ℕ → PlacementStatus → Option (ℕ × Text) → Scan → Result (ℕ × Text) → Step
  scan_member limit s place scan (err e) = broken e
  scan_member limit s place scan (ok (score, key)) =
      scan_first limit s scan score key (first_entry place score key)

  abbrev pub then_scan : Step → (Scan → Step) → Step
  then_scan (scanned scan) rest = rest scan
  then_scan (full scan) rest = full scan
  then_scan (broken e) rest = broken e

  -- The loop over a batch; only its first entry is compared with the place where it starts.
  unfoldable pub scan_batch :
      ℕ → PlacementStatus → Option (ℕ × Text) → List ScoredMember → Scan → Step
  unfolding scan_entry entry_of first_entry
  scan_batch limit s place [] scan = scanned scan
  scan_batch limit s place (m ∷ ms) scan =
      then_scan (scan_member limit s place scan (entry_of m)) (scan_batch limit s none ms)
