-- ===== src/Redis/Batches.antt =====
-- redis/directory.go: the loop of FindByNode over batches, and its pages. `decode` stands for json.Unmarshal of a stored placement.
pub mod Index
pub mod Joined
pub mod Whole
pub mod Hits
pub mod Scanned
pub mod Cuts
pub mod Complete
mod Tests
use stable_placement.Base.{
  ℕ, zero, suc, ◌-◌, ltb, Option, none, some, List, [], ◌∷◌, Text, length, take, get_elem?,
  if◌then◌else◌,
}
use stable_placement.Model.{Result, ok, err, Placement, PlacementStatus}
use stable_placement.Directory.Paging.{
  FindByNodeQuery, PlacementPage, limit_of, status_of, default_placement_page_limit,
}
use stable_placement.Redis.{KeyName, key_of}
use stable_placement.Redis.Scripts.{RedisPlacement, ScoredMember}
use stable_placement.Redis.Pages.{
  format_cursor, start_after, Hit, Scan, Step, scanned, full, broken, entry_of, scan_batch,
}

-- The hits in the order of the index.
unfoldable pub in_order : List Hit → List Hit → List Hit
in_order [] acc = acc
in_order (h ∷ hs) acc = in_order hs (h ∷ acc)

unfoldable pub placements_of : List Hit → List Placement
placements_of [] = []
placements_of (h ∷ hs) = h.placement ∷ placements_of hs

abbrev pub cursor_of : Option Hit → Text
cursor_of none = []
cursor_of (some h) = format_cursor h.score h.key

-- A page that is not the last: one hit too many was found, and the cursor is that of the last one kept.
unfoldable pub full_page : ℕ → List Hit → PlacementPage
unfolding in_order placements_of format_cursor
full_page limit hits = record {
  placements = placements_of (take limit (in_order hits []));
  next_cursor = cursor_of (get_elem? (in_order hits []) (limit - 1));
}

unfoldable pub last_page : List Hit → PlacementPage
unfolding in_order placements_of
last_page hits = record { placements = placements_of (in_order hits []); next_cursor = [] }

-- The last entry of a batch, where the next one starts.
unfoldable pub last_place : Option (ℕ × Text) → List ScoredMember → Option (ℕ × Text)
unfolding entry_of
last_place place [] = place
last_place place (m ∷ ms) = elim (entry_of m) [
  | err e ↦ last_place place ms
  | ok next ↦ last_place (some next) ms
]

-- `ZRANGEBYSCORE` from a place on, with a batch size.
abbrev pub Fetch : Type 0
Fetch = Option ℕ → ℕ → Result (List ScoredMember)

abbrev pub score_of_place : Option (ℕ × Text) → Option ℕ
score_of_place none = none
score_of_place (some (score, key)) = some score

-- The batch is as long as asked for, so that there may be more.
abbrev pub next_batch :
    ℕ
    → ℕ
    → Option (ℕ × Text)
    → List ScoredMember
    → Step
    → (Option (ℕ × Text) → Scan → Option (Result PlacementPage))
    → Option (Result PlacementPage)
next_batch limit size place ms (broken e) loop = some (err e)
next_batch limit size place ms (full scan) loop = some (ok (full_page limit scan.hits))
next_batch limit size place ms (scanned scan) loop =
    if ltb (length ms) size
    then some (ok (last_page scan.hits))
    else loop (last_place place ms) scan

abbrev pub batch_of :
    Result (List ScoredMember)
    → (List ScoredMember → Option (Result PlacementPage))
    → Option (Result PlacementPage)
batch_of (err e) loop = some (err e)
batch_of (ok ms) loop = loop ms

-- The loop over batches, with so many of them as fuel; `none` means that it ran out.
unfoldable pub scan_index :
    (Text → Result RedisPlacement)
    → (Text → Result (Option Text))
    → Fetch
    → ℕ
    → ℕ
    → ℕ
    → PlacementStatus
    → Option (ℕ × Text)
    → Scan
    → Option (Result PlacementPage)
unfolding scan_batch full_page last_page last_place
scan_index decode get fetch zero limit size s place scan = none
scan_index decode get fetch (suc fuel) limit size s place scan =
    batch_of (fetch (score_of_place place) size) λ ms.
      next_batch limit size place ms (scan_batch decode get limit s place ms scan)
        λ place' scan'. scan_index decode get fetch fuel limit size s place' scan'

abbrev pub batch_size_of : ℕ → ℕ
batch_size_of limit =
    if ltb limit default_placement_page_limit then default_placement_page_limit else limit

abbrev pub after_start :
    (Option (ℕ × Text) → Option (Result PlacementPage))
    → Result (Option (ℕ × Text))
    → Option (Result PlacementPage)
after_start loop (err e) = some (err e)
after_start loop (ok place) = loop place

-- `FindByNode`, with so many batches as fuel
unfoldable pub find_by_node_in_redis :
    (Text → Result RedisPlacement)
    → (Text → Result (Option Text))
    → (Text → Fetch)
    → ℕ
    → FindByNodeQuery
    → Option (Result PlacementPage)
unfolding start_after scan_index key_of
find_by_node_in_redis decode get fetch fuel q =
    after_start
      (λ place.
        scan_index decode get (fetch (key_of (KeyName.placement_node q.node_identity))) fuel
          (limit_of q.limit) (batch_size_of (limit_of q.limit)) (status_of q.status) place
          (record { previous = score_of_place place; hits = [] }))
      (start_after q.cursor)
