-- ===== src/Directory/Paging.antt =====
-- memory/directory.go: FindByNode, in pages with a decimal cursor.
pub mod Completeness
mod Tests
use stable_placement.Base.{
  ℕ, ℤ, zero, suc, ◌+◌, ◌≡◌, ltb, leb, if◌then◌else◌, Bool, true, false, not, Option, none, some,
  List, [], ◌∷◌, ◌++◌, map, Text, same, length, drop, lookup, sort, before, atoi, itoa,
}
use stable_placement.Model.{
  Result, ok, err, Error, ◌>>=◌, or_fail, Placement, PlacementStatus, is_active,
}
use stable_placement.Registry.{names_of}
use stable_placement.Directory.{Directory}

-- A status of the query is nil where it is empty.
pub record FindByNodeQuery : Type 0 where
  pub node_identity : Text
  pub status : Option PlacementStatus
  pub cursor : Text
  pub limit : ℤ

pub record PlacementPage : Type 0 where
  pub placements : List Placement
  pub next_cursor : Text

abbrev pub default_placement_page_limit : ℕ
default_placement_page_limit = 100

abbrev pub limit_of : ℤ → ℕ
limit_of (ℤ.negsuc n) = default_placement_page_limit
limit_of (ℤ.pos zero) = default_placement_page_limit
limit_of (ℤ.pos (suc n)) = suc n

abbrev pub status_of : Option PlacementStatus → PlacementStatus
status_of none = PlacementStatus.active
status_of (some s) = s

start_at : ℤ → Result ℕ
start_at (ℤ.negsuc n) = err Error.cursor_negative
start_at (ℤ.pos n) = ok n

unfoldable pub start_of : Text → Result ℕ
unfolding start_at
start_of cursor =
    if same cursor [] then ok 0 else or_fail (atoi cursor) Error.cursor_malformed >>= start_at

abbrev pub has_status : PlacementStatus → Placement → Bool
has_status PlacementStatus.active p = is_active p.status
has_status PlacementStatus.released p = not (is_active p.status)

-- The keys that `byNode` lists for the node, sorted.
unfoldable pub keys_of : Directory → Text → List Text
keys_of d identity = sort before (map (λ e. e.0) (names_of (lookup identity d.by_node)))

-- The placement of the key, if it has the status. A key without a placement reads as the zero value,
-- whose status is no status.
unfoldable pub counted : Directory → PlacementStatus → Text → Option Placement
counted d s k = elim (lookup k d.placements) [
  | none ↦ none
  | some p ↦ if has_status s p then some p else none
]

abbrev pub passed_over : List Placement × ℕ → List Placement × ℕ
passed_over (page, n) = (page, suc n)

abbrev pub taken : Placement → List Placement × ℕ → List Placement × ℕ
taken p (page, n) = (p ∷ page, suc n)

-- The loop, from the keys at the start: the page, and how many keys it read.
unfoldable pub scan : Directory → PlacementStatus → List Text → ℕ → List Placement × ℕ
unfolding counted
scan d s [] room = ([], 0)
scan d s (k ∷ ks) zero = ([], 0)
scan d s (k ∷ ks) (suc room) = elim (counted d s k) [
  | none ↦ passed_over (scan d s ks (suc room))
  | some p ↦ taken p (scan d s ks room)
]

unfoldable pub page_of : Directory → PlacementStatus → List Text → ℕ → ℕ → PlacementPage
unfolding scan
page_of d s keys start limit =
    if leb (length keys) start
    then record { placements = []; next_cursor = [] }
    else (let (placements, n) = scan d s (drop start keys) limit in
        record {
          placements = placements;
          next_cursor = if ltb (start + n) (length keys) then itoa (start + n) else [];
        })

-- `FindByNode`
unfoldable pub find_by_node : Directory → FindByNodeQuery → Result PlacementPage
unfolding start_of page_of keys_of
find_by_node d q = do
  start ← start_of q.cursor
  ok (page_of d (status_of q.status) (keys_of d q.node_identity) start (limit_of q.limit))
