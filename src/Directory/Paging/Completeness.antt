-- ===== src/Directory/Paging/Completeness.antt =====
-- Following the cursors of FindByNode gives all of a node's placements.
use stable_placement.Base.{
  ℕ, ℤ, zero, suc, ◌<◌, ◌≤◌, ◌≡◌, ◌≢◌, inl, inr, none, some, List, [], ◌∷◌, ◌++◌, Text, length,
  drop, Option-cases, arith,
}
use stable_placement.Model.{ok, Placement, PlacementStatus}
use stable_placement.Directory.{Directory}
use stable_placement.Directory.Paging.{
  FindByNodeQuery, PlacementPage, limit_of, status_of, start_of, counted, keys_of, scan,
  find_by_node,
}

-- The placements of the keys that have the status, in order.
pub placements_of : Directory → PlacementStatus → List Text → List Placement
unfolding counted
placements_of d s [] = []
placements_of d s (k ∷ ks) = elim (counted d s k) [
  | none ↦ placements_of d s ks
  | some p ↦ p ∷ placements_of d s ks
]

-- What a caller gets who follows the cursors from a query to the last page.
pub data Pages (d : Directory) : FindByNodeQuery → List Placement → Type 0 where
  last :
      (q : FindByNodeQuery) (page : PlacementPage)
      → find_by_node d q ≡ ok page
      → page.next_cursor ≡ []
      → Pages d q page.placements
  more :
      (q : FindByNodeQuery) (page : PlacementPage) (rest : List Placement)
      → find_by_node d q ≡ ok page
      → page.next_cursor ≢ []
      → Pages d (record q { cursor = page.next_cursor }) rest
      → Pages d q (page.placements ++ rest)

scan_reads :
    (d : Directory) (s : PlacementStatus) (keys : List Text) (room : ℕ)
    → (scan d s keys room).1 ≤ length keys
unfolding scan
scan_reads d s [] room = omega arith
scan_reads d s (k ∷ ks) zero = omega arith
scan_reads d s (k ∷ ks) (suc room) = elim (Option-cases (counted d s k)) [
  | inl e ↦ ground (arith, scan_reads d s ks (suc room))
  | inr (p, e) ↦ ground (arith, scan_reads d s ks room)
]

module _ (d : Directory) (q : FindByNodeQuery) (start : ℕ)
    (starts : start_of q.cursor ≡ ok start) where
  abbrev keys : List Text
  keys = keys_of d q.node_identity

  -- the page that starts there, and the keys that it reads
  abbrev scanned : List Placement × ℕ
  scanned = scan d (status_of q.status) (drop start keys) (limit_of q.limit)

pub limit_of-pos : (limit : ℤ) → 0 < limit_of limit
limit_of-pos (ℤ.negsuc n) = omega arith
limit_of-pos (ℤ.pos zero) = omega arith
limit_of-pos (ℤ.pos (suc n)) = omega arith
