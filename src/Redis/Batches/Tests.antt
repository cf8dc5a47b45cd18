-- ===== src/Redis/Batches/Tests.antt =====
-- Two pages of a node's index, and instances of the theorems.
use stable_placement.Base.{
  ◌≡◌, refl, ℕ, ℤ, Option, none, some, List, [], ◌∷◌, Text, text, take, itoa, text_eq, arith,
}
use stable_placement.Samples.{id_a, of_byte}
use stable_placement.Model.{Result, ok, Placement, PlacementStatus}
use stable_placement.Directory.Paging.{FindByNodeQuery, status_of}
use stable_placement.Redis.{key_of}
use stable_placement.Redis.Scripts.{placement_of}
use stable_placement.Redis.Routes.{get_placement_raw}
use stable_placement.Redis.Routes.Tests.{decode_x, wire_x}
use stable_placement.Redis.Pages.{found_or_none, start_after, format_cursor, scan_batch}
use stable_placement.Redis.Batches.{Fetch, find_by_node_in_redis, placements_of, scan_index}
use stable_placement.Redis.Batches.Index.{stored, from_score, from_place, IsIndex}
use stable_placement.Redis.Batches.Whole.{page_at_once, find_by_node_in_redis_at_once}
use stable_placement.Redis.Batches.Hits.{hits_of}
use stable_placement.Redis.Batches.Complete.{Pages, find_by_node_in_redis_complete}

abbrev index_a : List (ℕ × Text)
index_a = (1, of_byte 0x78) ∷ (3, of_byte 0x79) ∷ []

abbrev get_any : Text → Result (Option Text)
get_any [] = ok none
get_any (b ∷ bs) = ok (some (text "{}"))

abbrev find_any : Text → Option Placement
find_any [] = none
find_any (b ∷ bs) = some (placement_of wire_x)

abbrev fetch_a : Text → Fetch
fetch_a key place n = ok (stored (take n (from_place place index_a)))

abbrev query_a : FindByNodeQuery
query_a = record {
  node_identity = id_a;
  status = some PlacementStatus.active;
  cursor = [];
  limit = ℤ.pos 1;
}

finds_any :
    (k : Text)
    → found_or_none decode_x get_any (get_placement_raw decode_x (get_any k)) ≡ ok (find_any k)
unfolding get_placement_raw
finds_any [] = refl
finds_any (b ∷ bs) = refl

index_a-IsIndex : IsIndex 0 index_a
unfolding IsIndex
index_a-IsIndex = (omega arith, omega arith, (omega arith, omega arith, tt))

first_page :
    find_by_node_in_redis decode_x get_any fetch_a 3 query_a
    ≡ some (ok (record { placements = placement_of wire_x ∷ []; next_cursor = text "1:x" }))
unfolding find_by_node_in_redis start_after scan_index stored scan_batch from_score text_eq
    get_placement_raw format_cursor itoa text key_of placement_of
first_page = refl

find_by_node_in_redis_at_once_example :
    find_by_node_in_redis decode_x get_any fetch_a 3 query_a
    ≡ some (page_at_once decode_x get_any index_a query_a)
find_by_node_in_redis_at_once_example =
    find_by_node_in_redis_at_once decode_x get_any fetch_a index_a 3 query_a index_a-IsIndex
      (λ place n. refl) (omega arith)

find_by_node_in_redis_complete_example :
    Pages
      (find_by_node_in_redis decode_x get_any fetch_a 3)
      query_a
      (placements_of (hits_of find_any (status_of query_a.status) index_a))
find_by_node_in_redis_complete_example =
    find_by_node_in_redis_complete decode_x get_any fetch_a index_a 3 find_any query_a
      index_a-IsIndex (λ place n. refl) (omega arith) finds_any refl refl
