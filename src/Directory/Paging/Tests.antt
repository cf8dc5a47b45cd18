-- ===== src/Directory/Paging/Tests.antt =====
-- Pages of one placement, and an instance of the theorem about them.
use stable_placement.Base.{ℤ, ◌≡◌, refl, none, [], ◌∷◌, lookup, text_eq, sort, before}
use stable_placement.Model.{ok}
use stable_placement.Samples.{id_a, one_placement, placement_x}
use stable_placement.Directory.Paging.{
  FindByNodeQuery, keys_of, scan, counted, find_by_node, start_of, page_of,
}

abbrev first_page : FindByNodeQuery
first_page = record { node_identity = id_a; status = none; cursor = []; limit = ℤ.pos 1 }

find_by_node-first_page :
    find_by_node one_placement first_page
    ≡ ok (record { placements = placement_x ∷ []; next_cursor = [] })
unfolding find_by_node start_of page_of keys_of scan counted lookup text_eq sort before
find_by_node-first_page = refl
