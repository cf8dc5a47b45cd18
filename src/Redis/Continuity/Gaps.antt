-- ===== src/Redis/Continuity/Gaps.antt =====
-- redis/event_bus.go: checkContinuitySnapshot, which decides whether entries were trimmed before the
-- group read them.
use stable_placement.Base.{
  ◌+◌, ◌-◌, ℤ, ltb, ◌==◌, ◌&&◌, ◌||◌, not, Bool, true, false, Option, none, some, List, [], ◌∷◌,
  Text, text, same, if◌then◌else◌,
}
use stable_placement.Redis.Errors.{Reply, failed, got}
use stable_placement.Redis.Ids.{compare_redis_stream_id, is_below, is_above}
use stable_placement.Redis.Continuity.{
  StreamInfo, GroupInfo, Pending, Snapshot, pending_payload_missing,
}

-- The first group of the name.
unfoldable pub find_group : Text → List GroupInfo → Option GroupInfo
find_group name [] = none
find_group name (g ∷ gs) = if same g.name name then some g else find_group name gs

-- The id of the first entry: as reported, or read where the report has none.
abbrev pub head_or_empty : List Text → Text
head_or_empty [] = []
head_or_empty (id ∷ ids) = id

unfoldable pub first_entry : Snapshot → StreamInfo → Reply Text
first_entry s info =
    if same info.first_entry_id [] && ltb 0 info.length
    then elim (s.first) [ failed e ↦ failed e | got ids ↦ got (head_or_empty ids) ]
    else got info.first_entry_id

-- `maxDeleted`
unfoldable pub max_deleted : StreamInfo → Bool
unfolding text
max_deleted info =
    not (same info.max_deleted_entry_id []) && not (same info.max_deleted_entry_id (text "0-0"))

abbrev pub deletion_observed : StreamInfo → Bool
deletion_observed info = max_deleted info || ltb info.length info.entries_added

-- `pendingMissing`
unfoldable pub pending_trimmed : StreamInfo → Pending → Text → Bool
pending_trimmed info pending first =
    info.length == 0
    || (not (same first []) && is_below (compare_redis_stream_id pending.lower first))

-- The tests under `pending.Count > 0`.
unfoldable pub pending_gap : Snapshot → StreamInfo → Pending → Text → Option (Reply Bool)
pending_gap s info pending first =
    if pending.count == 0
    then some (got false)
    else if pending_trimmed info pending first
    then some (got true)
    else if deletion_observed info
    then pending_payload_missing s pending.count
    else some (got false)

-- The comparison of the counts, where Redis knows them.
unfoldable pub count_gap : StreamInfo → ℤ → ℤ → Bool
count_gap info (ℤ.pos read) (ℤ.pos lag) =
    if ltb 0 info.entries_added
    then (ltb info.entries_added read || ltb (info.entries_added - read) lag)
      || ltb (read + lag) info.entries_added
    else ltb info.length info.entries_added
count_gap info (ℤ.pos read) (ℤ.negsuc n) = ltb info.length info.entries_added
count_gap info (ℤ.negsuc n) lag = ltb info.length info.entries_added

abbrev pub no_lag : ℤ → Bool
no_lag (ℤ.pos n) = n == 0
no_lag (ℤ.negsuc n) = false

-- The group has read and acknowledged everything.
unfoldable pub caught_up : StreamInfo → GroupInfo → Bool
caught_up info g =
    g.pending == 0
    && (no_lag g.lag
        && (not (same g.last_delivered_id []) && same g.last_delivered_id info.last_generated_id))

-- The tests after those on pending messages.
unfoldable pub delivery_gap : StreamInfo → GroupInfo → Bool
delivery_gap info g =
    if max_deleted info
      && is_above (compare_redis_stream_id info.max_deleted_entry_id g.last_delivered_id)
    then true
    else if caught_up info g
    then false
    else count_gap info g.entries_read g.lag

abbrev pub or_delivery : StreamInfo → GroupInfo → Option (Reply Bool) → Option (Reply Bool)
or_delivery info g none = none
or_delivery info g (some (failed e)) = some (failed e)
or_delivery info g (some (got true)) = some (got true)
or_delivery info g (some (got false)) = some (got (delivery_gap info g))

abbrev pub gap_with :
    Snapshot → StreamInfo → GroupInfo → Reply Pending → Reply Text → Option (Reply Bool)
gap_with s info g (failed e) first = some (failed e)
gap_with s info g (got pending) (failed e) = some (failed e)
gap_with s info g (got pending) (got first) = or_delivery info g (pending_gap s info pending first)

-- The snapshot of a group that Redis lists.
unfoldable pub group_snapshot : Snapshot → StreamInfo → GroupInfo → Option (Reply Bool)
group_snapshot s info g = gap_with s info g s.pending (first_entry s info)

abbrev pub listed_gap : Snapshot → StreamInfo → Option GroupInfo → Option (Reply Bool)
listed_gap s info none = some (got false)
listed_gap s info (some g) = group_snapshot s info g

abbrev pub gap_among : Snapshot → Text → StreamInfo → Reply (List GroupInfo) → Option (Reply Bool)
gap_among s name info (failed e) = some (failed e)
gap_among s name info (got groups) = listed_gap s info (find_group name groups)

-- `checkContinuitySnapshot`: whether there is a gap. A group that Redis does not list has none.
unfoldable pub check_continuity_snapshot : Snapshot → Text → StreamInfo → Option (Reply Bool)
check_continuity_snapshot s name info = gap_among s name info s.groups
