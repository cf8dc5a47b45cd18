-- ===== src/Redis/Continuity.antt =====
-- redis/event_bus.go: what Redis reports of a stream and its groups, and pendingPayloadMissing, which
-- reads the payloads of pending entries batch by batch.
pub mod Gaps
pub mod Snapshots
pub mod Check
pub mod Sound
pub mod Ends
use stable_placement.Base.{
  ℕ, zero, suc, ◌+◌, ℤ, ltb, not, Bool, true, false, Option, none, some, List, [], ◌∷◌, Text, text,
  same, length, if◌then◌else◌,
}
use stable_placement.Redis.Errors.{BusError, Reply, failed, got}

-- The fields of an XINFO STREAM reply that the code reads. Lengths and counts are not negative.
pub record StreamInfo : Type 0 where
  pub length : ℕ
  pub groups : ℕ
  pub last_generated_id : Text
  pub max_deleted_entry_id : Text
  pub entries_added : ℕ
  pub first_entry_id : Text
  pub last_entry_id : Text
  pub recorded_first_entry_id : Text

-- The fields of a group in an XINFO GROUPS reply. A count that Redis does not know is negative.
pub record GroupInfo : Type 0 where
  pub name : Text
  pub pending : ℕ
  pub last_delivered_id : Text
  pub entries_read : ℤ
  pub lag : ℤ

-- The summary of an XPENDING reply.
pub record Pending : Type 0 where
  pub count : ℕ
  pub lower : Text

-- A pending entry, and the ids that reading it by XRANGE gives.
pub record PendingEntry : Type 0 where
  pub id : Text
  pub found : Reply (List Text)

-- What Redis answers while a snapshot is taken.
pub record Snapshot : Type 0 where
  pub groups : Reply (List GroupInfo)
  pub pending : Reply Pending
  -- the ids of XRANGE - + COUNT 1
  pub first : Reply (List Text)
  -- XPENDING from an id on, in batches of 100
  pub page : Text → Reply (List PendingEntry)
  -- the error of the pipeline that reads the payloads of a batch
  pub piped : Text → Option BusError

abbrev pub pending_payload_batch_size : ℕ
pending_payload_batch_size = 100

-- The id of the last entry, after `start` where there is none.
unfoldable pub last_id : Text → List PendingEntry → Text
last_id start [] = start
last_id start (e ∷ es) = last_id e.id es

-- `len(messages) != 1 || messages[0].ID != entry.ID`
abbrev pub is_missing : Text → List Text → Bool
is_missing id [] = true
is_missing id (found ∷ []) = not (same found id)
is_missing id (found ∷ other ∷ more) = true

-- The loop over the replies of a batch: whether a payload is missing.
unfoldable pub batch_missing : List PendingEntry → Reply Bool
batch_missing [] = got false
batch_missing (e ∷ es) = elim (e.found) [
  | failed x ↦ failed x
  | got ids ↦ elim (is_missing e.id ids) [ true ↦ got true | false ↦ batch_missing es ]
]

-- What one round of the loop does: return, or go on from an id with so many more checked.
pub data Round : Type 0 where
  return : Reply Bool → Round
  go_on : ℕ → Text → Round

-- A round whose batch has answered.
unfoldable pub after_batch : List PendingEntry → Text → Reply Bool → Round
unfolding last_id
after_batch entries start (failed x) = return (failed x)
after_batch entries start (got true) = return (got true)
after_batch entries start (got false) =
    if ltb (length entries) pending_payload_batch_size
    then return (got false)
    else go_on (length entries) (0x28 ∷ last_id start entries)

abbrev pub round_with : Text → Reply (List PendingEntry) → Option BusError → Round
round_with start (failed x) piped = return (failed x)
round_with start (got []) piped = return (got false)
round_with start (got (e ∷ es)) (some x) = return (failed x)
round_with start (got (e ∷ es)) none = after_batch (e ∷ es) start (batch_missing (e ∷ es))

unfoldable pub payload_round : Snapshot → Text → Round
payload_round s start = round_with start (s.page start) (s.piped start)

abbrev pub continued : (ℕ → Text → Option (Reply Bool)) → Round → Option (Reply Bool)
continued loop (return r) = some r
continued loop (go_on n next) = loop n next

-- The loop of `pendingPayloadMissing`, with so many rounds of fuel; `none` means that it ran out.
unfoldable pub payload_loop : Snapshot → ℕ → ℕ → ℕ → Text → Option (Reply Bool)
payload_loop s zero pending_count checked start =
    if ltb checked pending_count then none else some (got false)
payload_loop s (suc fuel) pending_count checked start = elim (ltb checked pending_count) [
  | false ↦ some (got false)
  | true ↦
      continued (λ n next. payload_loop s fuel pending_count (checked + n) next)
        (payload_round s start)
]

-- `pendingPayloadMissing`: every round that goes on checks an entry at least.
unfoldable pub pending_payload_missing : Snapshot → ℕ → Option (Reply Bool)
unfolding text
pending_payload_missing s pending_count = payload_loop s pending_count pending_count 0 (text "-")
