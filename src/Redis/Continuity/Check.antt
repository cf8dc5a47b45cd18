-- ===== src/Redis/Continuity/Check.antt =====
-- redis/event_bus.go: CheckContinuity, which takes a snapshot between two reports of the stream and
-- trusts it only if the reports agree.
use stable_placement.Base.{
  ℕ, zero, suc, ◌==◌, ◌&&◌, Bool, Option, none, some, text, same, if◌then◌else◌,
}
use stable_placement.Redis.Errors.{BusError, Reply, failed, got, mentions}
use stable_placement.Redis.Stream.{EventBus, set_degraded}
use stable_placement.Redis.Continuity.{StreamInfo, Snapshot}
use stable_placement.Redis.Continuity.Gaps.{check_continuity_snapshot}

-- `sameContinuityStreamInfo`
unfoldable pub same_continuity_stream_info : StreamInfo → StreamInfo → Bool
same_continuity_stream_info a b =
    a.length == b.length
    && (a.groups == b.groups
        && (same a.last_generated_id b.last_generated_id
            && (same a.max_deleted_entry_id b.max_deleted_entry_id
                && (a.entries_added == b.entries_added
                    && (same a.first_entry_id b.first_entry_id
                        && (same a.last_entry_id b.last_entry_id
                            && same a.recorded_first_entry_id b.recorded_first_entry_id))))))

-- What Redis answers in one attempt, and whether ctx.Err() is nil after an error.
pub record Attempt : Type 0 where
  pub info : Reply StreamInfo
  pub snapshot : Snapshot
  pub after : Reply StreamInfo
  pub live : Bool

-- What an attempt does: return, or start over.
pub data Verdict : Type 0 where
  settled : EventBus → Option BusError → Verdict
  unstable : Verdict

abbrev pub give_up : Bool → BusError → EventBus → Verdict
give_up live e bus = settled (if live then set_degraded e bus else bus) (some e)

-- An error of a report of the stream: a stream that is not there has no gap.
unfoldable pub no_report : Bool → BusError → EventBus → Verdict
unfolding text
no_report live e bus =
    if mentions (text "no such key") e then settled bus none else give_up live e bus

-- What is returned when the two reports agree.
unfoldable pub conclude : Bool → EventBus → Verdict
conclude gap bus =
    if gap
    then settled (set_degraded BusError.stream_gap bus) (some BusError.stream_gap)
    else settled bus none

abbrev pub confirm_with : Attempt → StreamInfo → Bool → EventBus → Reply StreamInfo → Verdict
confirm_with a info gap bus (failed e) = no_report a.live e bus
confirm_with a info gap bus (got after) =
    if same_continuity_stream_info info after then conclude gap bus else unstable

-- The second report.
unfoldable pub confirm : Attempt → StreamInfo → Bool → EventBus → Verdict
confirm a info gap bus = confirm_with a info gap bus a.after

abbrev pub after_snapshot : Attempt → StreamInfo → EventBus → Option (Reply Bool) → Option Verdict
after_snapshot a info bus none = none
after_snapshot a info bus (some (failed e)) = some (give_up a.live e bus)
after_snapshot a info bus (some (got gap)) = some (confirm a info gap bus)

abbrev pub attempt_with : Attempt → EventBus → Reply StreamInfo → Option Verdict
attempt_with a bus (failed e) = some (no_report a.live e bus)
attempt_with a bus (got info) =
    after_snapshot a info bus (check_continuity_snapshot a.snapshot bus.consumer.group info)

-- One round of the loop.
unfoldable pub attempt : Attempt → EventBus → Option Verdict
attempt a bus = attempt_with a bus a.info

abbrev pub Answer : Type 0
Answer = EventBus × Option BusError

-- An attempt that settles ends the loop; else the rest of the loop answers.
abbrev pub settle : Option Verdict → Option Answer → Option Answer
settle none rest = none
settle (some (settled bus result)) rest = some (bus, result)
settle (some unstable) rest = rest

abbrev pub continuity_max_attempts : ℕ
continuity_max_attempts = 3

-- The loop, with the attempts left and the number of the next one. `none` means that a loop over
-- pending messages ran out of fuel.
unfoldable pub attempts : (ℕ → Attempt) → EventBus → ℕ → ℕ → Option Answer
attempts env bus zero i = some (bus, some BusError.stream_continuity_unstable)
attempts env bus (suc left) i = settle (attempt (env i) bus) (attempts env bus left (suc i))

-- `CheckContinuity`
unfoldable pub check_continuity : (ℕ → Attempt) → EventBus → Option Answer
check_continuity env bus = attempts env bus continuity_max_attempts 0
