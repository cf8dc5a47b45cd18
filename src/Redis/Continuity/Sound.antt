-- ===== src/Redis/Continuity/Sound.antt =====
-- redis/event_bus.go: what CheckContinuity has seen when it returns nil.
use stable_placement.Base.{
  ◌≡◌, refl, ◌∙◌, ◌⊎◌, inl, inr, ℕ, zero, suc, ◌+◌, ◌<◌, Bool, true, false, Option, none, some,
  List, Text, text, arith, Bool-cases,
}
use stable_placement.Redis.Errors.{BusError, Reply, failed, got, mentions}
use stable_placement.Redis.Stream.{EventBus}
use stable_placement.Redis.Continuity.{StreamInfo, GroupInfo, Pending, Snapshot}
use stable_placement.Redis.Continuity.Gaps.{
  find_group, first_entry, listed_gap, gap_among, group_snapshot, check_continuity_snapshot,
}
use stable_placement.Redis.Continuity.Check.{
  Attempt, Verdict, settled, unstable, attempt, attempt_with, after_snapshot, confirm, confirm_with,
  no_report, conclude, same_continuity_stream_info, settle, Answer, attempts, check_continuity,
  continuity_max_attempts,
}
use stable_placement.Redis.Continuity.Snapshots.{NoGap, gap_with-NoGap}

-- The group was not listed, or its snapshot has no gap.
pub data Whole (s : Snapshot) (name : Text) (info : StreamInfo) : Type 0 where
  unlisted :
      (groups : List GroupInfo)
      → s.groups ≡ got groups
      → find_group name groups ≡ none
      → Whole s name info
  listed :
      (groups : List GroupInfo) (g : GroupInfo) (p : Pending) (first : Text)
      → s.groups ≡ got groups
      → find_group name groups ≡ some g
      → s.pending ≡ got p
      → first_entry s info ≡ got first
      → NoGap s info g p first
      → Whole s name info

-- An attempt that found the stream absent, or two equal reports of it around a snapshot without a gap.
pub data Assured (a : Attempt) (name : Text) : Type 0 where
  absent :
      (e : BusError)
      → mentions (text "no such key") e ≡ true
      → (a.info ≡ failed e) ⊎ (a.after ≡ failed e)
      → Assured a name
  stable :
      (info after : StreamInfo)
      → a.info ≡ got info
      → a.after ≡ got after
      → same_continuity_stream_info info after ≡ true
      → Whole a.snapshot name info
      → Assured a name

listed_gap-Whole :
    (s : Snapshot) (name : Text) (info : StreamInfo) (groups : List GroupInfo)
    (o : Option GroupInfo)
    → s.groups ≡ got groups
    → find_group name groups ≡ o
    → listed_gap s info o ≡ some (got false)
    → Whole s name info
unfolding group_snapshot
listed_gap-Whole s name info groups none e f h = unlisted groups e f
listed_gap-Whole s name info groups (some g) e f h =
    let (p, first, q, r, n) = gap_with-NoGap s info g s.pending (first_entry s info) h in
    listed groups g p first e f q r n

gap_among-Whole :
    (s : Snapshot) (name : Text) (info : StreamInfo) (r : Reply (List GroupInfo))
    → s.groups ≡ r
    → gap_among s name info r ≡ some (got false)
    → Whole s name info
gap_among-Whole s name info (failed e) q h = absurd (ground arith)
gap_among-Whole s name info (got groups) q h =
    listed_gap-Whole s name info groups (find_group name groups) q refl h

no_report-none :
    (live : Bool) (e : BusError) (bus bus' : EventBus)
    → no_report live e bus ≡ settled bus' none
    → (mentions (text "no such key") e ≡ true) × (bus' ≡ bus)
unfolding no_report
no_report-none live e bus bus' h = ground arith

conclude-none :
    (gap : Bool) (bus bus' : EventBus)
    → conclude gap bus ≡ settled bus' none
    → (gap ≡ false) × (bus' ≡ bus)
unfolding conclude
conclude-none true bus bus' h = absurd (ground arith)
conclude-none false bus bus' h = ground arith

confirm_with-none :
    (a : Attempt) (info : StreamInfo) (gap : Bool) (bus bus' : EventBus) (r : Reply StreamInfo)
    → a.info ≡ got info
    → a.after ≡ r
    → (gap ≡ false → Whole a.snapshot bus.consumer.group info)
    → confirm_with a info gap bus r ≡ settled bus' none
    → Assured a bus.consumer.group × (bus' ≡ bus)
confirm_with-none a info gap bus bus' (failed e) i q w h =
    let (m, same_bus) = no_report-none a.live e bus bus' h in (absent e m (inr q), same_bus)
confirm_with-none a info gap bus bus' (got after) i q w h =
    elim (Bool-cases (same_continuity_stream_info info after)) [
      | inl e ↦
          let (g, same_bus) = conclude-none gap bus bus' (ground arith) in
          (stable info after i q e (w g), same_bus)
      | inr e ↦ absurd (ground arith)
    ]

after_snapshot-none :
    (a : Attempt) (info : StreamInfo) (bus bus' : EventBus) (o : Option (Reply Bool))
    → a.info ≡ got info
    → (o ≡ some (got false) → Whole a.snapshot bus.consumer.group info)
    → after_snapshot a info bus o ≡ some (settled bus' none)
    → Assured a bus.consumer.group × (bus' ≡ bus)
unfolding confirm
after_snapshot-none a info bus bus' none i w h = absurd (ground arith)
after_snapshot-none a info bus bus' (some (failed e)) i w h = absurd (ground arith)
after_snapshot-none a info bus bus' (some (got gap)) i w h =
    confirm_with-none a info gap bus bus' a.after i refl (λ g. w (ground arith)) (ground arith)

attempt_with-none :
    (a : Attempt) (bus bus' : EventBus) (r : Reply StreamInfo)
    → a.info ≡ r
    → attempt_with a bus r ≡ some (settled bus' none)
    → Assured a bus.consumer.group × (bus' ≡ bus)
unfolding check_continuity_snapshot
attempt_with-none a bus bus' (failed e) i h =
    let (m, same_bus) = no_report-none a.live e bus bus' (ground arith) in
    (absent e m (inl i), same_bus)
attempt_with-none a bus bus' (got info) i h =
    after_snapshot-none a info bus bus' _ i
      (gap_among-Whole a.snapshot bus.consumer.group info a.snapshot.groups refl) h

settle-none :
    (a : Attempt) (bus bus' : EventBus) (o : Option Verdict) (rest : Option Answer)
    → attempt a bus ≡ o
    → settle o rest ≡ some (bus', none)
    → (Assured a bus.consumer.group × (bus' ≡ bus)) ⊎ (rest ≡ some (bus', none))
unfolding attempt
settle-none a bus bus' none rest q h = absurd (ground arith)
settle-none a bus bus' (some unstable) rest q h = inr h
settle-none a bus bus' (some (settled b r)) rest q h =
    inl (attempt_with-none a bus bus' a.info refl (q ∙ ground arith))

attempts-none :
    (env : ℕ → Attempt) (bus bus' : EventBus) (left i : ℕ)
    → attempts env bus left i ≡ some (bus', none)
    → (j : ℕ) × (j < i + left) × Assured (env j) bus.consumer.group × (bus' ≡ bus)
unfolding attempts
attempts-none env bus bus' zero i h = absurd (ground arith)
attempts-none env bus bus' (suc left) i h =
    elim (settle-none (env i) bus bus' (attempt (env i) bus) _ refl h) [
      | inl (a, e) ↦ (i, omega arith, a, e)
      | inr g ↦
          let (j, le, a, e) = attempts-none env bus bus' left (suc i) g in (j, omega arith, a, e)
    ]

-- CheckContinuity returns nil only after an attempt, one of the first three, in which Redis knew no
-- such stream, or gave two equal reports of it and in between a snapshot in which the group was not
-- listed or had lost nothing: the last deleted entry was delivered to the group, and pending messages
-- still stand in a stream that starts no later than the lowest of them, with every payload read back
-- where entries were deleted. The bus is left as it was.
pub check_continuity_sound :
    (env : ℕ → Attempt) (bus bus' : EventBus)
    → check_continuity env bus ≡ some (bus', none)
    → (i : ℕ) × (i < 3) × Assured (env i) bus.consumer.group × (bus' ≡ bus)
unfolding check_continuity
check_continuity_sound env bus bus' h = attempts-none env bus bus' continuity_max_attempts 0 h
