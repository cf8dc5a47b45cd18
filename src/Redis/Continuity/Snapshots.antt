-- ===== src/Redis/Continuity/Snapshots.antt =====
-- redis/event_bus.go: what a snapshot without a gap says of the stream.
use stable_placement.Base.{
  ◌≡◌, refl, sym, ◌∙◌, ◌≢◌, inl, inr, ℕ, zero, suc, ◌+◌, ◌<◌, ◌≤◌, ltb, Bool, true, false, Option,
  none, some, List, [], ◌∷◌, Text, text, same, eq_of_same, length, arith, All, Bool-cases,
}
use stable_placement.Redis.Errors.{BusError, Reply, failed, got, Reply-cases}
use stable_placement.Redis.Ids.{compare_redis_stream_id, is_below, is_above}
use stable_placement.Redis.Continuity.{
  StreamInfo, GroupInfo, Pending, PendingEntry, Snapshot, Round, return, go_on, after_batch,
  is_missing, batch_missing, round_with, payload_round, continued, payload_loop,
  pending_payload_missing, last_id,
}
use stable_placement.Redis.Continuity.Gaps.{
  pending_gap, or_delivery, delivery_gap, gap_with, pending_trimmed, deletion_observed, max_deleted,
}

-- Reading the entry gives it and nothing else.
abbrev pub Present : PendingEntry → Type 0
Present e = e.found ≡ got (e.id ∷ [])

-- From an id on the batches of pending entries are read, and all their payloads are there, until the
-- count is reached or a batch is not full.
pub data PayloadsPresent (s : Snapshot) (pending_count : ℕ) : ℕ → Text → Type 0 where
  enough :
      {checked : ℕ} {start : Text}
      → pending_count ≤ checked
      → PayloadsPresent s pending_count checked start
  last :
      {checked : ℕ} {start : Text} (es : List PendingEntry)
      → s.page start ≡ got es
      → All Present es
      → length es < 100
      → PayloadsPresent s pending_count checked start
  more :
      {checked : ℕ} {start : Text} (es : List PendingEntry) (checked' : ℕ) (next : Text)
      → s.page start ≡ got es
      → All Present es
      → checked' ≡ checked + length es
      → next ≡ 0x28 ∷ last_id start es
      → PayloadsPresent s pending_count checked' next
      → PayloadsPresent s pending_count checked start

not_missing : (id : Text) (ids : List Text) → is_missing id ids ≡ false → ids ≡ id ∷ []
not_missing id [] h = absurd (ground arith)
not_missing id (found ∷ []) h = ground (arith, eq_of_same found id)
not_missing id (found ∷ other ∷ ids) h = absurd (ground arith)

batch-Present : (es : List PendingEntry) → batch_missing es ≡ got false → All Present es
unfolding batch_missing
batch-Present [] h = tt
batch-Present (e ∷ es) h = elim (Reply-cases e.found) [
  | inr (x, q) ↦ absurd (ground arith)
  | inl (ids, q) ↦ elim (Bool-cases (is_missing e.id ids)) [
    | inl m ↦ absurd (ground arith)
    | inr m ↦
        let rest : batch_missing es ≡ got false = ground arith in
        let only = not_missing e.id ids m in
        let whole : e.found ≡ got (e.id ∷ []) = cc in (whole, batch-Present es rest)
  ]
]

-- A round that finds nothing missing has read a batch whose payloads are there.
data Clean (s : Snapshot) (start : Text) : Round → Type 0 where
  stops :
      (es : List PendingEntry)
      → s.page start ≡ got es
      → All Present es
      → length es < 100
      → Clean s start (return (got false))
  goes_on :
      (es : List PendingEntry) (n : ℕ) (next : Text)
      → s.page start ≡ got es
      → All Present es
      → n ≡ length es
      → next ≡ 0x28 ∷ last_id start es
      → Clean s start (go_on n next)
  returns_other : (r : Reply Bool) → r ≢ got false → Clean s start (return r)

after_batch-Clean :
    (s : Snapshot) (start : Text) (es : List PendingEntry) (r : Reply Bool)
    → s.page start ≡ got es
    → batch_missing es ≡ r
    → Clean s start (after_batch es start r)
unfolding after_batch
after_batch-Clean s start es (failed x) p b = returns_other (failed x) (λ h. ground arith)
after_batch-Clean s start es (got true) p b = returns_other (got true) (λ h. ground arith)
after_batch-Clean s start es (got false) p b = elim (Bool-cases (ltb (length es) 100)) [
  | inl e ↦ rw e (stops es p (batch-Present es b) (ground arith))
  | inr e ↦ rw e (goes_on es (length es) _ p (batch-Present es b) refl refl)
]

round_with-Clean :
    (s : Snapshot) (start : Text) (page : Reply (List PendingEntry)) (piped : Option BusError)
    → s.page start ≡ page
    → Clean s start (round_with start page piped)
round_with-Clean s start (failed x) piped p = returns_other (failed x) (λ h. ground arith)
round_with-Clean s start (got []) piped p = stops [] p tt (omega arith)
round_with-Clean s start (got (e ∷ es)) (some x) p = returns_other (failed x) (λ h. ground arith)
round_with-Clean s start (got (e ∷ es)) none p = after_batch-Clean s start (e ∷ es) _ p refl

payload_loop-true :
    (s : Snapshot) (fuel pending_count checked : ℕ) (start : Text)
    → ltb checked pending_count ≡ true
    → payload_loop s (suc fuel) pending_count checked start
      ≡ continued
          (λ n next. payload_loop s fuel pending_count (checked + n) next)
          (payload_round s start)
unfolding payload_loop
payload_loop-true s fuel pending_count checked start h = rw (h, payload_loop) refl

round-present :
    (s : Snapshot) (pending_count checked : ℕ) (start : Text) (r : Round)
    (loop : ℕ → Text → Option (Reply Bool))
    → Clean s start r
    → continued loop r ≡ some (got false)
    → ((n : ℕ) (next : Text)
        → loop n next ≡ some (got false)
        → PayloadsPresent s pending_count (checked + n) next)
    → PayloadsPresent s pending_count checked start
round-present s pending_count checked start (return _) loop (stops es p a short) g ih =
    last es p a short
round-present s pending_count checked start (return r) loop (returns_other _ other) g ih =
    absurd (other (ground arith))
round-present s pending_count checked start (go_on n next) loop (goes_on es _ _ p a len q) g ih =
    more es (checked + n) next p a (ground arith) q (ih n next g)

payload_loop-present :
    (s : Snapshot) (fuel pending_count checked : ℕ) (start : Text)
    → payload_loop s fuel pending_count checked start ≡ some (got false)
    → PayloadsPresent s pending_count checked start
unfolding payload_loop payload_round
payload_loop-present s zero pending_count checked start h = enough (ground arith)
payload_loop-present s (suc fuel) pending_count checked start h =
    elim (Bool-cases (ltb checked pending_count)) [
      | inr e ↦ enough (ground arith)
      | inl e ↦
          round-present s pending_count checked start (payload_round s start)
            (λ n next. payload_loop s fuel pending_count (checked + n) next)
            (round_with-Clean s start (s.page start) (s.piped start) refl)
            (sym (payload_loop-true s fuel pending_count checked start e) ∙ h)
            (λ n next. payload_loop-present s fuel pending_count (checked + n) next)
    ]

-- What is known where a snapshot finds no gap for a group, its pending messages and the first entry.
pub record NoGap (s : Snapshot) (info : StreamInfo) (g : GroupInfo) (p : Pending) (first : Text)
    : Type 0 where
  -- the last deleted entry was delivered to the group
  pub deleted_delivered :
      max_deleted info ≡ true
      → is_above (compare_redis_stream_id info.max_deleted_entry_id g.last_delivered_id) ≡ false
  -- the lowest pending message is still in the stream, which starts no later
  pub not_emptied : p.count ≢ 0 → info.length ≢ 0
  pub not_trimmed :
      p.count ≢ 0 → first ≢ [] → is_below (compare_redis_stream_id p.lower first) ≡ false
  pub payloads :
      p.count ≢ 0 → deletion_observed info ≡ true → PayloadsPresent s p.count 0 (text "-")

module _ (s : Snapshot) (info : StreamInfo) (p : Pending) (first : Text)
    (h : pending_gap s info p first ≡ some (got false)) (some_pending : p.count ≢ 0) where
  kept : pending_trimmed info p first ≡ false
  unfolding pending_gap
  kept = ground arith

  payloads_read :
      deletion_observed info ≡ true → pending_payload_missing s p.count ≡ some (got false)
  unfolding pending_gap
  payloads_read d = ground (arith, kept)

  payloads_kept : deletion_observed info ≡ true → PayloadsPresent s p.count 0 (text "-")
  unfolding pending_payload_missing
  payloads_kept d = payload_loop-present s p.count p.count 0 (text "-") (payloads_read d)

  stream_kept : info.length ≢ 0
  unfolding pending_trimmed
  stream_kept e = ground (arith, kept)

  first_kept : first ≢ [] → is_below (compare_redis_stream_id p.lower first) ≡ false
  unfolding pending_trimmed
  first_kept e = elim (Bool-cases (same first [])) [
    | inl q ↦ absurd (e (eq_of_same first [] q))
    | inr q ↦ ground (arith, kept)
  ]

or_delivery-false :
    (info : StreamInfo) (g : GroupInfo) (o : Option (Reply Bool))
    → or_delivery info g o ≡ some (got false)
    → (o ≡ some (got false)) × (delivery_gap info g ≡ false)
or_delivery-false info g none h = absurd (ground arith)
or_delivery-false info g (some (failed e)) h = absurd (ground arith)
or_delivery-false info g (some (got true)) h = absurd (ground arith)
or_delivery-false info g (some (got false)) h = (refl, ground arith)

delivery_gap-false :
    (info : StreamInfo) (g : GroupInfo)
    → delivery_gap info g ≡ false
    → max_deleted info ≡ true
    → is_above (compare_redis_stream_id info.max_deleted_entry_id g.last_delivered_id) ≡ false
unfolding delivery_gap
delivery_gap-false info g h d = ground arith

-- A snapshot that finds no gap read every report it needed.
pub gap_with-NoGap :
    (s : Snapshot) (info : StreamInfo) (g : GroupInfo) (p : Reply Pending) (first : Reply Text)
    → gap_with s info g p first ≡ some (got false)
    → (pending : Pending) × (id : Text) × (p ≡ got pending)
      × (first ≡ got id)
      × NoGap s info g pending id
gap_with-NoGap s info g (failed e) first h = absurd (ground arith)
gap_with-NoGap s info g (got p) (failed e) h = absurd (ground arith)
gap_with-NoGap s info g (got p) (got id) h =
    let (q, d) = or_delivery-false info g (pending_gap s info p id) h in
    (
      p,
      id,
      refl,
      refl,
      record {
        deleted_delivered = delivery_gap-false info g d;
        not_emptied = stream_kept s info p id q;
        not_trimmed = first_kept s info p id q;
        payloads = payloads_kept s info p id q;
      },
    )
