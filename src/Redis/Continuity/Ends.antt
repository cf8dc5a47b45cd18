-- ===== src/Redis/Continuity/Ends.antt =====
-- redis/event_bus.go: the loops of CheckContinuity come to an end.
use stable_placement.Base.{
  ◌≡◌, refl, ◌⊎◌, inl, inr, ℕ, zero, suc, ◌+◌, ◌≤◌, ltb, Bool, true, false, Option, none, some,
  List, [], ◌∷◌, Text, text, arith, Bool-cases,
}
use stable_placement.Redis.Errors.{BusError, Reply, failed, got}
use stable_placement.Redis.Continuity.{
  PendingEntry, Snapshot, Round, return, go_on, after_batch, batch_missing, round_with,
  payload_round, payload_loop, pending_payload_missing,
}

-- A round that goes on has checked a full batch.
after_batch-full :
    (entries : List PendingEntry) (start next : Text) (r : Reply Bool) (n : ℕ)
    → after_batch entries start r ≡ go_on n next
    → 100 ≤ n
unfolding after_batch
after_batch-full entries start next (failed e) n h = cc
after_batch-full entries start next (got true) n h = cc
after_batch-full entries start next (got false) n h = ground arith

round_with-full :
    (start next : Text) (page : Reply (List PendingEntry)) (piped : Option BusError) (n : ℕ)
    → round_with start page piped ≡ go_on n next
    → 100 ≤ n
round_with-full start next (failed x) piped n h = absurd (ground arith)
round_with-full start next (got []) piped n h = absurd (ground arith)
round_with-full start next (got (e ∷ es)) (some x) n h = absurd (ground arith)
round_with-full start next (got (e ∷ es)) none n h =
    after_batch-full (e ∷ es) start next (batch_missing (e ∷ es)) n h

payload_round-full :
    (s : Snapshot) (start next : Text) (n : ℕ) → payload_round s start ≡ go_on n next → 100 ≤ n
unfolding payload_round
payload_round-full s start next n h = round_with-full start next (s.page start) (s.piped start) n h

Round-cases :
    (r : Round)
    → ((a : Reply Bool) × (r ≡ return a)) ⊎ ((n : ℕ) × (next : Text) × (r ≡ go_on n next))
Round-cases (return a) = inl (a, refl)
Round-cases (go_on n next) = inr (n, next, refl)

payload_loop-ends :
    (s : Snapshot) (fuel pending_count checked : ℕ) (start : Text)
    → pending_count ≤ checked + fuel
    → (r : Reply Bool) × (payload_loop s fuel pending_count checked start ≡ some r)
unfolding payload_loop
payload_loop-ends s zero pending_count checked start h = (got false, ground arith)
payload_loop-ends s (suc fuel) pending_count checked start h =
    elim (Bool-cases (ltb checked pending_count)) [
      | inr e ↦ (got false, ground arith)
      | inl e ↦ elim (Round-cases (payload_round s start)) [
        | inl (a, q) ↦ (a, ground arith)
        | inr (n, next, q) ↦
            let full = payload_round-full s start next n q in
            let (r, ih) = payload_loop-ends s fuel pending_count (checked + n) next (omega arith) in
            (r, ground arith)
      ]
    ]

-- With as many rounds as there are pending entries the loop over payloads ends by itself.
pub pending_payload_missing_ends :
    (s : Snapshot) (pending_count : ℕ)
    → (r : Reply Bool) × (pending_payload_missing s pending_count ≡ some r)
unfolding pending_payload_missing
pending_payload_missing_ends s pending_count =
    payload_loop-ends s pending_count pending_count 0 (text "-") (omega arith)

-- A loop has not run out of fuel.
abbrev Ends {ℓ} : {A : Type ℓ} → Option A → Type 0
Ends none = ⊥
Ends (some a) = Unit
