-- ===== src/Redis/Ids.antt =====
-- redis/event_bus.go: the order of the ids of stream entries, `<time>-<sequence>`.
use stable_placement.Base.{
  ◌≡◌, ◌⊎◌, inl, inr, All-imp, ap, ◌∙◌, inl, inr, ℕ, zero, suc, ◌+◌, ◌%◌, ◌/◌, ◌<◌, ◌≤◌, ◌^◌, ◌==◌,
  ltb, Bool, true, false, Option, none, some, [], ◌∷◌, ◌++◌, ℤ, ltb_int, Text, digits, itoa,
  parse_int, parse_int-itoa, if◌then◌else◌, arith, All, Bool-cases,
}

-- `strings.Cut` at a byte; `none` where the byte does not occur.
unfoldable pub cut : ℕ → Text → Option (Text × Text)
cut sep [] = none
cut sep (b ∷ bs) = elim (b == sep) [
  | true ↦ some ([], bs)
  | false ↦ elim (cut sep bs) [ none ↦ none | some (first, second) ↦ some (b ∷ first, second) ]
]

abbrev pub parsed_parts : Option (Text × Text) → ℤ × ℤ
parsed_parts none = (ℤ.pos 0, ℤ.pos 0)
parsed_parts (some (first, second)) = (parse_int first, parse_int second)

-- `splitRedisStreamID`
unfoldable pub split_redis_stream_id : Text → ℤ × ℤ
unfolding cut
split_redis_stream_id id = parsed_parts (cut 0x2d id)

-- `compareRedisStreamID`: 1, -1 or 0.
pub data Sign : Type 0 where
  above below level : Sign

unfoldable pub compare_ids : ℤ × ℤ → ℤ × ℤ → Sign
compare_ids (a_time, a_seq) (b_time, b_seq) =
    if ltb_int b_time a_time
    then above
    else if ltb_int a_time b_time
    then below
    else if ltb_int b_seq a_seq
    then above
    else if ltb_int a_seq b_seq
    then below
    else level

unfoldable pub compare_redis_stream_id : Text → Text → Sign
unfolding split_redis_stream_id compare_ids
compare_redis_stream_id a b = compare_ids (split_redis_stream_id a) (split_redis_stream_id b)

abbrev pub is_below : Sign → Bool
is_below below = true
is_below s = false

abbrev pub is_above : Sign → Bool
is_above above = true
is_above s = false

-- An id as Redis writes it.
abbrev pub stream_id : ℕ → ℕ → Text
stream_id time seq = itoa time ++ 0x2d ∷ itoa seq

-- The reference order of ids: by the time, then by the sequence.
abbrev pub id_order : ℕ → ℕ → ℕ → ℕ → Sign
id_order a_time a_seq b_time b_seq =
    if a_time == b_time
    then (if a_seq == b_seq then level else if ltb a_seq b_seq then below else above)
    else if ltb a_time b_time
    then below
    else above

pub cut-plain :
    (sep : ℕ) (s rest : Text)
    → All (λ b. (b == sep) ≡ false) s
    → cut sep (s ++ sep ∷ rest) ≡ some (s, rest)
unfolding cut
cut-plain sep [] rest h = ground arith
cut-plain sep (b ∷ bs) rest h = ground (arith, cut-plain sep bs rest h.1)

abbrev pub IsDigit : ℕ → Type 0
IsDigit b = (0x30 ≤ b) × (b ≤ 0x39)

digits-All : (fuel n : ℕ) (bs : Text) → All IsDigit bs → n < fuel → All IsDigit (digits fuel n bs)
unfolding digits
digits-All zero n bs h lt = h
digits-All (suc fuel) n bs h lt = elim (Bool-cases (ltb n 10)) [
  | inl e ↦ rw e ((omega arith, ground arith), h)
  | inr e ↦ rw e (
      digits-All fuel (n / 10) ((0x30 + n % 10) ∷ bs) ((omega arith, omega arith), h)
        (ground arith))
]

-- A number is written with digits only, and so without a separator.
pub itoa-plain : (sep n : ℕ) → (sep < 0x30) ⊎ (0x39 < sep) → All (λ b. (b == sep) ≡ false) (itoa n)
unfolding itoa
itoa-plain sep n h =
    All-imp (λ b d. elim h [ inl lt ↦ ground arith | inr gt ↦ ground arith ]) (itoa n)
      (digits-All (suc n) n [] tt (omega arith))

split-stream_id :
    (time seq : ℕ)
    → time < 2 ^ 63
    → seq < 2 ^ 63
    → split_redis_stream_id (stream_id time seq) ≡ (ℤ.pos time, ℤ.pos seq)
unfolding split_redis_stream_id
split-stream_id time seq t s =
    ap parsed_parts
      (cut-plain 0x2d (itoa time) (itoa seq) (itoa-plain 0x2d time (inl (omega arith))))
    ∙ (λ i. (parse_int-itoa time t i, parse_int-itoa seq s i))

compare_ids-order :
    (a_time a_seq b_time b_seq : ℕ)
    → compare_ids (ℤ.pos a_time, ℤ.pos a_seq) (ℤ.pos b_time, ℤ.pos b_seq)
      ≡ id_order a_time a_seq b_time b_seq
unfolding compare_ids
compare_ids-order a_time a_seq b_time b_seq = ground arith

-- On two ids as Redis writes them, with parts below 2^63, the comparison of the texts is the order by
-- time and then by sequence.
pub compare_redis_stream_id-order :
    (a_time a_seq b_time b_seq : ℕ)
    → a_time < 2 ^ 63
    → a_seq < 2 ^ 63
    → b_time < 2 ^ 63
    → b_seq < 2 ^ 63
    → compare_redis_stream_id (stream_id a_time a_seq) (stream_id b_time b_seq)
      ≡ id_order a_time a_seq b_time b_seq
unfolding compare_redis_stream_id
compare_redis_stream_id-order a_time a_seq b_time b_seq at asq bt bsq =
    (λ i.
      compare_ids (split-stream_id a_time a_seq at asq i) (split-stream_id b_time b_seq bt bsq i))
    ∙ compare_ids-order a_time a_seq b_time b_seq
