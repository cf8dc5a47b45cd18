-- ===== src/Redis/Errors.antt =====
-- redis/stream.go and redis/event_bus.go: the errors that the event bus returns and tells apart.
use stable_placement.Base.{
  ◌≡◌, refl, ◌⊎◌, inl, inr, Bool, true, false, ◌&&◌, ◌||◌, ◌==◌, [], ◌∷◌, Text,
}

-- `other` is any other error, by its text: one of Redis, of its client or of a handler. An error that
-- wraps a context's error counts as that error.
pub data BusError : Type 0 where
  shared_consumer_group pending_messages stream_gap stream_continuity_unstable : BusError
  invalid_script_result event_type_missing lease_event_incomplete : BusError
  canceled deadline_exceeded redis_nil : BusError
  other : Text → BusError

-- A Go result with an error of the bus.
pub data Reply {ℓ} (A : Type ℓ) : Type ℓ where
  failed : BusError → Reply A
  got : A → Reply A

pub Reply-cases {ℓ} :
    {A : Type ℓ} (r : Reply A) → ((a : A) × (r ≡ got a)) ⊎ ((e : BusError) × (r ≡ failed e))
Reply-cases (got a) = inl (a, refl)
Reply-cases (failed e) = inr (e, refl)

-- `errors.Is(err, context.Canceled) || errors.Is(err, context.DeadlineExceeded)`
abbrev pub is_context_error : BusError → Bool
is_context_error BusError.canceled = true
is_context_error BusError.deadline_exceeded = true
is_context_error e = false

-- `err == goredis.Nil`
abbrev pub is_nil_reply : BusError → Bool
is_nil_reply BusError.redis_nil = true
is_nil_reply e = false

starts : Text → Text → Bool
starts [] s = true
starts (b ∷ bs) [] = false
starts (b ∷ bs) (c ∷ cs) = b == c && starts bs cs

-- `strings.Contains`, with what is looked for first
unfoldable pub contains : Text → Text → Bool
unfolding starts
contains sub [] = starts sub []
contains sub (c ∷ cs) = starts sub (c ∷ cs) || contains sub cs

-- `err.Error()` contains the text. Of the errors of this package and of contexts, none contains the
-- two texts that are looked for.
unfoldable pub mentions : Text → BusError → Bool
unfolding contains
mentions sub (BusError.other s) = contains sub s
mentions sub e = false
