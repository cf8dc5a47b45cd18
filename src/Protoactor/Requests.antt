-- ===== src/Protoactor/Requests.antt =====
-- adapters/protoactor/context.go and identity_lookup.go: requests to a grain, tried again where the
-- actor does not answer, and the lookup of PIDs. `Pid` is the type of PIDs, `Response` that of responses.
use stable_placement.Base.{
  ◌≡◌, refl, ap, ◌⊎◌, inl, inr, ℕ, zero, suc, ◌≤◌, ℤ, leb_int, Bool, true, false, Option, none,
  some, List, [], ◌∷◌, length, if◌then◌else◌, arith, Bool-cases,
}
use stable_placement.Model.{Result, ok, err, Error}
use stable_placement.Protoactor.{PidRoute}
use stable_placement.Protoactor.Resolver.{Resolver, degrade}

-- The errors of a request that are told apart.
pub data RequestError : Type 0 where
  actor_timeout actor_dead_letter remote_timeout remote_dead_letter : RequestError
  other : ℕ → RequestError

-- `retryableActorError`
abbrev pub retryable_actor_error : RequestError → Bool
retryable_actor_error (other n) = false
retryable_actor_error e = true

abbrev pub default_grain_call_retry_count : ℕ
default_grain_call_retry_count = 1

-- `callConfig`: the number of tries.
unfoldable pub retry_count_of : ℤ → ℕ
retry_count_of (ℤ.pos zero) = default_grain_call_retry_count
retry_count_of (ℤ.pos (suc n)) = suc n
retry_count_of (ℤ.negsuc n) = default_grain_call_retry_count

-- What a try finds: the resolver's answer, and the future's response and error.
pub record Try (Pid Response : Type 0) : Type 0 where
  pub resolved : Result (PidRoute Pid)
  pub response : Option Response
  pub failure : Option RequestError

-- What Request returns: a response with an error or none, or an error of its own.
pub data Reply (Response : Type 0) : Type 0 where
  responded : Option Response → Option RequestError → Reply Response
  failed : Error → Reply Response

-- The result, the number of routes asked for, and the PIDs given to `Remove`, in order.
pub record Requested (Pid Response : Type 0) : Type 0 where
  pub reply : Reply Response
  pub resolutions : ℕ
  pub removed : List (Option Pid)

module _ {Pid Response : Type 0} where
  abbrev pub settled : Reply Response → Requested Pid Response
  settled reply = record { reply = reply; resolutions = 1; removed = [] }

  -- The PID is removed from the resolver and the request is tried again.
  abbrev pub tried_again : Option Pid → Requested Pid Response → Requested Pid Response
  tried_again pid rest = record {
    reply = rest.reply;
    resolutions = suc rest.resolutions;
    removed = pid ∷ rest.removed;
  }

  abbrev pub after_request :
      Option Pid
      → Option Response
      → Option RequestError
      → Requested Pid Response
      → Requested Pid Response
  after_request pid response none rest = settled (responded response none)
  after_request pid (some v) (some e) rest = settled (responded (some v) (some e))
  after_request pid none (some e) rest =
      if retryable_actor_error e then tried_again pid rest else settled (responded none (some e))

  abbrev pub try_once :
      Try Pid Response → Result (PidRoute Pid) → Requested Pid Response → Requested Pid Response
  try_once t (err e) rest = settled (failed e)
  try_once t (ok route) rest = after_request route.pid t.response t.failure rest

  -- The loop of `Request`, with the tries left and the number of the next one.
  unfoldable pub tries : (ℕ → Try Pid Response) → ℕ → ℕ → Requested Pid Response
  tries env zero i = record {
    reply = failed Error.max_retries_reached;
    resolutions = 0;
    removed = [];
  }
  tries env (suc left) i = try_once (env i) (env i).resolved (tries env left (suc i))

  -- `Request`
  unfoldable pub request : (ℕ → Try Pid Response) → ℤ → Requested Pid Response
  unfolding tries retry_count_of
  request env retry_count = tries env (retry_count_of retry_count) 0

  -- The try resolved a route, had no response and an error after which it is tried again.
  abbrev pub Unanswered : Try Pid Response → Option Pid → Type 0
  Unanswered t pid =
      (route : PidRoute Pid) × (e : RequestError) × (t.resolved ≡ ok route)
      × (route.pid ≡ pid)
      × (t.response ≡ none)
      × (t.failure ≡ some e)
      × (retryable_actor_error e ≡ true)

  -- The PIDs are those of the tries from the i-th on, each unanswered.
  abbrev pub AllUnanswered : (ℕ → Try Pid Response) → ℕ → List (Option Pid) → Type 0
  AllUnanswered env i [] = Unit
  AllUnanswered env i (pid ∷ pids) = Unanswered (env i) pid × AllUnanswered env (suc i) pids

  -- The tries are bounded, and a try follows only those that were not answered.
  pub record Bounded (env : ℕ → Try Pid Response) (left i : ℕ) (r : Requested Pid Response)
      : Type 0 where
    pub few : r.resolutions ≤ left
    pub unanswered : AllUnanswered env i r.removed
    pub counted :
        ((r.reply ≡ failed Error.max_retries_reached) × (length r.removed ≡ left))
        ⊎ (r.resolutions ≡ suc (length r.removed))

  settled-Bounded :
      (env : ℕ → Try Pid Response) (left i : ℕ) (reply : Reply Response)
      → Bounded env (suc left) i (settled reply)
  settled-Bounded env left i reply = record {
    few = omega arith;
    unanswered = tt;
    counted = inr refl;
  }

  tried_again-Bounded :
      (env : ℕ → Try Pid Response) (left i : ℕ) (pid : Option Pid) (rest : Requested Pid Response)
      → Unanswered (env i) pid
      → Bounded env left (suc i) rest
      → Bounded env (suc left) i (tried_again pid rest)
  tried_again-Bounded env left i pid rest u b = record {
    few = omega (arith, b.few);
    unanswered = (u, b.unanswered);
    counted = elim (b.counted) [ inl (q, n) ↦ inl (q, ap suc n) | inr n ↦ inr (ap suc n) ];
  }

  try_once-Bounded :
      (env : ℕ → Try Pid Response) (left i : ℕ) (m : Result (PidRoute Pid)) (o : Option Response)
      (f : Option RequestError) (rest : Requested Pid Response)
      → (env i).resolved ≡ m
      → (env i).response ≡ o
      → (env i).failure ≡ f
      → Bounded env left (suc i) rest
      → Bounded env
          (suc left)
          i
          (try_once (record { resolved = m; response = o; failure = f }) m rest)
  try_once-Bounded env left i (err e) o f rest m r q b = settled-Bounded env left i (failed e)
  try_once-Bounded env left i (ok route) o none rest m r q b =
      settled-Bounded env left i (responded o none)
  try_once-Bounded env left i (ok route) (some v) (some e) rest m r q b =
      settled-Bounded env left i (responded (some v) (some e))
  try_once-Bounded env left i (ok route) none (some e) rest m r q b =
      elim (Bool-cases (retryable_actor_error e)) [
        | inl y ↦
            rw y (tried_again-Bounded env left i route.pid rest (route, e, m, refl, r, q, y) b)
        | inr n ↦ rw n (settled-Bounded env left i (responded none (some e)))
      ]

  tries-Bounded : (env : ℕ → Try Pid Response) (left i : ℕ) → Bounded env left i (tries env left i)
  unfolding tries
  tries-Bounded env zero i = record {
    few = omega arith;
    unanswered = tt;
    counted = inl (refl, refl);
  }
  tries-Bounded env (suc left) i =
      try_once-Bounded env left i (env i).resolved (env i).response (env i).failure _ refl refl refl
        (tries-Bounded env left (suc i))

  -- Request asks for at most as many routes as the retry count, or one where that is not positive. Every
  -- PID that it removes from the resolver is that of a try, in order from the first, that had no response
  -- and a timeout or a dead letter; it gives up only when all the tries went so.
  pub request-Bounded :
      (env : ℕ → Try Pid Response) (retry_count : ℤ)
      → Bounded env (retry_count_of retry_count) 0 (request env retry_count)
  unfolding request
  request-Bounded env retry_count = tries-Bounded env (retry_count_of retry_count) 0

-- `RequestFuture` and `Send`: the PID that the message goes to, or the resolver's error.
abbrev pub send_to : {Pid : Type 0} → Result (PidRoute Pid) → Result (Option Pid)
send_to (err e) = err e
send_to (ok route) = ok route.pid

-- `Get`: no PID after an error.
abbrev pub get_pid : {Pid : Type 0} → Bool → Result (PidRoute Pid) → Option Pid
get_pid false resolved = none
get_pid true (err e) = none
get_pid true (ok route) = route.pid

-- `NewIdentityLookup`: a timeout that is not positive is one second.
abbrev pub lookup_timeout : ℤ → ℤ
lookup_timeout timeout = if leb_int timeout (ℤ.pos 0) then ℤ.pos 1_000_000_000 else timeout

-- `Shutdown` of a lookup over the resolver
abbrev pub shutdown : {Pid : Type 0} → Resolver Pid → Resolver Pid
shutdown r = degrade r
