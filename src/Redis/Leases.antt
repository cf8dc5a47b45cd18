-- ===== src/Redis/Leases.antt =====
-- redis/node_lease.go: the expiry of node leases. `decode` stands for json.Unmarshal of a stored node.
use stable_placement.Base.{
  ℕ, suc, ℤ, leb_int, is_positive, ◌&&◌, ◌||◌, Bool, Option, none, some, List, [], ◌∷◌, Text, text,
  same, format_int, signed, if◌then◌else◌,
}
use stable_placement.Model.{Result, ok, err, Error, ◌>>=◌, ◌>>◌, guard, EventType}
use stable_placement.Model.EventNames.{event_name}
use stable_placement.Redis.{KeyName, key_of}
use stable_placement.Redis.Scripts.{ScriptCall, ScoredMember}
use stable_placement.Redis.Nodes.{RedisNode}

-- `candidateSnapshot`: the node's lease version and session are zero where nothing is stored.
pub record CandidateSnapshot : Type 0 where
  pub node_key : Text
  pub raw : Text
  pub lease_version : ℕ
  pub session : Text
  pub score : ℤ

-- The checks on a stored node. The status of the model is always one of the three.
unfoldable pub check_snapshot : Text → RedisNode → Result (Unit {0})
check_snapshot key n =
    guard
      (same n.node_key key
        && (is_positive n.node.lease.version && is_positive n.node.lease.ttl_millis))
      Error.invalid_lease_snapshot

module _ (decode : Text → Result RedisNode) where
  abbrev pub snapshot_of : Text → ℤ → Option Text → Result CandidateSnapshot
  snapshot_of key score none =
      ok (record { node_key = key; raw = []; lease_version = 0; session = []; score = score })
  snapshot_of key score (some []) =
      ok (record { node_key = key; raw = []; lease_version = 0; session = []; score = score })
  snapshot_of key score (some (b ∷ bs)) = do
    n ← decode (b ∷ bs)
    check_snapshot key n
    ok (record {
      node_key = key;
      raw = b ∷ bs;
      lease_version = n.node.lease.version;
      session = n.node.node_session_id;
      score = score;
    })

  -- The first loop, which reads and checks every candidate. `get` is the answer to GET.
  unfoldable pub snapshots :
      (Text → Result (Option Text)) → List ScoredMember → Result (List CandidateSnapshot)
  unfolding check_snapshot
  snapshots get [] = ok []
  snapshots get (e ∷ es) = elim (e.member) [
    | none ↦ err Error.invalid_lease_snapshot
    | some key ↦ elim (e.score) [
      | none ↦ err Error.invalid_index_score
      | some score ↦
          (get key >>= λ found.
          snapshot_of key score found >>= λ s. snapshots get es >>= λ rest. ok (s ∷ rest))
    ]
  ]

unfoldable pub expire_call : Text → CandidateSnapshot → ScriptCall
unfolding key_of event_name
expire_call lease_key s = record {
  keys = s.node_key ∷ lease_key ∷ key_of KeyName.events_stream ∷ [];
  args =
      s.node_key
      ∷ s.raw
      ∷ format_int s.score
      ∷ format_int (signed s.lease_version)
      ∷ s.session
      ∷ event_name EventType.node_lease_expired
      ∷ [];
}

-- What the call returns, and the scripts that it ran.
pub record Expired : Type 0 where
  pub count : ℕ
  pub error : Option Error
  pub ran : List ScriptCall

abbrev pub none_expired : Option Error → Expired
none_expired e = record { count = 0; error = e; ran = [] }

-- One more script has run, and its candidate is counted if it expired.
abbrev pub counted_in : Bool → ScriptCall → Expired → Expired
counted_in expired call rest = record {
  count = if expired then suc rest.count else rest.count;
  error = rest.error;
  ran = call ∷ rest.ran;
}

-- The second loop, which runs the script on each snapshot.
unfoldable pub expire_snapshots :
    (ScriptCall → Result Text) → Text → List CandidateSnapshot → Expired
unfolding text expire_call
expire_snapshots run lease_key [] = none_expired none
expire_snapshots run lease_key (s ∷ ss) =
    let rest = expire_snapshots run lease_key ss in
    elim (run (expire_call lease_key s)) [
      | err e ↦ record { count = 0; error = some e; ran = expire_call lease_key s ∷ [] }
      | ok result ↦ counted_in (same result (text "expired")) (expire_call lease_key s) rest
    ]

abbrev pub expire_checked :
    (ScriptCall → Result Text) → Text → Result (List CandidateSnapshot) → Expired
expire_checked run lease_key (err e) = none_expired (some e)
expire_checked run lease_key (ok ss) = expire_snapshots run lease_key ss

-- The type of the events' key, before any script runs.
unfoldable pub check_stream_type : Result Text → Result (Unit {0})
unfolding text
check_stream_type (err e) = err e
check_stream_type (ok t) =
    guard (same t (text "none") || same t (text "stream")) Error.events_not_a_stream

-- `ExpireNodeLeases`: `candidates` is the answer to ZRANGEBYSCORE with the limit.
unfoldable pub expire_in_redis :
    (Text → Result RedisNode)
    → (Text → Result (Option Text))
    → (ScriptCall → Result Text)
    → Text
    → Text
    → ℤ
    → Result (List ScoredMember)
    → Result Text
    → Expired
unfolding key_of snapshots expire_snapshots check_stream_type
expire_in_redis decode get run node_type node_group limit candidates stream_type =
    if leb_int limit (ℤ.pos 0)
    then none_expired none
    else expire_checked run (key_of (KeyName.node_lease node_type node_group))
        (candidates >>= λ es. check_stream_type stream_type >> snapshots decode get es)

-- A round of the loop of `RunNodeLeaseLoop`: the error of an expiry, or the end of the context.
pub data LeaseRound : Type 0 where
  done : LeaseRound
  ticked : Option Error → LeaseRound

-- The loop, over the rounds so far; `none` while it runs.
unfoldable pub lease_rounds : List LeaseRound → Option (Option Error)
lease_rounds [] = none
lease_rounds (done ∷ rounds) = some none
lease_rounds (ticked (some e) ∷ rounds) = some (some e)
lease_rounds (ticked none ∷ rounds) = lease_rounds rounds

-- `RunNodeLeaseLoop`
unfoldable pub run_node_lease_loop : ℤ → List LeaseRound → Option (Option Error)
unfolding lease_rounds
run_node_lease_loop interval rounds =
    if leb_int interval (ℤ.pos 0)
    then some (some Error.invalid_lease_interval)
    else lease_rounds rounds
