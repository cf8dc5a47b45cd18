-- ===== src/Protoactor/Activator/Sessions.antt =====
-- adapters/protoactor/activator.go: an activation is granted only to the session that owns the grain.
use stable_placement.Base.{
  ◌≡◌, refl, sym, ap, ◌∙◌, inl, inr, ℕ, ◌<◌, true, false, Option, none, some, Text, same,
  eq_of_same, lookup, insert, arith, subst, Bool-cases,
}
use stable_placement.Model.{Result, Result-cases, ok, err, PlacementRoute}
use stable_placement.Identity.{new_grain_key}
use stable_placement.Protoactor.{ClusterIdentity, pid_route}
use stable_placement.Protoactor.Activator.{
  SerialActivator, Surroundings, Activated, is_current, active_pid, activation_key, after_spawn,
  keep_or_spawn, after_lookup, after_key, activate,
}

module _ {Pid : Type 0} (address : Pid → Text) where
  -- The PID is the one that was active under the same authorization, and nothing changes; or it was
  -- spawned, its address is the local one, and it is active from then on.
  pub data PidOf (a : SerialActivator Pid) (s : Surroundings Pid) (key : Text)
      (current : PlacementRoute) (pid : Pid) : Activated Pid → Type 0 where
    kept :
        active_pid (lookup key a.active) current ≡ some pid
        → PidOf a s key current pid (record { activator = a; result = ok pid; spawn = false })
    spawned :
        active_pid (lookup key a.active) current ≡ none
        → s.spawned ≡ ok (some pid)
        → address pid ≡ s.local_address
        → PidOf a s key current pid (record {
          activator = record a { active = insert key (pid_route (some pid) current) a.active };
          result = ok pid;
          spawn = true;
        })

  -- Why an activation is granted.
  pub record Granted (a : SerialActivator Pid) (s : Surroundings Pid) (identity : ClusterIdentity)
      (expected : PlacementRoute) (pid : Pid) : Type 0 where
    pub key : Text
    pub key_of_grain : new_grain_key identity.kind identity.identity ≡ ok key
    pub unfenced : a.fenced ≡ false
    pub current : PlacementRoute
    pub looked_up : s.looked_up ≡ ok current
    pub owner : current.node_identity ≡ a.node_identity
    pub owner_session : current.owner_node_session_id ≡ a.node_session_id
    pub same_placement : current.placement_id ≡ expected.placement_id
    pub same_version : current.version ≡ expected.version
    pub in_time : s.now < current.valid_until
    pub pid_of : PidOf a s key current pid (activate address a s identity expected)

  after_spawn-PidOf :
      (a : SerialActivator Pid) (s : Surroundings Pid) (key : Text) (current : PlacementRoute)
      (pid : Pid) (r : Result (Option Pid))
      → active_pid (lookup key a.active) current ≡ none
      → s.spawned ≡ r
      → (after_spawn address a key current s.local_address r).result ≡ ok pid
      → PidOf a s key current pid (after_spawn address a key current s.local_address r)
  after_spawn-PidOf a s key current pid (err e) n q h = absurd (ground arith)
  after_spawn-PidOf a s key current pid (ok none) n q h = absurd (ground arith)
  after_spawn-PidOf a s key current pid (ok (some p)) n q h =
      elim (Bool-cases (same (address p) s.local_address)) [
        | inr e ↦ absurd (ground arith)
        | inl e ↦
            let same_pid : p ≡ pid = ground arith in
            rw e (
              subst
                (λ (x : Pid). PidOf a s key current x (record {
                  activator = record a {
                    active = insert key (pid_route (some p) current) a.active;
                  };
                  result = ok p;
                  spawn = true;
                }))
                same_pid (spawned n q (eq_of_same (address p) s.local_address e)))
      ]

  keep_or_spawn-PidOf :
      (a : SerialActivator Pid) (s : Surroundings Pid) (key : Text) (current : PlacementRoute)
      (pid : Pid) (o : Option Pid)
      → active_pid (lookup key a.active) current ≡ o
      → (keep_or_spawn address a s key current o).result ≡ ok pid
      → PidOf a s key current pid (keep_or_spawn address a s key current o)
  keep_or_spawn-PidOf a s key current pid none n h =
      after_spawn-PidOf a s key current pid s.spawned n refl h
  keep_or_spawn-PidOf a s key current pid (some p) n h =
      let same_pid : p ≡ pid = cc h in
      subst
        (λ (x : Pid).
          PidOf a s key current x (record { activator = a; result = ok p; spawn = false }))
        same_pid (kept n)

  -- What the answer of the directory must be.
  record Confirmed (a : SerialActivator Pid) (s : Surroundings Pid) (key : Text)
      (expected : PlacementRoute) (pid : Pid) (after : Activated Pid) : Type 0 where
    current : PlacementRoute
    looked_up : s.looked_up ≡ ok current
    confirmed : is_current current expected s.now ≡ true
    pid_of : PidOf a s key current pid after

  after_lookup-Confirmed :
      (a : SerialActivator Pid) (s : Surroundings Pid) (key : Text) (expected : PlacementRoute)
      (pid : Pid) (r : Result PlacementRoute)
      → s.looked_up ≡ r
      → (after_lookup address a s key expected r).result ≡ ok pid
      → Confirmed a s key expected pid (after_lookup address a s key expected r)
  after_lookup-Confirmed a s key expected pid (err e) q h = absurd (ground arith)
  after_lookup-Confirmed a s key expected pid (ok current) q h =
      elim (Bool-cases (is_current current expected s.now)) [
        | inr e ↦ absurd (ground arith)
        | inl e ↦
            let o = active_pid (lookup key a.active) current in
            let kept_or_spawned : (keep_or_spawn address a s key current o).result ≡ ok pid =
              ground arith in
            rw e (record {
              current = current;
              looked_up = q;
              confirmed = e;
              pid_of = keep_or_spawn-PidOf a s key current pid o refl kept_or_spawned;
            })
      ]

  -- The answer is that of the owner that the caller expects, which is the activator's session.
  is_current-parts :
      (current expected : PlacementRoute) (now : ℕ)
      → is_current current expected now ≡ true
      → (current.placement_id ≡ expected.placement_id)
        × (current.node_identity ≡ expected.node_identity)
        × (current.owner_node_session_id ≡ expected.owner_node_session_id)
        × (current.version ≡ expected.version)
        × (now < current.valid_until)
  unfolding is_current
  is_current-parts current expected now h = ground (
    arith,
    eq_of_same current.placement_id expected.placement_id,
    eq_of_same current.node_identity expected.node_identity,
    eq_of_same current.owner_node_session_id expected.owner_node_session_id,
  )

  activation_key-parts :
      (a : SerialActivator Pid) (identity : ClusterIdentity) (expected : PlacementRoute)
      (key : Text)
      → activation_key a identity expected ≡ ok key
      → (expected.node_identity ≡ a.node_identity)
        × (expected.owner_node_session_id ≡ a.node_session_id)
        × (new_grain_key identity.kind identity.identity ≡ ok key)
  unfolding activation_key
  activation_key-parts a identity expected key h = ground (
    arith,
    eq_of_same expected.node_identity a.node_identity,
    eq_of_same expected.owner_node_session_id a.node_session_id,
  )

  after_key-unfenced :
      (a : SerialActivator Pid) (s : Surroundings Pid) (expected : PlacementRoute) (key : Text)
      (pid : Pid)
      → (after_key address a s expected (ok key)).result ≡ ok pid
      → (a.fenced ≡ false)
        × (after_key address a s expected (ok key)
            ≡ after_lookup address a s key expected s.looked_up)
  after_key-unfenced a s expected key pid h = elim (Bool-cases a.fenced) [
    | inl e ↦ absurd (ground arith)
    | inr e ↦ (e, ground arith)
  ]

  -- An activator grants an activation only while it is not fenced, and only if the directory's answer at
  -- that moment, not ended, is the placement and the version that the caller expects and is owned by the
  -- activator's own node and session. The PID is the one already active under this very authorization,
  -- or a newly spawned one with the local address, which is active from then on.
  pub activate-Granted :
      (a : SerialActivator Pid) (s : Surroundings Pid) (identity : ClusterIdentity)
      (expected : PlacementRoute) (pid : Pid)
      → (activate address a s identity expected).result ≡ ok pid
      → Granted a s identity expected pid
  unfolding activate
  activate-Granted a s identity expected pid h =
      elim (Result-cases (activation_key a identity expected)) [
        | inr (e, q) ↦ absurd (ground arith)
        | inl (key, q) ↦
            let at_key : (after_key address a s expected (ok key)).result ≡ ok pid = ground arith in
            let (node, session, grain) = activation_key-parts a identity expected key q in
            let (open_gate, step) = after_key-unfenced a s expected key pid at_key in
            let looked : (after_lookup address a s key expected s.looked_up).result ≡ ok pid =
              ap (λ (x : Activated Pid). x.result) (sym step) ∙ at_key in
            let c = after_lookup-Confirmed a s key expected pid s.looked_up refl looked in
            let (placement, owner, owner_session, version, before) =
              is_current-parts c.current expected s.now c.confirmed in
            let whole : after_lookup address a s key expected s.looked_up
                ≡ activate address a s identity expected =
              sym step ∙ ap (after_key address a s expected) (sym q) in
            record {
              key = key;
              key_of_grain = grain;
              unfenced = open_gate;
              current = c.current;
              looked_up = c.looked_up;
              owner = owner ∙ node;
              owner_session = owner_session ∙ session;
              same_placement = placement;
              same_version = version;
              in_time = before;
              pid_of = subst (PidOf a s key c.current pid) whole c.pid_of;
            }
      ]

  -- Two activators that see the same answer of the directory do not both activate, unless they are of the
  -- same node and session: at one state of the directory one session at most runs a grain.
  pub activate_one_session :
      (a b : SerialActivator Pid) (s t : Surroundings Pid) (i j : ClusterIdentity)
      (e f : PlacementRoute) (p q : Pid)
      → s.looked_up ≡ t.looked_up
      → (activate address a s i e).result ≡ ok p
      → (activate address b t j f).result ≡ ok q
      → (a.node_identity ≡ b.node_identity) × (a.node_session_id ≡ b.node_session_id)
  activate_one_session a b s t i j e f p q same_answer h g =
      let ga = activate-Granted a s i e p h in
      let gb = activate-Granted b t j f q g in
      let oks : ok ga.current ≡ ok gb.current = sym ga.looked_up ∙ (same_answer ∙ gb.looked_up) in
      let answers : ga.current ≡ gb.current = cc oks in
      (
        sym ga.owner ∙ (ap (λ (x : PlacementRoute). x.node_identity) answers ∙ gb.owner),
        sym ga.owner_session
            ∙ (ap (λ (x : PlacementRoute). x.owner_node_session_id) answers ∙ gb.owner_session),
      )
