-- ===== src/Redis/Owned.antt =====
-- redis/event_bus.go: the operations on consumer groups touch the groups of the sessions that they are
-- called for, and of no other.
use stable_placement.Base.{
  ◌≡◌, refl, sym, ap, subst, ◌∙◌, ◌⊎◌, inl, inr, ◌||◌, Bool, true, false, Option, none, some, Text,
  same, eq_of_same, any, arith, Bool-cases,
}
use stable_placement.Redis.Base64.{IsBytes}
use stable_placement.Redis.Stream.{StreamConsumer, valid_stream_consumer, EventBus}
use stable_placement.Redis.Consumers.{valid_stream_consumer-unshared}
use stable_placement.Redis.Groups.{
  Command, xadd, xgroup_create, xgroup_destroy, close_if_idle_script, replace_script, xpending_ext,
  trim_script, Client, Ran, ensure_consumer_group, delete_consumer_group,
  close_consumer_group_if_idle, close, cleanup_consumer_group, replace_consumer, replaceable,
}

-- The operations that create or remove groups.
pub data GroupCall : Type 0 where
  ensure delete close_if_idle close_bus : GroupCall
  cleanup replace : StreamConsumer → GroupCall

unfoldable pub run_call : Client → EventBus → GroupCall → Ran
run_call client bus ensure = ensure_consumer_group client bus
run_call client bus delete = delete_consumer_group client bus
run_call client bus close_if_idle = close_consumer_group_if_idle client bus
run_call client bus close_bus = close client bus
run_call client bus (cleanup c) = cleanup_consumer_group client bus c
run_call client bus (replace old) = replace_consumer client bus old

-- The command names the group.
abbrev pub names_group : Text → Command → Bool
names_group g (xadd stream values) = false
names_group g (xgroup_create stream group) = same group g
names_group g (xgroup_destroy stream group) = same group g
names_group g (close_if_idle_script stream group) = same group g
names_group g (replace_script stream old new) = same old g || same new g
names_group g (xpending_ext stream group idle) = same group g
names_group g (trim_script stream max_len) = false

-- The consumer that the call is given, if any.
abbrev pub given : GroupCall → Option StreamConsumer
given (cleanup c) = some c
given (replace old) = some old
given call = none

abbrev pub HasBytes : StreamConsumer → Type 0
HasBytes c = IsBytes c.node_identity × IsBytes c.node_session_id

abbrev pub GivenBytes : Option StreamConsumer → Type 0
GivenBytes none = Unit {0}
GivenBytes (some c) = HasBytes c

replaceable-valid :
    (old new : StreamConsumer)
    → replaceable old new ≡ true
    → (valid_stream_consumer old ≡ true) × (valid_stream_consumer new ≡ true)
unfolding replaceable
replaceable-valid old new h = ground arith

module _ (client : Client) (bus : EventBus) (x : StreamConsumer) where
  -- The group is that of a valid consumer, the bus's or the given one.
  data Owner (call : GroupCall) : Type 0 where
    own : valid_stream_consumer bus.consumer ≡ true → bus.consumer.group ≡ x.group → Owner call
    other :
        (c : StreamConsumer)
        → given call ≡ some c
        → valid_stream_consumer c ≡ true
        → c.group ≡ x.group
        → Owner call

  run_call-Owner :
      (call : GroupCall)
      → any (names_group x.group) (run_call client bus call).sent ≡ true
      → Owner call
  unfolding run_call any ensure_consumer_group delete_consumer_group close_consumer_group_if_idle
      close cleanup_consumer_group replace_consumer
  run_call-Owner ensure h =
      own (ground arith) (ground (arith, eq_of_same bus.consumer.group x.group))
  run_call-Owner delete h =
      own (ground arith) (ground (arith, eq_of_same bus.consumer.group x.group))
  run_call-Owner close_if_idle h =
      own (ground arith) (ground (arith, eq_of_same bus.consumer.group x.group))
  run_call-Owner close_bus h =
      own (ground arith) (ground (arith, eq_of_same bus.consumer.group x.group))
  run_call-Owner (cleanup c) h =
      other c refl (ground arith) (ground (arith, eq_of_same c.group x.group))
  run_call-Owner (replace old) h = elim (Bool-cases (replaceable old bus.consumer)) [
    | inr n ↦ absurd (ground arith)
    | inl y ↦ elim (Bool-cases (same old.group x.group)) [
      | inl e ↦
          other old refl (replaceable-valid old bus.consumer y).0 (eq_of_same old.group x.group e)
      | inr e ↦
          let mine : same bus.consumer.group x.group ≡ true = ground arith in
          own (replaceable-valid old bus.consumer y).1 (eq_of_same bus.consumer.group x.group mine)
    ]
  ]

  -- An operation on groups sends no command that names the group of a node session, unless that session
  -- is the one of the bus's consumer or the one of the consumer it is given, to be cleaned up or replaced:
  -- no operation, whatever consumer it is given and whatever Redis answers, touches the group of a third
  -- session. Identities and sessions are sequences of bytes, and the third session's consumer is one that
  -- passes the check of consumers.
  pub run_call-owned :
      (call : GroupCall)
      → valid_stream_consumer x ≡ true
      → HasBytes x
      → HasBytes bus.consumer
      → GivenBytes (given call)
      → any (names_group x.group) (run_call client bus call).sent ≡ true
      → (x ≡ bus.consumer) ⊎ (given call ≡ some x)
  run_call-owned call v xb bb gb h = elim (run_call-Owner call h) [
    | own w e ↦ inl (valid_stream_consumer-unshared x bus.consumer v w xb.0 xb.1 bb.0 bb.1 (sym e))
    | other c g w e ↦
        let cb : HasBytes c = subst GivenBytes g gb in
        let q = valid_stream_consumer-unshared c x w v cb.0 cb.1 xb.0 xb.1 e in
        inr (g ∙ ap (λ (y : StreamConsumer). some y) q)
  ]
