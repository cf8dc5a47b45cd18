-- ===== src/Redis/Consumers.antt =====
-- redis/stream.go and redis/event_bus.go: each node session has a consumer group of its own.
use stable_placement.Base.{◌≡◌, sym, ap, ◌∙◌, true, Text, [], same_refl, eq_of_same, arith}
use stable_placement.Model.{Node}
use stable_placement.Redis.{KeyName, consumer_group, key_of}
use stable_placement.Redis.Keys.{key_of-injective, NameOfBytes}
use stable_placement.Redis.Base64.{IsBytes}
use stable_placement.Redis.Errors.{got}
use stable_placement.Redis.Stream.{StreamConsumer, new_stream_consumer, valid_stream_consumer}

-- The consumer that NewStreamConsumer makes passes the check that every operation of the bus makes.
pub new_stream_consumer-valid :
    (n : Node) (c : StreamConsumer) → new_stream_consumer n ≡ got c → valid_stream_consumer c ≡ true
unfolding new_stream_consumer valid_stream_consumer
new_stream_consumer-valid n c h =
    ground (arith, same_refl (key_of (consumer_group n.node_identity n.node_session_id)))

group_of :
    (c : StreamConsumer)
    → valid_stream_consumer c ≡ true
    → c.group ≡ key_of (consumer_group c.node_identity c.node_session_id)
unfolding valid_stream_consumer
group_of c h =
    ground (arith, eq_of_same c.group (key_of (consumer_group c.node_identity c.node_session_id)))

identity_in : KeyName → Text
identity_in (consumer_group a b) = a
identity_in k = []

session_in : KeyName → Text
session_in (consumer_group a b) = b
session_in k = []

-- Two consumers that pass the check and have the same group are the same node session: no group is
-- shared between two sessions.
pub valid_stream_consumer-unshared :
    (a b : StreamConsumer)
    → valid_stream_consumer a ≡ true
    → valid_stream_consumer b ≡ true
    → IsBytes a.node_identity
    → IsBytes a.node_session_id
    → IsBytes b.node_identity
    → IsBytes b.node_session_id
    → a.group ≡ b.group
    → a ≡ b
unfolding identity_in session_in NameOfBytes
valid_stream_consumer-unshared a b va vb ia sa ib sb e =
    let keys : consumer_group a.node_identity a.node_session_id
        ≡ consumer_group b.node_identity b.node_session_id =
      key_of-injective _ _ (ia, sa) (ib, sb) (sym (group_of a va) ∙ (e ∙ group_of b vb)) in
    λ i. record {
      node_identity = ap identity_in keys i;
      node_session_id = ap session_in keys i;
      group = e i;
    }
