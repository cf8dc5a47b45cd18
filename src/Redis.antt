-- ===== src/Redis.antt =====
-- redis/keys.go: the names of the keys and channels in Redis, and of the consumer groups.
pub mod Base64
pub mod Keys
pub mod HashTag
pub mod Errors
pub mod Values
pub mod Roundtrip
pub mod Ids
pub mod Stream
pub mod Consumers
pub mod Groups
pub mod Owned
pub mod Continuity
pub mod Consume
pub mod Hints
pub mod Scripts
pub mod Routes
pub mod Nodes
pub mod Calls
pub mod Placements
pub mod Upkeep
pub mod Pages
pub mod Batches
pub mod Leases
mod Tests
use stable_placement.Base.{◌∷◌, ◌++◌, Text, text}
use Base64.{encode}

-- The names that the package makes, by what they stand for.
pub data KeyName : Type 0 where
  placement placement_node node : Text → KeyName
  nodes invalid_nodes node_lease round_robin : Text → Text → KeyName
  events_stream events_pubsub audit_stream sequence : KeyName
  consumer_group : Text → Text → KeyName

abbrev pub namespace_prefix : Text
namespace_prefix = text "sp:{stable-placement}:v2:"

-- `encode(a) + ":" + encode(b)`
abbrev pub encoded_pair : Text → Text → Text
encoded_pair a b = encode a ++ 0x3a ∷ encode b

-- `PlacementKey` and the functions after it.
unfoldable pub key_of : KeyName → Text
unfolding text
key_of (placement key) = namespace_prefix ++ text "placement:" ++ encode key
key_of (placement_node identity) = namespace_prefix ++ text "placement:node:" ++ encode identity
key_of (nodes t g) = namespace_prefix ++ text "nodes:" ++ encoded_pair t g
key_of (node identity) = namespace_prefix ++ text "node:" ++ encode identity
key_of (invalid_nodes t g) = namespace_prefix ++ text "invalid:" ++ encoded_pair t g
key_of (node_lease t g) = namespace_prefix ++ text "node_lease:" ++ encoded_pair t g
key_of events_stream = namespace_prefix ++ text "events:stream"
key_of events_pubsub = namespace_prefix ++ text "events:pubsub"
key_of audit_stream = namespace_prefix ++ text "audit:stream"
key_of sequence = namespace_prefix ++ text "sequence"
key_of (round_robin t g) = namespace_prefix ++ text "strategy:round_robin:" ++ encoded_pair t g
key_of (consumer_group identity session) = text "sp:v2:consumer:" ++ encoded_pair identity session
