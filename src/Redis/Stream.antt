-- ===== src/Redis/Stream.antt =====
-- redis/stream.go and redis/event_bus.go: consumers of the event stream, and the state of the bus.
use stable_placement.Base.{◌&&◌, ◌||◌, not, Bool, true, false, [], Text, same, if◌then◌else◌}
use stable_placement.Model.{Node}
use stable_placement.Redis.{consumer_group, events_stream, key_of}
use stable_placement.Redis.Errors.{BusError, Reply, failed, got, is_context_error}

pub record StreamConsumer : Type 0 where
  pub node_identity : Text
  pub node_session_id : Text
  pub group : Text

-- `NewStreamConsumer`
unfoldable pub new_stream_consumer : Node → Reply StreamConsumer
new_stream_consumer node =
    if same node.node_identity [] || same node.node_session_id []
    then failed BusError.shared_consumer_group
    else got (record {
      node_identity = node.node_identity;
      node_session_id = node.node_session_id;
      group = key_of (consumer_group node.node_identity node.node_session_id);
    })

-- `validStreamConsumer`
unfoldable pub valid_stream_consumer : StreamConsumer → Bool
valid_stream_consumer c =
    not (same c.node_identity [])
    && (not (same c.node_session_id [])
        && same c.group (key_of (consumer_group c.node_identity c.node_session_id)))

-- The fields of `EventBus` but the client and the logger.
pub record EventBus : Type 0 where
  pub stream : Text
  pub consumer : StreamConsumer
  pub degraded : Bool

-- `NewEventBus`
unfoldable pub new_event_bus : StreamConsumer → EventBus
new_event_bus consumer = record {
  stream = key_of events_stream;
  consumer = consumer;
  degraded = false;
}

-- `setDegraded` with an error
unfoldable pub set_degraded : BusError → EventBus → EventBus
set_degraded e bus = if is_context_error e then bus else record bus { degraded = true }
