-- ===== src/Model/EventNames.antt =====
-- event.go: the strings that the constants of EventType stand for.
use stable_placement.Base.{
  ◌≡◌, refl, List, [], ◌∷◌, Text, text, same, text_eq, if◌then◌else◌, eq_of_same, Bool-cases, inl,
  inr,
}
use stable_placement.Model.{EventType}

-- `string(event.Type)`
unfoldable pub event_name : EventType → Text
unfolding text
event_name EventType.node_registered = text "NodeRegistered"
event_name EventType.node_replaced = text "NodeReplaced"
event_name EventType.node_draining = text "NodeDraining"
event_name EventType.node_marked_invalid = text "NodeMarkedInvalid"
event_name EventType.node_restored = text "NodeRestored"
event_name EventType.node_unregistered = text "NodeUnregistered"
event_name EventType.placement_created = text "PlacementCreated"
event_name EventType.placement_renewed = text "PlacementRenewed"
event_name EventType.placement_released = text "PlacementReleased"
event_name EventType.placement_transferred = text "PlacementTransferred"
event_name EventType.placement_recovered = text "PlacementRecovered"
event_name EventType.node_lease_expired = text "NodeLeaseExpired"
event_name EventType.placement_cache_invalidated = text "PlacementCacheInvalidated"
event_name EventType.manual_cache_clear = text "ManualCacheClear"
event_name (EventType.unknown s) = s

abbrev pub event_types : List EventType
event_types =
    EventType.node_registered ∷ EventType.node_replaced ∷ EventType.node_draining
    ∷ EventType.node_marked_invalid ∷ EventType.node_restored ∷ EventType.node_unregistered
    ∷ EventType.placement_created ∷ EventType.placement_renewed ∷ EventType.placement_released
    ∷ EventType.placement_transferred ∷ EventType.placement_recovered ∷ EventType.node_lease_expired
    ∷ EventType.placement_cache_invalidated ∷ EventType.manual_cache_clear ∷ []

unfoldable pub named_among : List EventType → Text → EventType
named_among [] s = EventType.unknown s
named_among (t ∷ ts) s = if same (event_name t) s then t else named_among ts s

-- `EventType(s)`
unfoldable pub event_type_of : Text → EventType
event_type_of s = named_among event_types s

-- The model spells each string in one way only: as its constant, where it has one.
abbrev pub IsSpelled : EventType → Type 0
IsSpelled (EventType.unknown s) = event_type_of s ≡ EventType.unknown s
IsSpelled t = Unit {0}

pub event_type_of-event_name : (t : EventType) → IsSpelled t → event_type_of (event_name t) ≡ t
unfolding event_type_of named_among event_name text text_eq
event_type_of-event_name EventType.node_registered h = refl
event_type_of-event_name EventType.node_replaced h = refl
event_type_of-event_name EventType.node_draining h = refl
event_type_of-event_name EventType.node_marked_invalid h = refl
event_type_of-event_name EventType.node_restored h = refl
event_type_of-event_name EventType.node_unregistered h = refl
event_type_of-event_name EventType.placement_created h = refl
event_type_of-event_name EventType.placement_renewed h = refl
event_type_of-event_name EventType.placement_released h = refl
event_type_of-event_name EventType.placement_transferred h = refl
event_type_of-event_name EventType.placement_recovered h = refl
event_type_of-event_name EventType.node_lease_expired h = refl
event_type_of-event_name EventType.placement_cache_invalidated h = refl
event_type_of-event_name EventType.manual_cache_clear h = refl
event_type_of-event_name (EventType.unknown s) h = h

-- A type that is read from a string is spelled as the string.
pub event_name-named_among : (ts : List EventType) (s : Text) → event_name (named_among ts s) ≡ s
unfolding named_among event_name
event_name-named_among [] s = refl
event_name-named_among (t ∷ ts) s = elim (Bool-cases (same (event_name t) s)) [
  | inl e ↦ rw e (eq_of_same (event_name t) s e)
  | inr e ↦ rw e (event_name-named_among ts s)
]
