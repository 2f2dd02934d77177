-- ===== src/Events.antt =====
-- internal/manager/events.go and eventpub_memory.go.
use modeld_go.Common.{Bool, List, [], ◌∷◌, ◌++◌, Text, ℤ}

-- A value of `Fields map[string]any`, of the types that the program puts there.
pub data Field : Type 0 where
  int : ℤ → Field
  text : Text → Field
  bool : Bool → Field

-- Event
pub record Event : Type 0 where
  pub name : Text
  pub model_id : Text
  pub fields : List (Text × Field)

-- An EventPublisher: noopPublisher, or one that records what it is given, as MemoryPublisher does
-- and as the publishers of cmd/modeld do on a stream.
pub data Publisher : Type 0 where
  noop : Publisher
  recording : List Event → Publisher

-- Publish
unfoldable pub publish : Publisher → Event → Publisher
publish noop e = noop
publish (recording es) e = recording (es ++ e ∷ [])

-- MemoryPublisher.Events
unfoldable pub events : Publisher → List Event
events noop = []
events (recording es) = es
