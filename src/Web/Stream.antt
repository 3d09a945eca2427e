-- ===== src/Web/Stream.antt =====
-- web/controller.go: the loop of StreamWorkflowInstanceEvents.
use brokr.Common.{Bool, List, [], ◌∷◌, if◌then◌else◌}

-- What the select of the loop receives: the client is gone, the subscription is closed, or an event,
-- with whether stream.Send returns nil.
pub data Signal (E : Type 0) : Type 0 where
  done : Signal E
  closed : Signal E
  event : E → Bool → Signal E

module _ {E : Type 0} where
  -- The events that are sent to the client before the loop returns.
  unfoldable pub stream_events : List (Signal E) → List E
  stream_events [] = []
  stream_events (done ∷ signals) = []
  stream_events (closed ∷ signals) = []
  stream_events (event e sent ∷ signals) =
      let rest = stream_events signals in if sent then e ∷ rest else []
