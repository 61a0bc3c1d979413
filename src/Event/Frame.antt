-- ===== src/Event/Frame.antt =====
-- apps/server/src/event/route.ts, `writeEvent`: the bytes of an event on a connection, as text.
use formation_chat_core.Prelude.{List, [], ◌∷◌, ◌++◌}
use formation_chat_core.Database.Rows.{Text}

-- What a frame takes of an event. `JSON.stringify` is a parameter.
pub record EventWriter (E : Type 0) : Type 0 where
  pub event_id : E → Text
  pub event_type : E → Text
  pub stringify : E → Text

abbrev pub id_prefix : Text
id_prefix = b'i' ∷ b'd' ∷ b':' ∷ b' ' ∷ []

abbrev pub event_prefix : Text
event_prefix = b'e' ∷ b'v' ∷ b'e' ∷ b'n' ∷ b't' ∷ b':' ∷ b' ' ∷ []

abbrev pub data_prefix : Text
data_prefix = b'd' ∷ b'a' ∷ b't' ∷ b'a' ∷ b':' ∷ b' ' ∷ []

module _ {E : Type 0} (writer : EventWriter E) where
  unfoldable pub frame : E → Text
  frame event =
      id_prefix
      ++ (writer.event_id event
          ++ b'\n'
            ∷ (event_prefix
                ++ (writer.event_type event
                    ++ b'\n' ∷ (data_prefix ++ (writer.stringify event ++ b'\n' ∷ b'\n' ∷ [])))))

  -- The frames of the events that a connection is sent, one behind the other.
  unfoldable pub write_events : List E → Text
  write_events [] = []
  write_events (event ∷ events) = frame event ++ write_events events
