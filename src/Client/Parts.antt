-- ===== src/Client/Parts.antt =====
-- packages/browser-client/src/state.ts: a live message and its parts.
use formation_chat_core.Prelude.{
  ℕ, Bool, false, not, List, [], ◌∷◌, ◌++◌, map, ◌==◌, if◌then◌else◌, select,
}
use formation_chat_core.Database.Rows.{
  Text, ContentPart, text, tool_status, citation, ToolStatus, EventBody, message_delta,
  message_completed, tool_started, tool_completed, tool_failed, citation_added,
}
use formation_chat_core.Client.Types.{LiveMessage, LiveStatus}

unfoldable pub live_message : ℕ → LiveMessage
live_message message_id = record {
  message_id = message_id;
  status = LiveStatus.streaming;
  text = [];
  parts = [];
}

-- `text_from_parts`: the texts of the text parts, joined.
unfoldable pub text_from_parts : List ContentPart → Text
text_from_parts [] = []
text_from_parts (text t ∷ parts) = t ++ text_from_parts parts
text_from_parts (_ ∷ parts) = text_from_parts parts

abbrev is_tool : ℕ → ContentPart → Bool
is_tool tool_call_id (tool_status id _ _) = id == tool_call_id
is_tool tool_call_id _ = false

unfoldable pub upsert_tool : List ContentPart → ℕ → Text → ToolStatus → List ContentPart
upsert_tool parts tool_call_id label status =
    select (λ part. not (is_tool tool_call_id part)) parts
    ++ tool_status tool_call_id label status ∷ []

abbrev set_tool : ℕ → ToolStatus → ContentPart → ContentPart
set_tool tool_call_id status (tool_status id label old) =
    if id == tool_call_id then tool_status id label status else tool_status id label old
set_tool tool_call_id status part = part

unfoldable pub update_tool : List ContentPart → ℕ → ToolStatus → List ContentPart
update_tool parts tool_call_id status = map (set_tool tool_call_id status) parts

-- What an event does to the live message that it names.
unfoldable pub update_live : EventBody → LiveMessage → LiveMessage
update_live (message_delta delta) current = record current { text = current.text ++ delta }
update_live (message_completed parts) current = record current {
  status = LiveStatus.completed;
  parts = parts;
  text = elim (text_from_parts parts) [ [] ↦ current.text | c ∷ cs ↦ c ∷ cs ];
}
update_live (tool_started id label) current = record current {
  parts = upsert_tool current.parts id label ToolStatus.started;
}
update_live (tool_completed id) current = record current {
  parts = update_tool current.parts id ToolStatus.completed;
}
update_live (tool_failed id) current = record current {
  parts = update_tool current.parts id ToolStatus.failed;
}
update_live (citation_added c) current = record current { parts = current.parts ++ citation c ∷ [] }
update_live _ current = current
