-- ===== src/Message/Listing.antt =====
-- apps/server/src/message/service.ts, `list`: the pages of a conversation's messages.
use formation_chat_core.Prelude.{
  ℕ, ◌+◌, Bool, true, false, ◌&&◌, Option, none, some, List, [], ◌∷◌, map, Result, ok, err, ◌>>=◌,
  ◌>>◌, ltb, leb, if◌then◌else◌, length, select, take, last?, order_by,
}
use formation_chat_core.Database.{Db}
use formation_chat_core.Database.Rows.{Text, Message}
use formation_chat_core.Database.Statements.{Scope, is_in}
use formation_chat_core.Message.Cursor.{Base64, encode_cursor, decode_cursor}
use formation_chat_core.Message.{
  MessageApiError, MessageView, map_message, require_conversation, invalid_cursor,
}

pub record MessageList : Type 0 where
  pub data_rows : List MessageView
  pub has_more : Bool
  pub next_cursor : Option Text

abbrev pub by_sequence : Message → Message → Bool
by_sequence a b = leb a.sequence b.sequence

-- The rows behind the cursor, which is absent on the first page.
unfoldable pub is_listed : Scope → ℕ → Option ℕ → Message → Bool
is_listed scope conversation_id cursor row =
    is_in scope.tenant_id scope.site_id conversation_id row.tenant_id row.site_id
      row.conversation_id
    && elim cursor [ none ↦ true | some sequence ↦ ltb sequence row.sequence ]

-- An empty text is no cursor; any other that does not decode is refused.
unfoldable pub request_cursor : Base64 → Option Text → Result MessageApiError (Option ℕ)
request_cursor codec none = ok none
request_cursor codec (some []) = ok none
request_cursor codec (some (c ∷ cs)) = elim (decode_cursor codec (c ∷ cs)) [
  | none ↦ err invalid_cursor
  | some sequence ↦ ok (some sequence)
]

-- A page of the ordered rows, read with one row more than the limit to see if there are more.
unfoldable pub page_of : Base64 → ℕ → List Message → MessageList
page_of codec limit ordered =
    let rows = take (limit + 1) ordered in
    let page = take limit rows in
    let has_more = ltb limit (length rows) && elim (last? page) [ none ↦ false | some _ ↦ true ] in
    record {
      data_rows = map map_message page;
      has_more = has_more;
      next_cursor =
          if has_more
          then elim (last? page) [
            | none ↦ none
            | some tail ↦ some (encode_cursor codec tail.sequence)
          ]
          else none;
    }

unfoldable pub list_messages :
    Base64 → Scope → ℕ → Option Text → ℕ → Db → Result MessageApiError MessageList
list_messages codec scope conversation_id cursor limit db = do
  require_conversation scope conversation_id db
  after ← request_cursor codec cursor
  ok (
      page_of codec limit
        (order_by by_sequence (select (is_listed scope conversation_id after) db.messages)))
