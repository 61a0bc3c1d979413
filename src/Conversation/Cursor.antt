-- ===== src/Conversation/Cursor.antt =====
-- apps/server/src/conversation/cursor.ts: the cursors of a principal's conversations.
use formation_chat_core.Prelude.{
  ℕ, ◌≡◌, refl, Option, none, some, Json, item, no_items, string, array, Sealing, TimeTexts,
}
use formation_chat_core.Database.Rows.{Text}
use formation_chat_core.Database.TimePages.{TimeCursor}

module _ (sealing : Sealing) (texts : TimeTexts) where
  unfoldable pub encode_conversation_cursor : TimeCursor → Text
  encode_conversation_cursor cursor = sealing.seal (
      array (
        item (string (texts.to_iso cursor.timestamp))
          (item (string (texts.id_text cursor.id)) no_items)))

  -- The time that the text stands for, if it is one.
  abbrev pub cursor_at : Option ℕ → Text → Option TimeCursor
  cursor_at none id = none
  cursor_at (some timestamp) id = some (record { timestamp = timestamp; id = texts.text_id id })

  -- Two texts, the first of them a time.
  abbrev pub read_cursor : Option Json → Option TimeCursor
  read_cursor (some (array (item (string time) (item (string id) no_items)))) =
      cursor_at (texts.parse_date time) id
  read_cursor _ = none

  unfoldable pub decode_conversation_cursor : Text → Option TimeCursor
  decode_conversation_cursor value = read_cursor (sealing.unseal value)

  -- Decoding the cursor of a time and an identifier gives them back, the time as a `Date` keeps it.
  pub decode-encode_conversation_cursor :
      (cursor : TimeCursor)
      → decode_conversation_cursor (encode_conversation_cursor cursor)
        ≡ some (record { timestamp = texts.kept cursor.timestamp; id = cursor.id })
  unfolding decode_conversation_cursor encode_conversation_cursor
  decode-encode_conversation_cursor cursor =
      rw
        (sealing.unseal_seal (
          array (
            item (string (texts.to_iso cursor.timestamp))
              (item (string (texts.id_text cursor.id)) no_items))))
        (rw (texts.parse_date_iso cursor.timestamp) (rw (texts.text_id_text cursor.id) refl))
