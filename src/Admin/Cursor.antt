-- ===== src/Admin/Cursor.antt =====
-- apps/server/src/admin/cursor.ts: the cursors of the administration's lists, each marked with its kind.
use formation_chat_core.Message.Cursor.{max_safe}
use formation_chat_core.Prelude.{
  ℕ, ◌≡◌, true, ◌&&◌, not, Bool, Option, none, some, [], ◌∷◌, if◌then◌else◌, leb, arith, same_text,
  Json, item, no_items, string, natural, array, Sealing, TimeTexts,
}
use formation_chat_core.Database.Rows.{Text}
use formation_chat_core.Database.TimePages.{TimeCursor}

pub data CursorKind : Type 0 where
  conversation message event run failure handoff : CursorKind

abbrev pub kind_text : CursorKind → Text
kind_text conversation =
    b'c' ∷ b'o' ∷ b'n' ∷ b'v' ∷ b'e' ∷ b'r' ∷ b's' ∷ b'a' ∷ b't' ∷ b'i' ∷ b'o' ∷ b'n' ∷ []
kind_text message = b'm' ∷ b'e' ∷ b's' ∷ b's' ∷ b'a' ∷ b'g' ∷ b'e' ∷ []
kind_text event = b'e' ∷ b'v' ∷ b'e' ∷ b'n' ∷ b't' ∷ []
kind_text run = b'r' ∷ b'u' ∷ b'n' ∷ []
kind_text failure = b'f' ∷ b'a' ∷ b'i' ∷ b'l' ∷ b'u' ∷ b'r' ∷ b'e' ∷ []
kind_text handoff = b'h' ∷ b'a' ∷ b'n' ∷ b'd' ∷ b'o' ∷ b'f' ∷ b'f' ∷ []

abbrev pub is_empty : Text → Bool
is_empty [] = true
is_empty (c ∷ cs) = Bool.false

module _ (sealing : Sealing) where
  unfoldable pub encode_sequence_cursor : CursorKind → ℕ → Text
  encode_sequence_cursor kind sequence =
      sealing.seal (array (item (string (kind_text kind)) (item (natural sequence) no_items)))

  -- The kind and a positive safe integer.
  abbrev pub read_sequence : CursorKind → Option Json → Option ℕ
  read_sequence kind (some (array (item (string name) (item (natural n) no_items)))) =
      if same_text name (kind_text kind) && leb 1 n && leb n max_safe then some n else none
  read_sequence kind _ = none

  unfoldable pub decode_sequence_cursor : CursorKind → Text → Option ℕ
  decode_sequence_cursor kind value = read_sequence kind (sealing.unseal value)

  module _ (texts : TimeTexts) where
    unfoldable pub encode_time_cursor : CursorKind → TimeCursor → Text
    encode_time_cursor kind cursor = sealing.seal (
        array (
          item (string (kind_text kind)) (
            item (string (texts.to_iso cursor.timestamp))
              (item (string (texts.id_text cursor.id)) no_items))))

    abbrev pub cursor_at : Option ℕ → Text → Option TimeCursor
    cursor_at none id = none
    cursor_at (some timestamp) id = some (record { timestamp = timestamp; id = texts.text_id id })

    -- The kind, a time and an identifier that is not empty.
    abbrev pub read_time : CursorKind → Option Json → Option TimeCursor
    read_time kind
          (some (array (item (string name) (item (string time) (item (string id) no_items))))) =
        if same_text name (kind_text kind) && not (is_empty id)
        then cursor_at (texts.parse_date time) id
        else none
    read_time kind _ = none

    unfoldable pub decode_time_cursor : CursorKind → Text → Option TimeCursor
    decode_time_cursor kind value = read_time kind (sealing.unseal value)

    -- A cursor is read back by its own kind of list, and by no other.
    pub decode-encode_time_cursor :
        (kind asked : CursorKind) (cursor : TimeCursor)
        → is_empty (texts.id_text cursor.id) ≡ Bool.false
        → decode_time_cursor asked (encode_time_cursor kind cursor) ≡ (
            if same_text (kind_text kind) (kind_text asked)
            then some (record { timestamp = texts.kept cursor.timestamp; id = cursor.id })
            else none)
    unfolding decode_time_cursor encode_time_cursor
    decode-encode_time_cursor kind asked cursor there =
        rw
          (sealing.unseal_seal (
            array (
              item (string (kind_text kind)) (
                item (string (texts.to_iso cursor.timestamp))
                  (item (string (texts.id_text cursor.id)) no_items)))))
          (rw there (
            rw (texts.parse_date_iso cursor.timestamp)
              (rw (texts.text_id_text cursor.id) (ground arith))))
