-- ===== src/Conversation/Listing.antt =====
-- apps/server/src/conversation/service.ts, `list`: the pages of a principal's conversations.
use formation_chat_core.Prelude.{
  ℕ, ◌+◌, ◌<◌, take, ◌≡◌, refl, sym, ◌∙◌, ap, Bool, ◌&&◌, Option, none, some, List, [], ◌∷◌, Result,
  ok, err, ◌>>=◌, ◌==◌, drop, All, HaveDistinctKeys, Sealing, TimeTexts, seal-ne-nil,
}
use formation_chat_core.Database.{Db}
use formation_chat_core.Database.Rows.{Text, Conversation}
use formation_chat_core.Database.Statements.{Scope}
use formation_chat_core.Database.TimePages.{
  TimeCursor, TimePage, time_page, page_of, listing, StartsAt, StartsAt-whole, NamesNext,
  time_page-at, page_of-rows, page_of-next,
}
use formation_chat_core.Conversation.{ConversationApiError, ConversationView, get, invalid_cursor}
use formation_chat_core.Conversation.Cursor.{
  encode_conversation_cursor, decode_conversation_cursor, decode-encode_conversation_cursor,
}

pub record ConversationList : Type 0 where
  pub conversations : List ConversationView
  pub next_cursor : Option Text

abbrev pub created : Conversation → ℕ
created row = row.created_at

abbrev pub identified : Conversation → ℕ
identified row = row.conversation_id

unfoldable pub is_own : Scope → Conversation → Bool
is_own scope row =
    row.tenant_id == scope.tenant_id
    && row.site_id == scope.site_id
    && row.principal_id == scope.principal_id

-- `Promise.all` over the page: each row is read as `get` reads it.
unfoldable pub get_all :
    Scope → List Conversation → Db → Result ConversationApiError (List ConversationView)
get_all scope [] db = ok []
get_all scope (row ∷ rows) db = do
  view ← get scope row.conversation_id db
  views ← get_all scope rows db
  ok (view ∷ views)

module _ (sealing : Sealing) (texts : TimeTexts) where
  abbrev pub or_invalid : Option TimeCursor → Result ConversationApiError (Option TimeCursor)
  or_invalid none = err invalid_cursor
  or_invalid (some cursor) = ok (some cursor)

  -- An empty text is no cursor.
  unfoldable pub request_cursor : Option Text → Result ConversationApiError (Option TimeCursor)
  request_cursor none = ok none
  request_cursor (some []) = ok none
  request_cursor (some (c ∷ cs)) = or_invalid (decode_conversation_cursor sealing texts (c ∷ cs))

  abbrev pub encode_next : Option TimeCursor → Option Text
  encode_next none = none
  encode_next (some cursor) = some (encode_conversation_cursor sealing texts cursor)

  -- The answer of a page of rows.
  unfoldable pub serve :
      Scope → Db → TimePage Conversation → Result ConversationApiError ConversationList
  serve scope db page = do
    views ← get_all scope page.rows db
    ok (record { conversations = views; next_cursor = encode_next page.next_cursor })

  unfoldable pub list :
      Scope → Option Text → (limit : ℕ) → Db → Result ConversationApiError ConversationList
  list scope cursor limit db = do
    after ← request_cursor cursor
    serve scope db
        (time_page created identified texts.kept (is_own scope) after limit db.conversations)

  request_cursor-encode :
      (cursor : TimeCursor)
      → request_cursor (some (encode_conversation_cursor sealing texts cursor))
        ≡ ok (some (record { timestamp = texts.kept cursor.timestamp; id = cursor.id }))
  request_cursor-encode cursor = go (encode_conversation_cursor sealing texts cursor) refl
    where
      go :
          (t : Text)
          → encode_conversation_cursor sealing texts cursor ≡ t
          → request_cursor (some t)
            ≡ ok (some (record { timestamp = texts.kept cursor.timestamp; id = cursor.id }))
      go [] e = absurd (unfold encode_conversation_cursor in seal-ne-nil sealing _ e)
      go (c ∷ cs) e =
          unfold request_cursor in
          rw
            (ap (decode_conversation_cursor sealing texts) (sym e)
              ∙ decode-encode_conversation_cursor sealing texts cursor)
            refl

  request_cursor-whole :
      (k : ℕ) (all : List Conversation) (cursor : Option TimeCursor)
      → All (λ r. texts.kept r.created_at ≡ r.created_at) all
      → StartsAt created identified texts.kept all k cursor
      → request_cursor (encode_next cursor) ≡ ok cursor
  request_cursor-whole k all none whole start = unfold request_cursor in refl
  request_cursor-whole k all (some c) whole start =
      request_cursor-encode c
      ∙ ap (λ (n : ℕ). ok (some (record { timestamp = n; id = c.id })))
          (StartsAt-whole created identified texts.kept all k c whole start)

  -- The page that starts behind the first k of a principal's conversations, from the newest on, holds
  -- the next ones in order, as many as the limit allows. It names no cursor where none is left behind
  -- it, and else the cursor that the page behind it starts at: following the cursors from the first
  -- page lists every conversation once, where the times are whole milliseconds.
  pub list-next :
      (scope : Scope) (limit k : ℕ) (db : Db) (cursor : Option TimeCursor)
      → 0 < limit
      → HaveDistinctKeys identified (listing created identified (is_own scope) db.conversations)
      → All
          (λ r. texts.kept r.created_at ≡ r.created_at)
          (listing created identified (is_own scope) db.conversations)
      → StartsAt created identified texts.kept
          (listing created identified (is_own scope) db.conversations)
          k
          cursor
      → (next : Option TimeCursor) × (list scope (encode_next cursor) limit db ≡ (
          get_all scope
            (take limit (drop k (listing created identified (is_own scope) db.conversations)))
            db
          >>= λ views. ok (record { conversations = views; next_cursor = encode_next next })))
        × NamesNext created identified texts.kept
            (listing created identified (is_own scope) db.conversations)
            (k + limit)
            next
  unfolding list serve
  list-next scope limit k db cursor some_rows d whole start =
      let all = listing created identified (is_own scope) db.conversations in
      let page : TimePage Conversation = page_of created identified texts.kept limit (drop k all) in
      (
        page.next_cursor,
        rw (request_cursor-whole k all cursor whole start) (
            ap (serve scope db) (
              time_page-at created identified texts.kept (is_own scope) limit k db.conversations
                cursor d whole start)
            ∙ ap
                (λ (rows : List Conversation). get_all scope rows db >>= λ views.
                  ok (record { conversations = views; next_cursor = encode_next page.next_cursor }))
                (page_of-rows created identified texts.kept limit (drop k all))),
        page_of-next created identified texts.kept limit k all some_rows,
      )
