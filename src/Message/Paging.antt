-- ===== src/Message/Paging.antt =====
-- apps/server/src/message/service.ts: how the pages of a conversation's messages follow one another.
use formation_chat_core.Prelude.{
  ℕ, ◌+◌, ◌≤◌, ◌<◌, ◌≡◌, ◌≢◌, refl, sym, ◌∙◌, ap, true, none, some, List, [], ◌∷◌, map, arith, ok,
  ltb, select, take, drop, last?, order_by, All, find_first, IsAscending, HaveDistinctKeys,
  order_by-IsAscending, order_by-select, select-drop, take-take-suc, last?-take-drop, Option-cases,
  Bool-cases, inl, inr, All-last-take, All-select_hit,
}
use native.Mathlib.Numerals.{add-one}
use formation_chat_core.Database.{Db}
use formation_chat_core.Database.Rows.{Text, Message, Conversation}
use formation_chat_core.Database.Statements.{Scope, is_in, owns}
use formation_chat_core.Database.Sequences.{HaveDistinctSequences}
use formation_chat_core.Message.{map_message, require_conversation}
use formation_chat_core.Message.Listing.{
  by_sequence, is_listed, request_cursor, page_of, list_messages,
}
use formation_chat_core.Message.Cursor.{
  Base64, encode_cursor, decode_cursor, decode-encode_cursor, encode_cursor-ne-nil, max_safe,
}
use formation_chat_core.Message.Sequences.{MessagesSequenced}

-- The messages of a conversation in the order of their sequences.
unfoldable pub thread : Scope → ℕ → Db → List Message
thread scope conversation_id db =
    order_by by_sequence (select (is_listed scope conversation_id none) db.messages)

select-select :
    (scope : Scope) (id n : ℕ) (ms : List Message)
    → select (is_listed scope id (some n)) ms
      ≡ select (λ m. ltb n m.sequence) (select (is_listed scope id none) ms)
unfolding select is_listed
select-select scope id n [] = refl
select-select scope id n (m ∷ ms) = ground (arith, select-select scope id n ms)

is_listed-in :
    (scope : Scope) (id : ℕ) (m : Message)
    → is_listed scope id none m ≡ true
    → m.conversation_id ≡ id
unfolding is_listed is_in
is_listed-in scope id m h = ground arith

-- The messages of one conversation have distinct sequences.
listed-HaveDistinctKeys :
    (scope : Scope) (id : ℕ) (ms : List Message)
    → HaveDistinctSequences
        (λ (m : Message). m.conversation_id)
        (λ m. m.sequence)
        (λ c. c.next_message_sequence)
        ms
    → HaveDistinctKeys (λ (m : Message). m.sequence) (select (is_listed scope id none) ms)
unfolding select
listed-HaveDistinctKeys scope id [] d = tt
listed-HaveDistinctKeys scope id (m ∷ ms) (d, ds) = elim (Bool-cases (is_listed scope id none m)) [
  | inl e ↦ rw e (fresh e, listed-HaveDistinctKeys scope id ms ds)
  | inr e ↦ rw e (listed-HaveDistinctKeys scope id ms ds)
]
  where
    fresh :
        is_listed scope id none m ≡ true
        → All (λ y. y.sequence ≢ m.sequence) (select (is_listed scope id none) ms)
    fresh e =
        All-select_hit (is_listed scope id none) ms
          (λ y hit ne. ne (is_listed-in scope id y hit ∙ sym (is_listed-in scope id m e))) d

module _ (codec : Base64) (scope : Scope) (conversation_id : ℕ) (limit : ℕ) (db : Db)
    (s : MessagesSequenced db) where
  pub thread-IsAscending :
      IsAscending (λ (m : Message). m.sequence) (thread scope conversation_id db)
  unfolding thread
  thread-IsAscending =
      order_by-IsAscending (λ (m : Message). m.sequence) _
        (listed-HaveDistinctKeys scope conversation_id db.messages s.distinct)

  rows_behind :
      (n : ℕ)
      → order_by by_sequence (select (is_listed scope conversation_id (some n)) db.messages)
        ≡ select (λ m. ltb n m.sequence) (thread scope conversation_id db)
  unfolding thread
  rows_behind n =
      ap (order_by by_sequence) (select-select scope conversation_id n db.messages)
      ∙ order_by-select (λ (m : Message). m.sequence) (λ m. ltb n m.sequence) _
          (listed-HaveDistinctKeys scope conversation_id db.messages s.distinct)

  request_cursor-encode :
      (n : ℕ)
      → 0 < n
      → n ≤ max_safe
      → request_cursor codec (some (encode_cursor codec n)) ≡ ok (some n)
  unfolding request_cursor
  request_cursor-encode n pos safe = split (encode_cursor codec n) refl
    where
      split : (t : Text) → encode_cursor codec n ≡ t → request_cursor codec (some t) ≡ ok (some n)
      split [] e = absurd (encode_cursor-ne-nil codec n pos safe e)
      split (c ∷ cs) e =
          let read : decode_cursor codec (c ∷ cs) ≡ some n =
            rw e at (decode-encode_cursor codec n pos safe) in
          rw (read, request_cursor)

  -- A page asked for with the cursor of the k-th message starts at the message behind it.
  list_messages_behind :
      (k : ℕ) (m : Message) (c : Conversation)
      → find_first (owns scope conversation_id) db.conversations ≡ some c
      → last? (take k (thread scope conversation_id db)) ≡ some m
      → 0 < m.sequence
      → m.sequence ≤ max_safe
      → list_messages codec scope conversation_id (some (encode_cursor codec m.sequence)) limit db
        ≡ ok (page_of codec limit (drop k (thread scope conversation_id db)))
  unfolding list_messages require_conversation
  list_messages_behind k m c owned last pos safe =
      let rows =
        rows_behind m.sequence
        ∙ select-drop (λ (x : Message). x.sequence) k (thread scope conversation_id db) m
            thread-IsAscending last in
      rw owned (rw (request_cursor-encode m.sequence pos safe) (rw rows))

  pub take-take : (rows : List Message) → take limit (take (limit + 1) rows) ≡ take limit rows
  take-take rows = rw add-one (take-take-suc limit rows)

  pub page_of-next :
      (rows : List Message) (t : Text)
      → (page_of codec limit rows).next_cursor ≡ some t
      → (m : Message) × (last? (take limit rows) ≡ some m) × (t ≡ encode_cursor codec m.sequence)
  unfolding page_of
  page_of-next rows t h =
      let page = take-take rows in
      elim (Option-cases (last? (take limit rows))) [
        | inl missing ↦ ground (arith, page, missing)
        | inr (m, there) ↦ (m, there, ground (arith, page, there))
      ]

  pub list_messages-next :
      (k : ℕ) (c : Conversation) (t : Text)
      → find_first (owns scope conversation_id) db.conversations ≡ some c
      → All (λ m. (0 < m.sequence) × (m.sequence ≤ max_safe)) (thread scope conversation_id db)
      → (page_of codec limit (drop k (thread scope conversation_id db))).next_cursor ≡ some t
      → ((page_of codec limit (drop k (thread scope conversation_id db))).data_rows
          ≡ map map_message (take limit (drop k (thread scope conversation_id db))))
        × (list_messages codec scope conversation_id (some t) limit db
            ≡ ok (page_of codec limit (drop (k + limit) (thread scope conversation_id db))))
  unfolding page_of
  list_messages-next k c t owned range h =
      let all = thread scope conversation_id db in
      let (m, last, same) = page_of-next (drop k all) t h in
      let end = last?-take-drop k limit all m last in
      let (pos, safe) =
        All-last-take (λ (x : Message). x.sequence)
          (λ x. (0 < x.sequence) × (x.sequence ≤ max_safe)) (k + limit) all m range end in
      (
        rw (take-take (drop k all)),
        rw same (list_messages_behind (k + limit) m c owned end pos safe),
      )
