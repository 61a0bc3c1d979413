-- ===== src/Transport/Pages.antt =====
-- packages/browser-client/src/http-transport.ts, `listMessages`, against the pages of
-- apps/server/src/message/service.ts.
pub mod Canonical
pub mod Passed
pub mod Rows
use mathlib.Core.List.{append_assoc, map-append, append-nil}
use native.Mathlib.Nat.{zero-add, suc-add}
use native.Mathlib.Numerals.{add-one}
use formation_chat_core.Prelude.{
  Json, ℕ, zero, suc, ◌+◌, ◌*◌, ◌-◌, ◌≤◌, ◌<◌, ◌≡◌, ◌≢◌, refl, sym, ◌∙◌, ap, subst, Bool, true,
  false, Option, none, some, List, [], ◌∷◌, ◌++◌, map, arith, Result, ok, err, ◌>>=◌, ltb, any,
  select, take, drop, last?, order_by, All, All-map, All-append, All-zip, find_first, IsAscending,
  HaveDistinctKeys, select-drop, drop-IsAscending, All-drop, All-select_hit, drop-drop, length,
  length-drop, take-append-drop, take_all, insert_row_front, by_key, same_text, same_text_sound,
  insert, Option-cases, Bool-cases, inl, inr, length-take-le, length-take-suc, All-last-take,
  take-take-suc, take-nil, last?-none, leb,
}
use formation_chat_core.Database.{Db}
use formation_chat_core.Database.Rows.{Text, Message, Conversation}
use formation_chat_core.Database.Statements.{Scope, owns}
use formation_chat_core.Message.{MessageView, map_message, require_conversation}
use formation_chat_core.Message.Cursor.{
  Base64, encode_cursor, decode_cursor, decode-encode_cursor, encode_cursor-ne-nil, max_safe,
}
use formation_chat_core.Message.Listing
use formation_chat_core.Message.Listing.{MessageList, page_of}
use formation_chat_core.Message.Paging.{
  thread, thread-IsAscending, list_messages-next, page_of-next,
}
use formation_chat_core.Message.Sequences.{MessagesSequenced}
use formation_chat_core.Transport.Pages.Canonical.{
  canonical_page-sorted, map-IsAscending, map-HaveDistinctKeys,
}
use formation_chat_core.Transport.Pages.Passed.{ArePassed, All-behind, any-seen}
use formation_chat_core.Transport.Pages.Rows.{
  take-append-take, page_of-data_rows, page_of-last, page_of-more,
}
use formation_chat_core.Transport.{
  TransportError, Page, last_page, more, list_from, canonical_page, query_cursor, request_json,
  list_messages, message_page, Fetch,
}

-- A page of the service as the protocol carries it.
abbrev pub served_page : MessageList → Page
served_page list = record {
  messages = list.data_rows;
  pagination = elim list.next_cursor [ none ↦ last_page | some cursor ↦ more cursor ];
}

module _ (load : ℕ → Option Text → Result TransportError Page) (rounds page_number : ℕ)
    (cursor : Option Text) (seen : List Text) (messages : List MessageView) (page : Page)
    (loaded : load page_number (query_cursor cursor) ≡ ok page) where
  list_from-last :
      page.pagination ≡ last_page
      → list_from load (suc rounds) page_number cursor seen messages
        ≡ ok (canonical_page (messages ++ page.messages))
  unfolding list_from
  list_from-last e = rw loaded (rw (e, list_from) refl)

  list_from-more :
      (t : Text)
      → page.pagination ≡ more t
      → any (same_text t) seen ≡ false
      → list_from load (suc rounds) page_number cursor seen messages
        ≡ list_from load rounds
            (page_number + 1)
            (some t)
            (seen ++ t ∷ [])
            (messages ++ page.messages)
  unfolding list_from
  list_from-more t e new = rw loaded (rw (e, list_from) (rw (new, list_from) refl))

module _ (codec : Base64) (scope : Scope) (conversation_id : ℕ) (db : Db) (s : MessagesSequenced db)
    (c : Conversation) (owned : find_first (owns scope conversation_id) db.conversations ≡ some c)
    (range : All
      (λ (m : Message). (0 < m.sequence) × (m.sequence ≤ max_safe))
      (thread scope conversation_id db))
    (distinct : HaveDistinctKeys (λ (m : Message). m.message_id) (thread scope conversation_id db))
    (load : ℕ → Option Text → Result TransportError Page)
    (serves : (page_number : ℕ) (cursor : Option Text) (list : MessageList)
      → Listing.list_messages codec scope conversation_id cursor 100 db ≡ ok list
      → load page_number cursor ≡ ok (served_page list)) where
  abbrev all : List Message
  all = thread scope conversation_id db

  all-IsAscending : IsAscending (λ (m : Message). m.sequence) all
  all-IsAscending = thread-IsAscending codec scope conversation_id 100 db s

  canonical_page-all : canonical_page (map map_message all) ≡ map map_message all
  canonical_page-all =
      canonical_page-sorted (map map_message all) (map-IsAscending all all-IsAscending)
        (map-HaveDistinctKeys all distinct)

  query_cursor-encode :
      (m : Message)
      → 0 < m.sequence
      → m.sequence ≤ max_safe
      → query_cursor (some (encode_cursor codec m.sequence)) ≡ some (encode_cursor codec m.sequence)
  query_cursor-encode m pos safe = split (encode_cursor codec m.sequence) refl
    where
      split : (t : Text) → encode_cursor codec m.sequence ≡ t → query_cursor (some t) ≡ some t
      split [] e = absurd (encode_cursor-ne-nil codec m.sequence pos safe e)
      split (d ∷ ds) e = refl

  -- Behind a page the cursors passed are those of before and that of the page's last message.
  passed_on :
      (seen : List Text) (k : ℕ) (m : Message)
      → ArePassed codec seen (drop k all)
      → last? (take 100 (drop k all)) ≡ some m
      → 0 < m.sequence
      → m.sequence ≤ max_safe
      → ArePassed codec (seen ++ encode_cursor codec m.sequence ∷ []) (drop (k + 100) all)
  passed_on seen k m passed last pos safe =
      let moved = drop-drop k 100 all in
      let below = λ (n : ℕ) (h : All (λ (y : Message). n < y.sequence) (drop k all)).
        subst (All (λ (y : Message). n < y.sequence)) moved (
          All-drop (λ (x : Message). x.sequence) (λ (y : Message). n < y.sequence) 100 (drop k all)
            h) in
      All-append _ seen _
        (All-map (λ t (n, same, pn, sn, h). (n, same, pn, sn, below n h)) seen passed)
        (
          (
            m.sequence,
            refl,
            pos,
            safe,
            subst (All (λ (y : Message). m.sequence < y.sequence)) moved (
                All-behind 100 (drop k all) m
                  (drop-IsAscending (λ (x : Message). x.sequence) k all all-IsAscending) last),
          ),
          tt,
        )

  -- From the k-th message on, where enough rounds are left.
  list_from-behind :
      (rounds page_number k : ℕ) (cursor : Option Text) (seen : List Text)
      → Listing.list_messages codec scope conversation_id (query_cursor cursor) 100 db
        ≡ ok (page_of codec 100 (drop k all))
      → ArePassed codec seen (drop k all)
      → length all ≤ k + 100 * rounds
      → 0 < rounds
      → list_from load rounds page_number cursor seen (map map_message (take k all))
        ≡ ok (map map_message all)
  list_from-behind zero i k cursor seen here passed enough pos = absurd (omega arith)
  list_from-behind (suc rounds) i k cursor seen here passed enough pos =
      let ahead : List Message = drop k all in
      let list : MessageList = page_of codec 100 ahead in
      let page = serves i (query_cursor cursor) list here in
      let front : List MessageView = map map_message (take k all) in
      let sizes = length-drop k all in
      let grown : front ++ list.data_rows ≡ map map_message (take (k + 100) all) =
        ap (◌++◌ front) (page_of-data_rows codec 100 ahead)
        ∙ sym (map-append map_message (take k all) (take 100 ahead))
        ∙ ap (map map_message) (take-append-take k 100 all) in
      elim (Option-cases list.next_cursor) [
        | inl no_more ↦
            let small = page_of-last codec 100 ahead (omega arith) no_more in
            let whole =
              ap (map map_message) (take_all (k + 100) all (omega (arith, sizes, small))) in
            list_from-last load rounds i cursor seen front (served_page list) page
              (rw (no_more, served_page) refl)
            ∙ ap (λ (ms : List MessageView). ok (canonical_page ms)) (grown ∙ whole)
            ∙ ap (λ (ms : List MessageView). ok ms) canonical_page-all
        | inr (t, there) ↦
            let (m, last, same) = page_of-next codec scope conversation_id 100 db s ahead t there in
            let (pos_m, safe_m) =
              All-last-take (λ (x : Message). x.sequence)
                (λ (x : Message). (0 < x.sequence) × (x.sequence ≤ max_safe)) 100 ahead m
                (All-drop (λ (x : Message). x.sequence)
                  (λ (x : Message). (0 < x.sequence) × (x.sequence ≤ max_safe)) k all range)
                last in
            let next =
              (list_messages-next codec scope conversation_id 100 db s k c t owned range there).1 in
            let large = page_of-more codec 100 ahead t there in
            let new = any-seen codec seen ahead m 100 passed last pos_m safe_m in
            list_from-more load rounds i cursor seen front (served_page list) page t
              (rw (there, served_page) refl) (rw same new)
            ∙ ap (list_from load rounds (i + 1) (some t) (seen ++ t ∷ [])) grown
            ∙ list_from-behind rounds (i + 1) (k + 100) (some t) (seen ++ t ∷ [])
                (rw same (rw (query_cursor-encode m pos_m safe_m) (rw (← same) next)))
                (rw same (passed_on seen k m passed last pos_m safe_m)) (omega (arith, enough))
                (omega (arith, enough, sizes, large))
      ]

  first_page :
      Listing.list_messages codec scope conversation_id none 100 db ≡ ok (page_of codec 100 all)
  unfolding Listing.list_messages require_conversation Listing.request_cursor thread
  first_page = rw owned refl

  list_from-all :
      (rounds : ℕ)
      → 0 < rounds
      → length all ≤ 100 * rounds
      → list_from load rounds 0 none [] [] ≡ ok (map map_message all)
  unfolding take drop
  list_from-all rounds pos enough =
      list_from-behind rounds 0 0 none [] first_page tt (omega (arith, enough)) pos

-- The client's loop over the pages implements one read of the whole conversation: with a server
-- that answers every request from one state of the database, within the limit of requests, it
-- returns all messages of the conversation in order, each once. No cursor is refused as repeated.
pub list_messages-thread :
    (codec : Base64) (scope : Scope) (conversation_id : ℕ) (db : Db) (c : Conversation)
    (parse : Text → Option Json) (fetch : ℕ → Fetch) (token : Option Text)
    (check : Option Json → Option Page) (max_pagination_requests : ℕ)
    → MessagesSequenced db
    → find_first (owns scope conversation_id) db.conversations ≡ some c
    → All
        (λ (m : Message). (0 < m.sequence) × (m.sequence ≤ max_safe))
        (thread scope conversation_id db)
    → HaveDistinctKeys (λ (m : Message). m.message_id) (thread scope conversation_id db)
    → ((page_number : ℕ) (cursor : Option Text) (list : MessageList)
        → Listing.list_messages codec scope conversation_id cursor 100 db ≡ ok list
        → request_json parse
            (fetch page_number)
            token
            check
            (message_page conversation_id cursor)
            none
            none
          ≡ ok (served_page list))
    → 0 < max_pagination_requests
    → length (thread scope conversation_id db) ≤ 100 * max_pagination_requests
    → list_messages parse fetch token check max_pagination_requests conversation_id
      ≡ ok (map map_message (thread scope conversation_id db))
unfolding list_messages
list_messages-thread codec scope id db c parse fetch token check rounds s owned range distinct
      serves pos enough =
    list_from-all codec scope id db s c owned range distinct
      (λ page_number cursor.
        request_json parse (fetch page_number) token check (message_page id cursor) none none)
      serves rounds pos enough
