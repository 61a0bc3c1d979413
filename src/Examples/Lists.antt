-- ===== src/Examples/Lists.antt =====
-- The theorems on the lists of conversations and events at concrete inputs.
use formation_chat_core.Prelude.{
  Option, ◌>>=◌, ℕ, ◌≤◌, ◌≡◌, refl, none, some, List, [], ◌∷◌, ok, arith, drop, All,
  HaveDistinctKeys, length, select, order_by, insert_row, take, last?, find_first, false,
}
use formation_chat_core.Database.{Db}
use formation_chat_core.Database.Rows.{Conversation, Event, Visibility, message_delta}
use formation_chat_core.Database.TimePages.{TimeCursor, StartsAt, NamesNext, listing}
use formation_chat_core.Conversation.Listing.{
  list, get_all, encode_next, created, identified, is_own, list-next,
}
use formation_chat_core.Admin.{
  AdminScope, AdminPage, list_events, scoped_conversation, sequence_cursor, sequence_page,
  admits_event,
}
use formation_chat_core.Admin.Scoping.{MayRead, list_events-MayRead}
use formation_chat_core.Examples.Codec.{plain_sealing, plain_texts}
use formation_chat_core.Examples.Data.{scope, chat, empty_db}

abbrev two_chats : Db
two_chats = record empty_db {
  conversations = chat ∷ record chat { conversation_id = 8; created_at = 200 } ∷ [];
}

abbrev own : List Conversation
own = listing created identified (is_own scope) two_chats.conversations

own-distinct : HaveDistinctKeys identified own
unfolding listing select is_own order_by insert_row
own-distinct = ((λ e. ground (arith, e), tt), (tt, tt))

newest_first : last? (take 1 own) ≡ some (record chat { conversation_id = 8; created_at = 200 })
unfolding listing select is_own order_by insert_row take last?
newest_first = refl

list-next_example :
    (next : Option TimeCursor) × (list plain_sealing plain_texts scope
        (encode_next plain_sealing plain_texts (some (record { timestamp = 200; id = 8 })))
        1
        two_chats
      ≡ (get_all scope (take 1 (drop 1 own)) two_chats >>= λ views. ok (record {
        conversations = views;
        next_cursor = encode_next plain_sealing plain_texts next;
      })))
    × NamesNext created identified plain_texts.kept own 2 next
list-next_example =
    list-next plain_sealing plain_texts scope 1 1 two_chats
      (some (record { timestamp = 200; id = 8 })) (omega arith) own-distinct
      (unfold listing select is_own order_by insert_row in (refl, (refl, tt)))
      (StartsAt.behind 1 (record chat { conversation_id = 8; created_at = 200 }) newest_first)

abbrev happened : ℕ → Visibility → Event
happened n visibility = record {
  event_id = n;
  tenant_id = 1;
  site_id = 2;
  conversation_id = 7;
  sequence = n;
  visibility = visibility;
  run_id = some 31;
  message_id = none;
  body = message_delta [];
  occurred_at = 300;
}

abbrev two_events : Db
two_events = record empty_db {
  conversation_events = happened 1 Visibility.internal ∷ happened 2 Visibility.public ∷ [];
}

abbrev reader : AdminScope
reader = record { tenant_id = 1; internal = false }

abbrev read_events : AdminPage Event
read_events = record { rows = happened 2 Visibility.public ∷ []; next_cursor = none }

read_events_ok : list_events plain_sealing plain_texts reader 7 none 5 two_events ≡ ok read_events
unfolding list_events scoped_conversation sequence_cursor sequence_page select admits_event order_by
    insert_row take last? find_first
read_events_ok = refl

list_events-MayRead_example :
    All (MayRead plain_sealing plain_texts reader 7) read_events.rows
    × (length read_events.rows ≤ 5)
list_events-MayRead_example =
    list_events-MayRead plain_sealing plain_texts reader 7 none 5 two_events read_events
      read_events_ok
