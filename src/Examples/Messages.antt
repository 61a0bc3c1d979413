-- ===== src/Examples/Messages.antt =====
-- The theorems on messages at concrete inputs.
use formation_chat_core.Prelude.{
  ◌≤◌, ◌<◌, ◌*◌, HaveDistinctKeys, length, ◌≡◌, refl, none, some, [], ok, err, arith, find_first,
  All, update_where, select, order_by, insert_row,
}
use formation_chat_core.Database.{Db}
use formation_chat_core.Database.Rows.{Role, MessageStatus, Conversation, Message}
use formation_chat_core.Database.Statements.{owns, is_in, find_command, is_command, command}
use formation_chat_core.Message.{
  MessageView, submit, submit_transaction, submit_new, store, get, require_conversation,
  take_sequence, user_message, queued_run, map_message, idempotency_conflict, is_user_participant,
  is_message,
}
use formation_chat_core.Message.Listing.{is_listed}
use formation_chat_core.Message.Cursor.{max_safe}
use formation_chat_core.Message.Idempotency.{submit_retry, submit_conflict}
use formation_chat_core.Message.Sequences.{
  submit-MessagesSequenced, MessagesSequenced, submit-IsFirst, IsFirst,
}
use formation_chat_core.Message.Paging.{thread}
use formation_chat_core.Examples.Data.{
  value_of, some_or, scope, chat, visitor, empty_db, hello, digest, fresh, refreshed,
}

abbrev nothing : MessageView
nothing = record {
  message_id = 0;
  conversation_id = 0;
  sequence = 0;
  participant_id = 0;
  role = Role.user;
  status = MessageStatus.pending;
  parts = [];
  created_at = 0;
  completed_at = none;
}

abbrev sent : Db × MessageView
sent = value_of (submit digest scope 7 hello 5 1000 fresh empty_db) (empty_db, nothing)

sent_ok : submit digest scope 7 hello 5 1000 fresh empty_db ≡ ok (sent.0, sent.1)
unfolding submit submit_transaction submit_new store get require_conversation find_command
    find_first owns is_in is_user_participant take_sequence update_where user_message queued_run
    command is_message map_message is_command
sent_ok = refl

abbrev pub sent_twice : Db × MessageView
sent_twice = value_of (submit digest scope 7 hello 6 1100 refreshed sent.0) (empty_db, nothing)

sent_twice_ok :
    submit digest scope 7 hello 6 1100 refreshed sent.0 ≡ ok (sent_twice.0, sent_twice.1)
unfolding submit submit_transaction submit_new store get require_conversation find_command
    find_first owns is_in is_user_participant take_sequence update_where user_message queued_run
    command is_message map_message is_command
sent_twice_ok = refl

submit_retry_example : submit digest scope 7 hello 5 2000 refreshed sent.0 ≡ ok (sent.0, sent.1)
submit_retry_example =
    submit_retry digest scope 7 hello 5 1000 2000 fresh refreshed empty_db sent.0 sent.1 sent_ok

submit_conflict_example :
    submit digest scope 7 [] 5 2000 refreshed sent.0 ≡ err idempotency_conflict
submit_conflict_example =
    submit_conflict digest scope 7 hello [] 5 1000 2000 fresh refreshed empty_db sent.0 sent.1
      sent_ok (λ e. ground (arith, e))

empty_sequenced : MessagesSequenced empty_db
empty_sequenced = record { keyed = (tt, tt); below = tt; distinct = tt }

submit-MessagesSequenced_example : MessagesSequenced sent.0
submit-MessagesSequenced_example =
    submit-MessagesSequenced digest scope 7 hello 5 1000 fresh empty_db sent.0 sent.1 sent_ok
      empty_sequenced

submit-IsFirst_example :
    (after : Db) × (message : MessageView) × (submit digest scope 7 hello 5 1000 fresh empty_db
      ≡ ok (after, message))
    × IsFirst scope 7 hello fresh chat visitor empty_db after message
submit-IsFirst_example =
    submit-IsFirst digest scope 7 hello 5 1000 fresh empty_db chat visitor
      (unfold find_command find_first in refl) (unfold find_first owns in refl)
      (unfold find_first is_user_participant is_in in refl) (unfold find_first in refl)

pub sent_twice_sequenced : MessagesSequenced sent_twice.0
sent_twice_sequenced =
    submit-MessagesSequenced digest scope 7 hello 6 1100 refreshed sent.0 sent_twice.0 sent_twice.1
      sent_twice_ok
      (submit-MessagesSequenced digest scope 7 hello 5 1000 fresh empty_db sent.0 sent.1 sent_ok
        empty_sequenced)

abbrev pub kept_chat : Conversation
kept_chat = some_or (find_first (owns scope 7) sent_twice.0.conversations) chat

pub kept_chat_found : find_first (owns scope 7) sent_twice.0.conversations ≡ some kept_chat
unfolding submit submit_transaction submit_new store get require_conversation find_command
    find_first owns is_in is_user_participant take_sequence update_where user_message queued_run
    command is_message map_message is_command
kept_chat_found = refl

pub thread_range :
    All (λ m. (0 < m.sequence) × (m.sequence ≤ max_safe)) (thread scope 7 sent_twice.0)
unfolding submit submit_transaction submit_new store get require_conversation find_command
    find_first owns is_in is_user_participant take_sequence update_where user_message queued_run
    command is_message map_message is_command thread select order_by insert_row is_listed
thread_range = ((omega arith, omega arith), ((omega arith, omega arith), tt))

pub thread_distinct : HaveDistinctKeys (λ (m : Message). m.message_id) (thread scope 7 sent_twice.0)
unfolding submit submit_transaction submit_new store get require_conversation find_command
    find_first owns is_in is_user_participant take_sequence update_where user_message queued_run
    command is_message map_message is_command thread select order_by insert_row is_listed
thread_distinct = ((omega arith, tt), (tt, tt))

pub thread_short : length (thread scope 7 sent_twice.0) ≤ 100 * 1000
unfolding submit submit_transaction submit_new store get require_conversation find_command
    find_first owns is_in is_user_participant take_sequence update_where user_message queued_run
    command is_message map_message is_command thread select order_by insert_row is_listed
thread_short = omega arith
