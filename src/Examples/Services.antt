-- ===== src/Examples/Services.antt =====
-- The theorems on the other services at concrete inputs.
use formation_chat_core.Prelude.{
  ℕ, ◌≡◌, refl, true, none, some, [], ◌∷◌, ok, err, find_first, select, any, count_where,
  update_where, first_by, head?, order_by, insert_row,
}
use formation_chat_core.Database.{Db}
use formation_chat_core.Database.Rows.{
  Principal, Text, Message, InputRequest, InputStatus, Purpose, Run, RunStatus, TriggerType,
  HandoffStatus, input_submit, Role, MessageStatus,
}
use formation_chat_core.Database.Statements.{owns, is_in, find_command, is_command, command}
use formation_chat_core.Conversation.{
  ConversationIds, create, store_conversation, validate_participants,
}
use formation_chat_core.Conversation.Creation.{create_first, created_view}
use formation_chat_core.StructuredInput
use formation_chat_core.StructuredInput.{
  InputView, SubmitRequest, submitted, declined, submit, submit_new, submit_transaction,
  input_already_resolved,
}
use formation_chat_core.StructuredInput.Answers.{submit-once}
use formation_chat_core.EmailHandoff
use formation_chat_core.EmailHandoff.{HandoffIds, HandoffView, create_new, email_run}
use formation_chat_core.EmailHandoff.Creation.{create_new-resolved, emailed}
use formation_chat_core.Run.Context.{resolved_inputs, input_rows}
use formation_chat_core.Retention.{delete_principals, RetentionPolicy, run_once}
use formation_chat_core.Retention.Principals.{AreSettled, delete_principals-AreSettled}
use formation_chat_core.Retention.Links.{run_once-IsLinked}
use formation_chat_core.Retention.References.{IsLinked}
use formation_chat_core.Retention.Redaction.{AreTreated, run_once-AreTreated}
use formation_chat_core.Examples.Data.{person, value_of, scope, empty_db, hello}

abbrev ids : ConversationIds
ids = record { id = 8; user_participant_id = 22; agent_participant_id = 23 }

abbrev other_ids : ConversationIds
other_ids = record { id = 88; user_participant_id = 24; agent_participant_id = 25 }

create_first_example :
    (create 1 scope 9 5 1000 ids empty_db
      ≡ ok (store_conversation scope 9 5 1 1000 ids empty_db, created_view scope 9 1000 ids))
    × (validate_participants (created_view scope 9 1000 ids) ≡ true)
create_first_example =
    create_first 1 scope 9 5 1000 ids empty_db (unfold find_command find_first in refl)
      (unfold find_first owns in refl) (unfold is_in in (refl, (refl, tt))) refl

created_ok :
    create 1 scope 9 5 1000 ids empty_db
    ≡ ok (store_conversation scope 9 5 1 1000 ids empty_db, created_view scope 9 1000 ids)
created_ok =
    (create_first 1 scope 9 5 1000 ids empty_db (unfold find_command find_first in refl)
      (unfold find_first owns in refl) (unfold is_in in (refl, (refl, tt))) refl).0

abbrev waiting : Run
waiting = record {
  run_id = 31;
  tenant_id = 1;
  site_id = 2;
  conversation_id = 7;
  trigger_message_id = 30;
  trigger_type = TriggerType.message;
  assistant_message_id = 32;
  agent_ref = 9;
  status = RunStatus.waiting_for_input;
  attempt = 1;
  available_at = 1000;
  claimed_at = none;
  lease_expires_at = none;
  cancel_requested_at = none;
  error_code = none;
  created_at = 1000;
  updated_at = 1500;
  completed_at = none;
}

abbrev asked : InputRequest
asked = record {
  request_id = 60;
  tenant_id = 1;
  site_id = 2;
  conversation_id = 7;
  run_id = 31;
  purpose = Purpose.handoff_email_delivery;
  prompt = [];
  required = true;
  status = InputStatus.pending;
  value = none;
  consent_status = none;
  consent_recorded_at = none;
  created_at = 1500;
  updated_at = 1500;
}

abbrev asked_db : Db
asked_db = record empty_db { agent_runs = waiting ∷ []; structured_input_requests = asked ∷ [] }

abbrev digest : SubmitRequest → ℕ
digest (submitted _) = 1
digest declined = 2

abbrev no_input : InputView
no_input = record {
  request_id = 0;
  conversation_id = 0;
  run_id = 0;
  purpose = Purpose.agent_email_handoff;
  prompt = [];
  required = true;
  status = InputStatus.pending;
  created_at = 0;
  updated_at = 0;
}

abbrev address : Text
address = 97 ∷ 64 ∷ 98 ∷ []

abbrev given : Db × InputView
given = value_of (submit digest scope 7 60 (submitted address) 5 2000 asked_db) (asked_db, no_input)

given_ok : submit digest scope 7 60 (submitted address) 5 2000 asked_db ≡ ok (given.0, given.1)
unfolding submit submit_transaction find_command find_first submit_new owns StructuredInput.is_input
    is_in count_where StructuredInput.get StructuredInput.store_answer update_where
    StructuredInput.is_own_input StructuredInput.resolve any StructuredInput.map_input
given_ok = refl

abbrev answered : Db
answered = value_of (submit_new scope 7 60 (submitted address) 5 1 2000 asked_db) asked_db

answered_ok : submit_new scope 7 60 (submitted address) 5 1 2000 asked_db ≡ ok answered
unfolding submit_new find_first owns StructuredInput.is_input is_in count_where
answered_ok = refl

other_key : find_command scope (input_submit 7 60) 6 answered.command_idempotency ≡ none
unfolding find_command find_first submit_new owns StructuredInput.is_input is_in count_where
    StructuredInput.store_answer is_command command
other_key = refl

submit-once_example :
    submit_transaction scope 7 60 declined 6 2 3000 answered ≡ err input_already_resolved
submit-once_example =
    submit-once scope 7 60 (submitted address) declined 5 1 2000 6 2 3000 asked_db answered
      answered_ok other_key

abbrev question : Message
question = record {
  message_id = 30;
  tenant_id = 1;
  site_id = 2;
  conversation_id = 7;
  sequence = 1;
  participant_id = 20;
  role = Role.user;
  status = MessageStatus.completed;
  parts = hello;
  created_at = 1000;
  completed_at = some 1000;
}

abbrev chat_db : Db
chat_db = record empty_db { messages = question ∷ [] }

abbrev handoff_ids : HandoffIds
handoff_ids = record { run_id = 51; id = 61; assistant_message_id = 52 }

abbrev handed : Db × ℕ
handed = value_of (create_new scope 7 address 5 1 2000 handoff_ids chat_db) (chat_db, 0)

handed_ok : create_new scope 7 address 5 1 2000 handoff_ids chat_db ≡ ok (handed.0, handed.1)
unfolding create_new find_first owns first_by head? order_by select EmailHandoff.is_trigger is_in
    insert_row
handed_ok = refl

create_new-resolved_example :
    resolved_inputs (input_rows (email_run scope 7 handoff_ids 30 9 2000) handed.0)
    ≡ ok (emailed handed.1 address 2000 ∷ [])
create_new-resolved_example =
    create_new-resolved scope 7 97 (64 ∷ 98 ∷ []) 5 1 2000 handoff_ids chat_db handed.0 handed.1 30
      9 tt handed_ok

abbrev no_handoff : HandoffView
no_handoff = record {
  handoff_id = 0;
  conversation_id = 0;
  run_id = 0;
  status = HandoffStatus.failed;
  created_at = 0;
  updated_at = 0;
}

abbrev mailed : Db × HandoffView
mailed =
    value_of (EmailHandoff.create (λ t. t) (λ t. 1) scope 7 address 5 2000 handoff_ids chat_db)
      (chat_db, no_handoff)

mailed_ok :
    EmailHandoff.create (λ t. t) (λ t. 1) scope 7 address 5 2000 handoff_ids chat_db
    ≡ ok (mailed.0, mailed.1)
unfolding EmailHandoff.create EmailHandoff.create_transaction find_command find_first create_new
    owns first_by head? order_by select EmailHandoff.is_trigger is_in insert_row EmailHandoff.get
    EmailHandoff.store_handoff EmailHandoff.is_email_handoff EmailHandoff.delivering_handoff
mailed_ok = refl

abbrev policy : RetentionPolicy
policy = record { anonymous_days = 30; authenticated_days = 365; contact_value_hours = 24 }

abbrev linked_db : Db
linked_db = record asked_db { messages = question ∷ [] }

linked_db-IsLinked : IsLinked linked_db
unfolding any is_in
linked_db-IsLinked = record {
  sessions = tt;
  conversations = (refl, tt);
  participants = (refl, (refl, tt));
  authors = (refl, tt);
  events = tt;
  runs = (refl, tt);
  triggers = (refl, tt);
  handoffs = tt;
  inputs = (refl, tt);
}

run_once-IsLinked_example : IsLinked (run_once policy 9000000000 linked_db).0
run_once-IsLinked_example = run_once-IsLinked policy 9000000000 linked_db linked_db-IsLinked

run_once-AreTreated_example :
    AreTreated policy 100000000 given.0.structured_input_requests
      (run_once policy 100000000 given.0).0.structured_input_requests
run_once-AreTreated_example = run_once-AreTreated policy 100000000 given.0

abbrev leftover : Principal
leftover = record {
  principal_id = 33;
  tenant_id = 1;
  site_id = 2;
  browser_identity = 34;
  created_at = 90;
}

abbrev people_db : Db
people_db = record empty_db { principals = person ∷ leftover ∷ [] }

delete_principals-AreSettled_example :
    AreSettled people_db.conversations
      (person ∷ leftover ∷ [])
      (delete_principals (person ∷ leftover ∷ []) people_db).0
delete_principals-AreSettled_example =
    delete_principals-AreSettled (person ∷ leftover ∷ []) people_db
