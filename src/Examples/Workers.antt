-- ===== src/Examples/Workers.antt =====
-- A run that a worker processes: the connector starts its message and completes the run.
use formation_chat_core.Prelude.{
  ℕ, ◌≡◌, refl, false, Option, none, some, [], ◌∷◌, ok, head?, first_by, select, order_by,
  insert_row, update_where, find_first, head?,
}
use formation_chat_core.Database.Rows.{
  EventBody, message_started, run_completed, Message, MessageStatus, Role, Run, RunStatus,
  TriggerType, Visibility,
}
use formation_chat_core.Event.Service.{World}
use formation_chat_core.Run.{WorkerOptions, claim, is_claimable, claim_run}
use formation_chat_core.Run.Context.{ConnectorRunRequest}
use formation_chat_core.Run.Worker.{Yield, End, Script, Outcome, settled, process_next}
use formation_chat_core.Run.Worker.Settling.{process_next-IsEnded, IsEnded}
use formation_chat_core.Examples.Data.{value_of, some_or, empty_db, hello}

abbrev question : Message
question = record {
  message_id = 30;
  tenant_id = 1;
  site_id = 2;
  conversation_id = 7;
  sequence = 1;
  participant_id = 20;
  role = Role.user;
  status = MessageStatus.completed;
  parts = hello;
  created_at = 1000;
  completed_at = some 1000;
}

abbrev due : Run
due = record {
  run_id = 31;
  tenant_id = 1;
  site_id = 2;
  conversation_id = 7;
  trigger_message_id = 30;
  trigger_type = TriggerType.message;
  assistant_message_id = 32;
  agent_ref = 9;
  status = RunStatus.queued;
  attempt = 0;
  available_at = 1000;
  claimed_at = none;
  lease_expires_at = none;
  cancel_requested_at = none;
  error_code = none;
  created_at = 1000;
  updated_at = 1000;
  completed_at = none;
}

abbrev world : World
world = record {
  db = record empty_db { messages = question ∷ []; agent_runs = due ∷ [] };
  broker = [];
}

abbrev emits : EventBody → Option ℕ → Yield
emits body message_id = record {
  event = some (record {
    visibility = Visibility.public;
    conversation_id = 7;
    run_id = 31;
    message_id = message_id;
    body = body;
  });
  event_id = 70;
  occurred_at = 2100;
  meanwhile = λ db. db;
  aborted = false;
  aborted_later = false;
}

abbrev ends : End
ends = record { throws = false; end_meanwhile = λ db. db; end_aborted = false }

abbrev script : ConnectorRunRequest → Script
script request = record {
  yields = emits message_started (some 32) ∷ emits run_completed none ∷ [];
  ending = ends;
}

abbrev options : WorkerOptions
options = record { lease_ms = 500; max_attempts = 3 }

abbrev processed : Run × Outcome
processed =
    some_or
      (value_of (process_next options 10 (λ id. false) (λ id. some script) false 2000 world) none)
      (due, settled world)

processed_ok :
    process_next options 10 (λ id. false) (λ id. some script) false 2000 world
    ≡ ok (some (processed.0, processed.1))
unfolding process_next claim first_by head? order_by select is_claimable insert_row find_first
    update_where claim_run
processed_ok = refl

process_next-IsEnded_example : IsEnded processed.0.run_id processed.1
process_next-IsEnded_example =
    process_next-IsEnded options 10 (λ id. false) (λ id. some script) false 2000 world processed.0
      processed.1 processed_ok
