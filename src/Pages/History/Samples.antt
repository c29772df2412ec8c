-- ===== src/Pages/History/Samples.antt =====
-- The history of a scenario with a dispatch, its reply and an event, and the theorem at them.
use native.Mathlib.Decide.{ℕ_discrete}
use agent_server_platform.Base.{
  String, ◌≡◌, refl, true, Option, none, some, List, [], ◌∷◌, map, string_eq, nat_eq, all, contains,
  select, prefix, ne_of_test,
}
use agent_server_platform.Base.Dict.{lookup, insert}
use agent_server_platform.Database.Messages.{task, reply_of, MessageType, Message}
use agent_server_platform.Database.Query.{sort_by, insert_sorted, limited}
use agent_server_platform.EventBus.{Event}
use agent_server_platform.Pages.Values.{
  Value, text, object, field, empty, value_text, shown_fields, joined, event_data_summary,
}
use agent_server_platform.Pages.History.{
  Entry, build_message_history, messages_of, find_by_trace_id, noted, note_role, task_roles,
  dispatch_entry, reply_entry, message_entry,
}
use agent_server_platform.Pages.History.Roles.{message_entry-reply_sender}

abbrev dispatched : Message
dispatched = record {
  id = 1;
  scenario_id = some "s";
  task_id = "t";
  from_agent = "a";
  to_agent = "b";
  message_type = MessageType.dispatch;
  content = task (record {
    task_id = "t";
    parent_task_id = "p";
    goal = "g";
    context = record {
      role = some "critic";
      system_prompt = none;
      server_id = none;
      question = none;
      upstream_results = none;
      upstream_outputs = none;
    };
  });
  timestamp = 3;
  acked = none;
}

abbrev replied : Message
replied = record {
  id = 2;
  scenario_id = some "s";
  task_id = "t";
  from_agent = "b";
  to_agent = "a";
  message_type = MessageType.reply;
  content = reply_of (record {
    task_id = "t";
    success = true;
    result = record { success = some true; output = some "done"; error = none; role = none };
  });
  timestamp = 5;
  acked = none;
}

abbrev happened : Event
happened = record {
  event_type = "task.created";
  data_text = "{...}";
  trace_id = "x";
  metadata = "";
  timestamp = 2;
}

abbrev parse : String → Option Value
parse s = some (object (field "task_id" (text "t") (field "state" (text "running") empty)))

abbrev history : List Entry
history = build_message_history (λ s. s) parse "s" "x" (dispatched ∷ replied ∷ []) (happened ∷ [])

senders : map (λ e. e.sender) history ≡ ("critic" ∷ "调度Agent" ∷ "系统" ∷ [])
unfolding build_message_history messages_of find_by_trace_id sort_by insert_sorted limited
    task_roles noted note_role message_entry dispatch_entry reply_entry lookup insert string_eq
    nat_eq ℕ_discrete event_data_summary select
senders = refl

contents : map (λ e. e.content) history ≡ ("done" ∷ "目标：g" ∷ "状态：运行中" ∷ [])
unfolding build_message_history messages_of find_by_trace_id sort_by insert_sorted limited
    task_roles noted note_role message_entry dispatch_entry reply_entry lookup insert string_eq
    nat_eq ℕ_discrete event_data_summary shown_fields value_text joined contains select prefix
contents = refl

message_entry-reply_sender_example :
    ((message_entry (task_roles (replied ∷ dispatched ∷ []) []) dispatched).receiver ≡ "critic")
    × ((message_entry (task_roles (replied ∷ dispatched ∷ []) []) replied).sender ≡ "critic")
unfolding all
message_entry-reply_sender_example =
    message_entry-reply_sender (replied ∷ []) [] dispatched replied "critic" refl refl
      (ne_of_test "t" "" refl) (ne_of_test "critic" "" refl) refl refl refl
