-- ===== src/MessageQueue.antt =====
-- `MessageQueueService` of src/core/message_queue.py: subtasks go out as dispatch rows, and the
-- replies of a scenario are read behind a consumer's offset.
pub mod Replies
mod Samples
use agent_server_platform.Base.{
  ℕ, zero, suc, ◌+◌, ◌-◌, String, ◌<>◌, Bool, true, false, Option, none, some, List, [], ◌∷◌, ◌++◌,
  if◌then◌else◌, ltb, length,
}
use agent_server_platform.Database.Messages.{
  Result, TaskMessage, ReplyMessage, Content, task, reply_of, unreadable, MessageType, Message,
  create, Offsets, update_offset, find_pending_messages,
}

abbrev pub dispatch_row : ℕ → ℕ → String → TaskMessage → Message
dispatch_row id now scenario_id msg = record {
  id = id;
  scenario_id = some scenario_id;
  task_id = msg.task_id;
  from_agent = "scheduling";
  to_agent = "execution";
  message_type = MessageType.dispatch;
  content = task msg;
  timestamp = now;
  acked = some 0;
}

-- `dispatch_subtasks`: one row for each message, with the ids that the database gives from `id` on.
unfoldable pub dispatch_subtasks : ℕ → ℕ → String → List TaskMessage → List Message → List Message
dispatch_subtasks id now scenario_id [] rows = rows
dispatch_subtasks id now scenario_id (msg ∷ msgs) rows =
    dispatch_subtasks (id + 1) now scenario_id msgs
      (create (dispatch_row id now scenario_id msg) rows)

abbrev pub consumer_id_scheduling : String → String
consumer_id_scheduling scenario_id = "scheduling_agent:" <> scenario_id

abbrev pub empty_result : Result
empty_result = record { success = none; output = none; error = none; role = none }

-- The reply that a row holds, if its content can be read; a key that is missing has its default.
unfoldable pub read_reply : Content → List ReplyMessage
read_reply (reply_of r) = r ∷ []
read_reply (task m) = record { task_id = m.task_id; success = false; result = empty_result } ∷ []
read_reply unreadable = []

-- `for msg_record in pending`: the offset moves past a row that cannot be read, too.
unfoldable pub consume :
    String → List Message → List ReplyMessage → Offsets → List ReplyMessage × Offsets
consume consumer_id [] replies offsets = (replies, offsets)
consume consumer_id (m ∷ pending) replies offsets =
    consume consumer_id pending (replies ++ read_reply m.content)
      (update_offset consumer_id m.id offsets)

module _ (scenario_id : String) (expected_count : ℕ) where
  -- The `while` loop; `polls` has the messages table at each poll until the deadline.
  unfoldable pub poll :
      List (List Message) → List ReplyMessage → Offsets → List ReplyMessage × Offsets
  poll [] replies offsets = (replies, offsets)
  poll (rows ∷ polls) replies offsets =
      let consumer_id = consumer_id_scheduling scenario_id in
      let pending =
        find_pending_messages consumer_id scenario_id MessageType.reply
          (expected_count - length replies) offsets rows in
      let (more, moved) = consume consumer_id pending replies offsets in
      let rest = poll polls more moved in
      if ltb (length replies) expected_count then rest else (replies, offsets)

-- `collect_replies`
unfoldable pub collect_replies :
    String → ℕ → List (List Message) → Offsets → List ReplyMessage × Offsets
collect_replies scenario_id expected_count polls offsets =
    poll scenario_id expected_count polls [] offsets
