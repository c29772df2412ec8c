-- ===== src/MessageQueue/Samples.antt =====
-- Three replies of one scenario, of which two are asked for.
use agent_server_platform.Base.{
  ℕ, ◌≤◌, String, ◌≡◌, refl, true, none, some, List, [], ◌∷◌, string_eq, length, select,
}
use agent_server_platform.Base.Dict.{lookup, insert}
use agent_server_platform.Database.Query.{sort_by, limited}
use agent_server_platform.Database.Messages.{
  ReplyMessage, reply_of, unreadable, Content, MessageType, message_type_eq, message_type-discrete,
  Message, Offsets, get_offset, find_pending_messages, update_offset,
}
use agent_server_platform.MessageQueue.{empty_result, read_reply, consume, poll, collect_replies}
use agent_server_platform.MessageQueue.Replies.{collect_replies-length}

abbrev reply : String → ReplyMessage
reply task_id = record { task_id = task_id; success = true; result = empty_result }

abbrev row : ℕ → Content → Message
row id content = record {
  id = id;
  scenario_id = some "sc";
  task_id = "t";
  from_agent = "execution";
  to_agent = "scheduling";
  message_type = MessageType.reply;
  content = content;
  timestamp = 0;
  acked = none;
}

abbrev polls : List (List Message)
polls =
    (row 5 (reply_of (reply "b")) ∷ row 2 unreadable ∷ [])
    ∷ (row 5 (reply_of (reply "b"))
        ∷ row 7 (reply_of (reply "c"))
        ∷ row 8 (reply_of (reply "d"))
        ∷ [])
    ∷ []

abbrev offsets : Offsets
offsets = ("scheduling_agent:sc", 1) ∷ []

two_collected :
    ◌≡◌ {A = List ReplyMessage × Offsets}
      (collect_replies "sc" 2 polls offsets)
      (reply "b" ∷ reply "c" ∷ [], ("scheduling_agent:sc", 7) ∷ [])
unfolding collect_replies poll consume find_pending_messages limited sort_by select string_eq
    message_type_eq message_type-discrete get_offset update_offset insert lookup read_reply
two_collected = refl

collect_replies-length_example : length (collect_replies "sc" 2 polls offsets).0 ≤ 2
collect_replies-length_example = collect_replies-length "sc" 2 polls offsets
