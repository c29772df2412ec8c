-- ===== src/MessageQueue/Replies.antt =====
-- What `collect_replies` returns and how far it moves the offset.
use agent_server_platform.Base.{
  ℕ, zero, suc, ◌+◌, ◌-◌, ◌≤◌, ◌<◌, String, List, [], ◌∷◌, ◌++◌, string_eq, nat_eq, length, take,
  All, All-weaken, All-intro, All-select, length-append, arith,
}
use agent_server_platform.Base.Dict.{lookup-insert}
use agent_server_platform.Database.Query.{limited, All-sort_by}
use agent_server_platform.Database.Messages.{
  ReplyMessage, Content, task, reply_of, unreadable, MessageType, message_type_eq, Message, earlier,
  Offsets, get_offset, update_offset, is_pending, find_pending_messages,
}
use agent_server_platform.MessageQueue.{
  read_reply, consume, consumer_id_scheduling, poll, collect_replies,
}

length-take : {A : Type 0} (n : ℕ) (xs : List A) → length (take n xs) ≤ n
length-take zero xs = omega arith
length-take (suc n) [] = omega arith
length-take (suc n) (x ∷ xs) = omega (arith, length-take n xs)

All-take : {A : Type 0} (P : A → Type 0) (n : ℕ) (xs : List A) → All P xs → All P (take n xs)
All-take P zero xs h = tt
All-take P (suc n) [] h = tt
All-take P (suc n) (x ∷ xs) h = (h.0, All-take P n xs h.1)

length-read_reply : (c : Content) → length (read_reply c) ≤ 1
unfolding read_reply
length-read_reply (task m) = omega arith
length-read_reply (reply_of r) = omega arith
length-read_reply unreadable = omega arith

length-consume :
    (consumer_id : String) (pending : List Message) (replies : List ReplyMessage)
    (offsets : Offsets)
    → length (consume consumer_id pending replies offsets).0 ≤ length replies + length pending
unfolding consume
length-consume consumer_id [] replies offsets = omega arith
length-consume consumer_id (m ∷ pending) replies offsets = omega (
  arith,
  length-consume consumer_id pending (replies ++ read_reply m.content)
      (update_offset consumer_id m.id offsets),
  length-append replies (read_reply m.content),
  length-read_reply m.content,
)

length-find_pending_messages :
    (consumer_id scenario_id : String) (t : MessageType) (limit : ℕ) (offsets : Offsets)
    (rows : List Message)
    → length (find_pending_messages consumer_id scenario_id t limit offsets rows) ≤ limit
unfolding find_pending_messages limited
length-find_pending_messages consumer_id scenario_id t limit offsets rows = length-take limit _

poll-length :
    (scenario_id : String) (expected_count : ℕ) (polls : List (List Message))
    (replies : List ReplyMessage) (offsets : Offsets)
    → length replies ≤ expected_count
    → length (poll scenario_id expected_count polls replies offsets).0 ≤ expected_count
unfolding poll
poll-length scenario_id expected_count [] replies offsets h = h
poll-length scenario_id expected_count (rows ∷ polls) replies offsets h =
    let consumer_id = consumer_id_scheduling scenario_id in
    let pending =
      find_pending_messages consumer_id scenario_id MessageType.reply
        (expected_count - length replies) offsets rows in
    let (more, moved) = consume consumer_id pending replies offsets in
    ground (
      arith,
      poll-length scenario_id expected_count polls more moved,
      length-consume consumer_id pending replies offsets,
      length-find_pending_messages consumer_id scenario_id MessageType.reply
          (expected_count - length replies) offsets rows,
      h,
    )

-- However many replies there are and however often the loop polls, no more are collected than were
-- asked for.
pub collect_replies-length :
    (scenario_id : String) (expected_count : ℕ) (polls : List (List Message)) (offsets : Offsets)
    → length (collect_replies scenario_id expected_count polls offsets).0 ≤ expected_count
unfolding collect_replies
collect_replies-length scenario_id expected_count polls offsets =
    poll-length scenario_id expected_count polls [] offsets (omega arith)

after_start :
    (consumer_id scenario_id : String) (limit : ℕ) (offsets : Offsets) (rows : List Message)
    → All
        (λ m. get_offset consumer_id offsets < m.id)
        (find_pending_messages consumer_id scenario_id MessageType.reply limit offsets rows)
unfolding find_pending_messages limited
after_start consumer_id scenario_id limit offsets rows = All-take _ limit _ (
    All-sort_by earlier _ _ (
      All-weaken _ (λ m h. ground (arith, h.1))
        (All-select (λ m. Unit {0})
          (is_pending (get_offset consumer_id offsets) scenario_id MessageType.reply) rows
          (All-intro rows (λ m. tt)))))

consume-get_offset :
    (consumer_id : String) (low : ℕ) (pending : List Message) (replies : List ReplyMessage)
    (offsets : Offsets)
    → All (λ m. low < m.id) pending
    → low ≤ get_offset consumer_id offsets
    → low ≤ get_offset consumer_id (consume consumer_id pending replies offsets).1
unfolding consume get_offset update_offset
consume-get_offset consumer_id low [] replies offsets all_after h = h
consume-get_offset consumer_id low (m ∷ pending) replies offsets all_after h =
    consume-get_offset consumer_id low pending (replies ++ read_reply m.content)
      (update_offset consumer_id m.id offsets) all_after.1
      (ground (arith, all_after.0, lookup-insert consumer_id consumer_id m.id offsets))

poll-get_offset :
    (scenario_id : String) (expected_count : ℕ) (polls : List (List Message))
    (replies : List ReplyMessage) (offsets : Offsets) (low : ℕ)
    → low ≤ get_offset (consumer_id_scheduling scenario_id) offsets
    → low
      ≤ get_offset
          (consumer_id_scheduling scenario_id)
          (poll scenario_id expected_count polls replies offsets).1
unfolding poll
poll-get_offset scenario_id expected_count [] replies offsets low h = h
poll-get_offset scenario_id expected_count (rows ∷ polls) replies offsets low h =
    let consumer_id = consumer_id_scheduling scenario_id in
    let limit = expected_count - length replies in
    let pending =
      find_pending_messages consumer_id scenario_id MessageType.reply limit offsets rows in
    let (more, moved) = consume consumer_id pending replies offsets in
    ground (
      arith,
      poll-get_offset scenario_id expected_count polls more moved low (
          consume-get_offset consumer_id low pending replies offsets
            (All-weaken pending (λ m l. omega (arith, l, h))
              (after_start consumer_id scenario_id limit offsets rows))
            h),
      h,
    )

-- The consumer's offset never moves back.
pub collect_replies-get_offset :
    (scenario_id : String) (expected_count : ℕ) (polls : List (List Message)) (offsets : Offsets)
    → get_offset (consumer_id_scheduling scenario_id) offsets
      ≤ get_offset
          (consumer_id_scheduling scenario_id)
          (collect_replies scenario_id expected_count polls offsets).1
unfolding collect_replies
collect_replies-get_offset scenario_id expected_count polls offsets =
    poll-get_offset scenario_id expected_count polls [] offsets _ (omega arith)
