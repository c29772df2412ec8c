-- ===== src/A2aProtocol.antt =====
-- src/core/a2a_protocol.py. `send`, `receive` and `broadcast` hold the lock from their beginning to their
-- end, their wait included, so no other one runs meanwhile: a full queue stays full until the timeout of
-- `put`, and an empty one empty until that of `get`. `send_request` takes the lock twice; what the other
-- agents do in between is its argument.
pub mod Order
mod Samples
use agent_server_platform.Base.{
  ℕ, String, Bool, true, false, Option, none, some, List, [], ◌∷◌, ◌++◌, ◌==◌, string_eq,
  if◌then◌else◌, ltb, length,
}
use agent_server_platform.Base.Dict.{Dict, lookup, insert, erase, keys}

-- `payload` is the dict's text; `timestamp` and `message_id` are drawn by the caller.
pub record A2aMessage : Type 0 where
  pub from_agent : String
  pub to_agent : String
  pub message_type : String
  pub payload : String
  pub timestamp : ℕ
  pub message_id : String

abbrev pub AgentQueues : Type 0
AgentQueues = Dict String (List A2aMessage)

-- `Queue(maxsize=1000)`
abbrev pub maxsize : ℕ
maxsize = 1000

-- `put` on a queue, and whether there was room.
unfoldable pub put : A2aMessage → List A2aMessage → List A2aMessage × Bool
put message queue =
    if ltb (length queue) maxsize then (queue ++ message ∷ [], true) else (queue, false)

-- A queue that the agent had is replaced.
unfoldable pub register_agent : String → AgentQueues → AgentQueues
register_agent agent_id queues = insert agent_id [] queues

unfoldable pub unregister_agent : String → AgentQueues → AgentQueues
unregister_agent agent_id queues = erase agent_id queues

unfoldable pub send : A2aMessage → AgentQueues → AgentQueues × Bool
send message queues = elim (lookup message.to_agent queues) [
  | none ↦ (queues, false)
  | some queue ↦
      let (after, sent) = put message queue in
      if sent then (insert message.to_agent after queues, true) else (queues, false)
]

-- A message, None after the timeout, or a ValueError.
pub data Received : Type 0 where
  message : A2aMessage → Received
  timed_out : Received
  not_registered : Received

unfoldable pub receive : String → AgentQueues → AgentQueues × Received
receive agent_id queues = elim (lookup agent_id queues) [
  | none ↦ (queues, not_registered)
  | some queue ↦ elim queue [
    | [] ↦ (queues, timed_out)
    | m ∷ rest ↦ (insert agent_id rest queues, message m)
  ]
]

-- The message goes to every queue that has room, but to the sender's.
unfoldable pub broadcast : String → A2aMessage → AgentQueues → AgentQueues
unfolding put
broadcast from_agent m [] = []
broadcast from_agent m ((agent_id, queue) ∷ queues) =
    let rest = broadcast from_agent m queues in
    (agent_id, if agent_id == from_agent then queue else (put m queue).0) ∷ rest

-- `send_request`, with what happens to the queues between its `send` and its `receive`; None stands for a
-- request that was not sent, too.
unfoldable pub send_request :
    (between : AgentQueues → AgentQueues) → A2aMessage → AgentQueues → AgentQueues × Received
send_request between request queues =
    let (after, sent) = send request queues in
    if sent then receive request.from_agent (between after) else (after, timed_out)

unfoldable pub list_registered_agents : AgentQueues → List String
list_registered_agents queues = keys queues
