-- ===== src/A2aProtocol/Order.antt =====
-- In which order messages come out of a queue, and what a request is answered.
use agent_server_platform.Base.{
  ℕ, ◌+◌, ◌≤◌, ◌<◌, String, ◌≡◌, refl, ◌≢◌, sym, ◌∙◌, ap, Bool, true, false, Option, none, some,
  List, [], ◌∷◌, ◌++◌, select, arith, ◌==◌, string_eq, if◌then◌else◌, length, length-append, map,
  zero, suc, All, Bool-cases, inl, inr,
}
use mathlib.Core.List.{append-nil, append_assoc}
use agent_server_platform.Base.Dict.{lookup, insert, lookup-insert}
use agent_server_platform.A2aProtocol.{
  A2aMessage, AgentQueues, maxsize, put, send, Received, message, timed_out, receive, send_request,
}

-- What `send` leaves in a queue.
lookup-send :
    (b : String) (m : A2aMessage) (queues : AgentQueues) (queue : List A2aMessage)
    → lookup b queues ≡ some queue
    → length queue < maxsize
    → lookup b (send m queues).0 ≡ some (if b == m.to_agent then queue ++ m ∷ [] else queue)
unfolding send put
lookup-send b m queues queue e room = go (lookup m.to_agent queues) refl
  where
    go :
        (o : Option (List A2aMessage))
        → lookup m.to_agent queues ≡ o
        → lookup b
            (elim o as (λ _. AgentQueues × Bool) [
              | none ↦ (queues, false)
              | some q ↦
                  if (put m q).1
                  then (insert m.to_agent (put m q).0 queues, true)
                  else (queues, false)
            ]).0
          ≡ some (if b == m.to_agent then queue ++ m ∷ [] else queue)
    go none f = ground (arith, e, f)
    go (some q) f = ground (arith, e, f, room, lookup-insert b m.to_agent (q ++ m ∷ []) queues)

-- What a `receive` answers on a queue.
abbrev pub front : List A2aMessage → Received
front [] = timed_out
front (m ∷ rest) = message m

receive-front :
    (a : String) (queues : AgentQueues) (queue : List A2aMessage)
    → lookup a queues ≡ some queue
    → (receive a queues).1 ≡ front queue
unfolding receive
receive-front a queues [] e = ground (arith, e)
receive-front a queues (m ∷ rest) e = ground (arith, e)

receive-cons :
    (a : String) (m : A2aMessage) (rest : List A2aMessage) (queues : AgentQueues)
    → lookup a queues ≡ some (m ∷ rest)
    → ◌≡◌ {A = AgentQueues × Received} (receive a queues) (insert a rest queues, message m)
unfolding receive
receive-cons a m rest queues e = ground (arith, e)

abbrev pub send_all : List A2aMessage → AgentQueues → AgentQueues
send_all [] queues = queues
send_all (m ∷ ms) queues = send_all ms (send m queues).0

-- What comes out of a number of `receive` calls.
abbrev pub receive_all : ℕ → String → AgentQueues → List Received
receive_all zero a queues = []
receive_all (suc n) a queues = (receive a queues).1 ∷ receive_all n a (receive a queues).0

send_all-lookup :
    (a : String) (ms : List A2aMessage) (queues : AgentQueues) (queue : List A2aMessage)
    → All (λ m. m.to_agent ≡ a) ms
    → length queue + length ms ≤ maxsize
    → lookup a queues ≡ some queue
    → lookup a (send_all ms queues) ≡ some (queue ++ ms)
send_all-lookup a [] queues queue to room e = e ∙ ap some (sym (append-nil queue))
send_all-lookup a (m ∷ ms) queues queue to room e =
    send_all-lookup a ms (send m queues).0 (queue ++ m ∷ []) to.1
      (omega (arith, room, length-append queue (m ∷ [])))
      (lookup-send a m queues queue e (omega arith) ∙ ground (arith, to.0))
    ∙ ap some (append_assoc queue (m ∷ []) ms)

receive_all-lookup :
    (a : String) (queue : List A2aMessage) (queues : AgentQueues)
    → lookup a queues ≡ some queue
    → receive_all (length queue) a queues ≡ map message queue
receive_all-lookup a [] queues e = refl
receive_all-lookup a (m ∷ rest) queues e =
    let taken = receive-cons a m rest queues e in
    rw taken (
      ap (◌∷◌ (message m)) (
        receive_all-lookup a rest (insert a rest queues)
          (lookup-insert a a rest queues ∙ ground arith)))

-- Up to 1000 messages that are sent to an agent with an empty queue come out in the order in which
-- they were sent, whoever sent them.
pub receive_all-send_all :
    (a : String) (ms : List A2aMessage) (queues : AgentQueues)
    → All (λ m. m.to_agent ≡ a) ms
    → length ms ≤ maxsize
    → lookup a queues ≡ some []
    → receive_all (length ms) a (send_all ms queues) ≡ map message ms
receive_all-send_all a ms queues to room e =
    receive_all-lookup a ms (send_all ms queues)
      (send_all-lookup a ms queues [] to (omega (arith, room)) e)

-- The messages for an agent, in their order.
abbrev pub addressed_to : String → List A2aMessage → List A2aMessage
addressed_to a ms = select (λ m. m.to_agent == a) ms

send_all-addressed_to :
    (a : String) (ms : List A2aMessage) (queues : AgentQueues) (queue : List A2aMessage)
    → length queue + length ms ≤ maxsize
    → lookup a queues ≡ some queue
    → lookup a (send_all ms queues) ≡ some (queue ++ addressed_to a ms)
unfolding select
send_all-addressed_to a [] queues queue room e = e ∙ ap some (sym (append-nil queue))
send_all-addressed_to a (m ∷ ms) queues queue room e = elim (Bool-cases (m.to_agent == a)) [
  | inl to_a ↦
      let there : lookup a (send m queues).0 ≡ some (queue ++ m ∷ []) =
        lookup-send a m queues queue e (omega (arith, room)) ∙ ground (arith, to_a) in
      rw to_a (
        send_all-addressed_to a ms (send m queues).0 (queue ++ m ∷ [])
          (omega (arith, room, length-append queue (m ∷ []))) there
        ∙ ap some (append_assoc queue (m ∷ []) (addressed_to a ms)))
  | inr elsewhere ↦
      let there : lookup a (send m queues).0 ≡ some queue =
        lookup-send a m queues queue e (omega (arith, room)) ∙ ground (arith, elsewhere) in
      rw elsewhere (send_all-addressed_to a ms (send m queues).0 queue (omega (arith, room)) there)
]

send-sent :
    (m : A2aMessage) (queues : AgentQueues) (queue : List A2aMessage)
    → lookup m.to_agent queues ≡ some queue
    → length queue < maxsize
    → (send m queues).1 ≡ true
unfolding send put
send-sent m queues queue e room = ground (arith, e, room)

-- Take a request from a registered agent to another, with room in the other's queue for the request and
-- room in its own for more than all the messages that are sent, by whomever, between the request and
-- the wait. The answer is the first message of its own queue, where those that stood there before
-- come first and then those sent to it in between, whoever sent them and whatever they answer; it is
-- None only where there are none.
pub send_request-front :
    (request : A2aMessage) (ms : List A2aMessage) (queues : AgentQueues)
    (own other : List A2aMessage)
    → request.to_agent ≢ request.from_agent
    → lookup request.from_agent queues ≡ some own
    → lookup request.to_agent queues ≡ some other
    → length own + length ms < maxsize
    → length other < maxsize
    → (send_request (send_all ms) request queues).1
      ≡ front (own ++ addressed_to request.from_agent ms)
unfolding send_request
send_request-front request ms queues own other differ mine theirs room free =
    let a = request.from_agent in
    let sent = send-sent request queues other theirs free in
    let kept : lookup a (send request queues).0 ≡ some own =
      lookup-send a request queues own mine (omega (arith, room)) ∙ ground (arith, differ) in
    rw sent (
      receive-front a (send_all ms (send request queues).0) (own ++ addressed_to a ms)
        (send_all-addressed_to a ms (send request queues).0 own (omega (arith, room)) kept))
