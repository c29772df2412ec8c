-- ===== src/A2aProtocol/Samples.antt =====
-- Two agents, a message and a request.
use agent_server_platform.Base.{String, ◌≡◌, refl, [], ◌∷◌, ◌++◌, string_eq, ne_of_test, arith}
use agent_server_platform.Base.Dict.{lookup}
use agent_server_platform.A2aProtocol.{A2aMessage, AgentQueues, message, send_request}
use agent_server_platform.A2aProtocol.Order.{
  send_all, receive_all, front, addressed_to, receive_all-send_all, send_request-front,
}

abbrev note : String → A2aMessage
note payload = record {
  from_agent = "a";
  to_agent = "b";
  message_type = "note";
  payload = payload;
  timestamp = 1;
  message_id = "i";
}

abbrev queues : AgentQueues
queues = ("a", []) ∷ ("b", []) ∷ []

abbrev answer : String → A2aMessage
answer payload = record (note payload) { from_agent = "b"; to_agent = "a" }

send_request-front_example :
    (send_request (send_all (note "z" ∷ answer "y" ∷ [])) (note "x") queues).1
    ≡ front ([] ++ addressed_to "a" (note "z" ∷ answer "y" ∷ []))
unfolding lookup string_eq
send_request-front_example =
    send_request-front (note "x") (note "z" ∷ answer "y" ∷ []) queues [] []
      (ne_of_test "b" "a" refl) refl refl (omega arith) (omega arith)

receive_all-send_all_example :
    receive_all 2 "b" (send_all (note "x" ∷ note "y" ∷ []) queues)
    ≡ message (note "x") ∷ message (note "y") ∷ []
unfolding lookup string_eq
receive_all-send_all_example =
    receive_all-send_all "b" (note "x" ∷ note "y" ∷ []) queues (refl, (refl, tt)) (omega arith) refl
