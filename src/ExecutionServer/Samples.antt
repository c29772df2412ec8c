-- ===== src/ExecutionServer/Samples.antt =====
-- A server with a quota of one that connects, takes a task and reports, and the theorem at it.
use agent_server_platform.Base.{refl, true, none, [], ◌∷◌, arith}
use agent_server_platform.Database.Messages.{TaskMessage}
use agent_server_platform.ExecutionServer.{
  task, Settings, Server, new_server, send, submit, receive, connect, begin_task, heartbeat,
}
use agent_server_platform.ExecutionServer.Quota.{
  connects, receives, begins, beats, Steps, done, more, IsCounted, Steps-IsCounted,
}

abbrev settings : Settings
settings = record {
  server_id = "s";
  server_name = "server";
  max_quota = 1;
  env_info = ("git", true) ∷ [];
}

abbrev message : TaskMessage
message = record {
  task_id = "t";
  parent_task_id = "p";
  goal = "g";
  context = record {
    role = none;
    system_prompt = none;
    server_id = none;
    question = none;
    upstream_results = none;
    upstream_outputs = none;
  };
}

abbrev server_1 : Server
server_1 = connect settings new_server

abbrev server_2 : Server
server_2 = receive (task message) server_1

abbrev server_3 : Server
server_3 = begin_task message (record server_2 { queue = [] })

abbrev server_4 : Server
server_4 = heartbeat settings server_3

run : Steps settings new_server server_4
unfolding connect receive submit send
run = more new_server server_1 server_4 (connects new_server refl) (
    more server_1 server_2 server_4 (receives (task message) server_1 refl) (
      more server_2 server_3 server_4 (begins message [] server_2 refl (omega arith))
        (more server_3 server_4 server_4 (beats server_3) (done server_4))))

Steps-IsCounted_example : IsCounted settings server_4
Steps-IsCounted_example =
    Steps-IsCounted settings new_server server_4 run (refl, omega arith, omega arith, tt)
