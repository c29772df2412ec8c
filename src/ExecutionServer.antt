-- ===== src/ExecutionServer.antt =====
-- src/execution_server/task_runner.py and ws_client.py, with the frames of src/core/ws_protocol.py by
-- their values. The pool starts the jobs in the order of submission and runs at most `max_quota` of
-- them at a time, as `ThreadPoolExecutor(max_workers)` documents. A job begins and ends in two steps;
-- the agent's answer is what the second step is given.
pub mod Quota
mod Samples
use agent_server_platform.Base.{
  ℕ, zero, suc, ◌+◌, ◌*◌, ◌-◌, String, Bool, true, false, Option, none, some, List, [], ◌∷◌, ◌++◌,
  ◌==◌, string_eq, if◌then◌else◌, ltb,
}
use agent_server_platform.Base.Dict.{Dict}
use agent_server_platform.Database.Messages.{Result, Context, TaskMessage}
use agent_server_platform.Dispatcher.{Answer, returned, raised, or_text, succeeded}

-- The statuses that a server reports, and the two events of a task.
pub data Status : Type 0 where
  offline idle running : Status

pub data TaskEvent : Type 0 where
  execution_agent_created : (role : String) → TaskEvent
  task_started : TaskEvent

-- `make_frame` by its constructors: the frame's type with its payload. `unknown` is any other type.
pub data Frame : Type 0 where
  register : (server_id name : String) (total_quota : ℕ) (env_info : Dict String Bool) → Frame
  status : Status → (total_quota running_count : ℕ) (env_info : Dict String Bool) → Frame
  task_event : (task_id : String) → TaskEvent → Frame
  task_result : (task_id : String) (success : Bool) → Result → Frame
  task : TaskMessage → Frame
  ack : (ok : Bool) (error : Option String) → Frame
  unknown : String → Frame

-- The settings of the server, and `probe_env()`.
pub record Settings : Type 0 where
  pub server_id : String
  pub server_name : String
  pub max_quota : ℕ
  pub env_info : Dict String Bool

-- The pool's queue, the tasks that its threads run, the counter `_running`, whether `_ws` is set, the
-- frames that went out, and the wait before the next connection.
pub record Server : Type 0 where
  pub queue : List TaskMessage
  pub active : List String
  pub running_count : ℕ
  pub connected : Bool
  pub sent : List Frame
  pub backoff : ℕ

abbrev pub new_server : Server
new_server = record {
  queue = [];
  active = [];
  running_count = 0;
  connected = false;
  sent = [];
  backoff = 1;
}

-- `WSClient.send`: without a connection the frame is dropped.
unfoldable pub send : Frame → Server → Server
send f s = if s.connected then record s { sent = s.sent ++ f ∷ [] } else s

-- `TaskRunner.submit`
unfoldable pub submit : TaskMessage → Server → Server
submit t s = record s { queue = s.queue ++ t ∷ [] }

-- The job's first half: the counter and the two events.
unfoldable pub begin_task : TaskMessage → Server → Server
unfolding send
begin_task t s =
    let counted = record s { active = t.task_id ∷ s.active; running_count = s.running_count + 1 } in
    send (task_event t.task_id task_started) (
      send (task_event t.task_id (execution_agent_created (or_text t.context.role "通用助手"))) counted)

-- The frame of an answer.
unfoldable pub result_frame : String → Answer → Frame
result_frame task_id (returned result) = task_result task_id (succeeded result) result
result_frame task_id (raised error) =
    task_result task_id false
      (record { success = some false; output = some ""; error = some error; role = none })

-- One thread of the pool is free again.
unfoldable pub leave_active : String → List String → List String
leave_active k [] = []
leave_active k (x ∷ xs) = let rest = leave_active k xs in if x == k then xs else x ∷ rest

-- The second half: the result goes out, and the counter goes down in `finally`.
unfoldable pub end_task : String → Answer → Server → Server
unfolding send result_frame leave_active
end_task task_id answer s =
    let told = send (result_frame task_id answer) s in
    record told {
      active = leave_active task_id told.active;
      running_count = told.running_count - 1;
    }

-- `_recv_loop` on one frame that parses; acks and other types are logged only.
unfoldable pub receive : Frame → Server → Server
unfolding submit
receive (task t) s = submit t s
receive (register _ _ _ _) s = s
receive (status _ _ _ _) s = s
receive (task_event _ _) s = s
receive (task_result _ _ _) s = s
receive (ack _ _) s = s
receive (unknown _) s = s

module _ (cfg : Settings) where
  -- One round of `_heartbeat`.
  unfoldable pub heartbeat : Server → Server
  unfolding send
  heartbeat s =
      send
        (status (if ltb 0 s.running_count then running else idle) cfg.max_quota s.running_count
          cfg.env_info)
        s

  -- `_main` once the socket is open.
  unfoldable pub connect : Server → Server
  unfolding send
  connect s =
      send (register cfg.server_id cfg.server_name cfg.max_quota cfg.env_info)
        (record s { connected = true })

-- `min(backoff * 2, 30)`
unfoldable pub next_backoff : ℕ → ℕ
next_backoff backoff = if ltb (backoff * 2) 30 then backoff * 2 else 30

-- `_main` when the connection is lost: a wait, and a longer one the next time.
unfoldable pub disconnect : Server → Server
unfolding next_backoff
disconnect s = record s { connected = false; backoff = next_backoff s.backoff }
