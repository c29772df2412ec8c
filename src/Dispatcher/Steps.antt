-- ===== src/Dispatcher/Steps.antt =====
-- The interleavings of the consumer, the thread pool, the forwards and the servers' events; and who
-- holds a task.
use agent_server_platform.Base.{ℕ, String, ◌≡◌, Bool, List, ◌∷◌, ◌++◌, string_eq, nat_eq}
use agent_server_platform.Database.Messages.{Result, TaskMessage, Message}
use agent_server_platform.Dispatcher.{Stamp, Answer}
use agent_server_platform.Dispatcher.Hub.{
  Job, Forward, Hub, take_up, dispatch_one, forward_begin, forward_resume, on_task_result,
  on_disconnect, on_register,
}

-- One step; the thread pool and the event loop may pick any of their jobs.
pub data Step (dumps : Result → String) (agent_run : String → TaskMessage → Answer) (has_ws : Bool)
    : Hub → Hub → Type 0 where
  consumed : (s : Hub) (rec : Message) → Step dumps agent_run has_ws s (take_up rec s)
  dispatched :
      (s : Hub) (stamp : Stamp) (before after : List Job) (job : Job)
      → s.submitted ≡ before ++ job ∷ after
      → Step dumps agent_run has_ws s
          (dispatch_one dumps agent_run has_ws stamp job (record s { submitted = before ++ after }))
  begun :
      (s : Hub) (fresh : ℕ) (sent : Bool) (stamp : Stamp) (before after : List (String × Job))
      (server_id : String) (job : Job)
      → s.scheduled ≡ before ++ (server_id, job) ∷ after
      → Step dumps agent_run has_ws s (
          forward_begin dumps agent_run fresh sent stamp server_id job
            (record s { scheduled = before ++ after }))
  resumed :
      (s : Hub) (stamp : Stamp) (before after : List Forward) (f : Forward)
      → s.awaiting ≡ before ++ f ∷ after
      → Step dumps agent_run has_ws s
          (forward_resume dumps agent_run stamp f (record s { awaiting = before ++ after }))
  result_arrived :
      (s : Hub) (task_id : String) (result : Result)
      → Step dumps agent_run has_ws s (on_task_result task_id result s)
  disconnected :
      (s : Hub) (server_id : String) (socket : ℕ)
      → Step dumps agent_run has_ws s (on_disconnect server_id socket s)
  registered :
      (s : Hub) (server_id : String) (socket : ℕ)
      → Step dumps agent_run has_ws s (on_register server_id socket s)

pub data Steps (dumps : Result → String) (agent_run : String → TaskMessage → Answer) (has_ws : Bool)
    : Hub → Hub → Type 0 where
  stay : (s : Hub) → Steps dumps agent_run has_ws s s
  then_step :
      (s t u : Hub)
      → Steps dumps agent_run has_ws s t
      → Step dumps agent_run has_ws t u
      → Steps dumps agent_run has_ws s u
