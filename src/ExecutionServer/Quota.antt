-- ===== src/ExecutionServer/Quota.antt =====
-- The steps of an execution server, and what they keep.
use agent_server_platform.Base.{
  ℕ, suc, ◌+◌, ◌-◌, ◌≤◌, ◌<◌, String, ◌≡◌, refl, ap, ◌∙◌, Bool, true, false, List, [], ◌∷◌, ◌++◌,
  arith, string_eq, if◌then◌else◌, ltb, length, contains, All,
}
use agent_server_platform.Database.Messages.{TaskMessage}
use agent_server_platform.Dispatcher.{Answer, returned, raised}
use agent_server_platform.ExecutionServer.{
  running, idle, Frame, register, status, task_event, task_result, task, ack, unknown, Settings,
  Server, send, submit, begin_task, result_frame, leave_active, end_task, receive, heartbeat,
  connect, next_backoff, disconnect,
}

-- What can happen next: the pool begins the oldest job while a thread is free, and ends any running one.
pub data Step (cfg : Settings) : Server → Server → Type 0 where
  connects : (s : Server) → s.connected ≡ false → Step cfg s (connect cfg s)
  receives : (f : Frame) (s : Server) → s.connected ≡ true → Step cfg s (receive f s)
  begins :
      (t : TaskMessage) (q : List TaskMessage) (s : Server)
      → s.queue ≡ t ∷ q
      → length s.active < cfg.max_quota
      → Step cfg s (begin_task t (record s { queue = q }))
  ends :
      (k : String) (answer : Answer) (s : Server)
      → contains s.active k ≡ true
      → Step cfg s (end_task k answer s)
  beats : (s : Server) → Step cfg s (heartbeat cfg s)
  loses : (s : Server) → Step cfg s (disconnect s)

pub data Steps (cfg : Settings) : Server → Server → Type 0 where
  done : (s : Server) → Steps cfg s s
  more : (s u v : Server) → Step cfg s u → Steps cfg u v → Steps cfg s v

-- A status frame reports no more jobs than the quota, and says so truly in its status.
abbrev pub IsHonest : ℕ → Frame → Type 0
IsHonest quota (status st total_quota n env_info) =
    (n ≤ quota) × (st ≡ (if ltb 0 n then running else idle))
IsHonest quota (register _ _ _ _) = Unit
IsHonest quota (task_event _ _) = Unit
IsHonest quota (task_result _ _ _) = Unit
IsHonest quota (task _) = Unit
IsHonest quota (ack _ _) = Unit
IsHonest quota (unknown _) = Unit

-- The counter is the number of running jobs, and they are within the quota; the reports that went out
-- are honest, and no wait is longer than 30 seconds.
abbrev pub IsCounted : Settings → Server → Type 0
IsCounted cfg s =
    (s.running_count ≡ length s.active)
    × (length s.active ≤ cfg.max_quota)
    × (s.backoff ≤ 30)
    × All (IsHonest cfg.max_quota) s.sent

All-snoc :
    (P : Frame → Type 0) (fs : List Frame) (f : Frame) → All P fs → P f → All P (fs ++ f ∷ [])
All-snoc P [] f h p = (p, tt)
All-snoc P (g ∷ fs) f h p = (h.0, All-snoc P fs f h.1 p)

-- A frame that is sent or dropped.
send-IsCounted :
    (cfg : Settings) (f : Frame) (s : Server)
    → IsHonest cfg.max_quota f
    → IsCounted cfg s
    → IsCounted cfg (send f s)
unfolding send
send-IsCounted cfg f s p h = go s.connected
  where
    go : (b : Bool) → IsCounted cfg (if b then record s { sent = s.sent ++ f ∷ [] } else s)
    go true = (h.0, h.1, h.2, All-snoc (IsHonest cfg.max_quota) s.sent f h.3 p)
    go false = h

length-leave_active :
    (k : String) (xs : List String)
    → contains xs k ≡ true
    → length xs ≡ suc (length (leave_active k xs))
unfolding leave_active contains
length-leave_active k [] h = cc
length-leave_active k (x ∷ xs) h = ground (arith, length-leave_active k xs)

result_frame-IsHonest :
    (quota : ℕ) (k : String) (answer : Answer) → IsHonest quota (result_frame k answer)
unfolding result_frame
result_frame-IsHonest quota k (returned result) = tt
result_frame-IsHonest quota k (raised error) = tt

receive-IsCounted :
    (cfg : Settings) (f : Frame) (s : Server) → IsCounted cfg s → IsCounted cfg (receive f s)
unfolding receive submit
receive-IsCounted cfg (task t) s h = h
receive-IsCounted cfg (register _ _ _ _) s h = h
receive-IsCounted cfg (status _ _ _ _) s h = h
receive-IsCounted cfg (task_event _ _) s h = h
receive-IsCounted cfg (task_result _ _ _) s h = h
receive-IsCounted cfg (ack _ _) s h = h
receive-IsCounted cfg (unknown _) s h = h

send-active : (f : Frame) (s : Server) → (send f s).active ≡ s.active
unfolding send
send-active f s = ground arith

-- A job that begins within the quota.
begin_task-IsCounted :
    (cfg : Settings) (t : TaskMessage) (s : Server)
    → length s.active < cfg.max_quota
    → IsCounted cfg s
    → IsCounted cfg (begin_task t s)
unfolding begin_task
begin_task-IsCounted cfg t s room h =
    let counted : Server = record s {
      active = t.task_id ∷ s.active;
      running_count = s.running_count + 1;
    } in
    let base : IsCounted cfg counted = (counts, room, h.2, h.3) in
    send-IsCounted cfg _ _ tt (send-IsCounted cfg _ counted tt base)
  where
    counts : s.running_count + 1 ≡ suc (length s.active)
    counts = omega (arith, h.0)

-- A job that ends.
end_task-IsCounted :
    (cfg : Settings) (k : String) (answer : Answer) (s : Server)
    → contains s.active k ≡ true
    → IsCounted cfg s
    → IsCounted cfg (end_task k answer s)
unfolding end_task
end_task-IsCounted cfg k answer s there h = (counts, within, kept.2, kept.3)
  where
    told : Server
    told = send (result_frame k answer) s

    kept : IsCounted cfg told
    kept = send-IsCounted cfg _ s (result_frame-IsHonest cfg.max_quota k answer) h

    fewer : length told.active ≡ suc (length (leave_active k told.active))
    fewer =
        length-leave_active k told.active
          (ap (λ a. contains a k) (send-active (result_frame k answer) s) ∙ there)

    counts : told.running_count - 1 ≡ length (leave_active k told.active)
    counts = omega (arith, kept.0, fewer)

    within : length (leave_active k told.active) ≤ cfg.max_quota
    within = omega (arith, kept.1, fewer)

Step-IsCounted : (cfg : Settings) (s u : Server) → Step cfg s u → IsCounted cfg s → IsCounted cfg u
unfolding connect heartbeat disconnect next_backoff
Step-IsCounted cfg _ _ (connects s off) h =
    send-IsCounted cfg _ (record s { connected = true }) tt h
Step-IsCounted cfg _ _ (receives f s on) h = receive-IsCounted cfg f s h
Step-IsCounted cfg _ _ (begins t q s next room) h =
    begin_task-IsCounted cfg t (record s { queue = q }) room h
Step-IsCounted cfg _ _ (ends k answer s there) h = end_task-IsCounted cfg k answer s there h
Step-IsCounted cfg _ _ (beats s) h = send-IsCounted cfg _ s (omega (arith, h.0, h.1), refl) h
Step-IsCounted cfg _ _ (loses s) h = (h.0, h.1, ground arith, h.3)

-- However connections come and go, frames arrive and jobs begin and end, an execution server that
-- starts within its bounds keeps them: its counter is the number of its running jobs, there are never
-- more of them than the quota, every status frame that went out reports a number within the quota and
-- the status that fits it, and the wait before a connection is at most 30 seconds.
pub Steps-IsCounted :
    (cfg : Settings) (s u : Server) → Steps cfg s u → IsCounted cfg s → IsCounted cfg u
Steps-IsCounted cfg _ _ (done s) h = h
Steps-IsCounted cfg _ _ (more s u v step rest) h =
    Steps-IsCounted cfg u v rest (Step-IsCounted cfg s u step h)
