-- ===== src/Dispatcher/Holders.antt =====
-- Who holds a task: the jobs of the dispatcher and its set of tasks in flight.
use agent_server_platform.Base.{
  ℕ, ◌+◌, ◌≤◌, String, ◌≡◌, ◌≢◌, Bool, not, ◌||◌, Option, none, some, List, [], ◌∷◌, ◌++◌, map,
  arith, ◌==◌, string_eq, nat_eq, if◌then◌else◌, contains, count, select, count-append,
  count-select, count_zero_of_not-contains,
}
use agent_server_platform.Base.Dict.{insert, erase}
use agent_server_platform.Database.Tasks.{mark_as_started}
use agent_server_platform.Database.Messages.{Result, TaskMessage, Message}
use agent_server_platform.Dispatcher.{Stamp, Tables, Answer, run_task_locally}
use agent_server_platform.Dispatcher.Hub.{
  Job, Forward, Hub, ack, bad_mark, read_task, take_up, is_connected, defer, schedule_forward,
  run_here, dispatch_one, forward_begin, forward_resume, on_task_result, on_disconnect,
  drain_deferred, on_register,
}
use agent_server_platform.Dispatcher.Steps.{
  Step, consumed, dispatched, begun, resumed, result_arrived, disconnected, registered, Steps, stay,
  then_step,
}

abbrev of_job : Job → String
of_job job = job.msg.task_id

abbrev of_pair : String × Job → String
of_pair p = p.1.msg.task_id

abbrev of_forward : Forward → String
of_forward f = f.job.msg.task_id

-- How many jobs of a task are queued, scheduled, awaited or parked.
abbrev pub holders : String → Hub → ℕ
holders t s =
    count t (map of_job s.submitted)
    + count t (map of_pair s.scheduled)
    + count t (map of_forward s.awaiting)
    + count t (map of_pair s.deferred)

-- A task is marked as in flight just when one job of it exists, and there is never another.
abbrev pub IsHeldOnce : String → Hub → Type 0
IsHeldOnce t s = (count t s.in_flight ≡ holders t s) × (count t s.in_flight ≤ 1)

-- The same, with a job of task `id` taken out.
abbrev IsLoose : String → String → Hub → Type 0
IsLoose t id s =
    (count t s.in_flight ≡ holders t s + (if t == id then 1 else 0)) × (count t s.in_flight ≤ 1)

count-key-append :
    {A : Type 0} (key : A → String) (t : String) (xs ys : List A)
    → count t (map key (xs ++ ys)) ≡ count t (map key xs) + count t (map key ys)
unfolding count
count-key-append key t [] ys = omega arith
count-key-append key t (x ∷ xs) ys = ground (arith, count-key-append key t xs ys)

count-key-out :
    {A : Type 0} (key : A → String) (t : String) (before after all_of : List A) (x : A)
    → all_of ≡ before ++ x ∷ after
    → count t (map key all_of) ≡ count t (map key (before ++ after)) + (if t == key x then 1 else 0)
unfolding count
count-key-out key t before after all_of x e =
    rw e (
      ground
        (arith, count-key-append key t before after, count-key-append key t before (x ∷ after)))

-- A filter and its complement share the keys out.
count-key-split :
    {A : Type 0} (key : A → String) (t : String) (p : A → Bool) (xs : List A)
    → count t (map key (select p xs)) + count t (map key (select (λ x. not (p x)) xs))
      ≡ count t (map key xs)
unfolding count select
count-key-split key t p [] = omega arith
count-key-split key t p (x ∷ xs) = ground (arith, count-key-split key t p xs)

ack-IsHeldOnce :
    (t : String) (dispatch_id : Option ℕ) (id : String) (s : Hub)
    → IsLoose t id s
    → IsHeldOnce t (ack dispatch_id id s)
unfolding ack
ack-IsHeldOnce t dispatch_id id s h =
    ground (arith, h.0, h.1, count-select t (λ x. not (x == id)) s.in_flight)

defer-IsHeldOnce :
    (t server_id : String) (job : Job) (s : Hub)
    → IsLoose t job.msg.task_id s
    → IsHeldOnce t (defer server_id job s)
unfolding defer count
defer-IsHeldOnce t server_id job s h =
    ground (arith, h.0, h.1, count-key-append of_pair t s.deferred ((server_id, job) ∷ []))

schedule_forward-IsHeldOnce :
    (t server_id : String) (job : Job) (s : Hub)
    → IsLoose t job.msg.task_id s
    → IsHeldOnce t (schedule_forward server_id job s)
unfolding schedule_forward count
schedule_forward-IsHeldOnce t server_id job s h =
    ground (arith, h.0, h.1, count-key-append of_pair t s.scheduled ((server_id, job) ∷ []))

take_up-IsHeldOnce :
    (t : String) (rec : Message) (s : Hub)
    → ((n : ℕ) → t ≢ bad_mark n)
    → IsHeldOnce t s
    → IsHeldOnce t (take_up rec s)
unfolding take_up count
take_up-IsHeldOnce t rec s proper h = go (read_task rec.content)
  where
    go :
        (o : Option TaskMessage)
        → IsHeldOnce t (elim o [
          | none ↦ ack (some rec.id) (bad_mark rec.id) s
          | some m ↦ if contains s.in_flight m.task_id then s else record s {
            in_flight = s.in_flight ++ m.task_id ∷ [];
            submitted =
                s.submitted
                ++ record { scenario_id = rec.scenario_id; msg = m; dispatch_id = some rec.id }
                  ∷ [];
          }
        ])
    go none =
        ack-IsHeldOnce t (some rec.id) (bad_mark rec.id) s (ground (arith, h.0, h.1, proper rec.id))
    go (some m) = ground (
      arith,
      h.0,
      h.1,
      count-append t s.in_flight (m.task_id ∷ []),
      count-key-append of_job t s.submitted
          (record { scenario_id = rec.scenario_id; msg = m; dispatch_id = some rec.id } ∷ []),
      count_zero_of_not-contains m.task_id s.in_flight,
    )

module _ (dumps : Result → String) (agent_run : String → TaskMessage → Answer) (has_ws : Bool)
    (t : String) where
  dispatch_one-IsHeldOnce :
      (stamp : Stamp) (job : Job) (s : Hub)
      → IsLoose t job.msg.task_id s
      → IsHeldOnce t (dispatch_one dumps agent_run has_ws stamp job s)
  unfolding dispatch_one run_here
  dispatch_one-IsHeldOnce stamp job s h =
      let after_run : Hub = record s {
        tables = run_task_locally dumps agent_run stamp job.scenario_id job.msg s.tables;
      } in
      go (ack-IsHeldOnce t job.dispatch_id job.msg.task_id after_run h) job.msg.context.server_id
    where
      go :
          IsHeldOnce t (run_here dumps agent_run stamp job s)
          → (o : Option String)
          → IsHeldOnce t (elim o [
            | none ↦ run_here dumps agent_run stamp job s
            | some server_id ↦
                if (server_id == "") || not has_ws
                then run_here dumps agent_run stamp job s
                else if is_connected server_id s
                then schedule_forward server_id job s
                else defer server_id job s
          ])
      go here none = here
      go here (some server_id) = ground (
        arith,
        here,
        schedule_forward-IsHeldOnce t server_id job s h,
        defer-IsHeldOnce t server_id job s h,
      )

  forward_begin-IsHeldOnce :
      (fresh : ℕ) (sent : Bool) (stamp : Stamp) (server_id : String) (job : Job) (s : Hub)
      → IsLoose t job.msg.task_id s
      → IsHeldOnce t (forward_begin dumps agent_run fresh sent stamp server_id job s)
  unfolding forward_begin count
  forward_begin-IsHeldOnce fresh sent stamp server_id job s h =
      let task_id = job.msg.task_id in
      let started = record s.tables {
        tasks = (mark_as_started stamp.now task_id s.tables.tasks).0;
      } in
      let forgotten : Hub = record s {
        pending = erase task_id (insert task_id fresh s.pending);
        task_server = erase task_id (insert task_id server_id s.task_server);
      } in
      ground (
        arith,
        ack-IsHeldOnce t job.dispatch_id task_id s h,
        defer-IsHeldOnce t server_id job forgotten h,
        defer-IsHeldOnce t server_id job (record forgotten { tables = started }) h,
        h.0,
        h.1,
        count-key-append of_forward t s.awaiting
            (record { server_id = server_id; job = job; future = fresh } ∷ []),
      )

  forward_resume-IsHeldOnce :
      (stamp : Stamp) (f : Forward) (s : Hub)
      → IsLoose t f.job.msg.task_id s
      → IsHeldOnce t (forward_resume dumps agent_run stamp f s)
  unfolding forward_resume count
  forward_resume-IsHeldOnce stamp f s h =
      let id = f.job.msg.task_id in
      let cleared : Hub = record s {
        pending = erase id s.pending;
        task_server = erase id s.task_server;
      } in
      ground (
        arith,
        h.0,
        h.1,
        count-key-append of_forward t s.awaiting (f ∷ []),
        defer-IsHeldOnce t f.server_id f.job cleared h,
        λ (now_in : Tables).
            ack-IsHeldOnce t f.job.dispatch_id id (record cleared { tables = now_in }) h,
      )

drain_deferred-IsHeldOnce :
    (t server_id : String) (s : Hub) → IsHeldOnce t s → IsHeldOnce t (drain_deferred server_id s)
unfolding drain_deferred
drain_deferred-IsHeldOnce t server_id s h = ground (
  arith,
  h.0,
  h.1,
  count-key-append of_pair t s.scheduled (select (λ p. p.0 == server_id) s.deferred),
  count-key-split of_pair t (λ p. p.0 == server_id) s.deferred,
)

on_result-IsHeldOnce :
    (t task_id : String) (result : Result) (s : Hub)
    → IsHeldOnce t s
    → IsHeldOnce t (on_task_result task_id result s)
unfolding on_task_result
on_result-IsHeldOnce t task_id result s h = ground (arith, h.0, h.1)

on_disconnect-IsHeldOnce :
    (t server_id : String) (socket : ℕ) (s : Hub)
    → IsHeldOnce t s
    → IsHeldOnce t (on_disconnect server_id socket s)
unfolding on_disconnect
on_disconnect-IsHeldOnce t server_id socket s h = ground (arith, h.0, h.1)

on_register-IsHeldOnce :
    (t server_id : String) (socket : ℕ) (s : Hub)
    → IsHeldOnce t s
    → IsHeldOnce t (on_register server_id socket s)
unfolding on_register
on_register-IsHeldOnce t server_id socket s h = ground (
  arith,
  h,
  drain_deferred-IsHeldOnce t server_id
      (record s { connections = insert server_id socket s.connections }) h,
)

-- Each step keeps a task, whose id is not the mark of an unreadable row, held at most once and in
-- flight just when it is held.
Step-IsHeldOnce :
    (dumps : Result → String) (agent_run : String → TaskMessage → Answer) (has_ws : Bool)
    (t : String)
    → ((n : ℕ) → t ≢ bad_mark n)
    → (s u : Hub) → Step dumps agent_run has_ws s u
    → IsHeldOnce t s
    → IsHeldOnce t u
Step-IsHeldOnce dumps agent_run has_ws t proper _ _ (consumed s rec) h =
    take_up-IsHeldOnce t rec s proper h
Step-IsHeldOnce dumps agent_run has_ws t proper _ _ (dispatched s stamp before after job e) h =
    dispatch_one-IsHeldOnce dumps agent_run has_ws t stamp job
      (record s { submitted = before ++ after })
      (ground (arith, h.0, h.1, count-key-out of_job t before after s.submitted job e))
Step-IsHeldOnce dumps agent_run has_ws t proper _ _
      (begun s fresh sent stamp before after server_id job e) h =
    forward_begin-IsHeldOnce dumps agent_run has_ws t fresh sent stamp server_id job
      (record s { scheduled = before ++ after })
      (ground
        (arith, h.0, h.1, count-key-out of_pair t before after s.scheduled (server_id, job) e))
Step-IsHeldOnce dumps agent_run has_ws t proper _ _ (resumed s stamp before after f e) h =
    forward_resume-IsHeldOnce dumps agent_run has_ws t stamp f
      (record s { awaiting = before ++ after })
      (ground (arith, h.0, h.1, count-key-out of_forward t before after s.awaiting f e))
Step-IsHeldOnce dumps agent_run has_ws t proper _ _ (result_arrived s task_id result) h =
    on_result-IsHeldOnce t task_id result s h
Step-IsHeldOnce dumps agent_run has_ws t proper _ _ (disconnected s server_id socket) h =
    on_disconnect-IsHeldOnce t server_id socket s h
Step-IsHeldOnce dumps agent_run has_ws t proper _ _ (registered s server_id socket) h =
    on_register-IsHeldOnce t server_id socket s h

-- Take a task whose id is not the mark of an unreadable row, and a state in which at most one job -
-- queued, scheduled for a server, awaited or parked - holds it and it is in flight just when one does,
-- as when the program starts. Every interleaving of the consumer, the thread pool, the forwards and
-- the servers' events leads to such a state again.
pub Steps-IsHeldOnce :
    (dumps : Result → String) (agent_run : String → TaskMessage → Answer) (has_ws : Bool)
    (t : String)
    → ((n : ℕ) → t ≢ bad_mark n)
    → (s u : Hub) → Steps dumps agent_run has_ws s u
    → IsHeldOnce t s
    → IsHeldOnce t u
Steps-IsHeldOnce dumps agent_run has_ws t proper _ _ (stay s) h = h
Steps-IsHeldOnce dumps agent_run has_ws t proper _ _ (then_step s v u path step) h =
    Step-IsHeldOnce dumps agent_run has_ws t proper v u step
      (Steps-IsHeldOnce dumps agent_run has_ws t proper s v path h)
