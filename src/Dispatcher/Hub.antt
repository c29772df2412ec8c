-- ===== src/Dispatcher/Hub.antt =====
-- `CentralDispatcher` of src/core/central_dispatcher.py and `WSDispatcher` of src/core/ws_server.py as
-- one state: the consumer hands jobs to its thread pool, a job runs here, is forwarded to a server
-- or waits for one, and the server's events finish it or park it again.
use agent_server_platform.Base.{
  ℕ, String, ◌<>◌, Bool, true, false, not, ◌||◌, Option, none, some, List, [], ◌∷◌, ◌++◌, ◌==◌,
  string_eq, nat_eq, if◌then◌else◌, contains, select,
}
use agent_server_platform.Base.Dict.{Dict, lookup, insert, erase}
use agent_server_platform.Scheduling.Subtasks.{decimal_text}
use agent_server_platform.Database.Tasks.{mark_as_started}
use agent_server_platform.Database.Messages.{
  Result, Context, TaskMessage, Content, task, reply_of, unreadable, Message, ack_message,
}
use agent_server_platform.Dispatcher.{
  Stamp, Tables, Answer, finalize_task, already_terminal, run_task_locally,
}

-- The arguments of `_dispatch_one`, of a parked task and of `forward_task`.
pub record Job : Type 0 where
  pub scenario_id : Option String
  pub msg : TaskMessage
  pub dispatch_id : Option ℕ

-- An asyncio future: not done, a result, or `ConnectionLost`.
pub data Future : Type 0 where
  waiting : Future
  answered : Result → Future
  lost : Future

-- A `forward_task` that awaits its future.
pub record Forward : Type 0 where
  pub server_id : String
  pub job : Job
  pub future : ℕ

-- `deferred` is the dict of lists by its pairs in the order of parking; `futures` has the state of
-- each future by its number; a websocket is a number too.
pub record Hub : Type 0 where
  pub tables : Tables
  pub in_flight : List String
  pub submitted : List Job
  pub scheduled : List (String × Job)
  pub awaiting : List Forward
  pub deferred : List (String × Job)
  pub connections : Dict String ℕ
  pub pending : Dict String ℕ
  pub task_server : Dict String String
  pub futures : Dict ℕ Future

abbrev pub discard : String → List String → List String
discard task_id ids = select (λ t. not (t == task_id)) ids

-- `_ack`
unfoldable pub ack : Option ℕ → String → Hub → Hub
ack dispatch_id task_id s = record s {
  tables = record s.tables {
    messages = elim dispatch_id [
      | none ↦ s.tables.messages
      | some i ↦ ack_message i s.tables.messages
    ];
  };
  in_flight = discard task_id s.in_flight;
}

-- `f"__bad_{rec.id}"`
unfoldable pub bad_mark : ℕ → String
bad_mark n = "__bad_" <> decimal_text n

abbrev pub empty_context : Context
empty_context = record {
  role = none;
  system_prompt = none;
  server_id = none;
  question = none;
  upstream_results = none;
  upstream_outputs = none;
}

-- The task of a row's content; a key that is missing has its default.
unfoldable pub read_task : Content → Option TaskMessage
read_task (task m) = some m
read_task (reply_of r) =
    some (record { task_id = r.task_id; parent_task_id = ""; goal = ""; context = empty_context })
read_task unreadable = none

-- The body of `for rec in pending` in `_run`.
unfoldable pub take_up : Message → Hub → Hub
unfolding ack
take_up rec s = elim (read_task rec.content) [
  | none ↦ ack (some rec.id) (bad_mark rec.id) s
  | some m ↦ if contains s.in_flight m.task_id then s else record s {
    in_flight = s.in_flight ++ m.task_id ∷ [];
    submitted =
        s.submitted
        ++ record { scenario_id = rec.scenario_id; msg = m; dispatch_id = some rec.id } ∷ [];
  }
]

abbrev pub is_connected : String → Hub → Bool
is_connected server_id s = elim (lookup server_id s.connections) [ none ↦ false | some _ ↦ true ]

-- `defer`
unfoldable pub defer : String → Job → Hub → Hub
defer server_id job s = record s { deferred = s.deferred ++ (server_id, job) ∷ [] }

-- `schedule_forward`
unfoldable pub schedule_forward : String → Job → Hub → Hub
schedule_forward server_id job s = record s { scheduled = s.scheduled ++ (server_id, job) ∷ [] }

module _ (dumps : Result → String) (agent_run : String → TaskMessage → Answer) where
  -- The local path of `_dispatch_one`.
  unfoldable pub run_here : Stamp → Job → Hub → Hub
  unfolding ack
  run_here stamp job s = ack job.dispatch_id job.msg.task_id (record s {
    tables = run_task_locally dumps agent_run stamp job.scenario_id job.msg s.tables;
  })

  -- `_dispatch_one`; `has_ws` tells whether `set_ws_dispatcher` was called.
  unfoldable pub dispatch_one : Bool → Stamp → Job → Hub → Hub
  unfolding run_here defer schedule_forward
  dispatch_one has_ws stamp job s = elim job.msg.context.server_id [
    | none ↦ run_here stamp job s
    | some server_id ↦
        if (server_id == "") || not has_ws
        then run_here stamp job s
        else if is_connected server_id s
        then schedule_forward server_id job s
        else defer server_id job s
  ]

  -- `forward_task` up to the `await`, whose future gets the number `fresh`; `sent` tells whether
  -- `ws.send` went through.
  unfoldable pub forward_begin : ℕ → Bool → Stamp → String → Job → Hub → Hub
  unfolding ack defer
  forward_begin fresh sent stamp server_id job s =
      let task_id = job.msg.task_id in
      if already_terminal task_id s.tables.tasks
      then ack job.dispatch_id task_id s
      else elim (lookup server_id s.connections) [
        | none ↦ defer server_id job (record s {
          pending = erase task_id (insert task_id fresh s.pending);
          task_server = erase task_id (insert task_id server_id s.task_server);
        })
        | some ws ↦
            let begun = record s {
              tables = record s.tables {
                tasks = (mark_as_started stamp.now task_id s.tables.tasks).0;
              };
            } in
            if sent
            then record begun {
              pending = insert task_id fresh s.pending;
              task_server = insert task_id server_id s.task_server;
              futures = insert fresh waiting s.futures;
              awaiting =
                  s.awaiting ++ record { server_id = server_id; job = job; future = fresh } ∷ [];
            }
            else defer server_id job (record begun {
              pending = erase task_id (insert task_id fresh s.pending);
              task_server = erase task_id (insert task_id server_id s.task_server);
            })
      ]

  -- `forward_task` from the `await` on, once the future is done; the coroutine sleeps on until then.
  unfoldable pub forward_resume : Stamp → Forward → Hub → Hub
  unfolding ack defer
  forward_resume stamp f s =
      let task_id = f.job.msg.task_id in
      let cleared = record s {
        pending = erase task_id s.pending;
        task_server = erase task_id s.task_server;
      } in
      elim (lookup f.future s.futures) [
        | none ↦ record s { awaiting = s.awaiting ++ f ∷ [] }
        | some future ↦ elim future [
          | waiting ↦ record s { awaiting = s.awaiting ++ f ∷ [] }
          | lost ↦ defer f.server_id f.job cleared
          | answered result ↦ ack f.job.dispatch_id task_id (record cleared {
            tables =
                finalize_task dumps stamp f.job.scenario_id task_id result
                  (some ("ExecutionServer:" <> f.server_id))
                  (elim result.role [ none ↦ f.job.msg.context.role | some r ↦ some r ])
                  (some stamp.duration) s.tables;
          })
        ]
      ]

-- `_on_task_result`
unfoldable pub on_task_result : String → Result → Hub → Hub
on_task_result task_id result s =
    let unassigned = erase task_id s.task_server in
    elim (lookup task_id s.pending) [
      | none ↦ record s { task_server = unassigned }
      | some i ↦ elim (lookup i s.futures) [
        | some waiting ↦ record s {
          task_server = unassigned;
          futures = insert i (answered result) s.futures;
          pending = erase task_id s.pending;
        }
        | _ ↦ record s { task_server = unassigned }
      ]
    ]

-- `set_exception(ConnectionLost(...))` on the futures of a server's tasks that are not done.
unfoldable pub fail_futures :
    String → Dict String String → Dict String ℕ → Dict ℕ Future → Dict ℕ Future
fail_futures server_id [] pending futures = futures
fail_futures server_id ((task_id, owner) ∷ more) pending futures =
    let rest = fail_futures server_id more pending futures in
    if owner == server_id
    then elim (lookup task_id pending) [
      | none ↦ rest
      | some i ↦ elim (lookup i rest) [ some waiting ↦ insert i lost rest | _ ↦ rest ]
    ]
    else rest

-- `_on_disconnect`: nothing, unless the socket still owns the server's slot.
unfoldable pub on_disconnect : String → ℕ → Hub → Hub
unfolding fail_futures
on_disconnect server_id socket s = elim (lookup server_id s.connections) [
  | none ↦ s
  | some owner ↦
      if owner == socket
      then record s {
        connections = erase server_id s.connections;
        futures = fail_futures server_id s.task_server s.pending s.futures;
      }
      else s
]

-- `_drain_deferred`
unfoldable pub drain_deferred : String → Hub → Hub
drain_deferred server_id s = record s {
  deferred = select (λ p. not (p.0 == server_id)) s.deferred;
  scheduled = s.scheduled ++ select (λ p. p.0 == server_id) s.deferred;
}

-- `_on_register`, with the id of a frame that has one; an empty id is refused.
unfoldable pub on_register : String → ℕ → Hub → Hub
unfolding drain_deferred
on_register server_id socket s =
    if server_id == ""
    then s
    else drain_deferred server_id (record s { connections = insert server_id socket s.connections })
