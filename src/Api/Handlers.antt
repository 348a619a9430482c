-- ===== src/Api/Handlers.antt =====
-- createAndQueueTaskNonIdempotent, replayTaskNonIdempotent and cancelTask (internal/api/tasks.go), createSession
-- and the DELETE of handleSessionByID (internal/api/sessions.go), over the parts in Api.Tasks. `polled` is what the
-- Gets of waitForTaskTerminalState answer until its time is up.
use Prim.Native.String.{◌++◌}
use browser_use.Base.{
  ℕ, ◌*◌, String, ◌⊎◌, inl, inr, Bool, false, not, ◌&&◌, Option, none, some, List, [], ◌∷◌,
  if◌then◌else◌, ltb, ℤ, pos, negsuc, second, millisecond, is_empty, trim_space, error_text,
  is_not_cancelable, is_task_not_found, Result, ok, err, ◌==◌,
}
use browser_use.Task.Types.{Task, CreateInput, CancelInput, is_final, is_running}
use browser_use.Task.Service.{Service, Call, create, get, cancel, run}
use browser_use.Session
use browser_use.Api.Tasks.{
  CreateTaskRequest, ReplayTaskRequest, Server, Reply, error_reply, task_reply, session_reply,
  no_content, map_task_actions, ensure_session_exists, resolve_task_session_id, or_default,
  Enqueued, enqueue_created_task,
}

-- normalizedWaitTimeout, in nanoseconds.
unfoldable pub normalized_wait_timeout : ℤ → ℕ
normalized_wait_timeout (negsuc n) = 90 * second
normalized_wait_timeout (pos n) =
    if n == 0
    then 90 * second
    else if ltb n 1000
    then 1000 * millisecond
    else if ltb 600_000 n
    then 600_000 * millisecond
    else n * millisecond

-- waitForTaskTerminalState: the first answer with a final task.
unfoldable pub wait_for_task_terminal_state : List (Result Task) → Option Task
wait_for_task_terminal_state [] = none
wait_for_task_terminal_state (err e ∷ polled) = wait_for_task_terminal_state polled
wait_for_task_terminal_state (ok t ∷ polled) =
    if is_final t.status then some t else wait_for_task_terminal_state polled

abbrev pub value_or {ℓ} : {A : Type ℓ} → Option A → A → A
value_or none a = a
value_or (some b) a = b

-- The answer once the task is created and handed to the dispatcher.
unfoldable pub created_reply : Enqueued → Bool → List (Result Task) → Reply
created_reply e waits polled =
    if not e.is_queued
    then task_reply e.status e.task
    else if not waits
    then task_reply 202 e.task
    else elim (wait_for_task_terminal_state polled) [
      | some completed ↦ task_reply 200 (some completed)
      | none ↦ task_reply 202 e.task
    ]

unfoldable pub create_input : Server → CreateTaskRequest → String → CreateInput
create_input srv req session_id = record {
  source_task_id = "";
  session_id = session_id;
  url = trim_space req.url;
  goal = trim_space req.goal;
  actions = map_task_actions req.actions;
  max_retries = value_or req.max_retries srv.default_max_retries;
}

unfoldable pub replay_input : ReplayTaskRequest → Task → String → String → CreateInput
replay_input req original source session_id = record {
  source_task_id = source;
  session_id = session_id;
  url = trim_space original.url;
  goal = trim_space original.goal;
  actions = original.actions;
  max_retries = value_or req.max_retries original.max_retries;
}

-- The session of a replay: a new one, the request's or the original task's; or an error's answer.
unfoldable pub replay_session :
    Option Session.Service
    → ReplayTaskRequest
    → Task
    → ℕ
    → (Option Session.Service × String) ⊎ Reply
replay_session sessions req original now =
    if req.create_new_session
    then elim sessions [
      | none ↦ inr (error_reply 500 "replay_failed" "session service is not configured")
      | some s ↦ elim (Session.create s (or_default (trim_space req.tenant_id) "replay") now) [
        | err e ↦
            inr (
              error_reply 400 "replay_failed" ("failed to create replay session: " ++ error_text e))
        | ok (n, made) ↦ inl (some n, or_default made.id (trim_space original.session_id))
      ]
    ]
    else inl (sessions, or_default (trim_space req.session_id) (trim_space original.session_id))

-- What other callers do while a handler is between its steps: their calls on the tasks before its Create, and on
-- the sessions before its check of the session, if it made it before, and after that check.
pub record Between : Type 0 where
  pub tasks : List Call
  pub unchecked : List Session.Call
  pub checked : List Session.Call

unfoldable pub run_sessions : List Session.Call → Option Session.Service → Option Session.Service
run_sessions calls none = none
run_sessions calls (some s) = some (Session.run s calls)

-- The handler's server once the session is checked, at its Create.
abbrev pub at_create : Server → Between → Option Session.Service → Server
at_create srv between sessions = record srv {
  tasks = run srv.tasks between.tasks;
  sessions = run_sessions between.checked sessions;
}

module _ (quote : String → String) where
  unfoldable pub create_and_queue_task :
      Server
      → Bool
      → Option CreateTaskRequest
      → Between
      → Option (Result (Unit {0}))
      → List Call
      → List (Result Task)
      → ℕ
      → Server × Reply
  create_and_queue_task srv waits none between dispatched others polled now =
      (srv, error_reply 400 "invalid_json" "request body must be valid JSON")
  create_and_queue_task srv waits (some req) between dispatched others polled now =
      elim (resolve_task_session_id quote srv.sessions (trim_space req.session_id)
        (trim_space req.tenant_id) now) [
          | err e ↦ (srv, error_reply 400 "create_failed" (error_text e))
          | ok (sessions, session_id) ↦
              let kept = at_create srv between sessions in
              elim (create kept.tasks (create_input srv req session_id) now) [
                | err e ↦ (kept, error_reply 400 "create_failed" (error_text e))
                | ok (tasks, created) ↦
                    let enqueued = enqueue_created_task (run tasks others) dispatched created now in
                    (
                      record kept { tasks = enqueued.tasks },
                      created_reply enqueued (value_or req.wait_for_completion waits) polled,
                    )
              ]
        ]

  -- What a replay does once its session is known.
  unfoldable pub replay_in :
      Server
      → Option Session.Service
      → String
      → ReplayTaskRequest
      → Task
      → String
      → Between
      → Option (Result (Unit {0}))
      → List Call
      → ℕ
      → Server × Reply
  replay_in srv sessions session_id req original source between dispatched others now =
      let found = run_sessions between.unchecked sessions in
      let kept = at_create srv between found in
      elim (ensure_session_exists quote found session_id) [
        | err e ↦ (kept, error_reply 400 "replay_failed" (error_text e))
        | ok checked ↦ elim (create kept.tasks (replay_input req original source session_id) now) [
          | err e ↦ (kept, error_reply 400 "replay_failed" (error_text e))
          | ok (tasks, created) ↦
              let enqueued = enqueue_created_task (run tasks others) dispatched created now in
              (record kept { tasks = enqueued.tasks }, created_reply enqueued false [])
        ]
      ]

  -- What a replay does with the original task. `body` is `none` where the decoder fails; an empty body is
  -- the request with no field set.
  unfoldable pub replay_found :
      Server
      → String
      → Option ReplayTaskRequest
      → Task
      → Between
      → Option (Result (Unit {0}))
      → List Call
      → ℕ
      → Server × Reply
  replay_found srv source none original between dispatched others now =
      (srv, error_reply 400 "invalid_json" "request body must be valid JSON")
  replay_found srv source (some req) original between dispatched others now =
      if req.create_new_session && not (is_empty (trim_space req.session_id))
      then (
        srv,
        error_reply 400 "invalid_replay_request"
            "session_id cannot be used with create_new_session",
      )
      else elim (replay_session srv.sessions req original now) [
        | inr reply ↦ (srv, reply)
        | inl (sessions, session_id) ↦
            replay_in srv sessions session_id req original source between dispatched others now
      ]

  unfoldable pub replay_task :
      Server
      → String
      → Option ReplayTaskRequest
      → Between
      → Option (Result (Unit {0}))
      → List Call
      → ℕ
      → Server × Reply
  replay_task srv source body between dispatched others now = elim (get srv.tasks source) [
    | err e ↦ (srv, error_reply 404 "not_found" (error_text e))
    | ok original ↦ replay_found srv source body original between dispatched others now
  ]

abbrev pub cancel_input : String → ℕ → CancelInput
cancel_input id now = record {
  task_id = id;
  reason = "task canceled by api request";
  completed = now;
  canceled_by = "api";
}

-- The part of cancelTask behind the Get: the server, the answer, and whether the runner has been told.
unfoldable pub cancel_found : Server → Service → String → Bool → ℕ → Server × Reply × Bool
cancel_found srv tasks id told now = elim (cancel tasks (cancel_input id now) now) [
  | err e ↦ (
    record srv { tasks = tasks },
    if is_not_cancelable e
        then error_reply 409 "task_not_cancelable" (error_text e)
        else if is_task_not_found e
        then error_reply 404 "not_found" (error_text e)
        else error_reply 500 "cancel_failed" (error_text e),
    told,
  )
  | ok (n, canceled) ↦ (record srv { tasks = n }, task_reply 200 (some canceled), told)
]

-- cancelTask, for a server whose dispatcher can cancel. `others` are the calls of other callers between
-- the Get and the Cancel.
unfoldable pub cancel_task : Server → String → List Call → ℕ → Server × Reply × Bool
cancel_task srv id others now = elim (get srv.tasks id) [
  | err e ↦ (srv, error_reply 404 "not_found" (error_text e), false)
  | ok found ↦ cancel_found srv (run srv.tasks others) found.id (is_running found.status) now
]

-- createSession, for a server with a session service.
unfoldable pub create_session : Session.Service → Option String → ℕ → Session.Service × Reply
create_session s none now = (s, error_reply 400 "invalid_json" "request body must be valid JSON")
create_session s (some tenant_id) now = elim (Session.create s (trim_space tenant_id) now) [
  | err e ↦ (s, error_reply 400 "create_failed" (error_text e))
  | ok (n, created) ↦ (n, session_reply 201 created)
]

-- The DELETE of handleSessionByID.
unfoldable pub delete_session : Session.Service → String → Session.Service × Reply
delete_session s id = elim (Session.remove s id) [
  | err e ↦ (s, error_reply 404 "not_found" (error_text e))
  | ok n ↦ (n, no_content)
]
