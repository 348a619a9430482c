-- ===== src/Api/Tasks.antt =====
-- The task handlers of internal/api/tasks.go that change state, with createSession and the DELETE of
-- internal/api/sessions.go: what they do to the task and session services, and what they answer.
-- A request's decoded body is an argument, `none` where the decoder fails. `dispatched` is the answer of the
-- dispatcher's Enqueue, `none` where the server has no dispatcher. `quote` is fmt's %q.
-- Between the creation of a task and what follows other callers may call the task service: `others`.
use Prim.Native.String.{◌++◌}
use browser_use.Base.{
  ℕ, String, Bool, true, false, Option, none, some, List, [], map, if◌then◌else◌, ℤ, is_empty,
  trim_space, plain, wrapped, error_text, is_queue_full, is_session_not_found, Result, ok, err,
}
use browser_use.Task.Types.{Task, Action, FailInput}
use browser_use.Task.Service.{Service, fail}
use browser_use.Session

pub record TaskActionRequest : Type 0 where
  pub kind : String
  pub selector : String
  pub text : String
  pub pixels : ℤ
  pub timeout_ms : ℤ
  pub delay_ms : ℤ

pub record CreateTaskRequest : Type 0 where
  pub session_id : String
  pub tenant_id : String
  pub url : String
  pub goal : String
  pub actions : List TaskActionRequest
  pub max_retries : Option ℤ
  pub wait_for_completion : Option Bool
  pub wait_timeout_ms : ℤ

pub record ReplayTaskRequest : Type 0 where
  pub session_id : String
  pub max_retries : Option ℤ
  pub create_new_session : Bool
  pub tenant_id : String

-- The services behind the handlers, and the default of max_retries.
pub record Server : Type 0 where
  pub tasks : Service
  pub sessions : Option Session.Service
  pub default_max_retries : ℤ

-- An answer: its status with an error's code and text, or with a body. `none` is the zero Task.
pub data Reply : Type 0 where
  error_reply : ℕ → String → String → Reply
  task_reply : ℕ → Option Task → Reply
  session_reply : ℕ → Session.Session → Reply
  no_content : Reply

unfoldable pub map_task_action : TaskActionRequest → Action
map_task_action a = record {
  kind = trim_space a.kind;
  selector = trim_space a.selector;
  text = a.text;
  pixels = a.pixels;
  timeout_ms = a.timeout_ms;
  delay_ms = a.delay_ms;
}

unfoldable pub map_task_actions : List TaskActionRequest → List Action
unfolding map_task_action
map_task_actions actions = map map_task_action actions

unfoldable pub ensure_session_exists :
    (String → String) → Option Session.Service → String → Result (Unit {0})
ensure_session_exists quote sessions session_id =
    let id = trim_space session_id in
    if is_empty id then err (plain "session_id is required") else elim sessions [
      | none ↦ ok tt
      | some s ↦ elim (Session.get s id) [
        | ok found ↦ ok tt
        | err e ↦
            if is_session_not_found e
            then err (plain ("session_id " ++ quote id ++ " not found"))
            else err (wrapped ("failed to load session " ++ quote id) e)
      ]
    ]

-- The session of a request that names none: a new one for the tenant.
unfoldable pub new_session :
    Option Session.Service → String → ℕ → Result (Option Session.Service × String)
new_session none tenant now = err (plain "session_id is required")
new_session (some s) tenant now = elim (Session.create s tenant now) [
  | err e ↦ err (wrapped "failed to create session" e)
  | ok (n, created) ↦ ok (some n, created.id)
]

abbrev pub or_default : String → String → String
or_default s fallback = if is_empty s then fallback else s

unfoldable pub resolve_task_session_id :
    (String → String)
    → Option Session.Service
    → String
    → String
    → ℕ
    → Result (Option Session.Service × String)
unfolding new_session
resolve_task_session_id quote sessions session_id tenant_id now =
    let id = trim_space session_id in
    if is_empty id
    then new_session sessions (or_default (trim_space tenant_id) "task") now
    else elim (ensure_session_exists quote sessions id) [
      | err e ↦ err e
      | ok checked ↦ ok (sessions, id)
    ]

abbrev pub fail_input : String → String → ℕ → FailInput
fail_input id error now = record {
  task_id = id;
  node_id = "";
  completed = now;
  error = error;
  page_title = "";
  final_url = "";
  screenshot = "";
  screenshot_artifact_url = "";
  blocker_type = "";
  blocker_message = "";
  trace = [];
}

-- `failed, _ := s.tasks.Fail(…)`: the service afterwards, and the task or the zero Task.
unfoldable pub fail_created : Service → Task → String → ℕ → Service × Option Task
fail_created s created error now = elim (fail s (fail_input created.id error now) now) [
  | ok (n, failed) ↦ (n, some failed)
  | err e ↦ (s, none)
]

-- What enqueueCreatedTask returns beside the service: the task, the status and `ok`.
pub record Enqueued : Type 0 where
  pub tasks : Service
  pub task : Option Task
  pub status : ℕ
  pub is_queued : Bool

unfoldable pub enqueue_created_task : Service → Option (Result (Unit {0})) → Task → ℕ → Enqueued
unfolding fail_created
enqueue_created_task s none created now =
    let (n, failed) = fail_created s created "task dispatcher is not configured" now in
    record { tasks = n; task = failed; status = 500; is_queued = false }
enqueue_created_task s (some (err e)) created now =
    let (n, failed) = fail_created s created (error_text e) now in
    record {
      tasks = n;
      task = failed;
      status = if is_queue_full e then 503 else 500;
      is_queued = false;
    }
enqueue_created_task s (some (ok u)) created now = record {
  tasks = s;
  task = some created;
  status = 202;
  is_queued = true;
}
