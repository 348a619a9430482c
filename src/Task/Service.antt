-- ===== src/Task/Service.antt =====
-- InMemoryService (internal/task/service.go): the calls that change a task.
use Prim.Native.String.{◌++◌}
use browser_use.Base.{
  ℕ, ◌+◌, ◌%◌, ◌^◌, String, Bool, true, false, not, ◌&&◌, none, some, List, [], ◌∷◌, if◌then◌else◌,
  ℤ, pos, negsuc, time_or, is_empty, trim_space, Dict, lookup, insert, format_06d, plain,
  task_not_found, task_not_queued, task_not_cancelable, Result, ok, err, ◌>>=◌, ◌>>◌, guard,
}
use browser_use.Task.Types.{
  queued, running, completed, failed, canceled, is_queued, is_canceled_status, is_final, Task,
  CreateInput, StartInput, RetryInput, CompleteInput, FailInput, CancelInput,
}
use browser_use.Task.Outputs.{derive_extracted_outputs}

-- `counter` is the bit pattern of an int64.
pub record Service : Type 0 where
  pub counter : ℕ
  pub items : Dict Task

-- NewInMemoryService
abbrev pub new : Service
new = record { counter = 0; items = [] }

unfoldable pub task_id : ℕ → String
task_id n = "task_" ++ format_06d n

abbrev pub is_nil {ℓ} : {A : Type ℓ} → List A → Bool
is_nil [] = true
is_nil (x ∷ xs) = false

abbrev pub is_negative : ℤ → Bool
is_negative (pos n) = false
is_negative (negsuc n) = true

unfoldable pub created_task : CreateInput → String → ℕ → Task
created_task input id now = record {
  id = id;
  source_task_id = input.source_task_id;
  session_id = input.session_id;
  url = input.url;
  goal = input.goal;
  actions = input.actions;
  trace = [];
  extracted_outputs = [];
  status = queued;
  attempt = 0;
  max_retries = input.max_retries;
  next_retry_at = none;
  node_id = "";
  page_title = "";
  final_url = "";
  screenshot_base64 = "";
  screenshot_artifact_url = "";
  blocker_type = "";
  blocker_message = "";
  error_message = "";
  created_at = now;
  started_at = none;
  completed_at = none;
}

-- The part of Create after the checks.
unfoldable pub added : Service → CreateInput → ℕ → Service × Task
unfolding created_task
added s input now =
    let counter = (s.counter + 1) % 2 ^ 64 in
    let created = created_task input (task_id counter) now in
    (record { counter = counter; items = insert created.id created s.items }, created)

unfoldable pub create : Service → CreateInput → ℕ → Result (Service × Task)
unfolding added
create s input now = do
  guard (not (is_empty input.session_id)) (plain "session_id is required")
  guard (not (is_empty input.url)) (plain "url is required")
  guard (not (is_empty input.goal && is_nil input.actions))
      (plain "goal is required when actions are empty")
  guard (not (is_negative input.max_retries)) (plain "max_retries cannot be negative")
  ok (added s input now)

-- `task, ok := s.items[id]; if !ok { return ErrTaskNotFound }`
unfoldable pub get : Service → String → Result Task
get s id = elim (lookup id s.items) [ none ↦ err task_not_found | some t ↦ ok t ]

-- `s.items[id] = task; return task, nil`
abbrev pub store : Service → String → Task → Result (Service × Task)
store s id t = ok (record s { items = insert id t s.items }, t)

unfoldable pub started : Task → StartInput → ℕ → Task
started task input now = record task {
  status = running;
  attempt = task.attempt + 1;
  node_id = input.node_id;
  started_at = some (time_or input.started now);
  next_retry_at = none;
  error_message = "";
  blocker_type = "";
  blocker_message = "";
  trace = [];
  extracted_outputs = [];
}

unfoldable pub start : Service → StartInput → ℕ → Result (Service × Task)
unfolding get started
start s input now = do
  task ← get s input.task_id
  guard (is_queued task.status) task_not_queued
  store s input.task_id (started task input now)

unfoldable pub retried : Task → RetryInput → ℕ → Task
retried task input now = record task {
  status = queued;
  node_id = "";
  next_retry_at = some (time_or input.retry_at now);
  error_message = input.last_error;
  blocker_type = "";
  blocker_message = "";
  trace = [];
  extracted_outputs = [];
}

unfoldable pub retry : Service → RetryInput → ℕ → Result (Service × Task)
unfolding get retried
retry s input now = do
  task ← get s input.task_id
  guard (not (is_canceled_status task.status)) task_not_cancelable
  store s input.task_id (retried task input now)

unfoldable pub completed_task : Task → CompleteInput → ℕ → Task
completed_task task input now = record task {
  status = completed;
  node_id = input.node_id;
  page_title = input.page_title;
  final_url = input.final_url;
  screenshot_base64 = input.screenshot_base64;
  screenshot_artifact_url = input.screenshot_artifact_url;
  blocker_type = "";
  blocker_message = "";
  error_message = "";
  next_retry_at = none;
  trace = input.trace;
  extracted_outputs = derive_extracted_outputs input.trace;
  completed_at = some (time_or input.completed now);
}

unfoldable pub complete : Service → CompleteInput → ℕ → Result (Service × Task)
unfolding get completed_task
complete s input now = do
  task ← get s input.task_id
  guard (not (is_canceled_status task.status)) task_not_cancelable
  store s input.task_id (completed_task task input now)

unfoldable pub failed_task : Task → FailInput → ℕ → Task
failed_task task input now = record task {
  status = failed;
  node_id = input.node_id;
  page_title = input.page_title;
  final_url = input.final_url;
  screenshot_base64 = input.screenshot;
  screenshot_artifact_url = input.screenshot_artifact_url;
  blocker_type = input.blocker_type;
  blocker_message = input.blocker_message;
  error_message = input.error;
  next_retry_at = none;
  trace = input.trace;
  extracted_outputs = derive_extracted_outputs input.trace;
  completed_at = some (time_or input.completed now);
}

unfoldable pub fail : Service → FailInput → ℕ → Result (Service × Task)
unfolding get failed_task
fail s input now = do
  task ← get s input.task_id
  guard (not (is_canceled_status task.status)) task_not_cancelable
  store s input.task_id (failed_task task input now)

unfoldable pub canceled_task : Task → CancelInput → ℕ → Task
canceled_task item input now = record item {
  status = canceled;
  node_id = "";
  next_retry_at = none;
  error_message =
      if is_empty (trim_space input.reason) then "task canceled" else trim_space input.reason;
  blocker_type = "";
  blocker_message = "";
  completed_at = some (time_or input.completed now);
}

unfoldable pub cancel : Service → CancelInput → ℕ → Result (Service × Task)
unfolding get canceled_task
cancel s input now = do
  item ← get s input.task_id
  guard (not (is_final item.status)) task_not_cancelable
  store s input.task_id (canceled_task item input now)

-- A history of calls: the service's mutex makes each of them one step.
pub data Call : Type 0 where
  creates : CreateInput → ℕ → Call
  starts : StartInput → ℕ → Call
  retries : RetryInput → ℕ → Call
  completes : CompleteInput → ℕ → Call
  fails : FailInput → ℕ → Call
  cancels : CancelInput → ℕ → Call

abbrev pub after : Service → Result (Service × Task) → Service
after s (ok (t, _)) = t
after s (err _) = s

abbrev pub perform : Service → Call → Result (Service × Task)
perform s (creates i now) = create s i now
perform s (starts i now) = start s i now
perform s (retries i now) = retry s i now
perform s (completes i now) = complete s i now
perform s (fails i now) = fail s i now
perform s (cancels i now) = cancel s i now

unfoldable pub step : Service → Call → Service
step s c = after s (perform s c)

unfoldable pub run : Service → List Call → Service
run s [] = s
run s (c ∷ cs) = run (step s c) cs
