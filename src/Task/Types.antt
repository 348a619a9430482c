-- ===== src/Task/Types.antt =====
-- The data of internal/task/service.go: statuses, actions, traces, tasks and the inputs of the calls.
use browser_use.Base.{ℕ, String, Bool, true, false, Option, List, ℤ}

pub data Status : Type 0 where
  queued running completed failed canceled : Status

abbrev pub is_queued : Status → Bool
is_queued queued = true
is_queued _ = false

abbrev pub is_running : Status → Bool
is_running running = true
is_running _ = false

abbrev pub is_canceled_status : Status → Bool
is_canceled_status canceled = true
is_canceled_status _ = false

-- `item.Status == StatusCompleted || … == StatusFailed || … == StatusCanceled`
abbrev pub is_final : Status → Bool
is_final completed = true
is_final failed = true
is_final canceled = true
is_final _ = false

pub record Action : Type 0 where
  pub kind : String
  pub selector : String
  pub text : String
  pub pixels : ℤ
  pub timeout_ms : ℤ
  pub delay_ms : ℤ

pub record PlannerTraceMetadata : Type 0 where
  pub mode : String
  pub round : ℤ
  pub failure_count : ℤ
  pub stop_reason : String

pub record StepTrace : Type 0 where
  pub index : ℤ
  pub action : Action
  pub status : String
  pub error : String
  pub output_text : String
  pub started_at : Option ℕ
  pub completed_at : Option ℕ
  pub duration_ms : ℤ
  pub screenshot_base64 : String
  pub screenshot_artifact_url : String
  pub planner : Option PlannerTraceMetadata

pub record Task : Type 0 where
  pub id : String
  pub source_task_id : String
  pub session_id : String
  pub url : String
  pub goal : String
  pub actions : List Action
  pub trace : List StepTrace
  pub extracted_outputs : List String
  pub status : Status
  pub attempt : ℕ
  pub max_retries : ℤ
  pub next_retry_at : Option ℕ
  pub node_id : String
  pub page_title : String
  pub final_url : String
  pub screenshot_base64 : String
  pub screenshot_artifact_url : String
  pub blocker_type : String
  pub blocker_message : String
  pub error_message : String
  pub created_at : ℕ
  pub started_at : Option ℕ
  pub completed_at : Option ℕ

pub record CreateInput : Type 0 where
  pub source_task_id : String
  pub session_id : String
  pub url : String
  pub goal : String
  pub actions : List Action
  pub max_retries : ℤ

pub record StartInput : Type 0 where
  pub task_id : String
  pub node_id : String
  pub started : ℕ

pub record RetryInput : Type 0 where
  pub task_id : String
  pub retry_at : ℕ
  pub last_error : String

pub record CompleteInput : Type 0 where
  pub task_id : String
  pub node_id : String
  pub completed : ℕ
  pub page_title : String
  pub final_url : String
  pub screenshot_base64 : String
  pub screenshot_artifact_url : String
  pub trace : List StepTrace

pub record FailInput : Type 0 where
  pub task_id : String
  pub node_id : String
  pub completed : ℕ
  pub error : String
  pub page_title : String
  pub final_url : String
  pub screenshot : String
  pub screenshot_artifact_url : String
  pub blocker_type : String
  pub blocker_message : String
  pub trace : List StepTrace

pub record CancelInput : Type 0 where
  pub task_id : String
  pub reason : String
  pub completed : ℕ
  pub canceled_by : String
