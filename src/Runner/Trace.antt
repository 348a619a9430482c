-- ===== src/Runner/Trace.antt =====
-- The data that the runner passes on (internal/taskrunner/runner.go, internal/nodeclient/client.go): the
-- actions it sends to a node, and the screenshots and traces it gets back.
use Prim.Native.String.{◌++◌}
use browser_use.Base.{
  ℕ, ◌+◌, max, String, not, ◌&&◌, Option, none, some, List, [], ◌∷◌, if◌then◌else◌, is_zero, ℤ, pos,
  negsuc, is_empty, trim_space, padded, Result, ok, err,
}
use browser_use.Task.Types
use browser_use.Task.Types.{Action, PlannerTraceMetadata}

-- nodeclient.Action and nodeclient.PlannerTraceMetadata have the fields of the task package's types.
pub record NodeAction : Type 0 where
  pub kind : String
  pub selector : String
  pub text : String
  pub pixels : ℤ
  pub timeout_ms : ℤ
  pub delay_ms : ℤ

pub record NodePlanner : Type 0 where
  pub mode : String
  pub round : ℤ
  pub failure_count : ℤ
  pub stop_reason : String

-- nodeclient.StepTrace: its times are values, the zero time where there is none.
pub record StepTrace : Type 0 where
  pub index : ℤ
  pub action : NodeAction
  pub status : String
  pub error : String
  pub output_text : String
  pub started_at : ℕ
  pub completed_at : ℕ
  pub duration_ms : ℤ
  pub screenshot_base64 : String
  pub screenshot_artifact_url : String
  pub planner : Option NodePlanner

pub record ExecuteOutput : Type 0 where
  pub page_title : String
  pub final_url : String
  pub screenshot_base64 : String
  pub blocker_type : String
  pub blocker_message : String
  pub trace : List StepTrace

unfoldable pub map_node_actions : List Action → List NodeAction
map_node_actions [] = []
map_node_actions (a ∷ actions) =
    record {
      kind = a.kind;
      selector = a.selector;
      text = a.text;
      pixels = a.pixels;
      timeout_ms = a.timeout_ms;
      delay_ms = a.delay_ms;
    }
    ∷ map_node_actions actions

unfoldable pub map_planner_trace_metadata : Option NodePlanner → Option PlannerTraceMetadata
map_planner_trace_metadata none = none
map_planner_trace_metadata (some meta) = some (record {
  mode = trim_space meta.mode;
  round = meta.round;
  failure_count = meta.failure_count;
  stop_reason = trim_space meta.stop_reason;
})

unfoldable pub utc_time_ptr : ℕ → Option ℕ
utc_time_ptr value = if is_zero value then none else some value

-- The larger of a signed number and a natural number, where the result is not negative.
abbrev pub max_int : ℤ → ℕ → ℕ
max_int (pos a) b = max a b
max_int (negsuc a) b = b

unfoldable pub first_non_empty : List String → String
first_non_empty [] = ""
first_non_empty (value ∷ values) =
    if not (is_empty (trim_space value)) then trim_space value else first_non_empty values

unfoldable pub trace_id_for_task : String → String
trace_id_for_task task_id =
    if is_empty (trim_space task_id) then "" else "trc_" ++ trim_space task_id

-- SaveScreenshotBase64 of the artifact store for a task id and a screenshot; `none` where the runner
-- has no artifact store.
abbrev pub Artifacts : Type 0
Artifacts = Option (String → String → Result String)

-- A screenshot with its URL as they are kept: what is saved is not kept inline.
abbrev saved : Result String → String → String → String × String
saved (ok url) screenshot old = ("", url)
saved (err e) screenshot old = (screenshot, old)

unfoldable pub persist_screenshot : Artifacts → String → String → String × String
persist_screenshot none task_id raw = (trim_space raw, "")
persist_screenshot (some save) task_id raw =
    if is_empty (trim_space raw)
    then (trim_space raw, "")
    else saved (save task_id (trim_space raw)) (trim_space raw) ""

-- The screenshot of a step; `mapped` is the number of steps before it.
unfoldable pub persist_step : Artifacts → String → StepTrace → ℕ → String × String
persist_step none task_id step mapped =
    (trim_space step.screenshot_base64, trim_space step.screenshot_artifact_url)
persist_step (some save) task_id step mapped =
    let screenshot = trim_space step.screenshot_base64 in
    let url = trim_space step.screenshot_artifact_url in
    let name = trim_space task_id ++ "-step-" ++ padded 3 (max_int step.index (mapped + 1)) in
    if not (is_empty screenshot) && is_empty url
    then saved (save name screenshot) screenshot url
    else (screenshot, url)

-- The loop of mapTaskTraceWithArtifacts after `mapped` steps.
unfoldable pub map_trace_loop : Artifacts → String → ℕ → List StepTrace → List Types.StepTrace
unfolding persist_step map_planner_trace_metadata utc_time_ptr
map_trace_loop artifacts task_id mapped [] = []
map_trace_loop artifacts task_id mapped (step ∷ trace) =
    let (screenshot, url) = persist_step artifacts task_id step mapped in
    record {
      index = step.index;
      action = record {
        kind = step.action.kind;
        selector = step.action.selector;
        text = step.action.text;
        pixels = step.action.pixels;
        timeout_ms = step.action.timeout_ms;
        delay_ms = step.action.delay_ms;
      };
      status = step.status;
      error = step.error;
      output_text = step.output_text;
      started_at = utc_time_ptr step.started_at;
      completed_at = utc_time_ptr step.completed_at;
      duration_ms = step.duration_ms;
      screenshot_base64 = screenshot;
      screenshot_artifact_url = url;
      planner = map_planner_trace_metadata step.planner;
    }
    ∷ map_trace_loop artifacts task_id (mapped + 1) trace

unfoldable pub map_task_trace_with_artifacts :
    Artifacts → String → List StepTrace → List Types.StepTrace
unfolding map_trace_loop
map_task_trace_with_artifacts artifacts task_id trace = map_trace_loop artifacts task_id 0 trace
