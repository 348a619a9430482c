-- ===== src/Runner/Process.antt =====
-- processTask and the ways a task ends (internal/taskrunner/runner.go). `begin` is the part before a node is
-- acquired and `conclude` the part after: cancellations come between them.
use Prim.Native.String.{◌++◌}
use browser_use.Base.{
  ℕ, ◌+◌, String, Bool, not, Option, none, some, List, [], ◌∷◌, if◌then◌else◌, is_empty, trim_space,
  format_rfc3339, Error, plain, wrapped, error_text, is_not_queued, is_not_cancelable, ok, err,
}
use browser_use.Task.Types.{StepTrace, Task, FailInput, CompleteInput, is_queued}
use browser_use.Task.Service
use browser_use.Task.Service.{Service, Call}
use browser_use.Runner.Domains.{Hosts, Blocked, is_domain_blocked, mark_domain_blocked}
use browser_use.Runner.Retry.{Delays, should_retry, retry_delay}
use browser_use.Runner.Trace.{
  ExecuteOutput, Artifacts, first_non_empty, persist_screenshot, map_task_trace_with_artifacts,
}

-- What a worker shares with the others: the tasks and the blocked domains.
pub record World : Type 0 where
  pub tasks : Service
  pub blocked : Blocked

pub record Config : Type 0 where
  pub delays : Delays
  pub domain_block_cooldown : ℕ

pub record FailureEvidence : Type 0 where
  pub page_title : String
  pub final_url : String
  pub screenshot_base64 : String
  pub screenshot_artifact_url : String
  pub blocker_type : String
  pub blocker_message : String
  pub trace : List StepTrace

abbrev pub no_evidence : FailureEvidence
no_evidence = record {
  page_title = "";
  final_url = "";
  screenshot_base64 = "";
  screenshot_artifact_url = "";
  blocker_type = "";
  blocker_message = "";
  trace = [];
}

-- What comes of asking for a node and of the execution on it: no node; an error of the execution, with
-- the output that errors.As finds in it and whether the lease was lost; or an output, and whether the
-- lease was lost, which processTask does not look at then.
pub data Outcome : Type 0 where
  no_node : Error → Outcome
  broken : String → Error → Option ExecuteOutput → Bool → Outcome
  finished : String → ExecuteOutput → Bool → Outcome

unfoldable pub fail_input : String → String → Error → FailureEvidence → ℕ → FailInput
fail_input task_id node_id e evidence now = record {
  task_id = task_id;
  node_id = node_id;
  completed = now;
  error = error_text e;
  page_title = evidence.page_title;
  final_url = evidence.final_url;
  screenshot = evidence.screenshot_base64;
  screenshot_artifact_url = evidence.screenshot_artifact_url;
  blocker_type = evidence.blocker_type;
  blocker_message = evidence.blocker_message;
  trace = evidence.trace;
}

-- The service after a Fail whose answer is not looked at.
unfoldable pub fail_task_with_evidence :
    Service → String → String → Error → FailureEvidence → ℕ → Service
unfolding fail_input
fail_task_with_evidence s task_id node_id e evidence now =
    Service.after s (Service.fail s (fail_input task_id node_id e evidence now) now)

unfoldable pub fail_task : Service → String → String → Error → ℕ → Service
unfolding fail_task_with_evidence
fail_task s task_id node_id e now = fail_task_with_evidence s task_id node_id e no_evidence now

abbrev pub blocker_text : String → String
blocker_text message =
    if is_empty (trim_space message) then "blocking challenge detected" else trim_space message

module _ (hosts : Hosts) (artifacts : Artifacts) (cfg : Config) where
  -- The task that was started, if this worker goes on with it. `before` are the calls of others between the
  -- Get and the Start, `after` those between the Start and the Fail; `w.blocked` is what isDomainBlocked finds.
  unfoldable pub begin : World → String → List Call → List Call → ℕ → World × Option Task
  unfolding fail_task fail_task_with_evidence
  begin w task_id before after now = elim (Service.get w.tasks task_id) [
    | err e ↦ (w, none)
    | ok found ↦
        let seen = Service.run w.tasks before in
        if not (is_queued found.status)
        then (w, none)
        else elim (Service.start seen (record { task_id = found.id; node_id = ""; started = now })
            now) [
              | err e ↦ if is_not_queued e then (record w { tasks = seen }, none) else (
                record w {
                  tasks = fail_task seen found.id "" (wrapped "failed to start task" e) now;
                },
                none,
              )
              | ok (s, started) ↦
                  let (blocked, active) = is_domain_blocked hosts w.blocked started.url now in
                  elim active [
                    | none ↦ (record { tasks = s; blocked = blocked }, some started)
                    | some (domain, until) ↦ (
                      record {
                        tasks =
                            fail_task_with_evidence (Service.run s after) started.id ""
                              (plain (
                                "blocked (domain_cooldown): domain "
                                ++ domain
                                ++ " is in cooldown until "
                                ++ format_rfc3339 until))
                              (record no_evidence {
                                final_url = started.url;
                                blocker_type = "domain_cooldown";
                                blocker_message =
                                    "domain blocked after recent challenge; retry after cooldown";
                              })
                              now;
                        blocked = blocked;
                      },
                      none,
                    )
                  ]
            ]
  ]

  -- With the delay after which the task is enqueued again, if it is to be.
  unfoldable pub handle_execution_failure_with_evidence :
      World → Task → String → Error → FailureEvidence → ℕ → World × Option ℕ
  unfolding fail_task fail_task_with_evidence
  handle_execution_failure_with_evidence w t node_id e evidence now =
      let message = blocker_text evidence.blocker_message in
      let delay = retry_delay cfg.delays t.attempt in
      if not (is_empty (trim_space evidence.blocker_type))
      then (
        record {
          tasks =
              fail_task_with_evidence w.tasks t.id node_id
                (plain ("blocked (" ++ evidence.blocker_type ++ "): " ++ message)) evidence now;
          blocked =
              mark_domain_blocked hosts cfg.domain_block_cooldown w.blocked
                (first_non_empty (evidence.final_url ∷ t.url ∷ [])) evidence.blocker_type now;
        },
        none,
      )
      else if should_retry t e
      then elim (Service.retry w.tasks
          (record { task_id = t.id; retry_at = now + delay; last_error = error_text e }) now) [
            | err f ↦ (
              record w {
                tasks = fail_task w.tasks t.id node_id (wrapped "retry scheduling failed" f) now;
              },
              none,
            )
            | ok (s, retried) ↦ (record w { tasks = s }, some delay)
          ]
      else (record w { tasks = fail_task_with_evidence w.tasks t.id node_id e evidence now }, none)

  unfoldable pub handle_execution_failure : World → Task → String → Error → ℕ → World × Option ℕ
  unfolding handle_execution_failure_with_evidence
  handle_execution_failure w t node_id e now =
      handle_execution_failure_with_evidence w t node_id e no_evidence now

  unfoldable pub evidence_of : String → ExecuteOutput → String → FailureEvidence
  evidence_of task_id output message =
      let (screenshot, url) = persist_screenshot artifacts task_id output.screenshot_base64 in
      record {
        page_title = output.page_title;
        final_url = output.final_url;
        screenshot_base64 = screenshot;
        screenshot_artifact_url = url;
        blocker_type = output.blocker_type;
        blocker_message = message;
        trace = map_task_trace_with_artifacts artifacts task_id output.trace;
      }

  unfoldable pub complete_input : String → String → ExecuteOutput → ℕ → CompleteInput
  complete_input task_id node_id result now =
      let (screenshot, url) = persist_screenshot artifacts task_id result.screenshot_base64 in
      record {
        task_id = task_id;
        node_id = node_id;
        completed = now;
        page_title = result.page_title;
        final_url = result.final_url;
        screenshot_base64 = screenshot;
        screenshot_artifact_url = url;
        trace = map_task_trace_with_artifacts artifacts task_id result.trace;
      }

  -- A node's answer without an error.
  unfoldable pub conclude_finished : World → Task → String → ExecuteOutput → ℕ → World
  unfolding fail_task fail_task_with_evidence evidence_of complete_input
  conclude_finished w t node_id result now =
      let message = blocker_text result.blocker_message in
      if not (is_empty result.blocker_type)
      then record {
        blocked =
            mark_domain_blocked hosts cfg.domain_block_cooldown w.blocked
              (first_non_empty (result.final_url ∷ t.url ∷ [])) result.blocker_type now;
        tasks =
            fail_task_with_evidence w.tasks t.id node_id
              (plain ("blocked (" ++ result.blocker_type ++ "): " ++ message))
              (evidence_of t.id result message) now;
      }
      else elim (Service.complete w.tasks (complete_input t.id node_id result now) now) [
        | ok (s, c) ↦ record w { tasks = s }
        | err e ↦ if is_not_cancelable e then w else record w {
          tasks = fail_task w.tasks t.id node_id (wrapped "failed to complete task" e) now;
        }
      ]

  unfoldable pub conclude : World → Task → Outcome → ℕ → World × Option ℕ
  unfolding handle_execution_failure handle_execution_failure_with_evidence conclude_finished
      evidence_of
  conclude w t (no_node e) now = handle_execution_failure w t "" (wrapped "no node available" e) now
  conclude w t (broken node_id e output lost) now =
      let cause = if lost then plain "lease ownership lost during execution" else e in
      let found = if lost then none else output in
      let evidence : FailureEvidence = elim found [
        | none ↦ no_evidence
        | some o ↦ evidence_of t.id o o.blocker_message
      ] in
      handle_execution_failure_with_evidence w t node_id (wrapped "node execution failed" cause)
        evidence now
  conclude w t (finished node_id result lost) now = (conclude_finished w t node_id result now, none)
