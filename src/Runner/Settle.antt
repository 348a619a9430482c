-- ===== src/Runner/Settle.antt =====
-- What becomes of a task whose execution has ended (internal/taskrunner/runner.go).
use browser_use.Base.{
  ℕ, ◌+◌, ◌≤◌, String, ◌≡◌, refl, inl, inr, Bool, true, false, not, Option, none, some, arith,
  if◌then◌else◌, Bool-cases, is_empty, trim_space, lookup, insert, Error, plain, wrapped,
  error_text, task_not_cancelable, ok, err, pos,
}
use browser_use.Task.Types.{
  Status, queued, completed, failed, is_canceled_status, Task, RetryInput, CompleteInput,
}
use browser_use.Task.Service.{
  Service, get, fail, failed_task, retry, retried, complete, completed_task,
}
use browser_use.Runner.Domains.{Hosts}
use browser_use.Runner.Retry.{should_retry, should_retry-attempt, retry_delay}
use browser_use.Runner.Trace.{ExecuteOutput, Artifacts}
use browser_use.Runner.Process.{
  World, Config, FailureEvidence, no_evidence, fail_input, complete_input, Outcome, no_node, broken,
  finished, fail_task, fail_task_with_evidence, handle_execution_failure,
  handle_execution_failure_with_evidence, evidence_of, conclude_finished, conclude,
}

-- Where a task belongs after an outcome: a blocker found by the node fails it, an error that is worth
-- a retry queues it again, any other error fails it, and the rest is completed.
unfoldable pub verdict : Task → Outcome → Status
verdict t (no_node e) = if should_retry t (wrapped "no node available" e) then queued else failed
verdict t (broken node_id e output true) =
    if should_retry t
      (wrapped "node execution failed" (plain "lease ownership lost during execution"))
    then queued
    else failed
verdict t (broken node_id e none false) =
    if should_retry t (wrapped "node execution failed" e) then queued else failed
verdict t (broken node_id e (some o) false) =
    if not (is_empty (trim_space o.blocker_type))
    then failed
    else if should_retry t (wrapped "node execution failed" e)
    then queued
    else failed
verdict t (finished node_id o lost) = if not (is_empty o.blocker_type) then failed else completed

-- `some x` for a task that is queued again.
abbrev pub if_queued : Status → ℕ → Option ℕ
if_queued queued x = some x
if_queued _ x = none

unfoldable pub put : Service → String → Task → Service
put s k d = record s { items = insert k d s.items }

-- The service `n` is `s` but for the task `k`, once `c`, which has reached the status `want` with the same
-- attempt and the given time of its next start.
pub record Reached (s n : Service) (k : String) (c : Task) (want : Status) (at : Option ℕ)
    : Type 0 where
  pub task : Task
  pub stored : n ≡ put s k task
  pub reached : task.status ≡ want
  pub same_attempt : task.attempt ≡ c.attempt
  pub due : task.next_retry_at ≡ at

module _ (s : Service) (k : String) (c : Task) (h : lookup k s.items ≡ some c) where
  pub fail-Reached :
      (node_id : String) (e : Error) (v : FailureEvidence) (now : ℕ)
      → is_canceled_status c.status ≡ false
      → Reached s (fail_task_with_evidence s k node_id e v now) k c failed none
  unfolding fail_task_with_evidence fail get failed_task put
  fail-Reached node_id e v now a = record {
    task = failed_task c (fail_input k node_id e v now) now;
    stored = ground arith;
    reached = refl;
    same_attempt = refl;
    due = refl;
  }

  pub fail_unchanged :
      (node_id : String) (e : Error) (v : FailureEvidence) (now : ℕ)
      → is_canceled_status c.status ≡ true
      → fail_task_with_evidence s k node_id e v now ≡ s
  unfolding fail_task_with_evidence fail get
  fail_unchanged node_id e v now a = ground arith

  retry_ok :
      (i : RetryInput) (now : ℕ)
      → is_canceled_status c.status ≡ false
      → i.task_id ≡ k
      → retry s i now ≡ ok (put s k (retried c i now), retried c i now)
  unfolding retry get retried put
  retry_ok i now a e = ground arith

  retry_refused :
      (i : RetryInput) (now : ℕ)
      → is_canceled_status c.status ≡ true
      → i.task_id ≡ k
      → retry s i now ≡ err task_not_cancelable
  unfolding retry get
  retry_refused i now a e = ground arith

  complete_ok :
      (i : CompleteInput) (now : ℕ)
      → is_canceled_status c.status ≡ false
      → i.task_id ≡ k
      → complete s i now ≡ ok (put s k (completed_task c i now), completed_task c i now)
  unfolding complete get put
  complete_ok i now a e = ground arith

  complete_refused :
      (i : CompleteInput) (now : ℕ)
      → is_canceled_status c.status ≡ true
      → i.task_id ≡ k
      → complete s i now ≡ err task_not_cancelable
  unfolding complete get
  complete_refused i now a e = ground arith

retried-due :
    (c : Task) (i : RetryInput) (now delay : ℕ)
    → i.retry_at ≡ now + delay
    → (retried c i now).next_retry_at ≡ some (now + delay)
unfolding retried
retried-due c i now delay e = ground arith

module _ (hosts : Hosts) (artifacts : Artifacts) (cfg : Config) where
  module _ (w : World) (t c : Task) (h : lookup t.id w.tasks.items ≡ some c) (now : ℕ) where
    failure-Reached :
        (node_id : String) (e : Error) (v : FailureEvidence)
        → is_canceled_status c.status ≡ false
        → let (u, again) =
            handle_execution_failure_with_evidence hosts artifacts cfg w t node_id e v now in
          let want =
            if not (is_empty (trim_space v.blocker_type))
            then failed
            else if should_retry t e
            then queued
            else failed in
          let delay = retry_delay cfg.delays t.attempt in
          Reached w.tasks u.tasks t.id c want (if_queued want (now + delay))
          × (again ≡ if_queued want delay)
    unfolding handle_execution_failure_with_evidence
    failure-Reached node_id e v a = elim (Bool-cases (is_empty (trim_space v.blocker_type))) [
      | inr b ↦ rw b (fail-Reached w.tasks t.id c h node_id _ v now a, refl)
      | inl b ↦ elim (Bool-cases (should_retry t e)) [
        | inr r ↦ rw (b, r) (fail-Reached w.tasks t.id c h node_id e v now a, refl)
        | inl r ↦
            let delay = retry_delay cfg.delays t.attempt in
            let i : RetryInput = record {
              task_id = t.id;
              retry_at = now + delay;
              last_error = error_text e;
            } in
            let done = retry_ok w.tasks t.id c h i now a refl in
            let there : Reached w.tasks (put w.tasks t.id (retried c i now)) t.id c queued
                (some (now + delay)) =
              unfold retried in
              record {
                task = retried c i now;
                stored = refl;
                reached = refl;
                same_attempt = refl;
                due = retried-due c i now delay refl;
              } in
            rw (b, r, done) (there, refl)
      ]
    ]

    failure_unchanged :
        (node_id : String) (e : Error) (v : FailureEvidence)
        → is_canceled_status c.status ≡ true
        → let (u, again) =
            handle_execution_failure_with_evidence hosts artifacts cfg w t node_id e v now in
          (u.tasks ≡ w.tasks) × (again ≡ none)
    unfolding handle_execution_failure_with_evidence fail_task
    failure_unchanged node_id e v a = elim (Bool-cases (is_empty (trim_space v.blocker_type))) [
      | inr b ↦ rw b (fail_unchanged w.tasks t.id c h node_id _ v now a, refl)
      | inl b ↦ elim (Bool-cases (should_retry t e)) [
        | inr r ↦ rw (b, r) (fail_unchanged w.tasks t.id c h node_id e v now a, refl)
        | inl r ↦
            let delay = retry_delay cfg.delays t.attempt in
            let i : RetryInput = record {
              task_id = t.id;
              retry_at = now + delay;
              last_error = error_text e;
            } in
            rw (b, r, retry_refused w.tasks t.id c h i now a refl)
              (fail_unchanged w.tasks t.id c h node_id _ no_evidence now a, refl)
      ]
    ]

    finished-Reached :
        (node_id : String) (o : ExecuteOutput)
        → is_canceled_status c.status ≡ false
        → Reached w.tasks
            (conclude_finished hosts artifacts cfg w t node_id o now).tasks
            t.id
            c
            (if not (is_empty o.blocker_type) then failed else completed)
            none
    unfolding conclude_finished
    finished-Reached node_id o a = elim (Bool-cases (is_empty o.blocker_type)) [
      | inr b ↦ rw b (fail-Reached w.tasks t.id c h node_id _ _ now a)
      | inl b ↦
          let i = complete_input hosts artifacts cfg t.id node_id o now in
          let there : Reached w.tasks (put w.tasks t.id (completed_task c i now)) t.id c completed
              none =
            unfold completed_task in
            record {
              task = completed_task c i now;
              stored = refl;
              reached = refl;
              same_attempt = refl;
              due = refl;
            } in
          rw (b, complete_ok w.tasks t.id c h i now a refl) there
    ]

    finished_unchanged :
        (node_id : String) (o : ExecuteOutput)
        → is_canceled_status c.status ≡ true
        → (conclude_finished hosts artifacts cfg w t node_id o now).tasks ≡ w.tasks
    unfolding conclude_finished
    finished_unchanged node_id o a = elim (Bool-cases (is_empty o.blocker_type)) [
      | inr b ↦ rw b (fail_unchanged w.tasks t.id c h node_id _ _ now a)
      | inl b ↦
          let i = complete_input hosts artifacts cfg t.id node_id o now in
          rw (b, complete_refused w.tasks t.id c h i now a refl) refl
    ]

  conclude-Reached :
      (w : World) (t c : Task) (o : Outcome) (now : ℕ)
      → lookup t.id w.tasks.items ≡ some c
      → is_canceled_status c.status ≡ false
      → let (u, again) = conclude hosts artifacts cfg w t o now in
        let delay = retry_delay cfg.delays t.attempt in
        Reached w.tasks u.tasks t.id c (verdict t o) (if_queued (verdict t o) (now + delay))
        × (again ≡ if_queued (verdict t o) delay)
  unfolding conclude verdict evidence_of handle_execution_failure trim_space
  conclude-Reached w t c (no_node e) now h a =
      failure-Reached w t c h now "" (wrapped "no node available" e) no_evidence a
  conclude-Reached w t c (broken node_id e none false) now h a =
      failure-Reached w t c h now node_id (wrapped "node execution failed" e) no_evidence a
  conclude-Reached w t c (broken node_id e (some o) false) now h a =
      failure-Reached w t c h now node_id (wrapped "node execution failed" e) _ a
  conclude-Reached w t c (broken node_id e o true) now h a =
      failure-Reached w t c h now node_id
        (wrapped "node execution failed" (plain "lease ownership lost during execution"))
        no_evidence a
  conclude-Reached w t c (finished node_id o lost) now h a =
      let r = finished-Reached w t c h now node_id o a in
      elim (Bool-cases (is_empty o.blocker_type)) [
        | inr b ↦ rw b (rw b at r, refl)
        | inl b ↦ rw b (rw b at r, refl)
      ]

  conclude_unchanged :
      (w : World) (t c : Task) (o : Outcome) (now : ℕ)
      → lookup t.id w.tasks.items ≡ some c
      → is_canceled_status c.status ≡ true
      → let (u, again) = conclude hosts artifacts cfg w t o now in
        (u.tasks ≡ w.tasks) × (again ≡ none)
  unfolding conclude evidence_of handle_execution_failure
  conclude_unchanged w t c (no_node e) now h a = failure_unchanged w t c h now "" _ _ a
  conclude_unchanged w t c (broken node_id e none false) now h a =
      failure_unchanged w t c h now node_id _ _ a
  conclude_unchanged w t c (broken node_id e (some o) false) now h a =
      failure_unchanged w t c h now node_id _ _ a
  conclude_unchanged w t c (broken node_id e o true) now h a =
      failure_unchanged w t c h now node_id _ _ a
  conclude_unchanged w t c (finished node_id o lost) now h a =
      (finished_unchanged w t c h now node_id o a, refl)

  -- What the worker does with a stored task whose execution has ended, whatever has happened to it since it was
  -- started. If the task is not canceled, it is stored with the status that the outcome calls for
  -- (completed; failed for a blocker or an error that is not retried; queued for one that is), with as
  -- many attempts as before and a time of its next start just when it is queued: the retry delay of the
  -- started attempt from now, after which it is enqueued again. If it is canceled, the service is left as
  -- it is and nothing is enqueued. No other task changes in either case. Whether the lease on the node was
  -- lost decides only for an execution that ended with an error: a result without one is stored also then.
  pub conclude_lem :
      (w : World) (t c : Task) (o : Outcome) (now : ℕ)
      → lookup t.id w.tasks.items ≡ some c
      → let (u, again) = conclude hosts artifacts cfg w t o now in
        let delay = retry_delay cfg.delays t.attempt in
        (is_canceled_status c.status ≡ false
          → Reached w.tasks u.tasks t.id c (verdict t o) (if_queued (verdict t o) (now + delay))
            × (again ≡ if_queued (verdict t o) delay))
        × (is_canceled_status c.status ≡ true → (u.tasks ≡ w.tasks) × (again ≡ none))
  conclude_lem w t c o now h = (conclude-Reached w t c o now h, conclude_unchanged w t c o now h)

asked : (b : Bool) → (if b then queued else failed) ≡ queued → b ≡ true
asked b h = ground arith

-- A task is queued again only while it has retries left: its number of retries is not negative, and its
-- started attempt is not beyond it.
pub requeued_has_retries :
    (t : Task) (o : Outcome)
    → verdict t o ≡ queued
    → (n : ℕ) × (t.max_retries ≡ pos n) × (t.attempt ≤ n)
unfolding verdict
requeued_has_retries t (no_node e) h = should_retry-attempt t _ (asked _ h)
requeued_has_retries t (broken node_id e output true) h = should_retry-attempt t _ (asked _ h)
requeued_has_retries t (broken node_id e none false) h = should_retry-attempt t _ (asked _ h)
requeued_has_retries t (broken node_id e (some o) false) h =
    elim (Bool-cases (is_empty (trim_space o.blocker_type))) [
      | inr b ↦ absurd (ground arith)
      | inl b ↦ should_retry-attempt t _ (asked _ (rw b at h))
    ]
requeued_has_retries t (finished node_id o lost) h = absurd (ground arith)
