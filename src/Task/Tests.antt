-- ===== src/Task/Tests.antt =====
-- The task service at concrete inputs.
use mathlib.Core.List.Permᴰ
use browser_use.Base.{
  ◌≤◌, ◌+◌, String, ◌≡◌, refl, some, none, List, [], ◌∷◌, arith, if◌then◌else◌, str_eq, take, pos,
  positive_or, trim_space, is_space, lookup, insert, values, task_not_queued, task_not_cancelable,
  ok, err, format_06d,
}
use browser_use.Task.Types.{
  Task, StepTrace, CreateInput, StartInput, RetryInput, CompleteInput, FailInput, CancelInput,
  queued,
}
use browser_use.Task.Service.{
  Service, new, task_id, create, start, retry, complete, fail, cancel, Call, creates, starts,
  retries, cancels, added, step, run,
}
use browser_use.Task.Outputs.{
  derive_extracted_outputs, first_uses, texts, derive_extracted_outputs_lem,
}
use browser_use.Task.Validity.{IsValid, step-IsValid, run-IsValid, new-IsValid, create_adds}
use browser_use.Task.Lifecycle.{effect, lives, run-lives, canceled_is_final}
use browser_use.Task.Attempts.{pending, retries_of, attempts_bounded, start_is_exclusive}
use browser_use.Task.Listing.{IsQueueStart, list_queued, list_queued_lem}

-- What the tests compute with.
program : Unit {0}
unfolding create start retry complete fail cancel step run task_id format_06d lookup insert
program = tt

abbrev input : CreateInput
input = record {
  source_task_id = "task_src";
  session_id = "sess_000001";
  url = "https://example.com";
  goal = "open";
  actions = [];
  max_retries = pos 2;
}

abbrev first_calls : List Call
first_calls = creates input 10 ∷ creates input 11 ∷ []

abbrev service : Service
service = run new first_calls

abbrev begin_first : StartInput
begin_first = record { task_id = "task_000001"; node_id = "n1"; started = 20 }

abbrev again : RetryInput
again = record { task_id = "task_000002"; retry_at = 30; last_error = "eof" }

abbrev stop_first : CancelInput
stop_first = record { task_id = "task_000001"; reason = " "; completed = 40; canceled_by = "me" }

abbrev complete_first : CompleteInput
complete_first = record {
  task_id = "task_000001";
  node_id = "n1";
  completed = 50;
  page_title = "";
  final_url = "";
  screenshot_base64 = "";
  screenshot_artifact_url = "";
  trace = [];
}

abbrev fail_first : FailInput
fail_first = record {
  task_id = "task_000001";
  node_id = "n1";
  completed = 50;
  error = "x";
  page_title = "";
  final_url = "";
  screenshot = "";
  screenshot_artifact_url = "";
  blocker_type = "";
  blocker_message = "";
  trace = [];
}

service-IsValid : IsValid service
service-IsValid = (run-IsValid new first_calls (omega arith) new-IsValid).0

abbrev step_of : String → StepTrace
step_of s = record {
  index = pos 1;
  action = record {
    kind = "extract_text";
    selector = "h1";
    text = "";
    pixels = pos 0;
    timeout_ms = pos 0;
    delay_ms = pos 0;
  };
  status = "ok";
  error = "";
  output_text = s;
  started_at = none;
  completed_at = none;
  duration_ms = pos 0;
  screenshot_base64 = "";
  screenshot_artifact_url = "";
  planner = none;
}

abbrev trace : List StepTrace
trace = step_of " a " ∷ step_of "" ∷ step_of "b" ∷ step_of "a" ∷ []

outputs_of_trace : derive_extracted_outputs trace ≡ "a" ∷ "b" ∷ []
unfolding derive_extracted_outputs trim_space is_space lookup insert
outputs_of_trace = refl

derive_extracted_outputs_lem_example :
    derive_extracted_outputs trace ≡ take 20 (first_uses [] (texts trace))
derive_extracted_outputs_lem_example = derive_extracted_outputs_lem trace

step-IsValid_example :
    IsValid (step service (starts begin_first 20))
    × ((step service (starts begin_first 20)).counter ≤ service.counter + 1)
unfolding program added
step-IsValid_example = step-IsValid service (starts begin_first 20) (omega arith) service-IsValid

create_adds_example :
    let s = run new first_calls in
    (n : Service) × (t : Task) × (create s input 12 ≡ ok (n, t))
    × (lookup t.id s.items ≡ none)
    × (t.status ≡ queued)
    × (t.attempt ≡ 0)
    × ((k : String) → lookup k n.items ≡ (if str_eq t.id k then some t else lookup k s.items))
create_adds_example = create_adds first_calls input 12 (omega arith) refl refl refl refl

abbrev first_task : Task
first_task = (added new input 10).1

first_is_stored : lookup "task_000001" service.items ≡ some first_task
unfolding program added
first_is_stored = refl

abbrev busy_calls : List Call
busy_calls = starts begin_first 20 ∷ retries again 21 ∷ []

run-lives_example :
    lookup "task_000001" (run service busy_calls).items
    ≡ some (lives "task_000001" busy_calls first_task)
unfolding program added
run-lives_example =
    run-lives service busy_calls "task_000001" first_task (omega arith) service-IsValid
      first_is_stored

attempts_bounded_example :
    (u : Task) × (lookup "task_000001" (run service busy_calls).items ≡ some u)
    × (u.attempt ≤ first_task.attempt + pending first_task + retries_of "task_000001" busy_calls)
unfolding program added
attempts_bounded_example =
    attempts_bounded service busy_calls "task_000001" first_task (omega arith) service-IsValid
      first_is_stored

abbrev stopped : Service
stopped = step service (cancels stop_first 40)

abbrev stopped_task : Task
stopped_task = effect "task_000001" (cancels stop_first 40) first_task

stopped_is_stored : lookup "task_000001" stopped.items ≡ some stopped_task
unfolding program added effect
stopped_is_stored = refl

canceled_is_final_example :
    (lookup "task_000001" (run stopped busy_calls).items ≡ some stopped_task)
    × (start (run stopped busy_calls) begin_first 60 ≡ err task_not_queued)
    × (retry (run stopped busy_calls) (record again { task_id = "task_000001" }) 60
        ≡ err task_not_cancelable)
    × (complete (run stopped busy_calls) complete_first 60 ≡ err task_not_cancelable)
    × (fail (run stopped busy_calls) fail_first 60 ≡ err task_not_cancelable)
    × (cancel (run stopped busy_calls) stop_first 60 ≡ err task_not_cancelable)
unfolding program added effect
canceled_is_final_example =
    canceled_is_final stopped busy_calls stopped_task 60 begin_first
      (record again { task_id = "task_000001" }) complete_first fail_first stop_first (omega arith)
      (step-IsValid service (cancels stop_first 40) (omega arith) service-IsValid).0
      stopped_is_stored refl refl refl refl refl

start_is_exclusive_example :
    start (run (step service (starts begin_first 20)) (retries again 21 ∷ [])) begin_first 22
    ≡ err task_not_queued
unfolding program added
start_is_exclusive_example =
    start_is_exclusive service (step service (starts begin_first 20)) begin_first begin_first 20 22
      (effect "task_000001" (starts begin_first 20) first_task) (retries again 21 ∷ [])
      service-IsValid (omega arith) (unfold effect in refl) refl refl

list_queued_lem_example :
    IsQueueStart 50
      (positive_or (pos 1) 100)
      (values service.items)
      (list_queued (values service.items) (pos 1) 50)
list_queued_lem_example =
    list_queued_lem service (values service.items) (pos 1) 50 (Permᴰ.refl (values service.items))
