-- ===== src/Api/Tests.antt =====
-- The API's handlers, limiter and middleware at concrete inputs.
use mathlib.Core.List.Permᴰ
use browser_use.Base.{
  ℕ, ◌+◌, length, ◌≤◌, ℤ, is_one_of, min, String, ◌≡◌, refl, true, false, Option, none, some, List,
  [], ◌∷◌, arith, pos, trim_space, is_space, trim_prefix, to_lower, split, lookup, insert, values,
  err, queue_full, Result, format_06d,
}
use browser_use.Task.Types.{Task, CreateInput, Status, queued, running, completed, failed, canceled}
use browser_use.Task.Service as Tasks
use browser_use.Task.Service.{Call, creates, created_task, task_id}
use browser_use.Task.Validity.{IsValid, new-IsValid, run-IsValid}
use browser_use.Task.Lifecycle.{lives}
use browser_use.Session
use browser_use.Api.Limiter.{new}
use browser_use.Api.Quota.{granted, asked, client_gets_its_quota}
use browser_use.Api.Security.{
  Request, Security, unauthorized, with_api_security, request_has_api_key,
  requires_create_auth_and_rate_limit,
}
use browser_use.Api.Routes.{task_by_id, dispatch, handle_task_by_id}
use browser_use.Api.Guarding.{unauthorized_never_starts}
use browser_use.Api.Tasks.{CreateTaskRequest, ReplayTaskRequest, Server}
use browser_use.Api.Handlers.{Between, create_and_queue_task, replay_task, cancel_task}
use browser_use.Api.Outcomes.{Created, Replayed, create_and_queue_task_lem, replay_task_lem}
use browser_use.Api.Cancels.{Canceled, cancel_task_lem}
use browser_use.Api.Listings.{query_number, get_replay_chain}
use browser_use.Api.Chains.{Answers, get_replay_chain_lem}
use browser_use.Api.Counting.{number}
use browser_use.Api.Rates.{of_status, task_stats_lem}
use browser_use.Api.Stats.{count_of, status_text, is_blocked, task_stats, handle_task_stats}
use browser_use.Task.Listing.{list_recent}

abbrev calls : List (String × ℕ)
calls = ("a", 12) ∷ ("b", 13) ∷ ("a", 14) ∷ (" a ", 15) ∷ ("a", 25) ∷ []

client_gets_its_quota_example :
    granted "a" 10 (new (pos 2) (pos 10)) calls ≡ min 2 (asked "a" 10 10 calls)
client_gets_its_quota_example =
    client_gets_its_quota (pos 2) (pos 10) "a" 10 calls
      (omega arith, (omega arith, (omega arith, (omega arith, (omega arith, tt)))))

-- What the tests compute with.
program : Unit {0}
unfolding Tasks.create Tasks.step Tasks.run task_id format_06d lookup insert trim_space is_space
    trim_prefix split requires_create_auth_and_rate_limit dispatch handle_task_by_id
    request_has_api_key is_one_of query_number to_lower
program = tt

abbrev host_of : String → Option String
host_of s = none

abbrev secured : Security
secured = record { required_api_key = "secret"; rate_limiter = none }

abbrev cancel_request : Request
cancel_request = record {
  method = "POST";
  path = "/v1/tasks/task_000001/cancel";
  api_key = "wrong";
  authorization = "";
  forwarded_for = "";
  remote_addr = "10.0.0.1:80";
}

unauthorized_never_starts_example :
    with_api_security host_of secured cancel_request 5 ≡ (secured, unauthorized)
unfolding program
unauthorized_never_starts_example =
    unauthorized_never_starts host_of secured task_by_id cancel_request 5
      ("task_000001/cancel", refl) refl refl refl

abbrev input : CreateInput
input = record {
  source_task_id = "";
  session_id = "sess_000001";
  url = "https://example.com";
  goal = "open";
  actions = [];
  max_retries = pos 2;
}

abbrev first_calls : List Call
first_calls = creates input 10 ∷ creates input 11 ∷ []

abbrev service : Tasks.Service
service = Tasks.run Tasks.new first_calls

service-IsValid : IsValid service
service-IsValid = (run-IsValid Tasks.new first_calls (omega arith) new-IsValid).0

abbrev server : Server
server = record { tasks = service; sessions = some Session.new; default_max_retries = pos 1 }

abbrev quoted : String → String
quoted s = s

abbrev refusing : Option (Result (Unit {0}))
refusing = some (err queue_full)

abbrev create_request : CreateTaskRequest
create_request = record {
  session_id = "";
  tenant_id = "";
  url = "https://example.com";
  goal = "read the title";
  actions = [];
  max_retries = none;
  wait_for_completion = none;
  wait_timeout_ms = pos 0;
}

-- While the handlers are between their steps, another caller creates a task.
abbrev between : Between
between = record { tasks = creates input 15 ∷ []; unchecked = []; checked = [] }

create_and_queue_task_lem_example :
    Created server between refusing []
      (create_and_queue_task quoted server false (some create_request) between refusing [] [] 20)
unfolding program
create_and_queue_task_lem_example =
    create_and_queue_task_lem quoted server between refusing [] 20 (omega arith) service-IsValid
      false (some create_request) []

abbrev replay_request : ReplayTaskRequest
replay_request = record {
  session_id = "";
  max_retries = none;
  create_new_session = true;
  tenant_id = "t";
}

replay_task_lem_example :
    Replayed server "task_000001" between refusing []
      (replay_task quoted server "task_000001" (some replay_request) between refusing [] 20)
unfolding program
replay_task_lem_example =
    replay_task_lem quoted server between refusing [] 20 (omega arith) service-IsValid "task_000001"
      (some replay_request)

abbrev first_task : Task
first_task = created_task input "task_000001" 10

cancel_task_lem_example :
    Canceled "task_000001" service
      (lives "task_000001" [] first_task)
      (cancel_task server "task_000001" [] 30)
    × ((cancel_task server "task_000001" [] 30).2 ≡ false)
unfolding program created_task
cancel_task_lem_example =
    cancel_task_lem server "task_000001" first_task [] 30 (omega arith) service-IsValid refl

abbrev no_number : String → Option ℤ
no_number s = none

get_replay_chain_lem_example :
    (20 ≤ 100)
    × Answers 20 service "task_000001" (get_replay_chain no_number service "task_000001" "")
unfolding program
get_replay_chain_lem_example = get_replay_chain_lem no_number service "task_000001" "" 20 refl

abbrev listed : List Task
listed = list_recent (values service.items) (pos 300)

task_stats_lem_example :
    (handle_task_stats no_number (values service.items) "" ≡ some (task_stats listed))
    × (length listed ≤ 300)
    × ((s : Status)
        → count_of (status_text s) (task_stats listed).counts.status_counts ≡ of_status s listed)
    × (of_status queued listed
          + of_status running listed
          + of_status completed listed
          + of_status failed listed
          + of_status canceled listed
        ≡ length listed)
    × ((task_stats listed).counts.terminal
        ≡ of_status completed listed + of_status failed listed + of_status canceled listed)
    × ((task_stats listed).counts.blocked ≡ number is_blocked listed)
    × ((task_stats listed).counts.blocked ≤ of_status failed listed)
    × ((task_stats listed).success_rate_percent ≤ 100)
    × ((task_stats listed).block_rate_percent ≤ 100)
unfolding program
task_stats_lem_example =
    task_stats_lem no_number first_calls (values service.items) "" 300
      (Permᴰ.refl (values service.items)) refl
