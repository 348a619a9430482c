-- ===== src/Runner/Scenarios.antt =====
-- The runner's nodes, settings and tasks at concrete inputs.
use browser_use.Base.{
  ℕ, ◌+◌, ◌*◌, String, ◌≡◌, refl, ◌≢◌, true, false, none, some, List, [], ◌∷◌, arith, pos, negsuc,
  second, trim_space, is_space, to_lower, lookup, insert, delete, ok, plain, error_text,
  contains_any,
}
use browser_use.Task.Types.{
  queued, running, failed, Task, CreateInput, CancelInput, is_queued, is_canceled_status,
}
use browser_use.Task.Service.{
  Service, cancels, started, created_task, canceled_task, cancel, run, step,
}
use browser_use.Lease
use browser_use.Lease.{Call, acquires, renews}
use browser_use.Pool.Registry.{Node, ready, Registry}
use browser_use.Pool.Registry
use browser_use.Runner.Nodes.{Shared, LeasedNode, resource_of, try_acquire_ready_node}
use browser_use.Runner.Sharing.{node_is_not_shared}
use browser_use.Runner.Settings
use browser_use.Runner.Settings.{new_lem}
use browser_use.Runner.Retry.{should_retry, retry_delay, is_retriable_error}
use browser_use.Runner.Domains.{Hosts, is_domain_blocked}
use browser_use.Runner.Process.{World, Config, Outcome, broken, begin, conclude}
use browser_use.Runner.Settle.{put, Reached, verdict, if_queued, conclude_lem}
use browser_use.Runner.Begin.{start_input, begin_lem}
use Prim.Native.String.{◌++◌}
use browser_use.Base.{Result}
use browser_use.Runner.Trace.{StepTrace}

-- What the tests compute with.
program : Unit {0}
unfolding try_acquire_ready_node resource_of lookup insert delete trim_space is_space Lease.acquire
    Lease.run Lease.step Lease.renew Registry.heartbeat
program = tt

abbrev node_called : String → Node
node_called id = record {
  id = id;
  address = "h:1";
  version = "1";
  state = ready;
  booted_at = 1;
  last_heartbeat = 1;
  leased_until = 0;
  created_at = 1;
  updated_at = 1;
}

abbrev shown : List Node
shown = node_called "a" ∷ node_called "b" ∷ []

abbrev start_of_day : Shared
start_of_day = record { leases = Lease.new; nodes = [] }

abbrev taken : String → ℕ → ℕ → LeasedNode
taken id token expires_at = record { node = node_called id; token = token; expires_at = expires_at }

abbrev one_lease : Shared
one_lease = record {
  leases = record {
    seq = 1;
    entries = ("node:a", record { owner = "w1"; token = 1; expires_at = 100 }) ∷ [];
  };
  nodes = [];
}

abbrev two_leases : Shared
two_leases = record {
  leases = record {
    seq = 2;
    entries =
        ("node:a", record { owner = "w1"; token = 1; expires_at = 100 })
        ∷ ("node:b", record { owner = "w2"; token = 2; expires_at = 110 })
        ∷ [];
  };
  nodes = [];
}

first_taken :
    try_acquire_ready_node "w1" (pos 90) start_of_day shown 10
    ≡ (one_lease, ok (some (taken "a" 1 100)))
unfolding program
first_taken = refl

second_taken :
    try_acquire_ready_node "w2" (pos 90) one_lease shown 20
    ≡ (two_leases, ok (some (taken "b" 2 110)))
unfolding program
second_taken = refl

abbrev between : List Call
between = acquires "node:a" "w2" (pos 5) 15 ∷ []

node_is_not_shared_example : resource_of (node_called "b") ≢ resource_of (node_called "a")
unfolding program
node_is_not_shared_example =
    node_is_not_shared "w1" "w2" (pos 90) (pos 90) start_of_day one_lease one_lease two_leases 10 20
      shown shown (taken "a" 1 100) (taken "b" 2 110) between first_taken (omega arith, tt) refl
      (omega arith) second_taken

abbrev settings : Settings.Config
settings = record {
  queue_size = negsuc 0;
  workers = pos 4;
  node_wait_timeout = pos 0;
  poll_interval = pos 0;
  retry_base_delay = pos (30 * second);
  retry_max_delay = pos (5 * second);
  domain_block_cooldown = pos 0;
  lease_ttl = pos 0;
  runner_instance_id = " r1 ";
}

abbrev input : CreateInput
input = record {
  source_task_id = "";
  session_id = "sess_000001";
  url = "shop.test";
  goal = "open";
  actions = [];
  max_retries = pos 2;
}

abbrev waiting_task : Task
waiting_task = created_task input "task_000001" 10

abbrev found_world : World
found_world = record {
  tasks = record { counter = 1; items = ("task_000001", waiting_task) ∷ [] };
  blocked = ("shop.test", 100) ∷ [];
}

abbrev cfg : Config
cfg = record {
  delays = record { base = second; most = 20 * second };
  domain_block_cooldown = 180 * second;
}

abbrev hosts : Hosts
hosts = record { hostname = λ s. some s; to_lower = to_lower }

abbrev stop_waiting : CancelInput
stop_waiting = record { task_id = "task_000001"; reason = ""; completed = 50; canceled_by = "api" }

abbrev started_task : Task
started_task = started waiting_task (start_input "task_000001" 50) 50

abbrev started_tasks : Service
started_tasks = put found_world.tasks "task_000001" started_task

-- A task on a domain in cooldown that is canceled before the worker fails it.
begin_lem_example :
    let r = begin hosts none cfg found_world "task_000001" [] (cancels stop_waiting 50 ∷ []) 50 in
    let u = run started_tasks (cancels stop_waiting 50 ∷ []) in
    let y = canceled_task started_task stop_waiting 50 in
    let (b, active) = is_domain_blocked hosts found_world.blocked "shop.test" 50 in
    (is_queued queued ≡ false → r ≡ (found_world, none))
    × (is_queued queued ≡ true → is_queued queued ≡ false → r ≡ (found_world, none))
    × (is_queued queued ≡ true
        → is_queued queued ≡ true
        → active ≡ none
        → (r ≡ (record { tasks = started_tasks; blocked = b }, some started_task))
          × (started_task.status ≡ running)
          × (started_task.attempt ≡ 0 + 1))
    × (is_queued queued ≡ true
        → is_queued queued ≡ true
        → (domain : String) (until : ℕ) → active ≡ some (domain, until)
        → (is_canceled_status y.status ≡ false → Reached u r.0.tasks "task_000001" y failed none)
          × (is_canceled_status y.status ≡ true → r.0.tasks ≡ u)
          × (r.1 ≡ none))
unfolding created_task lookup run step cancel put started canceled_task insert
begin_lem_example =
    begin_lem hosts none cfg found_world [] (cancels stop_waiting 50 ∷ []) 50 waiting_task
      waiting_task refl refl (canceled_task started_task stop_waiting 50) refl refl

abbrev running_task : Task
running_task = started waiting_task (start_input "task_000001" 50) 50

abbrev running_world : World
running_world = record {
  tasks = record { counter = 1; items = ("task_000001", running_task) ∷ [] };
  blocked = [];
}

abbrev unreachable : Outcome
unreachable = broken "node-a" (plain "dial tcp: connection refused") none false

unreachable_is_retried : verdict running_task unreachable ≡ queued
unfolding program verdict should_retry is_retriable_error error_text to_lower contains_any
    created_task started
unreachable_is_retried = refl

conclude_lem_example :
    let (u, again) = conclude hosts none cfg running_world running_task unreachable 60 in
    let delay = retry_delay cfg.delays running_task.attempt in
    let want = verdict running_task unreachable in
    (is_canceled_status running_task.status ≡ false
      → Reached running_world.tasks u.tasks running_task.id running_task want
          (if_queued want (60 + delay))
        × (again ≡ if_queued want delay))
    × (is_canceled_status running_task.status ≡ true
        → (u.tasks ≡ running_world.tasks) × (again ≡ none))
unfolding lookup started created_task
conclude_lem_example =
    conclude_lem hosts none cfg running_world running_task running_task unreachable 60 refl

abbrev read_title : StepTrace
read_title = record {
  index = pos 1;
  action = record {
    kind = "extract_text";
    selector = "h1";
    text = "";
    pixels = pos 0;
    timeout_ms = pos 0;
    delay_ms = pos 0;
  };
  status = "succeeded";
  error = "";
  output_text = "Title";
  started_at = 5;
  completed_at = 0;
  duration_ms = pos 3;
  screenshot_base64 = " aGk= ";
  screenshot_artifact_url = "";
  planner = none;
}

abbrev save_as : String → String → Result String
save_as name raw = ok ("/artifacts/" ++ name)
