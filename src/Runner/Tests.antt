-- ===== src/Runner/Tests.antt =====
-- The runner at concrete inputs.
use browser_use.Base.{
  ℕ, ◌+◌, ◌*◌, ◌≤◌, ◌<◌, ◌≡◌, refl, false, some, List, [], ◌∷◌, arith, length, second, trim_space,
  is_space, to_lower, lookup, insert, delete,
}
use browser_use.Runner.Queue.{count, is_marked, no_id_is_queued_twice}
use browser_use.Runner.Queue
use browser_use.Runner.Retry.{Delays}
use browser_use.Runner.Domains
use browser_use.Runner.Domains.{
  Hosts, is_cooled, normalized_host, is_domain_blocked, mark_domain_blocked, cooldown_holds,
}
use browser_use.Task.Types.{Task, CreateInput}
use browser_use.Task.Service.{created_task}
use browser_use.Task.Listing.{list_queued, sooner}
use browser_use.Base.{◌⊎◌, sort_slice, keep, pos, All, false, err, queue_full, Result, plain}
use browser_use.Runner.Reconcile.{
  IsNamed, IsTaken, IsLossless, reconcile_queued_once, reconcile_queued_once_lem,
}
use browser_use.Runner.Requeue.{dropped, enqueue_after_delay}

-- What the tests compute with.
program : Unit {0}
unfolding Queue.run Queue.step lookup insert delete trim_space is_space to_lower is_cooled
    normalized_host Domains.run
program = tt

abbrev events : List Queue.Event
events =
    Queue.enters " t1 "
    ∷ Queue.enters "t1"
    ∷ Queue.offers "t1" false
    ∷ Queue.enters "t2"
    ∷ Queue.offers "t2" false
    ∷ Queue.receives
    ∷ []

second_is_full : (Queue.run 1 Queue.empty events).enqueued ≡ ("t1", tt) ∷ []
unfolding program
second_is_full = refl

no_id_is_queued_twice_example :
    let q = Queue.run 1 Queue.empty events in
    (count "t1" q.queue ≤ 1)
    × (0 < count "t1" q.queue → (count "t1" q.received ≡ 0) × (count "t1" q.pending ≡ 0))
    × (is_marked "t1" q ≡ false
        → (count "t1" q.queue ≡ 0) × (count "t1" q.received ≡ 0) × (count "t1" q.pending ≡ 0))
    × (length q.queue ≤ 1)
no_id_is_queued_twice_example = no_id_is_queued_twice 1 events "t1"

abbrev delays : Delays
delays = record { base = second; most = 20 * second }

abbrev hosts : Hosts
hosts = record { hostname = λ s. some s; to_lower = to_lower }

abbrev visits : List Domains.Event
visits = Domains.checks "shop.test" 40 ∷ Domains.marks "SHOP.test" "bot_blocked" 60 ∷ []

cooldown_holds_example :
    let c =
      Domains.run hosts 100
        (mark_domain_blocked hosts 100 [] "shop.test" "Human_Verification_Required" 10)
        visits in
    (until : ℕ) × (10 + 100 ≤ until)
    × (is_domain_blocked hosts c "SHOP.TEST" 110
        ≡ (c, some (normalized_host hosts "shop.test", until)))
unfolding program
cooldown_holds_example =
    cooldown_holds hosts 100 [] "shop.test" "SHOP.TEST" "Human_Verification_Required" 10 110 visits
      refl refl refl (omega arith, (omega arith, tt)) (omega arith)

abbrev input : CreateInput
input = record {
  source_task_id = "";
  session_id = "sess_000001";
  url = "shop.test";
  goal = "open";
  actions = [];
  max_retries = pos 0;
}

abbrev tasks_found : List Task
tasks_found = created_task input "task_000001" 10 ∷ created_task input "task_000002" 5 ∷ []

tasks_found-IsNamed : All IsNamed (list_queued tasks_found (pos 4) 20)
unfolding program list_queued sooner created_task sort_slice keep
tasks_found-IsNamed = (refl, (refl, tt))

reconcile_queued_once_lem_example :
    let q : Queue.Queue = record Queue.empty { enqueued = ("t9", tt) ∷ []; received = "t9" ∷ [] } in
    let n = reconcile_queued_once 4 q false tasks_found 20 in
    (All (IsTaken q n) (list_queued tasks_found (pos 4) 20) ⊎ (4 ≤ length n.queue)) × IsLossless q n
reconcile_queued_once_lem_example =
    reconcile_queued_once_lem 4
      (record Queue.empty { enqueued = ("t9", tt) ∷ []; received = "t9" ∷ [] }) tasks_found 20
      tasks_found-IsNamed

abbrev full_queue : Result (Unit {0})
full_queue = err queue_full

always_full :
    enqueue_after_delay (λ i. err queue_full) (λ i. false)
    ≡ dropped (plain "re-enqueue failed: queue remained full")
unfolding enqueue_after_delay
always_full = refl
