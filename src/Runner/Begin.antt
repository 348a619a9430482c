-- ===== src/Runner/Begin.antt =====
-- Which tasks a worker starts (internal/taskrunner/runner.go, the part of processTask before a node is
-- acquired).
use browser_use.Base.{
  ℕ, ◌+◌, String, ◌≡◌, refl, sym, subst, Error, true, false, Option, none, some, List, arith,
  lookup, ok, err, task_not_queued,
}
use browser_use.Task.Types.{running, failed, is_queued, is_canceled_status, Task, StartInput}
use browser_use.Task.Service.{Service, Call, get, start, started, run}
use browser_use.Runner.Domains.{Hosts, Blocked, is_domain_blocked}
use browser_use.Runner.Trace.{Artifacts}
use browser_use.Runner.Process.{World, Config, FailureEvidence, fail_task_with_evidence, begin}
use browser_use.Runner.Settle.{put, Reached, fail-Reached, fail_unchanged}

-- The input that the worker gives to Start.
abbrev pub start_input : String → ℕ → StartInput
start_input id now = record { task_id = id; node_id = ""; started = now }

module _ (s : Service) (id : String) (now : ℕ) where
  get_ok : (c : Task) → lookup id s.items ≡ some c → get s id ≡ ok c
  unfolding get
  get_ok c h = ground arith

  start_ok :
      (c : Task)
      → lookup id s.items ≡ some c
      → is_queued c.status ≡ true
      → start s (start_input id now) now
        ≡ ok (put s id (started c (start_input id now) now), started c (start_input id now) now)
  unfolding start get started put
  start_ok c h q = ground arith

-- What a Fail by the id `i` does, where the task is stored under `k`.
failed_at :
    (u : Service) (k i : String) (y : Task) (e : Error) (v : FailureEvidence) (now : ℕ)
    → k ≡ i
    → lookup k u.items ≡ some y
    → let n = fail_task_with_evidence u i "" e v now in
      (is_canceled_status y.status ≡ false → Reached u n k y failed none)
      × (is_canceled_status y.status ≡ true → n ≡ u)
failed_at u k i y e v now same h =
    subst
      (λ (j : String).
        let n = fail_task_with_evidence u j "" e v now in
        (is_canceled_status y.status ≡ false → Reached u n k y failed none)
        × (is_canceled_status y.status ≡ true → n ≡ u))
      same (fail-Reached u k y h "" e v now, fail_unchanged u k y h "" e v now)

module _ (hosts : Hosts) (artifacts : Artifacts) (cfg : Config) where
  module _ (w : World) (before after : List Call) (now : ℕ) (c d : Task)
      (found : lookup c.id w.tasks.items ≡ some c)
      (later : lookup c.id (run w.tasks before).items ≡ some d) where
    -- The task once it is started, and the service then.
    abbrev pub running_task : Task
    running_task = started d (start_input c.id now) now

    abbrev pub running_tasks : Service
    running_tasks = put (run w.tasks before) c.id running_task

    abbrev pub check : Blocked × Option (String × ℕ)
    check = is_domain_blocked hosts w.blocked d.url now

    start_taken :
        is_queued d.status ≡ false
        → start (run w.tasks before) (start_input c.id now) now ≡ err task_not_queued
    unfolding start get
    start_taken q = ground arith

    begin_refused :
        is_queued c.status ≡ false → begin hosts artifacts cfg w c.id before after now ≡ (w, none)
    unfolding begin
    begin_refused q = rw (begin, get_ok w.tasks c.id now c found, q) refl

    begin_taken :
        is_queued c.status ≡ true
        → is_queued d.status ≡ false
        → begin hosts artifacts cfg w c.id before after now
          ≡ (record w { tasks = run w.tasks before }, none)
    unfolding begin
    begin_taken q r = rw (begin, get_ok w.tasks c.id now c found, q, start_taken r) refl

    begin_free :
        is_queued c.status ≡ true
        → is_queued d.status ≡ true
        → (is_domain_blocked hosts w.blocked running_task.url now).1 ≡ none
        → begin hosts artifacts cfg w c.id before after now ≡ (
          record {
            tasks = running_tasks;
            blocked = (is_domain_blocked hosts w.blocked running_task.url now).0;
          },
          some running_task,
        )
    unfolding begin
    begin_free q r f =
        rw
          (
            begin,
            get_ok w.tasks c.id now c found,
            q,
            start_ok (run w.tasks before) c.id now d later r,
            f,
          )
          refl

    begin_blocked :
        (y : Task)
        → d.id ≡ c.id
        → lookup c.id (run running_tasks after).items ≡ some y
        → is_queued c.status ≡ true
        → is_queued d.status ≡ true
        → (domain : String) (until : ℕ)
        → (is_domain_blocked hosts w.blocked running_task.url now).1 ≡ some (domain, until)
        → let r = begin hosts artifacts cfg w c.id before after now in
          let u = run running_tasks after in
          (is_canceled_status y.status ≡ false → Reached u r.0.tasks c.id y failed none)
          × (is_canceled_status y.status ≡ true → r.0.tasks ≡ u)
          × (r.1 ≡ none)
    unfolding begin
    begin_blocked y own stored q r domain until f =
        let same : c.id ≡ running_task.id = unfold started in sym own in
        let u = run running_tasks after in
        rw
          (
            begin,
            get_ok w.tasks c.id now c found,
            q,
            start_ok (run w.tasks before) c.id now d later r,
            f,
          )
          (let (a, b) = failed_at u c.id running_task.id y _ _ now same stored in (a, b, refl))

    -- Which tasks a worker starts, whatever calls others make between its Get, its Start and its Fail. The task
    -- is found as `c`, is `d` when it is started, is stored under its own id, and has become `y` when it is
    -- failed. If `c` is not queued, or `d` is not, since another worker started it or it was canceled, the
    -- worker changes nothing. If both are and the domain is out of cooldown, it is stored as running,
    -- with one more attempt than `d`, and is the task that the worker goes on with. If the domain is in
    -- cooldown, it uses up an attempt and nothing is executed: it is stored as failed without a next
    -- start, unless it was canceled since, and then the worker leaves it so.
    pub begin_lem :
        (y : Task)
        → d.id ≡ c.id
        → lookup c.id (run running_tasks after).items ≡ some y
        → let r = begin hosts artifacts cfg w c.id before after now in
          let u = run running_tasks after in
          (is_queued c.status ≡ false → r ≡ (w, none))
          × (is_queued c.status ≡ true
              → is_queued d.status ≡ false
              → r ≡ (record w { tasks = run w.tasks before }, none))
          × (is_queued c.status ≡ true
              → is_queued d.status ≡ true
              → check.1 ≡ none
              → (r ≡ (record { tasks = running_tasks; blocked = check.0 }, some running_task))
                × (running_task.status ≡ running)
                × (running_task.attempt ≡ d.attempt + 1))
          × (is_queued c.status ≡ true
              → is_queued d.status ≡ true
              → (domain : String) (until : ℕ) → check.1 ≡ some (domain, until)
              → (is_canceled_status y.status ≡ false → Reached u r.0.tasks c.id y failed none)
                × (is_canceled_status y.status ≡ true → r.0.tasks ≡ u)
                × (r.1 ≡ none))
    unfolding started
    begin_lem y own stored = (
      begin_refused,
      begin_taken,
      λ q r f. (begin_free q r f, refl, refl),
      λ q r domain until f. begin_blocked y own stored q r domain until f,
    )
