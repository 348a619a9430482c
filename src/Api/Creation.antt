-- ===== src/Api/Creation.antt =====
-- What becomes of a task that the handlers of internal/api/tasks.go create: which session it names, and what the
-- task service holds once the dispatcher has taken or refused it.
use browser_use.Base.{
  ℕ, ◌+◌, ◌%◌, ◌^◌, ◌<◌, String, ◌≡◌, refl, sym, ap, subst, ◌∙◌, inl, inr, Bool, true, false,
  Option, none, some, List, arith, if◌then◌else◌, Bool-cases, length, str_eq_iff, lookup, insert,
  lookup-insert, error_text, is_queue_full, is_ok, Result, ok, err, ok-injective,
}
use browser_use.Task.Types.{Task, Status, failed, canceled, is_canceled_status, CreateInput}
use browser_use.Task.Service.{
  Service, Call, task_id, added, created_task, create, get, fail, failed_task, run,
}
use browser_use.Task.Validity.{IsValid, create_ok, added-IsValid}
use browser_use.Task.Lifecycle.{lives, run-lives}
use browser_use.Api.Tasks.{enqueue_created_task, fail_created, fail_input}

-- Whether the dispatcher takes the task, and the status that a refusal is answered with.
abbrev pub is_accepted : Option (Result (Unit {0})) → Bool
is_accepted none = false
is_accepted (some (err e)) = false
is_accepted (some (ok u)) = true

abbrev pub refusal_status : Option (Result (Unit {0})) → ℕ
refusal_status (some (err e)) = if is_queue_full e then 503 else 500
refusal_status _ = 500

abbrev pub is_given_up : Status → Bool
is_given_up failed = true
is_given_up canceled = true
is_given_up _ = false

-- The service holds the task `k`, failed or canceled.
abbrev pub GivesUp : Service → String → Type 0
GivesUp s k = (x : Task) × (lookup k s.items ≡ some x) × (is_given_up x.status ≡ true)

fail_created_lem :
    (s : Service) (created t : Task) (error : String) (now : ℕ)
    → lookup created.id s.items ≡ some t
    → fail_created s created error now ≡ (
        if is_canceled_status t.status
        then (s, none)
        else let x = failed_task t (fail_input created.id error now) now in
          (record s { items = insert created.id x s.items }, some x))
unfolding fail_created fail get
fail_created_lem s created t error now h = ground arith

fail_created-GivesUp :
    (s : Service) (created t : Task) (error : String) (now : ℕ)
    → lookup created.id s.items ≡ some t
    → GivesUp (fail_created s created error now).0 created.id
unfolding failed_task
fail_created-GivesUp s created t error now h = elim (Bool-cases (is_canceled_status t.status)) [
  | inl c ↦
      subst (λ (r : Service × Option Task). GivesUp r.0 created.id)
        (sym (rw c at (fail_created_lem s created t error now h))) (t, h, ground arith)
  | inr c ↦
      let x = failed_task t (fail_input created.id error now) now in
      subst (λ (r : Service × Option Task). GivesUp r.0 created.id)
        (sym (rw c at (fail_created_lem s created t error now h)))
        (x, grind (arith, lookup-insert, str_eq_iff), refl)
]

-- A refused task is given up, and the answer says why.
pub refused_settles :
    (s : Service) (d : Option (Result (Unit {0}))) (created t : Task) (now : ℕ)
    → is_accepted d ≡ false
    → lookup created.id s.items ≡ some t
    → let e = enqueue_created_task s d created now in
      GivesUp e.tasks created.id × (e.status ≡ refusal_status d) × (e.is_queued ≡ false)
unfolding enqueue_created_task
refused_settles s none created t now a h =
    (fail_created-GivesUp s created t "task dispatcher is not configured" now h, refl, refl)
refused_settles s (some (err e)) created t now a h =
    (fail_created-GivesUp s created t (error_text e) now h, refl, refl)
refused_settles s (some (ok u)) created t now a h = cc

-- The task that Create returned, once other calls have come between.
abbrev pub IsCreated : Service → CreateInput → ℕ → List Call → Service × Task → Type 0
IsCreated s input now others (n, created) =
    (created ≡ created_task input (task_id (s.counter + 1)) now)
    × (lookup created.id (run n others).items ≡ some (lives created.id others created))

added-IsCreated :
    (s : Service) (input : CreateInput) (others : List Call) (now : ℕ)
    → s.counter + (1 + length others) < 2 ^ 63
    → IsValid s
    → IsCreated s input now others (added s input now)
unfolding added
added-IsCreated s input others now b v =
    let same : (s.counter + 1) % 2 ^ 64 ≡ s.counter + 1 = omega arith in
    let made = (added s input now).1 in
    (
      ap (λ (c : ℕ). created_task input (task_id c) now) same,
      run-lives (added s input now).0 others made.id made (omega arith)
          (added-IsValid s input now (omega arith) v) (grind (arith, lookup-insert, str_eq_iff)),
    )

pub create-IsCreated :
    (s n : Service) (input : CreateInput) (created : Task) (others : List Call) (now : ℕ)
    → s.counter + (1 + length others) < 2 ^ 63
    → IsValid s
    → create s input now ≡ ok (n, created)
    → IsCreated s input now others (n, created)
create-IsCreated s n input created others now b v h =
    subst (IsCreated s input now others)
      (ok-injective _ _ (sym (create_ok s input now (ap is_ok h)) ∙ h))
      (added-IsCreated s input others now b v)
