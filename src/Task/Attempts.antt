-- ===== src/Task/Attempts.antt =====
-- Attempts and status changes of a task (internal/task/service.go).
use browser_use.Base.{
  ℕ, ◌+◌, ◌^◌, ◌≤◌, ◌<◌, String, ◌≡◌, refl, ap, subst, ◌⊎◌, inl, inr, true, false, not, ◌&&◌, some,
  List, [], ◌∷◌, arith, if◌then◌else◌, Bool-cases, str_eq, str_eq_iff, length, lookup,
  lookup-insert, task_not_queued, ok, err,
}
use browser_use.Task.Types.{
  Status, queued, running, completed, failed, canceled, is_queued, is_canceled_status, is_final,
  Task, StartInput,
}
use browser_use.Task.Service.{
  Service, start, started, retried, completed_task, failed_task, canceled_task, Call, creates,
  starts, retries, completes, fails, cancels, after, step, run,
}
use browser_use.Task.Validity.{IsValid, step-IsValid}
use browser_use.Task.Lifecycle.{effect, lives, run-lives}

-- The status changes that the service allows.
pub data Change : Status → Status → Type 0 where
  begin : Change queued running
  requeue : {s : Status} → is_canceled_status s ≡ false → Change s queued
  succeed : {s : Status} → is_canceled_status s ≡ false → Change s completed
  give_up : {s : Status} → is_canceled_status s ≡ false → Change s failed
  stop : {s : Status} → is_final s ≡ false → Change s canceled

-- A call leaves a stored task as it was, or changes its status along one of the edges.
pub effect-Change :
    (k : String) (c : Call) (t : Task) → (effect k c t ≡ t) ⊎ Change t.status (effect k c t).status
unfolding effect started retried completed_task failed_task canceled_task
effect-Change k (creates i now) t = inl refl
effect-Change k (starts i now) t = elim (Bool-cases (str_eq i.task_id k && is_queued t.status)) [
  | inl h ↦ rw h (inr (queued_begins t.status (ground arith)))
  | inr h ↦ rw h (inl refl)
]
  where
    queued_begins : (s : Status) → is_queued s ≡ true → Change s running
    queued_begins queued h = begin
    queued_begins running h = absurd (cc)
    queued_begins completed h = absurd (cc)
    queued_begins failed h = absurd (cc)
    queued_begins canceled h = absurd (cc)
effect-Change k (retries i now) t =
    elim (Bool-cases (str_eq i.task_id k && not (is_canceled_status t.status))) [
      | inl h ↦ rw h (inr (requeue (ground arith)))
      | inr h ↦ rw h (inl refl)
    ]
effect-Change k (completes i now) t =
    elim (Bool-cases (str_eq i.task_id k && not (is_canceled_status t.status))) [
      | inl h ↦ rw h (inr (succeed (ground arith)))
      | inr h ↦ rw h (inl refl)
    ]
effect-Change k (fails i now) t =
    elim (Bool-cases (str_eq i.task_id k && not (is_canceled_status t.status))) [
      | inl h ↦ rw h (inr (give_up (ground arith)))
      | inr h ↦ rw h (inl refl)
    ]
effect-Change k (cancels i now) t =
    elim (Bool-cases (str_eq i.task_id k && not (is_final t.status))) [
      | inl h ↦ rw h (inr (stop (ground arith)))
      | inr h ↦ rw h (inl refl)
    ]

-- How many of the calls are a Retry that names `k`.
abbrev pub retries_of : String → List Call → ℕ
retries_of k [] = 0
retries_of k (retries i now ∷ cs) = (if str_eq i.task_id k then 1 else 0) + retries_of k cs
retries_of k (creates i now ∷ cs) = retries_of k cs
retries_of k (starts i now ∷ cs) = retries_of k cs
retries_of k (completes i now ∷ cs) = retries_of k cs
retries_of k (fails i now ∷ cs) = retries_of k cs
retries_of k (cancels i now ∷ cs) = retries_of k cs

-- A start that is still to come without a Retry.
abbrev pub pending : Task → ℕ
pending t = if is_queued t.status then 1 else 0

effect_budget :
    (k : String) (c : Call) (t : Task)
    → (effect k c t).attempt + pending (effect k c t)
      ≤ t.attempt + pending t + retries_of k (c ∷ [])
unfolding effect started retried completed_task failed_task canceled_task
effect_budget k (creates i now) t = ground arith
effect_budget k (starts i now) t = ground arith
effect_budget k (retries i now) t = ground arith
effect_budget k (completes i now) t = ground arith
effect_budget k (fails i now) t = ground arith
effect_budget k (cancels i now) t = ground arith

retries_of-cons :
    (k : String) (c : Call) (cs : List Call)
    → retries_of k (c ∷ cs) ≡ retries_of k (c ∷ []) + retries_of k cs
retries_of-cons k (creates i now) cs = omega arith
retries_of-cons k (starts i now) cs = omega arith
retries_of-cons k (retries i now) cs = omega arith
retries_of-cons k (completes i now) cs = omega arith
retries_of-cons k (fails i now) cs = omega arith
retries_of-cons k (cancels i now) cs = omega arith

lives_budget :
    (k : String) (cs : List Call) (t : Task)
    → (lives k cs t).attempt + pending (lives k cs t) ≤ t.attempt + pending t + retries_of k cs
unfolding lives
lives_budget k [] t = omega arith
lives_budget k (c ∷ cs) t =
    omega (arith, effect_budget k c t, lives_budget k cs (effect k c t), retries_of-cons k c cs)

-- A task starts at most once for each time it is queued: after any calls, it has made at most one
-- more attempt than there were Retry calls that name it, if it was queued at first, and at most as many
-- as those otherwise. (The service is valid and its counter stays below 2^63.)
pub attempts_bounded :
    (s : Service) (cs : List Call) (k : String) (t : Task)
    → s.counter + length cs < 2 ^ 63
    → IsValid s
    → lookup k s.items ≡ some t
    → (u : Task) × (lookup k (run s cs).items ≡ some u)
      × (u.attempt ≤ t.attempt + pending t + retries_of k cs)
attempts_bounded s cs k t b v h =
    (lives k cs t, run-lives s cs k t b v h, omega (arith, lives_budget k cs t))

effect_not_queued :
    (k : String) (c : Call) (t : Task)
    → is_queued t.status ≡ false
    → retries_of k (c ∷ []) ≡ 0
    → is_queued (effect k c t).status ≡ false
unfolding effect started retried completed_task failed_task canceled_task
effect_not_queued k (creates i now) t h r = h
effect_not_queued k (starts i now) t h r = ground arith
effect_not_queued k (retries i now) t h r = ground arith
effect_not_queued k (completes i now) t h r = ground arith
effect_not_queued k (fails i now) t h r = ground arith
effect_not_queued k (cancels i now) t h r = ground arith

lives_not_queued :
    (k : String) (cs : List Call) (t : Task)
    → is_queued t.status ≡ false
    → retries_of k cs ≡ 0
    → is_queued (lives k cs t).status ≡ false
unfolding lives
lives_not_queued k [] t h r = h
lives_not_queued k (c ∷ cs) t h r =
    lives_not_queued k cs (effect k c t)
      (effect_not_queued k c t h (omega (arith, retries_of-cons k c cs)))
      (omega (arith, retries_of-cons k c cs))

start_stores :
    (s n : Service) (i : StartInput) (now : ℕ) (t : Task)
    → start s i now ≡ ok (n, t)
    → (lookup i.task_id n.items ≡ some t) × (t.status ≡ running) × (n.counter ≡ s.counter)
unfolding start started
start_stores s n i now t h = grind (arith, lookup-insert, str_eq_iff i.task_id i.task_id)

start_refused :
    (s : Service) (i : StartInput) (now : ℕ) (t : Task)
    → lookup i.task_id s.items ≡ some t
    → is_queued t.status ≡ false
    → start s i now ≡ err task_not_queued
unfolding start
start_refused s i now t h q = ground arith

-- Two workers do not both get a task: after a Start of a task has succeeded on a valid service, every
-- further Start of it is refused with the error that it is not queued, as long as no Retry of it comes
-- in between, whatever other calls there are (fewer than the counter has left below 2^63).
pub start_is_exclusive :
    (s n : Service) (i j : StartInput) (now later : ℕ) (t : Task) (cs : List Call)
    → IsValid s
    → s.counter + length cs + 1 < 2 ^ 63
    → start s i now ≡ ok (n, t)
    → retries_of i.task_id cs ≡ 0
    → j.task_id ≡ i.task_id
    → start (run n cs) j later ≡ err task_not_queued
unfolding step
start_is_exclusive s n i j now later t cs v b h r e =
    let (kept, live, count) = start_stores s n i now t h in
    let (w, _) = step-IsValid s (starts i now) (omega arith) v in
    let valid : IsValid n = subst IsValid (ap (after s) h) w in
    let found = run-lives n cs i.task_id t (omega arith) valid kept in
    start_refused (run n cs) j later (lives i.task_id cs t) (rw e found)
      (lives_not_queued i.task_id cs t (ground arith) r)
