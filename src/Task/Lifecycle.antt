-- ===== src/Task/Lifecycle.antt =====
-- The life of one task under any calls on the service (internal/task/service.go).
use browser_use.Base.{
  ℕ, ◌+◌, ◌%◌, ◌^◌, ◌<◌, String, ◌≡◌, refl, ap, ◌∙◌, not, ◌&&◌, some, List, [], ◌∷◌, arith,
  if◌then◌else◌, str_eq, str_eq_iff, length, lookup, lookup-insert, task_not_queued,
  task_not_cancelable, err,
}
use browser_use.Task.Types.{
  canceled, is_queued, is_canceled_status, is_final, Task, CreateInput, StartInput, RetryInput,
  CompleteInput, FailInput, CancelInput,
}
use browser_use.Task.Service.{
  Service, task_id, created_task, added, get, start, started, retry, retried, complete,
  completed_task, fail, failed_task, cancel, canceled_task, Call, creates, starts, retries,
  completes, fails, cancels, step, run,
}
use browser_use.Task.Validity.{IsValid, next_id_unused, create_cases, step-IsValid}

-- What a call does to the task `t` that is stored under `k`.
unfoldable pub effect : String → Call → Task → Task
effect k (creates i now) t = t
effect k (starts i now) t = if str_eq i.task_id k && is_queued t.status then started t i now else t
effect k (retries i now) t =
    if str_eq i.task_id k && not (is_canceled_status t.status) then retried t i now else t
effect k (completes i now) t =
    if str_eq i.task_id k && not (is_canceled_status t.status) then completed_task t i now else t
effect k (fails i now) t =
    if str_eq i.task_id k && not (is_canceled_status t.status) then failed_task t i now else t
effect k (cancels i now) t =
    if str_eq i.task_id k && not (is_final t.status) then canceled_task t i now else t

unfoldable pub lives : String → List Call → Task → Task
lives k [] t = t
lives k (c ∷ cs) t = lives k cs (effect k c t)

added-lookup :
    (s : Service) (i : CreateInput) (now : ℕ) (k : String) (t : Task)
    → s.counter + 1 < 2 ^ 63
    → IsValid s
    → lookup k s.items ≡ some t
    → lookup k (added s i now).0.items ≡ some t
unfolding added created_task
added-lookup s i now k t b v h =
    let same : (s.counter + 1) % 2 ^ 64 ≡ s.counter + 1 = omega arith in
    rw (same, lookup-insert)
      (ground (arith, next_id_unused s v b, str_eq_iff (task_id (s.counter + 1)) k))

step-effect :
    (s : Service) (c : Call) (k : String) (t : Task)
    → s.counter + 1 < 2 ^ 63
    → IsValid s
    → lookup k s.items ≡ some t
    → lookup k (step s c).items ≡ some (effect k c t)
unfolding step effect get start retry complete fail cancel
step-effect s (creates i now) k t b v h =
    create_cases s i now (λ n. lookup k n.items ≡ some t) h (added-lookup s i now k t b v h)
step-effect s (starts i now) k t b v h = grind (arith, lookup-insert, str_eq_iff i.task_id k)
step-effect s (retries i now) k t b v h = grind (arith, lookup-insert, str_eq_iff i.task_id k)
step-effect s (completes i now) k t b v h = grind (arith, lookup-insert, str_eq_iff i.task_id k)
step-effect s (fails i now) k t b v h = grind (arith, lookup-insert, str_eq_iff i.task_id k)
step-effect s (cancels i now) k t b v h = grind (arith, lookup-insert, str_eq_iff i.task_id k)

-- The service is a product of independent tasks: from a valid service, after any calls (fewer than
-- the counter has left below 2^63), a stored task has become what the calls that name its id make
-- of it, whatever the calls for other ids did.
pub run-lives :
    (s : Service) (cs : List Call) (k : String) (t : Task)
    → s.counter + length cs < 2 ^ 63
    → IsValid s
    → lookup k s.items ≡ some t
    → lookup k (run s cs).items ≡ some (lives k cs t)
unfolding run lives
run-lives s [] k t b v h = h
run-lives s (c ∷ cs) k t b v h =
    let (w, l) = step-IsValid s c (omega arith) v in
    run-lives (step s c) cs k (effect k c t) (omega arith) w (step-effect s c k t (omega arith) v h)

canceled_stays : (k : String) (cs : List Call) (t : Task) → t.status ≡ canceled → lives k cs t ≡ t
unfolding lives effect
canceled_stays k [] t h = refl
canceled_stays k (creates i now ∷ cs) t h = canceled_stays k cs t h
canceled_stays k (starts i now ∷ cs) t h = ground (arith, canceled_stays k cs t)
canceled_stays k (retries i now ∷ cs) t h = ground (arith, canceled_stays k cs t)
canceled_stays k (completes i now ∷ cs) t h = ground (arith, canceled_stays k cs t)
canceled_stays k (fails i now ∷ cs) t h = ground (arith, canceled_stays k cs t)
canceled_stays k (cancels i now ∷ cs) t h = ground (arith, canceled_stays k cs t)

-- A canceled task is final: after any further calls on a valid service (fewer than the counter has
-- left below 2^63) every field of it is as it was, and Start, Retry, Complete, Fail and Cancel of it
-- are refused, Start because it is not queued and the others because it is not cancelable.
pub canceled_is_final :
    (s : Service) (cs : List Call) (t : Task) (now : ℕ) (i : StartInput) (r : RetryInput)
    (c : CompleteInput) (f : FailInput) (x : CancelInput)
    → s.counter + length cs < 2 ^ 63
    → IsValid s
    → lookup i.task_id s.items ≡ some t
    → t.status ≡ canceled
    → r.task_id ≡ i.task_id
    → c.task_id ≡ i.task_id
    → f.task_id ≡ i.task_id
    → x.task_id ≡ i.task_id
    → (lookup i.task_id (run s cs).items ≡ some t)
      × (start (run s cs) i now ≡ err task_not_queued)
      × (retry (run s cs) r now ≡ err task_not_cancelable)
      × (complete (run s cs) c now ≡ err task_not_cancelable)
      × (fail (run s cs) f now ≡ err task_not_cancelable)
      × (cancel (run s cs) x now ≡ err task_not_cancelable)
unfolding start retry complete fail cancel
canceled_is_final s cs t now i r c f x b v h q er ec ef ex =
    let kept : lookup i.task_id (run s cs).items ≡ some t =
      run-lives s cs i.task_id t b v h ∙ ap some (canceled_stays i.task_id cs t q) in
    (kept, ground arith, ground arith, ground arith, ground arith, ground arith)
