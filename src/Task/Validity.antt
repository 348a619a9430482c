-- ===== src/Task/Validity.antt =====
-- What holds of the task service between calls (internal/task/service.go), and what Create does.
use text.Mathlib.TextLemmas.{append_cancel_left}
use browser_use.Base.{
  ℕ, ◌+◌, ◌%◌, ◌^◌, ◌≤◌, ◌<◌, String, ◌≡◌, refl, ◌∙◌, inl, inr, Bool, true, false, not, ◌&&◌, none,
  some, List, [], ◌∷◌, All, arith, if◌then◌else◌, Bool-cases, Option-cases, str_eq, is_empty, Dict,
  Keyed, lookup, insert, lookup-insert, lookup-All, insert-All, insert-Keyed, format_06d_inj, Error,
  task_not_queued, task_not_cancelable, is_ok, Result, ok, err, ◌>>=◌, ◌>>◌, guard, length,
}
use browser_use.Task.Types.{Task, CreateInput, queued, is_queued, is_canceled_status, is_final}
use browser_use.Task.Service.{
  Service, new, task_id, is_nil, is_negative, created_task, added, create, get, store, start,
  started, retry, retried, complete, completed_task, fail, failed_task, cancel, canceled_task, Call,
  creates, starts, retries, completes, fails, cancels, after, step, run,
}

-- The key was issued by the first `n` calls of Create.
abbrev pub IsIssued : ℕ → String → Type 0
IsIssued n k = (c : ℕ) × (c ≤ n) × (k ≡ task_id c)

abbrev pub IsEntry : ℕ → String × Task → Type 0
IsEntry n (k, t) = IsIssued n k × (t.id ≡ k)

-- Each key was issued, each task is stored under its own id, and no entry hides another.
pub record IsValid (s : Service) : Type 0 where
  pub entries : All (IsEntry s.counter) s.items
  pub keyed : Keyed s.items

task_id_inj : (a b : ℕ) → a < 2 ^ 63 → b < 2 ^ 63 → task_id a ≡ task_id b → a ≡ b
unfolding task_id
task_id_inj a b h k e = format_06d_inj a b h k (append_cancel_left "task_" _ _ e)

All-IsEntry_mono : (n m : ℕ) (d : Dict Task) → n ≤ m → All (IsEntry n) d → All (IsEntry m) d
All-IsEntry_mono n m [] h a = tt
All-IsEntry_mono n m ((k, t) ∷ d) h a =
    let ((c, l, e), q) = a.0 in (((c, omega arith, e), q), All-IsEntry_mono n m d h a.1)

-- The next id is not in use.
pub next_id_unused :
    (s : Service)
    → IsValid s
    → s.counter + 1 < 2 ^ 63
    → lookup (task_id (s.counter + 1)) s.items ≡ none
next_id_unused s v b = elim (Option-cases (lookup (task_id (s.counter + 1)) s.items)) [
  | inl e ↦ e
  | inr (t, e) ↦
      let ((c, l, q), _) =
        lookup-All (IsEntry s.counter) (task_id (s.counter + 1)) s.items v.entries e in
      let same = task_id_inj (s.counter + 1) c b (omega arith) q in absurd (omega arith)
]

-- The form that Start, Retry, Complete, Fail and Cancel share.
abbrev pub update :
    Service → String → (Task → Bool) → Error → (Task → Task) → Result (Service × Task)
update s k test e f = do task ← get s k; guard (test task) e; store s k (f task)

-- Such a call leaves the service as it was, or stores `f` of a task that passes the test.
pub update_cases {ℓ} :
    (s : Service) (k : String) (test : Task → Bool) (e : Error) (f : Task → Task)
    (P : Service → Type ℓ)
    → P s
    → ((t : Task)
        → lookup k s.items ≡ some t
        → test t ≡ true
        → P (record s { items = insert k (f t) s.items }))
    → P (after s (update s k test e f))
unfolding get
update_cases s k test e f P same changed = elim (Option-cases (lookup k s.items)) [
  | inl q ↦ rw (q, after) same
  | inr (t, q) ↦ elim (Bool-cases (test t)) [
    | inl p ↦ rw (q, after, p) (changed t q p)
    | inr p ↦ rw (q, after, p) same
  ]
]

after_error : (s : Service) (m : Result (Service × Task)) → is_ok m ≡ false → after s m ≡ s
after_error s (ok r) h = cc
after_error s (err e) h = refl

pub create_ok :
    (s : Service) (i : CreateInput) (now : ℕ)
    → is_ok (create s i now) ≡ true
    → create s i now ≡ ok (added s i now)
unfolding create
create_ok s i now h = ground arith

-- Create leaves the service as it was, or adds a task.
pub create_cases {ℓ} :
    (s : Service) (i : CreateInput) (now : ℕ) (P : Service → Type ℓ)
    → P s
    → P (added s i now).0
    → P (after s (create s i now))
create_cases s i now P same changed = elim (Bool-cases (is_ok (create s i now))) [
  | inl t ↦ rw (create_ok s i now t, after) changed
  | inr t ↦ rw (after_error s (create s i now) t) same
]

-- Valid, with at most one more task created than in `s`.
record Next (s n : Service) : Type 0 where
  valid : IsValid n
  counted : n.counter ≤ s.counter + 1

update-Next :
    (s : Service) (k : String) (test : Task → Bool) (e : Error) (f : Task → Task)
    → ((t : Task) → (f t).id ≡ t.id)
    → IsValid s
    → Next s (after s (update s k test e f))
update-Next s k test e f same v =
    update_cases s k test e f (Next s) (record { valid = v; counted = omega arith })
      λ t q p.
        let (issued, named) = lookup-All (IsEntry s.counter) k s.items v.entries q in
        record {
          valid = record {
            entries =
                insert-All (IsEntry s.counter) k (f t) s.items (issued, same t ∙ named) v.entries;
            keyed = insert-Keyed k (f t) s.items v.keyed;
          };
          counted = omega arith;
        }

pub added-IsValid :
    (s : Service) (i : CreateInput) (now : ℕ)
    → s.counter + 1 < 2 ^ 63
    → IsValid s
    → IsValid (added s i now).0
unfolding added created_task
added-IsValid s i now b v =
    let same : (s.counter + 1) % 2 ^ 64 ≡ s.counter + 1 = omega arith in
    rw same (record {
      entries =
          insert-All (IsEntry (s.counter + 1)) (task_id (s.counter + 1)) _ s.items
            ((s.counter + 1, omega arith, refl), refl)
            (All-IsEntry_mono s.counter (s.counter + 1) s.items (omega arith) v.entries);
      keyed = insert-Keyed (task_id (s.counter + 1)) _ s.items v.keyed;
    })

step-Next : (s : Service) (c : Call) → s.counter + 1 < 2 ^ 63 → IsValid s → Next s (step s c)
unfolding step started retried completed_task failed_task canceled_task start retry complete fail
    cancel
step-Next s (creates i now) b v =
    create_cases s i now (Next s) (record { valid = v; counted = omega arith })
      (record { valid = added-IsValid s i now b v; counted = unfold added in omega arith })
step-Next s (starts i now) b v =
    update-Next s i.task_id (λ t. is_queued t.status) task_not_queued (λ t. started t i now)
      (λ t. refl) v
step-Next s (retries i now) b v =
    update-Next s i.task_id (λ t. not (is_canceled_status t.status)) task_not_cancelable
      (λ t. retried t i now) (λ t. refl) v
step-Next s (completes i now) b v =
    update-Next s i.task_id (λ t. not (is_canceled_status t.status)) task_not_cancelable
      (λ t. completed_task t i now) (λ t. refl) v
step-Next s (fails i now) b v =
    update-Next s i.task_id (λ t. not (is_canceled_status t.status)) task_not_cancelable
      (λ t. failed_task t i now) (λ t. refl) v
step-Next s (cancels i now) b v =
    update-Next s i.task_id (λ t. not (is_final t.status)) task_not_cancelable
      (λ t. canceled_task t i now) (λ t. refl) v

-- Every call keeps the service valid and counts up by at most one, while the counter is below 2^63:
-- each key is one that Create issued, each task is stored under its own id, no entry hides another.
pub step-IsValid :
    (s : Service) (c : Call)
    → s.counter + 1 < 2 ^ 63
    → IsValid s
    → IsValid (step s c) × ((step s c).counter ≤ s.counter + 1)
step-IsValid s c b v = let n = step-Next s c b v in (n.valid, n.counted)

pub run-IsValid :
    (s : Service) (cs : List Call)
    → s.counter + length cs < 2 ^ 63
    → IsValid s
    → IsValid (run s cs) × ((run s cs).counter ≤ s.counter + length cs)
unfolding run
run-IsValid s [] b v = (v, omega arith)
run-IsValid s (c ∷ cs) b v =
    let (w, l) = step-IsValid s c (omega arith) v in
    let (x, m) = run-IsValid (step s c) cs (omega arith) w in (x, omega arith)

pub new-IsValid : IsValid new
new-IsValid = record { entries = tt; keyed = tt }

-- After any calls on a new service, fewer than 2^63 - 1 of them, Create with a session, a URL, a goal
-- or actions, and a retry limit that is not negative returns a queued task of no attempt under an id
-- that no task has, stores it there, and leaves every other id as it was.
pub create_adds :
    (cs : List Call) (i : CreateInput) (now : ℕ)
    → length cs + 1 < 2 ^ 63
    → is_empty i.session_id ≡ false
    → is_empty i.url ≡ false
    → (is_empty i.goal && is_nil i.actions) ≡ false
    → is_negative i.max_retries ≡ false
    → let s = run new cs in
      (n : Service) × (t : Task) × (create s i now ≡ ok (n, t))
      × (lookup t.id s.items ≡ none)
      × (t.status ≡ queued)
      × (t.attempt ≡ 0)
      × ((k : String) → lookup k n.items ≡ (if str_eq t.id k then some t else lookup k s.items))
unfolding create added created_task
create_adds cs i now b p q r n =
    let s = run new cs in
    let (v, l) = run-IsValid new cs (omega arith) new-IsValid in
    let same : (s.counter + 1) % 2 ^ 64 ≡ s.counter + 1 = omega arith in
    (
      (added s i now).0,
      (added s i now).1,
      rw (p, q, r, n) refl,
      rw same (next_id_unused s v (omega arith)),
      refl,
      refl,
      λ k. lookup-insert (task_id ((s.counter + 1) % 2 ^ 64)) k _ s.items,
    )
