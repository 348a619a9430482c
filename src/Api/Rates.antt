-- ===== src/Api/Rates.antt =====
-- The counts and percentages of handleTaskStats (internal/api/tasks.go) over the tasks that the task service
-- (internal/task/service.go) can hold.
use mathlib.Core.Bool.{false≢true}
use mathlib.Core.List.{Memᴰ, Permᴰ}
use browser_use.Base.{
  ℕ, ◌+◌, ◌≤◌, ◌<◌, String, ◌≡◌, refl, sym, ap, subst, ◌∙◌, inl, inr, Bool, true, not, Option, some,
  List, [], ◌∷◌, arith, if◌then◌else◌, Bool-cases, length, keep, All, trim_space, Dict, lookup,
  insert, insert-All, values, ℤ, pos, Permᴰ-mem, first_sorted-mem, length-first_sorted-le,
  positive_or, task_not_queued, task_not_cancelable,
}
use browser_use.Task.Types.{
  Status, queued, running, completed, failed, canceled, Task, is_final, is_queued,
  is_canceled_status,
}
use browser_use.Task.Service
use browser_use.Task.Validity.{update_cases, create_cases}
use browser_use.Task.Listing.{list_recent, newer}
use browser_use.Api.Listings.{query_number, query_number_bounds}
use browser_use.Api.Stats.{
  no_counts, count_loop, count_of, status_text, is_blocked, is_completed, task_stats,
  handle_task_stats,
}
use browser_use.Api.Counting.{count_loop-counts, count_loop-status, is_status, number, percent_le}

-- A task that shows a blocker has failed.
abbrev pub IsFailedIfBlocked : Task → Type 0
IsFailedIfBlocked t = is_blocked t ≡ true → t.status ≡ failed

abbrev pub AllFailedIfBlocked : Service.Service → Type 0
AllFailedIfBlocked s = All (λ (e : String × Task). IsFailedIfBlocked e.1) s.items

unblocked : (t : Task) → t.blocker_type ≡ "" → IsFailedIfBlocked t
unfolding is_blocked trim_space
unblocked t e = λ b. absurd (false≢true (rw e at b))

module _ (s : Service.Service) (h : AllFailedIfBlocked s) where
  updated :
      (k : String) (t : Task)
      → IsFailedIfBlocked t
      → AllFailedIfBlocked (record s { items = insert k t s.items })
  updated k t f = insert-All (λ (e : String × Task). IsFailedIfBlocked e.1) k t s.items f h

  step-AllFailedIfBlocked : (c : Service.Call) → AllFailedIfBlocked (Service.step s c)
  unfolding Service.step Service.start Service.retry Service.complete Service.fail Service.cancel
      Service.started Service.retried Service.completed_task Service.failed_task
      Service.canceled_task Service.added Service.created_task
  step-AllFailedIfBlocked (Service.creates i now) =
      create_cases s i now AllFailedIfBlocked h
        (insert-All (λ (e : String × Task). IsFailedIfBlocked e.1) _ _ s.items (unblocked _ refl) h)
  step-AllFailedIfBlocked (Service.starts i now) =
      update_cases s i.task_id (λ t. is_queued t.status) task_not_queued
        (λ t. Service.started t i now) AllFailedIfBlocked h
        (λ t q p. updated i.task_id _ (unblocked _ refl))
  step-AllFailedIfBlocked (Service.retries i now) =
      update_cases s i.task_id (λ t. not (is_canceled_status t.status)) task_not_cancelable
        (λ t. Service.retried t i now) AllFailedIfBlocked h
        (λ t q p. updated i.task_id _ (unblocked _ refl))
  step-AllFailedIfBlocked (Service.completes i now) =
      update_cases s i.task_id (λ t. not (is_canceled_status t.status)) task_not_cancelable
        (λ t. Service.completed_task t i now) AllFailedIfBlocked h
        (λ t q p. updated i.task_id _ (unblocked _ refl))
  step-AllFailedIfBlocked (Service.fails i now) =
      update_cases s i.task_id (λ t. not (is_canceled_status t.status)) task_not_cancelable
        (λ t. Service.failed_task t i now) AllFailedIfBlocked h
        (λ t q p. updated i.task_id _ (λ b. refl))
  step-AllFailedIfBlocked (Service.cancels i now) =
      update_cases s i.task_id (λ t. not (is_final t.status)) task_not_cancelable
        (λ t. Service.canceled_task t i now) AllFailedIfBlocked h
        (λ t q p. updated i.task_id _ (unblocked _ refl))

run-AllFailedIfBlocked :
    (s : Service.Service) (cs : List Service.Call)
    → AllFailedIfBlocked s
    → AllFailedIfBlocked (Service.run s cs)
unfolding Service.run
run-AllFailedIfBlocked s [] h = h
run-AllFailedIfBlocked s (c ∷ cs) h =
    run-AllFailedIfBlocked (Service.step s c) cs (step-AllFailedIfBlocked s h c)

values-All :
    (xs : Dict Task)
    → All (λ (e : String × Task). IsFailedIfBlocked e.1) xs
    → All IsFailedIfBlocked (values xs)
values-All [] h = tt
values-All (x ∷ xs) h = (h.0, values-All xs h.1)

mem-All : (P : Task → Type 0) (t : Task) (xs : List Task) → All P xs → Memᴰ t xs → P t
mem-All P t [] h m = elim m [ ]
mem-All P t (x ∷ xs) h (Memᴰ.head e) = subst P (sym e) h.0
mem-All P t (x ∷ xs) h (Memᴰ.tail m) = mem-All P t xs h.1 m

All-of_mem :
    (P : Task → Type 0) (xs ys : List Task)
    → All P xs
    → ((t : Task) → Memᴰ t ys → Memᴰ t xs)
    → All P ys
All-of_mem P xs [] h m = tt
All-of_mem P xs (y ∷ ys) h m =
    (mem-All P y xs h (m y (Memᴰ.head refl)), All-of_mem P xs ys h (λ t n. m t (Memᴰ.tail n)))

-- Each blocked task is one of the failed ones, and each completed task is a final one.
blocked_le :
    (ts : List Task)
    → All IsFailedIfBlocked ts
    → number is_blocked ts ≤ number (λ t. is_status t.status failed) ts
unfolding keep
blocked_le [] h = omega arith
blocked_le (t ∷ ts) h = elim (Bool-cases (is_blocked t)) [
  | inl b ↦
      rw (b, ap (λ (s : Status). is_status s failed) (h.0 b)) (omega (arith, blocked_le ts h.1))
  | inr b ↦ rw b (ground (arith, blocked_le ts h.1))
]

completed_is_final : (s : Status) → is_completed s ≡ true → is_final s ≡ true
completed_is_final queued h = cc
completed_is_final running h = cc
completed_is_final completed h = refl
completed_is_final failed h = cc
completed_is_final canceled h = cc

completed_le :
    (ts : List Task) → number (λ t. is_completed t.status) ts ≤ number (λ t. is_final t.status) ts
unfolding keep
completed_le [] = omega arith
completed_le (t ∷ ts) = ground (arith, completed_le ts, completed_is_final t.status)

abbrev pub of_status : Status → List Task → ℕ
of_status s ts = number (λ t. is_status t.status s) ts

abbrev one_if : Bool → ℕ
one_if b = if b then 1 else 0

number-cons :
    (p : Task → Bool) (t : Task) (ts : List Task) → number p (t ∷ ts) ≡ one_if (p t) + number p ts
unfolding keep
number-cons p t ts = ground arith

-- A task has one status.
one_status :
    (s : Status)
    → (one_if (is_status s queued)
          + one_if (is_status s running)
          + one_if (is_status s completed)
          + one_if (is_status s failed)
          + one_if (is_status s canceled)
        ≡ 1)
      × (one_if (is_final s)
          ≡ one_if (is_status s completed)
            + one_if (is_status s failed)
            + one_if (is_status s canceled))
one_status queued = (refl, refl)
one_status running = (refl, refl)
one_status completed = (refl, refl)
one_status failed = (refl, refl)
one_status canceled = (refl, refl)

statuses_add_up :
    (ts : List Task)
    → (of_status queued ts
          + of_status running ts
          + of_status completed ts
          + of_status failed ts
          + of_status canceled ts
        ≡ length ts)
      × (number (λ t. is_final t.status) ts
          ≡ of_status completed ts + of_status failed ts + of_status canceled ts)
unfolding keep
statuses_add_up [] = (omega arith, omega arith)
statuses_add_up (t ∷ ts) =
    let at : (s : Status) → of_status s (t ∷ ts) ≡ one_if (is_status t.status s) + of_status s ts =
      λ s. number-cons (λ x. is_status x.status s) t ts in
    let (total, final) = statuses_add_up ts in
    let (one, ended) = one_status t.status in
    rw
      (
        at queued,
        at running,
        at completed,
        at failed,
        at canceled,
        number-cons (λ x. is_final x.status) t ts,
      )
      (omega (arith, total, one), omega (arith, final, ended))

no_status_counted : (s : Status) → count_of (status_text s) no_counts.status_counts ≡ 0
unfolding lookup
no_status_counted queued = refl
no_status_counted running = refl
no_status_counted completed = refl
no_status_counted failed = refl
no_status_counted canceled = refl

listed_failed :
    (cs : List Service.Call) (range : List Task) (limit : ℤ)
    → Permᴰ range (values (Service.run Service.new cs).items)
    → All IsFailedIfBlocked (list_recent range limit)
unfolding list_recent
listed_failed cs range limit p =
    All-of_mem IsFailedIfBlocked (values (Service.run Service.new cs).items)
      (list_recent range limit)
      (values-All (Service.run Service.new cs).items (run-AllFailedIfBlocked Service.new cs tt))
      λ t m. Permᴰ-mem t p (first_sorted-mem newer t (positive_or limit 50) range m)

listed_le :
    (range : List Task) (limit : ℕ) → 0 < limit → length (list_recent range (pos limit)) ≤ limit
unfolding list_recent
listed_le range limit h =
    let same : positive_or (pos limit) 50 ≡ limit = ground (arith, h) in
    let short = length-first_sorted-le newer (positive_or (pos limit) 50) range in
    omega (arith, same, short)

-- The statistics of a limit that the query gives, for a service that calls on a new one have led to and in
-- whatever order its tasks are ranged over: they are about at most that many tasks; each status's count
-- is the number of those tasks that have it, and the five add up to all of them; the final ones are
-- the completed, the failed and the canceled; every task that shows a blocker is a failed one; so
-- neither percentage is more than 100.
pub task_stats_lem :
    (atoi : String → Option ℤ) (cs : List Service.Call) (range : List Task) (raw : String)
    (limit : ℕ)
    → Permᴰ range (values (Service.run Service.new cs).items)
    → query_number atoi 300 1000 raw ≡ some limit
    → let items = list_recent range (pos limit) in
      let st = task_stats items in
      (handle_task_stats atoi range raw ≡ some st)
      × (length items ≤ limit)
      × ((s : Status) → count_of (status_text s) st.counts.status_counts ≡ of_status s items)
      × (of_status queued items
            + of_status running items
            + of_status completed items
            + of_status failed items
            + of_status canceled items
          ≡ length items)
      × (st.counts.terminal
          ≡ of_status completed items + of_status failed items + of_status canceled items)
      × (st.counts.blocked ≡ number is_blocked items)
      × (st.counts.blocked ≤ of_status failed items)
      × (st.success_rate_percent ≤ 100)
      × (st.block_rate_percent ≤ 100)
unfolding handle_task_stats task_stats
task_stats_lem atoi cs range raw limit p q =
    let items : List Task = list_recent range (pos limit) in
    let (blocked, terminal, done) = count_loop-counts no_counts items in
    let (total, ended) = statuses_add_up items in
    let by_status : (s : Status)
        → count_of (status_text s) (count_loop no_counts items).status_counts ≡ of_status s items =
      λ s. count_loop-status s no_counts items ∙ (rw (no_status_counted s) (omega arith)) in
    let only_failed = blocked_le items (listed_failed cs range (pos limit) p) in
    (
      rw (handle_task_stats, q) refl,
      listed_le range limit
          (query_number_bounds atoi 300 1000 raw limit (omega arith) (omega arith) q).0,
      by_status,
      total,
      omega (arith, terminal, ended),
      omega (arith, blocked),
      omega (arith, blocked, only_failed),
      percent_le (count_loop no_counts items).completed (count_loop no_counts items).terminal
          (omega (arith, done, terminal, completed_le items)),
      percent_le (count_loop no_counts items).blocked
          (count_of "failed" (count_loop no_counts items).status_counts)
          (omega (arith, blocked, only_failed, by_status failed)),
    )
