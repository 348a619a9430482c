-- ===== src/Runner/Requeue.antt =====
-- enqueueAfterDelay (internal/taskrunner/runner.go), from the moment the delay has passed.
use browser_use.Base.{
  ℕ, zero, suc, ◌+◌, ◌<◌, ◌≤◌, ◌≡◌, ap, ◌∙◌, ◌⊎◌, inl, inr, subst, ltb, Bool, true, false, not,
  ◌||◌, arith, if◌then◌else◌, Bool-cases, Result-cases, Error, plain, wrapped, queue_full,
  is_canceled, is_deadline, is_queue_full, Result, ok, err,
}

-- How the loop ends: the task is enqueued; a context has ended; or the task is failed with an error.
pub data Ending : Type 0 where
  enqueued stopped : Ending
  dropped : Error → Ending

-- With `left` attempts to go, of which the next is the `i`-th. `outcome` is what each Enqueue returns,
-- and `ended` whether the context ends in the pause after it.
unfoldable pub requeue_loop : ℕ → (ℕ → Result (Unit {0})) → (ℕ → Bool) → ℕ → Ending
requeue_loop zero outcome ended i = dropped (plain "re-enqueue failed: queue remained full")
requeue_loop (suc left) outcome ended i =
    let rest = requeue_loop left outcome ended (suc i) in
    elim (outcome i) [
      | ok u ↦ enqueued
      | err e ↦
          if is_canceled e || is_deadline e
          then stopped
          else if not (is_queue_full e)
          then dropped (wrapped "re-enqueue failed" e)
          else if ended i
          then stopped
          else rest
    ]

unfoldable pub enqueue_after_delay : (ℕ → Result (Unit {0})) → (ℕ → Bool) → Ending
unfolding requeue_loop
enqueue_after_delay outcome ended = requeue_loop 10 outcome ended 0

-- The errors of Enqueue for a task with an id.
abbrev pub IsEnqueued : Result (Unit {0}) → Type 0
IsEnqueued (ok u) = Unit
IsEnqueued (err e) = (is_canceled e ≡ true) ⊎ (e ≡ queue_full)

one_round :
    (left : ℕ) (outcome : ℕ → Result (Unit {0})) (ended : ℕ → Bool) (i : ℕ) (e : Error)
    → IsEnqueued (outcome i)
    → requeue_loop (suc left) outcome ended i ≡ dropped e
    → (outcome i ≡ err queue_full)
      × (ended i ≡ false)
      × (requeue_loop left outcome ended (suc i) ≡ dropped e)
unfolding requeue_loop
one_round left outcome ended i e h d = elim (Result-cases (outcome i)) [
  | inl (u, o) ↦ absurd (ground arith)
  | inr (f, o) ↦
      let kind : (is_canceled f ≡ true) ⊎ (f ≡ queue_full) = rw o at h in
      elim kind [
        | inl c ↦ absurd (ground arith)
        | inr same ↦
            let full : outcome i ≡ err queue_full = o ∙ ap (λ (x : Error). err x) same in
            (full, ground arith, ground arith)
      ]
]

dropped_loop :
    (left : ℕ) (outcome : ℕ → Result (Unit {0})) (ended : ℕ → Bool) (i : ℕ) (e : Error)
    → ((j : ℕ) → IsEnqueued (outcome j))
    → requeue_loop left outcome ended i ≡ dropped e
    → (j : ℕ) → i ≤ j
    → j < i + left
    → (outcome j ≡ err queue_full) × (ended j ≡ false)
dropped_loop zero outcome ended i e h d j p q = absurd (omega arith)
dropped_loop (suc left) outcome ended i e h d j p q =
    let (full, on, rest) = one_round left outcome ended i e (h i) d in
    elim (Bool-cases (ltb i j)) [
      | inl l ↦ dropped_loop left outcome ended (suc i) e h rest j (ground arith) (omega arith)
      | inr l ↦
          let same : i ≡ j = ground arith in
          subst (λ k. (outcome k ≡ err queue_full) × (ended k ≡ false)) same (full, on)
    ]

-- A task that waits for its retry is given up only after ten tries. Where Enqueue fails only because its
-- context has ended or the queue is full (which it does for an id that is not blank), the loop drops
-- the task only if each of its ten tries has found the queue full and no context ended after it.
pub enqueue_after_delay_lem :
    (outcome : ℕ → Result (Unit {0})) (ended : ℕ → Bool) (e : Error)
    → ((j : ℕ) → IsEnqueued (outcome j))
    → enqueue_after_delay outcome ended ≡ dropped e
    → (j : ℕ) → j < 10
    → (outcome j ≡ err queue_full) × (ended j ≡ false)
unfolding enqueue_after_delay
enqueue_after_delay_lem outcome ended e h d j q =
    dropped_loop 10 outcome ended 0 e h d j (omega arith) (omega arith)
