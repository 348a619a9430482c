-- ===== src/Runner/Queue.antt =====
-- Runner.Enqueue, clearEnqueued and the worker's receive (internal/taskrunner/runner.go). The set of
-- enqueued ids has a mutex and the queue is a channel, so each critical section is a step, and any number
-- of goroutines interleave: `pending` are the ids that an Enqueue has marked and not yet offered,
-- `received` those that a worker has taken and not yet unmarked.
use browser_use.Base.{
  ℕ, suc, ◌+◌, ◌≤◌, ◌<◌, String, ◌≡◌, refl, inl, inr, Bool, true, false, none, some, List, [], ◌∷◌,
  ◌++◌, arith, ltb, if◌then◌else◌, Bool-cases, length, length-append, str_eq, str_eq_iff, is_empty,
  trim_space, Dict, lookup, insert, delete, lookup-insert, lookup-delete,
}

pub record Queue : Type 0 where
  pub enqueued : Dict (Unit {0})
  pub queue : List String
  pub pending : List String
  pub received : List String

abbrev pub is_marked : String → Queue → Bool
is_marked id q = elim (lookup id q.enqueued) [ none ↦ false | some u ↦ true ]

abbrev pub count : String → List String → ℕ
count k [] = 0
count k (x ∷ xs) = let rest = count k xs in if str_eq x k then suc rest else rest

unfoldable pub remove_one : String → List String → List String
remove_one k [] = []
remove_one k (x ∷ xs) = let rest = x ∷ remove_one k xs in if str_eq x k then xs else rest

abbrev pub has : String → List String → Bool
has k xs = ltb 0 (count k xs)

-- The first critical section of Enqueue: an id that is marked already is left to whoever marked it.
unfoldable pub mark : Queue → String → Queue
mark q id =
    if is_marked id q
    then q
    else record q { enqueued = insert id tt q.enqueued; pending = id ∷ q.pending }

-- clearEnqueued
unfoldable pub clear_enqueued : Queue → String → Queue
clear_enqueued q id = record q { enqueued = delete id q.enqueued }

-- What the rest of Enqueue returns.
pub data Offered : Type 0 where
  accepted canceled full : Offered

-- The select of Enqueue, with a channel of `size` places; `ended` says that it finds the context ended.
unfoldable pub offer : ℕ → Queue → String → Bool → Queue × Offered
unfolding clear_enqueued remove_one
offer size q id ended =
    let left : Queue = record q { pending = remove_one id q.pending } in
    if ended
    then (clear_enqueued left id, canceled)
    else if ltb (length q.queue) size
    then (record left { queue = q.queue ++ id ∷ [] }, accepted)
    else (clear_enqueued left id, full)

-- A worker's receive from the channel.
unfoldable pub receive : Queue → Queue
receive q = elim q.queue [
  | [] ↦ q
  | id ∷ rest ↦ record q { queue = rest; received = id ∷ q.received }
]

-- A step of some goroutine. An `enters` with a blank id is refused by Enqueue at once.
pub data Event : Type 0 where
  enters : String → Event
  offers : String → Bool → Event
  receives : Event
  clears : String → Event

unfoldable pub step : ℕ → Queue → Event → Queue
unfolding mark offer receive clear_enqueued remove_one
step size q (enters task_id) =
    if is_empty (trim_space task_id) then q else mark q (trim_space task_id)
step size q (offers id ended) = if has id q.pending then (offer size q id ended).0 else q
step size q receives = receive q
step size q (clears id) =
    if has id q.received
    then clear_enqueued (record q { received = remove_one id q.received }) id
    else q

unfoldable pub run : ℕ → Queue → List Event → Queue
run size q [] = q
run size q (e ∷ es) = run size (step size q e) es

abbrev pub empty : Queue
empty = record { enqueued = []; queue = []; pending = []; received = [] }

-- Every marked id is in one place, and no other id is in any; the channel is not over its size.
pub record IsConsistent (size : ℕ) (q : Queue) : Type 0 where
  pub placed :
      (id : String)
      → count id q.pending + count id q.queue + count id q.received
        ≡ (if is_marked id q then 1 else 0)
  pub bounded : length q.queue ≤ size

count-remove_one :
    (id k : String) (xs : List String)
    → 0 < count id xs
    → count k (remove_one id xs) + (if str_eq id k then 1 else 0) ≡ count k xs
unfolding remove_one
count-remove_one id k [] h = absurd (omega arith)
count-remove_one id k (x ∷ xs) h =
    ground (arith, str_eq_iff x id, str_eq_iff x k, str_eq_iff id k, count-remove_one id k xs)

count-append : (k : String) (xs ys : List String) → count k (xs ++ ys) ≡ count k xs + count k ys
count-append k [] ys = omega arith
count-append k (x ∷ xs) ys = ground (arith, count-append k xs ys)

module _ (size : ℕ) (q : Queue) (h : IsConsistent size q) where
  mark-IsConsistent : (id : String) → IsConsistent size (mark q id)
  unfolding mark
  mark-IsConsistent id = record {
    placed = λ k.
        ground (arith, h.placed k, h.placed id, lookup-insert id k tt q.enqueued, str_eq_iff id k);
    bounded = ground (arith, h.bounded);
  }

  offer-IsConsistent :
      (id : String) (ended : Bool)
      → has id q.pending ≡ true
      → IsConsistent size (offer size q id ended).0
  unfolding offer clear_enqueued
  offer-IsConsistent id ended p = record {
    placed = λ k. ground (
      arith,
      h.placed k,
      h.placed id,
      lookup-delete id k q.enqueued,
      str_eq_iff id k,
      count-remove_one id k q.pending,
      count-append k q.queue (id ∷ []),
    );
    bounded = ground (arith, h.bounded, length-append q.queue (id ∷ []));
  }

  receive-IsConsistent : IsConsistent size (receive q)
  unfolding receive
  receive-IsConsistent = record {
    placed = λ k. ground (arith, h.placed k);
    bounded = ground (arith, h.bounded);
  }

  clear-IsConsistent :
      (id : String)
      → has id q.received ≡ true
      → IsConsistent size (clear_enqueued (record q { received = remove_one id q.received }) id)
  unfolding clear_enqueued
  clear-IsConsistent id p = record {
    placed = λ k. ground (
      arith,
      h.placed k,
      h.placed id,
      lookup-delete id k q.enqueued,
      str_eq_iff id k,
      count-remove_one id k q.received,
    );
    bounded = h.bounded;
  }

step-IsConsistent :
    (size : ℕ) (q : Queue) (e : Event) → IsConsistent size q → IsConsistent size (step size q e)
unfolding step
step-IsConsistent size q (enters task_id) h = elim (Bool-cases (is_empty (trim_space task_id))) [
  | inl e ↦ rw e h
  | inr e ↦ rw e (mark-IsConsistent size q h (trim_space task_id))
]
step-IsConsistent size q (offers id ended) h = elim (Bool-cases (has id q.pending)) [
  | inl e ↦ rw e (offer-IsConsistent size q h id ended e)
  | inr e ↦ rw e h
]
step-IsConsistent size q receives h = receive-IsConsistent size q h
step-IsConsistent size q (clears id) h = elim (Bool-cases (has id q.received)) [
  | inl e ↦ rw e (clear-IsConsistent size q h id e)
  | inr e ↦ rw e h
]

run-IsConsistent :
    (size : ℕ) (q : Queue) (es : List Event)
    → IsConsistent size q
    → IsConsistent size (run size q es)
unfolding run
run-IsConsistent size q [] h = h
run-IsConsistent size q (e ∷ es) h =
    run-IsConsistent size (step size q e) es (step-IsConsistent size q e h)

-- However the goroutines interleave, from an empty queue on: an id is at most once in the channel, and
-- while it is there it is neither with a worker that has yet to unmark it nor being offered again; an id that
-- is not marked is nowhere; and the channel holds no more than its size.
pub no_id_is_queued_twice :
    (size : ℕ) (es : List Event) (id : String)
    → let q = run size empty es in
      (count id q.queue ≤ 1)
      × (0 < count id q.queue → (count id q.received ≡ 0) × (count id q.pending ≡ 0))
      × (is_marked id q ≡ false
          → (count id q.queue ≡ 0) × (count id q.received ≡ 0) × (count id q.pending ≡ 0))
      × (length q.queue ≤ size)
unfolding lookup
no_id_is_queued_twice size es id =
    let h = run-IsConsistent size empty es (record { placed = λ k. refl; bounded = omega arith }) in
    (
      ground (arith, h.placed id),
      λ p. (ground (arith, h.placed id), ground (arith, h.placed id)),
      λ p. (ground (arith, h.placed id), ground (arith, h.placed id), ground (arith, h.placed id)),
      h.bounded,
    )
