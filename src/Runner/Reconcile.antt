-- ===== src/Runner/Reconcile.antt =====
-- Enqueue as one caller sees it, and reconcileQueuedOnce (internal/taskrunner/runner.go).
use mathlib.Core.List.Memᴰ
use mathlib.Core.List.{Memᴰ}
use browser_use.Base.{
  ◌++◌, insert, lookup-delete, str_eq, ℕ, ◌≤◌, String, ◌≡◌, refl, sym, subst, ◌⊎◌, inl, inr, Bool,
  true, false, List, [], ◌∷◌, map, All, arith, ltb, if◌then◌else◌, Bool-cases, length, str_eq_iff,
  pos, is_empty, trim_space, lookup-insert, plain, queue_full, canceled, is_queue_full, Result, ok,
  err,
}
use browser_use.Task.Types.{Task}
use browser_use.Task.Listing.{list_queued}
use browser_use.Runner.Queue.{Queue, Offered, is_marked, mark, offer, clear_enqueued, remove_one}
use browser_use.Runner.Queue

-- The error of the select's outcome.
abbrev pub offered_result : Offered → Result (Unit {0})
offered_result Queue.accepted = ok tt
offered_result Queue.canceled = err canceled
offered_result Queue.full = err queue_full

-- Enqueue with nobody in between; `ended` says that its context has ended.
unfoldable pub enqueue : ℕ → Queue → String → Bool → Queue × Result (Unit {0})
unfolding mark offer
enqueue size q task_id ended =
    let id = trim_space task_id in
    let (n, outcome) = offer size (mark q id) id ended in
    if is_empty id
    then (q, err (plain "task id is required"))
    else if is_marked id q
    then (q, ok tt)
    else (n, offered_result outcome)

abbrev pub is_full : Result (Unit {0}) → Bool
is_full (ok u) = false
is_full (err e) = is_queue_full e

-- The loop over the ids of the listed tasks: it stops when the queue is full.
unfoldable pub enqueue_all : ℕ → Queue → Bool → List String → Queue
unfolding enqueue
enqueue_all size q ended [] = q
enqueue_all size q ended (id ∷ ids) =
    let (n, r) = enqueue size q id ended in
    let rest = enqueue_all size n ended ids in if is_full r then n else rest

-- `range` is the order in which ListQueued ranges over the map of tasks.
unfoldable pub reconcile_queued_once : ℕ → Queue → Bool → List Task → ℕ → Queue
unfolding enqueue_all
reconcile_queued_once size q ended range now =
    enqueue_all size q ended (map (λ (t : Task). t.id) (list_queued range (pos size) now))

-- What calls of Enqueue do to the queue, whatever they return: no mark and no place is lost, and whatever is
-- marked was marked before or stands in the channel.
pub record IsLossless (q n : Queue) : Type 0 where
  pub keeps_marks : (k : String) → is_marked k q ≡ true → is_marked k n ≡ true
  pub keeps_places : (k : String) → Memᴰ k q.queue → Memᴰ k n.queue
  pub no_leak : (k : String) → is_marked k n ≡ true → (is_marked k q ≡ true) ⊎ Memᴰ k n.queue

IsLossless-self : (q : Queue) → IsLossless q q
IsLossless-self q = record {
  keeps_marks = λ k m. m;
  keeps_places = λ k m. m;
  no_leak = λ k m. inl m;
}

IsLossless-trans : (a b c : Queue) → IsLossless a b → IsLossless b c → IsLossless a c
IsLossless-trans a b c x y = record {
  keeps_marks = λ k m. y.keeps_marks k (x.keeps_marks k m);
  keeps_places = λ k m. y.keeps_places k (x.keeps_places k m);
  no_leak = λ k m. elim (y.no_leak k m) [
    | inr p ↦ inr p
    | inl b ↦ elim (x.no_leak k b) [ inl r ↦ inl r | inr p ↦ inr (y.keeps_places k p) ]
  ];
}

-- What an Enqueue of a name whose context has not ended comes to.
abbrev Enqueues : ℕ → Queue → String → Queue × Result (Unit {0}) → Type 0
Enqueues size q id (n, r) =
    (((is_full r ≡ false) × (is_marked id n ≡ true))
      ⊎ ((is_full r ≡ true) × (size ≤ length n.queue)))
    × IsLossless q n

refused-IsLossless :
    (q : Queue) (id : String)
    → is_marked id q ≡ false
    → IsLossless q
        (clear_enqueued (record (mark q id) { pending = remove_one id (mark q id).pending }) id)
unfolding mark clear_enqueued
refused-IsLossless q id h = record {
  keeps_marks = λ k m. ground (
    arith,
    lookup-delete id k (insert id tt q.enqueued),
    lookup-insert id k tt q.enqueued,
    str_eq_iff id k,
  );
  keeps_places = λ k m. rw h m;
  no_leak = λ k m. inl (
      ground (
        arith,
        m,
        lookup-delete id k (insert id tt q.enqueued),
        lookup-insert id k tt q.enqueued,
        str_eq_iff id k,
      ));
}

accepted-IsLossless :
    (q : Queue) (id : String)
    → is_marked id q ≡ false
    → IsLossless q (record (mark q id) {
      pending = remove_one id (mark q id).pending;
      queue = (mark q id).queue ++ id ∷ [];
    })
unfolding mark
accepted-IsLossless q id h = record {
  keeps_marks = λ k m. ground (arith, lookup-insert id k tt q.enqueued);
  keeps_places = λ k m. rw h (Memᴰ.append_left (id ∷ []) m);
  no_leak = λ k m. elim (Bool-cases (str_eq id k)) [
    | inl e ↦ inr (rw h (Memᴰ.append_right q.queue (Memᴰ.head (sym ((str_eq_iff id k).0 e)))))
    | inr e ↦ inl (ground (arith, m, lookup-insert id k tt q.enqueued))
  ];
}

enqueue-Enqueues :
    (size : ℕ) (q : Queue) (id : String)
    → is_empty (trim_space id) ≡ false
    → Enqueues size q (trim_space id) (enqueue size q id false)
unfolding enqueue mark offer
enqueue-Enqueues size q id h =
    let k = trim_space id in
    elim (Bool-cases (is_marked k q)) [
      | inl t ↦ rw (h, t) (inl (refl, t), IsLossless-self q)
      | inr t ↦ elim (Bool-cases (ltb (length q.queue) size)) [
        | inl l ↦
            let now_marked : is_marked k (record (mark q k) {
              pending = remove_one k (mark q k).pending;
              queue = (mark q k).queue ++ k ∷ [];
            })
                ≡ true =
              ground (arith, lookup-insert k k tt q.enqueued, str_eq_iff k k) in
            rw (h, t, l) (inl (refl, rw t at now_marked), rw t at (accepted-IsLossless q k t))
        | inr l ↦
            rw (h, t, l)
              (
                inr (refl, unfold clear_enqueued in ground arith),
                rw t at (refused-IsLossless q k t),
              )
      ]
    ]

abbrev pub IsNamed : Task → Type 0
IsNamed t = is_empty (trim_space t.id) ≡ false

abbrev pub IsMarked : Queue → Task → Type 0
IsMarked q t = is_marked (trim_space t.id) q ≡ true

-- The task waits in the channel, or another Enqueue or a worker had it already.
abbrev pub IsTaken : Queue → Queue → Task → Type 0
IsTaken q n t = Memᴰ (trim_space t.id) n.queue ⊎ IsMarked q t

abbrev id_of : Task → String
id_of t = t.id

-- What a loop of Enqueue calls over the tasks comes to.
abbrev Enqueued : ℕ → Queue → List Task → Queue → Type 0
Enqueued size q ts n = (All (IsMarked n) ts ⊎ (size ≤ length n.queue)) × IsLossless q n

enqueue_all-Enqueued :
    (size : ℕ) (q : Queue) (ts : List Task)
    → All IsNamed ts
    → Enqueued size q ts (enqueue_all size q false (map id_of ts))
unfolding enqueue_all
enqueue_all-Enqueued size q [] h = (inl tt, IsLossless-self q)
enqueue_all-Enqueued size q (t ∷ ts) h =
    let c = (enqueue size q t.id false).0 in
    let last = enqueue_all size c false (map id_of ts) in
    let (outcome, kept) = enqueue-Enqueues size q t.id h.0 in
    let (all, later) = enqueue_all-Enqueued size c ts h.1 in
    elim outcome [
      | inr (f, l) ↦ rw f (inr l, kept)
      | inl (f, m) ↦
          let same : enqueue_all size q false (map id_of (t ∷ ts)) ≡ last = rw f refl in
          let found : All (IsMarked last) (t ∷ ts) ⊎ (size ≤ length last.queue) = elim all [
            | inl a ↦ inl (later.keeps_marks _ m, a)
            | inr l ↦ inr l
          ] in
          subst (Enqueued size q (t ∷ ts)) (sym same) (found, IsLossless-trans q c last kept later)
    ]

taken : (q n : Queue) (ts : List Task) → IsLossless q n → All (IsMarked n) ts → All (IsTaken q n) ts
taken q n [] l h = tt
taken q n (t ∷ ts) l h =
    (elim (l.no_leak (trim_space t.id) h.0) [ inl m ↦ inr m | inr p ↦ inl p ], taken q n ts l h.1)

-- A reconcile of the queue loses no task that is due. After reconcileQueuedOnce, with a context that has
-- not ended and nobody in between, either every task of its list waits in the channel or was marked
-- before, by another Enqueue or for a worker, or the channel is full. In either case no mark is lost, nothing leaves
-- the channel, and no other id is marked than those that were and those that stand in the channel, so
-- a task that found it full is not marked and can be enqueued later. The listed tasks have ids that are not blank.
pub reconcile_queued_once_lem :
    (size : ℕ) (q : Queue) (range : List Task) (now : ℕ)
    → All IsNamed (list_queued range (pos size) now)
    → let n = reconcile_queued_once size q false range now in
      (All (IsTaken q n) (list_queued range (pos size) now) ⊎ (size ≤ length n.queue))
      × IsLossless q n
unfolding reconcile_queued_once
reconcile_queued_once_lem size q range now h =
    let due = list_queued range (pos size) now in
    let (all, kept) = enqueue_all-Enqueued size q due h in
    (elim all [ inl a ↦ inl (taken q _ due kept a) | inr l ↦ inr l ], kept)
