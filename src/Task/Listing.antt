-- ===== src/Task/Listing.antt =====
-- ListRecent, ListBySourceTaskID and ListQueued (internal/task/service.go). Each ranges over the map of
-- tasks, whose order Go leaves open: `range` is the tasks in the order in which they come.
use Prim.Native.Char.{code}
use mathlib.Core.Bool.{false≢true}
use mathlib.Core.List.Permᴰ
use mathlib.Core.List.{Memᴰ, Permᴰ}
use browser_use.Base.{
  ℕ, ◌≤◌, String, ◌≡◌, refl, sym, ◌∙◌, ◌<◌, ap, subst, ◌↔◌, ◌⊎◌, inl, inr, Option-cases, Bool, true,
  false, not, ◌&&◌, Option, none, some, List, [], ◌∷◌, arith, if◌then◌else◌, ltb, ◌==◌, str_eq,
  is_empty, trim_space, length, keep, keep-mem, mem-keep, All, ℤ, positive_or, IsSorted, IsOrder,
  first_sorted, first_sorted-mem, first_sorted-IsSorted, mem-first_sorted, length-first_sorted-le,
  values, Permᴰ-mem,
}
use browser_use.Task.Types.{Task, queued, is_queued}
use browser_use.Task.Service.{Service}

-- `a > b` on texts. Go compares bytes; in UTF-8 that is the order of the code points.
abbrev pub str_gt : String → String → Bool
str_gt String.[] b = false
str_gt (String.◌∷◌ c a) String.[] = true
str_gt (String.◌∷◌ c a) (String.◌∷◌ d b) =
    if code c == code d then str_gt a b else ltb (code d) (code c)

-- Newest first, and by falling id at one instant.
unfoldable pub newer : Task → Task → Bool
newer a b = if a.created_at == b.created_at then str_gt a.id b.id else ltb b.created_at a.created_at

unfoldable pub list_recent : List Task → ℤ → List Task
list_recent range limit = first_sorted newer (positive_or limit 50) range

unfoldable pub list_by_source_task_id : List Task → String → ℤ → List Task
list_by_source_task_id range source limit =
    if is_empty (trim_space source)
    then []
    else first_sorted newer (positive_or limit 50)
        (keep (λ t. str_eq t.source_task_id (trim_space source)) range)

-- `NextRetryAt != nil && NextRetryAt.After(now)`
abbrev not_yet : Option ℕ → ℕ → Bool
not_yet none now = false
not_yet (some at) now = ltb now at

unfoldable pub is_due : ℕ → Task → Bool
is_due now t = is_queued t.status && not (not_yet t.next_retry_at now)

abbrev due_before : Option ℕ → Option ℕ → ℕ → ℕ → Bool
due_before (some l) (some r) created created' = ltb l r
due_before (some l) none created created' = true
due_before none (some r) created created' = false
due_before none none created created' = ltb created created'

-- Tasks with a retry time first, by that time; then the others, by their creation.
unfoldable pub sooner : Task → Task → Bool
sooner a b = due_before a.next_retry_at b.next_retry_at a.created_at b.created_at

unfoldable pub list_queued : List Task → ℤ → ℕ → List Task
unfolding is_due
list_queued range limit now = first_sorted sooner (positive_or limit 100) (keep (is_due now) range)

sooner-IsOrder : IsOrder sooner
unfolding sooner
sooner-IsOrder = record {
  asymmetric = λ a b h. ground arith;
  transitive = λ a b c h k. ground arith;
}

str_gt_asymm : (a b : String) → str_gt a b ≡ true → str_gt b a ≡ false
str_gt_asymm String.[] b h = cc
str_gt_asymm (String.◌∷◌ c a) String.[] h = refl
str_gt_asymm (String.◌∷◌ c a) (String.◌∷◌ d b) h = ground (arith, str_gt_asymm a b)

str_gt_trans : (a b c : String) → str_gt b a ≡ false → str_gt c b ≡ false → str_gt c a ≡ false
str_gt_trans a b String.[] h k = refl
str_gt_trans a String.[] (String.◌∷◌ z c) h k = cc
str_gt_trans String.[] (String.◌∷◌ y b) (String.◌∷◌ z c) h k = cc
str_gt_trans (String.◌∷◌ x a) (String.◌∷◌ y b) (String.◌∷◌ z c) h k =
    ground (arith, str_gt_trans a b c)

newer-IsOrder : IsOrder newer
unfolding newer
newer-IsOrder = record {
  asymmetric = λ a b h. ground (arith, str_gt_asymm a.id b.id);
  transitive = λ a b c h k. ground (arith, str_gt_trans a.id b.id c.id);
}

-- What a list of at most `n` elements of `xs` is, if it is their start in the order `less`: in order,
-- at most `n`, of elements of `xs` that pass the test, and every one that passes is listed unless `n`
-- others are, none of which it should come before.
pub record IsTop (less : Task → Task → Bool) (n : ℕ) (xs : List Task) (test : Task → Bool)
    (ys : List Task) : Type 0 where
  pub sorted : IsSorted less ys
  pub bounded : length ys ≤ n
  pub sound : (t : Task) → Memᴰ t ys → Memᴰ t xs × (test t ≡ true)
  pub complete :
      (t : Task)
      → Memᴰ t xs
      → test t ≡ true
      → Memᴰ t ys ⊎ ((length ys ≡ n) × All (λ y. less t y ≡ false) ys)

IsTop-of :
    (less : Task → Task → Bool) (o : IsOrder less) (n : ℕ) (test : Task → Bool)
    (range xs : List Task)
    → Permᴰ range xs
    → IsTop less n xs test (first_sorted less n (keep test range))
IsTop-of less o n test range xs p = record {
  sorted = first_sorted-IsSorted less o n (keep test range);
  bounded = length-first_sorted-le less n (keep test range);
  sound = λ t m.
      let (k, h) = keep-mem test t range (first_sorted-mem less t n (keep test range) m) in
      (Permᴰ-mem t p k, h);
  complete = λ t m h.
      mem-first_sorted less o t n (keep test range)
        (mem-keep test t range (Permᴰ-mem t (Permᴰ.symm p) m) h);
}

-- The task is queued and has no retry time, or one that has come.
abbrev pub IsDue : ℕ → Task → Type 0
IsDue now t = (t.status ≡ queued) × ((at : ℕ) → t.next_retry_at ≡ some at → at ≤ now)

-- The order of the queue: an earlier retry time, a retry time before none, and an earlier creation where
-- neither has one.
pub data Precedes (a b : Task) : Type 0 where
  retried_earlier :
      (l r : ℕ) → a.next_retry_at ≡ some l → b.next_retry_at ≡ some r → l < r → Precedes a b
  retried_first : (l : ℕ) → a.next_retry_at ≡ some l → b.next_retry_at ≡ none → Precedes a b
  created_earlier :
      a.next_retry_at ≡ none → b.next_retry_at ≡ none → a.created_at < b.created_at → Precedes a b

is_due_iff : (now : ℕ) (t : Task) → (is_due now t ≡ true) ↔ IsDue now t
unfolding is_due
is_due_iff now t = (
  λ h. (ground (arith, h), λ at e. ground (arith, h, e)),
  λ (q, d). elim (Option-cases t.next_retry_at) [
    | inl e ↦ rw (q, e) refl
    | inr (at, e) ↦ let l = d at e in rw (q, e) (ground arith)
  ],
)

Precedes-sooner : (a b : Task) → Precedes a b → sooner a b ≡ true
unfolding sooner
Precedes-sooner a b (retried_earlier l r e f h) = rw (e, f) (ground arith)
Precedes-sooner a b (retried_first l e f) = rw (e, f) refl
Precedes-sooner a b (created_earlier e f h) = rw (e, f) (ground arith)

not_sooner : (a b : Task) → sooner a b ≡ false → ¬ Precedes a b
not_sooner a b h p = false≢true (sym h ∙ Precedes-sooner a b p)

-- In the order of the queue.
abbrev pub InOrder : List Task → Type 0
InOrder [] = Unit
InOrder (x ∷ xs) = All (λ y. ¬ Precedes y x) xs × InOrder xs

All-weaken :
    (P Q : Task → Type 0) → ((y : Task) → P y → Q y) → (ys : List Task) → All P ys → All Q ys
All-weaken P Q f [] h = tt
All-weaken P Q f (y ∷ ys) h = (f y h.0, All-weaken P Q f ys h.1)

IsSorted-InOrder : (ys : List Task) → IsSorted sooner ys → InOrder ys
IsSorted-InOrder [] h = tt
IsSorted-InOrder (x ∷ xs) h =
    (All-weaken _ _ (λ y e. not_sooner y x e) xs h.0, IsSorted-InOrder xs h.1)

-- The start of the queue that the tasks `xs` form.
pub record IsQueueStart (now n : ℕ) (xs ys : List Task) : Type 0 where
  pub ordered : InOrder ys
  pub bounded : length ys ≤ n
  pub sound : (t : Task) → Memᴰ t ys → Memᴰ t xs × IsDue now t
  pub complete :
      (t : Task)
      → Memᴰ t xs
      → IsDue now t
      → Memᴰ t ys ⊎ ((length ys ≡ n) × All (λ y. ¬ Precedes t y) ys)

-- In whatever order the map of tasks is ranged over, ListQueued returns the start of the queue: tasks
-- of the service that are queued and whose retry time, if any, is not after `now`; those with a retry
-- time first, by that time, then the others by creation; at most `limit` of them (100 where the limit
-- is not positive); and it leaves out a task that is due only for as many that it does not come before.
pub list_queued_lem :
    (s : Service) (range : List Task) (limit : ℤ) (now : ℕ)
    → Permᴰ range (values s.items)
    → IsQueueStart now (positive_or limit 100) (values s.items) (list_queued range limit now)
unfolding list_queued
list_queued_lem s range limit now p =
    let n = positive_or limit 100 in
    let top = IsTop-of sooner sooner-IsOrder n (is_due now) range (values s.items) p in
    record {
      ordered = IsSorted-InOrder _ top.sorted;
      bounded = top.bounded;
      sound = λ t m. let (a, b) = top.sound t m in (a, (is_due_iff now t).0 b);
      complete = λ t m d. elim (top.complete t m ((is_due_iff now t).1 d)) [
        | inl a ↦ inl a
        | inr (a, b) ↦ inr (a, All-weaken _ _ (λ y e. not_sooner t y e) _ b)
      ];
    }

keep_all : (xs : List Task) → keep (λ t. true) xs ≡ xs
unfolding keep
keep_all [] = refl
keep_all (x ∷ xs) = ap (◌∷◌ x) (keep_all xs)

-- In whatever order the map of tasks is ranged over, ListRecent returns the newest tasks of the service,
-- newest first and by falling id at one instant, at most `limit` of them (50 where the limit is not
-- positive), and leaves out a task only for as many that it is not newer than; and ListBySourceTaskID
-- with a source that is not blank returns in the same way the newest of the tasks that name it.
pub list_recent_lem :
    (s : Service) (range : List Task) (source : String) (limit : ℤ)
    → Permᴰ range (values s.items)
    → is_empty (trim_space source) ≡ false
    → IsTop newer (positive_or limit 50) (values s.items) (λ t. true) (list_recent range limit)
      × IsTop newer
          (positive_or limit 50)
          (values s.items)
          (λ t. str_eq t.source_task_id (trim_space source))
          (list_by_source_task_id range source limit)
unfolding list_recent list_by_source_task_id
list_recent_lem s range source limit p h = (
  subst
      (λ xs.
        IsTop newer (positive_or limit 50) (values s.items) (λ t. true)
          (first_sorted newer (positive_or limit 50) xs))
      (keep_all range)
      (IsTop-of newer newer-IsOrder (positive_or limit 50) (λ t. true) range (values s.items) p),
  rw h (
      IsTop-of newer newer-IsOrder (positive_or limit 50)
        (λ t. str_eq t.source_task_id (trim_space source)) range (values s.items) p),
)
