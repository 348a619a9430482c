-- ===== src/Api/Counting.antt =====
-- What the counting loop of handleTaskStats (internal/api/tasks.go) counts.
use native.Mathlib.Nat.{div-lt_iff_lt-mul}
use browser_use.Base.{
  ℕ, suc, ◌+◌, ◌*◌, ◌≤◌, ◌<◌, String, ◌≡◌, refl, ap, inl, inr, Bool, List, [], ◌∷◌, arith,
  if◌then◌else◌, Bool-cases, str_eq, str_eq_iff, length, keep, trim_space, is_space, Dict,
  lookup-insert, ◌==◌,
}
use browser_use.Task.Types.{Status, queued, running, completed, failed, canceled, Task, is_final}
use browser_use.Api.Stats.{
  Counts, counted, count_loop, count_of, bump, percent, status_text, status_key, is_blocked,
  is_completed,
}

abbrev pub is_status : Status → Status → Bool
is_status s t = str_eq (status_text s) (status_text t)

-- How many of the tasks pass a test.
abbrev pub number : (Task → Bool) → List Task → ℕ
number p ts = length (keep p ts)

status_key_lem : (s : Status) → status_key s ≡ status_text s
unfolding trim_space is_space
status_key_lem queued = refl
status_key_lem running = refl
status_key_lem completed = refl
status_key_lem failed = refl
status_key_lem canceled = refl

count_of-bump :
    (k j : String) (m : Dict ℕ)
    → count_of j (bump k m) ≡ (if str_eq k j then suc (count_of j m) else count_of j m)
unfolding bump
count_of-bump k j m = grind (arith, lookup-insert, str_eq_iff k j)

pub percent_le : (part whole : ℕ) → part ≤ whole → percent part whole ≤ 100
percent_le part whole h = elim (Bool-cases (whole == 0)) [
  | inl e ↦ rw e (omega arith)
  | inr e ↦ rw e (
      let positive : 0 < whole = ground (arith, e) in
      let below =
        (div-lt_iff_lt-mul {x = part * 100} {y = 101} positive).1 (omega (arith, h, positive)) in
      omega (arith, below))
]

pub count_loop-counts :
    (c : Counts) (ts : List Task)
    → let r = count_loop c ts in
      (r.blocked ≡ c.blocked + number is_blocked ts)
      × (r.terminal ≡ c.terminal + number (λ t. is_final t.status) ts)
      × (r.completed ≡ c.completed + number (λ t. is_completed t.status) ts)
unfolding count_loop counted keep
count_loop-counts c [] = (omega arith, omega arith, omega arith)
count_loop-counts c (t ∷ ts) =
    let (n, m, k) = count_loop-counts (counted c t) ts in
    (ground (arith, n), ground (arith, m), ground (arith, k))

pub count_loop-status :
    (s : Status) (c : Counts) (ts : List Task)
    → count_of (status_text s) (count_loop c ts).status_counts
      ≡ count_of (status_text s) c.status_counts + number (λ t. is_status t.status s) ts
unfolding count_loop counted keep
count_loop-status s c [] = omega arith
count_loop-status s c (t ∷ ts) =
    rw
      (
        count_loop-status s (counted c t) ts,
        ap (λ (k : String). count_of (status_text s) (bump k c.status_counts))
            (status_key_lem t.status),
        count_of-bump (status_text t.status) (status_text s) c.status_counts,
      )
      (ground arith)
