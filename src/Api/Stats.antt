-- ===== src/Api/Stats.antt =====
-- The counts of handleTaskStats (internal/api/tasks.go). A percentage is the quotient of naturals: the source
-- divides two small integers as float64 and truncates, which is exact up to 1000 tasks.
use browser_use.Base.{
  ℕ, suc, ◌+◌, ◌*◌, ◌/◌, String, Bool, true, false, not, Option, none, some, List, [], ◌∷◌,
  if◌then◌else◌, ◌==◌, is_empty, trim_space, Dict, lookup, insert, ℤ, pos,
}
use browser_use.Task.Types.{Status, queued, running, completed, failed, canceled, Task, is_final}
use browser_use.Task.Listing.{list_recent}
use browser_use.Api.Listings.{query_number}

-- The text of a status: its constant in the source.
abbrev pub status_text : Status → String
status_text queued = "queued"
status_text running = "running"
status_text completed = "completed"
status_text failed = "failed"
status_text canceled = "canceled"

abbrev pub is_completed : Status → Bool
is_completed completed = true
is_completed _ = false

abbrev pub count_of : String → Dict ℕ → ℕ
count_of k counts = elim (lookup k counts) [ none ↦ 0 | some n ↦ n ]

-- `counts[key]++`
unfoldable pub bump : String → Dict ℕ → Dict ℕ
bump k counts = insert k (count_of k counts + 1) counts

pub record Counts : Type 0 where
  pub status_counts : Dict ℕ
  pub blocker_counts : Dict ℕ
  pub blocked : ℕ
  pub terminal : ℕ
  pub completed : ℕ

abbrev pub no_counts : Counts
no_counts = record {
  status_counts =
      ("queued", 0) ∷ ("running", 0) ∷ ("completed", 0) ∷ ("failed", 0) ∷ ("canceled", 0) ∷ [];
  blocker_counts = [];
  blocked = 0;
  terminal = 0;
  completed = 0;
}

abbrev pub status_key : Status → String
status_key status =
    if is_empty (trim_space (status_text status))
    then "unknown"
    else trim_space (status_text status)

unfoldable pub is_blocked : Task → Bool
is_blocked t = not (is_empty (trim_space t.blocker_type))

unfoldable pub counted : Counts → Task → Counts
unfolding bump is_blocked
counted c t = record {
  status_counts = bump (status_key t.status) c.status_counts;
  blocker_counts = if is_blocked t then bump t.blocker_type c.blocker_counts else c.blocker_counts;
  blocked = if is_blocked t then suc c.blocked else c.blocked;
  terminal = if is_final t.status then suc c.terminal else c.terminal;
  completed = if is_completed t.status then suc c.completed else c.completed;
}

unfoldable pub count_loop : Counts → List Task → Counts
count_loop c [] = c
count_loop c (t ∷ ts) = count_loop (counted c t) ts

abbrev pub percent : ℕ → ℕ → ℕ
percent part whole = if whole == 0 then 0 else part * 100 / whole

pub record Stats : Type 0 where
  pub counts : Counts
  pub success_rate_percent : ℕ
  pub block_rate_percent : ℕ

-- The answer to the tasks that ListRecent returned.
unfoldable pub task_stats : List Task → Stats
unfolding count_loop
task_stats items =
    let c = count_loop no_counts items in
    record {
      counts = c;
      success_rate_percent = percent c.completed c.terminal;
      block_rate_percent = percent c.blocked (count_of "failed" c.status_counts);
    }

-- handleTaskStats for a GET with the query's limit, `none` where it is answered with 400.
unfoldable pub handle_task_stats : (String → Option ℤ) → List Task → String → Option Stats
unfolding task_stats
handle_task_stats atoi range raw = elim (query_number atoi 300 1000 raw) [
  | none ↦ none
  | some limit ↦ some (task_stats (list_recent range (pos limit)))
]
