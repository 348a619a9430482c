-- ===== src/Api/Metrics.antt =====
-- The figures of handleMetrics (internal/api/metrics.go): what it counts in the recent tasks and the nodes, the
-- percentile of the steps' durations, and the escape of a label. The text that it prints them as is left out. The
-- source computes a percentile's rank with float64, which for the 95 that it asks for is exact.
use Prim.Native.Char.{code}
use Prim.Native.String.{◌++◌}
use browser_use.Base.{
  ℕ, zero, suc, ◌+◌, ◌-◌, ◌*◌, ◌/◌, min, String, ◌≡◌, refl, Bool, true, false, ◌&&◌, Option, none,
  some, List, [], ◌∷◌, ◌++◌ as append, if◌then◌else◌, ltb, ◌==◌, ℤ, pos, negsuc, is_empty,
  trim_space, to_lower, contains_any, Dict, sort_slice, length, map,
}
use browser_use.Task.Types.{Status, failed, Task, StepTrace, is_final}
use browser_use.Task.Listing.{list_recent, str_gt}
use browser_use.Pool.Registry.{Node, NodeState, warming, ready, leased, draining, dead}
use browser_use.Api.Listings.{query_number}
use browser_use.Api.Stats.{bump, no_counts, status_key, is_completed}

unfoldable pub is_sandbox_crash_error : String → Bool
is_sandbox_crash_error message =
    let msg = to_lower (trim_space message) in
    if is_empty msg
    then false
    else contains_any msg (
        "connection refused" ∷ "connection reset" ∷ "dial tcp" ∷ "no such host" ∷ "bad gateway"
        ∷ "eof" ∷ "unexpected status 5" ∷ "sandbox crashed" ∷ "chromium crashed" ∷ "browser process"
        ∷ [])

abbrev pub is_failed : Status → Bool
is_failed failed = true
is_failed _ = false

-- The positive durations of a trace.
unfoldable pub latencies : List StepTrace → List ℕ
latencies [] = []
latencies (step ∷ steps) =
    let rest = latencies steps in
    elim step.duration_ms [ pos n ↦ if n == 0 then rest else n ∷ rest | negsuc n ↦ rest ]

pub record Figures : Type 0 where
  pub status_counts : Dict ℕ
  pub blocker_counts : Dict ℕ
  pub terminal : ℕ
  pub completed : ℕ
  pub failed : ℕ
  pub blocked : ℕ
  pub sandbox_crashes : ℕ
  pub step_latencies_ms : List ℕ

abbrev pub no_figures : Figures
no_figures = record {
  status_counts = no_counts.status_counts;
  blocker_counts = [];
  terminal = 0;
  completed = 0;
  failed = 0;
  blocked = 0;
  sandbox_crashes = 0;
  step_latencies_ms = [];
}

unfoldable pub figured : Figures → Task → Figures
figured f t =
    let blocker = trim_space t.blocker_type in
    record {
      status_counts = bump (status_key t.status) f.status_counts;
      blocker_counts = if is_empty blocker then f.blocker_counts else bump blocker f.blocker_counts;
      terminal = if is_final t.status then suc f.terminal else f.terminal;
      completed = if is_completed t.status then suc f.completed else f.completed;
      failed = if is_failed t.status then suc f.failed else f.failed;
      blocked = if is_empty blocker then f.blocked else suc f.blocked;
      sandbox_crashes =
          if is_failed t.status && is_sandbox_crash_error t.error_message
          then suc f.sandbox_crashes
          else f.sandbox_crashes;
      step_latencies_ms = append f.step_latencies_ms (latencies t.trace);
    }

unfoldable pub figures_loop : Figures → List Task → Figures
figures_loop f [] = f
figures_loop f (t ∷ ts) = figures_loop (figured f t) ts

-- The text of a state: its constant in internal/pool/types.go.
abbrev pub state_text : NodeState → String
state_text warming = "warming"
state_text ready = "ready"
state_text leased = "leased"
state_text draining = "draining"
state_text dead = "dead"

unfoldable pub node_state_counts : Dict ℕ → List Node → Dict ℕ
node_state_counts counts [] = counts
node_state_counts counts (n ∷ nodes) = node_state_counts (bump (state_text n.state) counts) nodes

-- `sorted[index]`
unfoldable pub nth : ℕ → List ℕ → ℕ
nth n [] = 0
nth zero (x ∷ xs) = x
nth (suc n) (x ∷ xs) = nth n xs

abbrev pub percent_of : ℤ → ℕ
percent_of (pos p) = if p == 0 then 1 else min p 100
percent_of (negsuc p) = 1

unfoldable pub percentile : List ℕ → ℤ → ℕ
percentile values p =
    let sorted = sort_slice ltb values in
    let index = (percent_of p * length sorted + 99) / 100 - 1 in
    nth (min index (length sorted - 1)) sorted

-- The keys of a map in rising order.
unfoldable pub sorted_int_map_keys : Dict ℕ → List String
sorted_int_map_keys values = sort_slice (λ a b. str_gt b a) (map (λ e. e.0) values)

-- strings.ReplaceAll of one character.
unfoldable pub replace_char : ℕ → String → String → String
replace_char c new String.[] = ""
replace_char c new (String.◌∷◌ d s) =
    let rest = replace_char c new s in if code d == c then new ++ rest else String.◌∷◌ d rest

unfoldable pub metric_label_escape : String → String
metric_label_escape value = replace_char 34 "\\\"" (replace_char 92 "\\\\" value)

-- What handleMetrics prints for a GET, `none` where it is answered with 400.
pub record Metrics : Type 0 where
  pub window_size : ℕ
  pub figures : Figures
  pub p95_step_latency_ms : ℕ
  pub node_count : ℕ
  pub state_counts : Dict ℕ

unfoldable pub handle_metrics :
    (String → Option ℤ) → List Task → List Node → String → Option Metrics
handle_metrics atoi range nodes raw = elim (query_number atoi 500 2000 raw) [
  | none ↦ none
  | some limit ↦
      let items = list_recent range (pos limit) in
      let f = figures_loop no_figures items in
      some (record {
        window_size = length items;
        figures = f;
        p95_step_latency_ms = percentile f.step_latencies_ms (pos 95);
        node_count = length nodes;
        state_counts = node_state_counts [] nodes;
      })
]

escape_test : metric_label_escape "a\"b\\c" ≡ "a\\\"b\\\\c"
unfolding metric_label_escape replace_char
escape_test = refl

percentile_test : percentile (30 ∷ 10 ∷ 20 ∷ []) (pos 95) ≡ 30
unfolding percentile nth sort_slice
percentile_test = refl
