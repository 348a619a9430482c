-- ===== src/Api/Limiter.antt =====
-- The fixed-window rate limiter of internal/api/security.go. `allow` runs under the limiter's mutex, so it
-- is one step; it takes the instant that the caller read.
use browser_use.Base.{
  ℕ, ◌+◌, ◌-◌, ◌*◌, ◌%◌, String, Bool, true, false, not, ◌||◌, Option, none, some, [], ltb, leb,
  ◌==◌, if◌then◌else◌, ℤ, positive_or, minute, length, keep, is_empty, is_zero, trim_space, Dict,
  lookup, insert,
}

pub record Bucket : Type 0 where
  pub window_start : ℕ
  pub count : ℕ

pub record Limiter : Type 0 where
  pub limit : ℕ
  pub window : ℕ
  pub clients : Dict Bucket

-- newFixedWindowLimiter
unfoldable pub new : ℤ → ℤ → Limiter
new limit window = record {
  limit = positive_or limit 1;
  window = positive_or window minute;
  clients = [];
}

-- time.Time.Truncate for a positive duration.
abbrev pub truncate : ℕ → ℕ → ℕ
truncate t window = t - t % window

-- The name a client is counted under.
unfoldable pub client_key : String → String
client_key client = if is_empty (trim_space client) then "unknown" else trim_space client

-- The client's bucket of the window that starts at `start`.
unfoldable pub current_bucket : Option Bucket → ℕ → Bucket
current_bucket none start = record { window_start = start; count = 0 }
current_bucket (some b) start =
    if is_zero b.window_start || not (b.window_start == start)
    then record { window_start = start; count = 0 }
    else b

-- Whether a bucket's window starts at most two windows before the active one.
abbrev pub is_fresh : ℕ → ℕ → String × Bucket → Bool
is_fresh window active (k, b) = leb active (b.window_start + 2 * window)

unfoldable pub prune_locked : ℕ → ℕ → Dict Bucket → Dict Bucket
prune_locked window active clients =
    if ltb (length clients) 1000 then clients else keep (is_fresh window active) clients

-- What Allow does under the lock, for the client's key and the start of the instant's window.
unfoldable pub allow_at : Limiter → String → ℕ → Limiter × Bool
unfolding current_bucket prune_locked
allow_at l key start =
    let bucket = current_bucket (lookup key l.clients) start in
    if leb l.limit bucket.count
    then (l, false)
    else let counted : Bucket = record {
      window_start = bucket.window_start;
      count = bucket.count + 1;
    } in
      (
        record {
          limit = l.limit;
          window = l.window;
          clients = prune_locked l.window start (insert key counted l.clients);
        },
        true,
      )

unfoldable pub allow : Limiter → String → ℕ → Limiter × Bool
unfolding allow_at client_key
allow l client now = allow_at l (client_key client) (truncate now l.window)
