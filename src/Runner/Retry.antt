-- ===== src/Runner/Retry.antt =====
-- shouldRetry, retryDelay and isRetriableError (internal/taskrunner/runner.go).
use native.Mathlib.Nat.{pow-suc}
use browser_use.Base.{
  ap, ℕ, zero, suc, ◌+◌, ◌-◌, ◌*◌, ◌^◌, ◌≤◌, ◌<◌, String, ◌≡◌, refl, Bool, true, false, List, [],
  ◌∷◌, arith, ltb, min, if◌then◌else◌, ℤ, pos, negsuc, leb_ℤ, contains_any, to_lower, Error,
  error_text, is_canceled, is_deadline,
}
use browser_use.Task.Types.{Task}

-- The durations of Config that retries use, as New leaves them: positive, the larger not below the other.
pub record Delays : Type 0 where
  pub base : ℕ
  pub most : ℕ

abbrev pub non_retriable_signals : List String
non_retriable_signals =
    "captcha" ∷ "verify you are human" ∷ "human verification required"
    ∷ "confirm this search was made by a human" ∷ "please fill out this field"
    ∷ "timeout waiting for url to contain" ∷ "timeout waiting for selector"
    ∷ "unsupported action type" ∷ "selector is required" ∷ "url is required"
    ∷ "invalid selector syntax" ∷ "click failed: not_found" ∷ "type failed: not_found"
    ∷ "extract_text failed: not_found" ∷ "press_enter failed: not_found" ∷ []

abbrev pub signals : List String
signals =
    "timeout" ∷ "temporarily" ∷ "connection refused" ∷ "connection reset" ∷ "no such host"
    ∷ "dial tcp" ∷ "no node available" ∷ "bad gateway" ∷ "eof" ∷ "unexpected status 5"
    ∷ "lease ownership lost" ∷ []

-- The error is never nil where the source calls this.
unfoldable pub is_retriable_error : Error → Bool
is_retriable_error e =
    if is_canceled e
    then false
    else if is_deadline e
    then true
    else if contains_any (to_lower (error_text e)) non_retriable_signals
    then false
    else contains_any (to_lower (error_text e)) signals

abbrev attempt_over : ℕ → ℤ → Bool
attempt_over attempt (pos n) = ltb n attempt
attempt_over attempt (negsuc n) = true

unfoldable pub should_retry : Task → Error → Bool
should_retry t e =
    if leb_ℤ t.max_retries (pos 0)
    then false
    else if attempt_over t.attempt t.max_retries
    then false
    else is_retriable_error e

within :
    (attempt : ℕ) (z : ℤ) → attempt_over attempt z ≡ false → (n : ℕ) × (z ≡ pos n) × (attempt ≤ n)
within attempt (pos n) h = (n, refl, ground arith)
within attempt (negsuc n) h = cc

pub should_retry-attempt :
    (t : Task) (e : Error)
    → should_retry t e ≡ true
    → (n : ℕ) × (t.max_retries ≡ pos n) × (t.attempt ≤ n)
unfolding should_retry
should_retry-attempt t e h = within t.attempt t.max_retries (ground arith)

-- The source computes in float64. A duration below 2^53 ns and its product with a power of two are exact
-- there (or infinite, and then capped), so this is what it returns for such durations.
unfoldable pub retry_delay : Delays → ℕ → ℕ
retry_delay d attempt =
    let delay = d.base * 2 ^ (attempt - 1) in if ltb d.most delay then d.most else delay

pow-pos : (k : ℕ) → 0 < 2 ^ k
pow-pos zero = omega arith
pow-pos (suc k) = omega (arith, pow-suc 2 k, pow-pos k)

times-pos : (a b : ℕ) → 0 < a → 0 < b → 0 < a * b
times-pos a b h k = grind arith

next_power : (b n : ℕ) → b * 2 ^ (n + 2 - 1) ≡ 2 * (b * 2 ^ (n + 1 - 1))
next_power b n =
    let one : n + 2 - 1 ≡ suc n = omega arith in
    let same : n + 1 - 1 ≡ n = omega arith in
    rw (one, same) (omega (arith, ap (λ (t : ℕ). b * t) (pow-suc 2 n)))

-- Where the base delay is positive and not beyond the largest, the delay before a retry is positive and
-- at most the largest delay, starts at the base, and doubles from one attempt to the next until it
-- reaches the largest.
pub retry_delay_bounds :
    (d : Delays) (attempt : ℕ)
    → 0 < d.base
    → d.base ≤ d.most
    → (0 < retry_delay d attempt)
      × (retry_delay d attempt ≤ d.most)
      × (retry_delay d 1 ≡ d.base)
      × (retry_delay d (attempt + 2) ≡ min (2 * retry_delay d (attempt + 1)) d.most)
unfolding retry_delay
retry_delay_bounds d attempt h k =
    let p = times-pos d.base (2 ^ (attempt - 1)) h (pow-pos (attempt - 1)) in
    let q = next_power d.base attempt in (ground arith, ground arith, ground arith, ground arith)
