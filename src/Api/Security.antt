-- ===== src/Api/Security.antt =====
-- The security middleware of internal/api/security.go, and the set-up of its settings in internal/api/server.go.
-- `split_host_port` is the host of net.SplitHostPort, `none` where it fails; `header` is a
-- header's first value, "" where there is none.
use browser_use.Base.{
  ℕ, zero, suc, String, Bool, true, false, not, ◌&&◌, ◌||◌, Option, none, some, List, [], ◌∷◌,
  if◌then◌else◌, ℤ, pos, ltb_ℤ, str_eq, is_empty, trim_space, to_lower, has_prefix, has_suffix,
  split, is_one_of, minute,
}
use browser_use.Api.Limiter.{Limiter, new, allow}

pub record Request : Type 0 where
  pub method : String
  pub path : String
  pub api_key : String
  pub authorization : String
  pub forwarded_for : String
  pub remote_addr : String

unfoldable pub requires_create_auth_and_rate_limit : Request → Bool
requires_create_auth_and_rate_limit r =
    if not (str_eq r.method "POST")
    then false
    else if is_one_of (trim_space r.path)
        ("/sessions" ∷ "/v1/sessions" ∷ "/task" ∷ "/v1/tasks" ∷ [])
    then true
    else has_prefix (trim_space r.path) "/v1/tasks/"
      && (has_suffix (trim_space r.path) "/replay" || has_suffix (trim_space r.path) "/cancel")

-- The text behind its first `n` characters: `auth[7:]`, where all seven are ASCII.
unfoldable pub skip : ℕ → String → String
skip zero s = s
skip (suc n) String.[] = String.[]
skip (suc n) (String.◌∷◌ c s) = skip n s

-- The texts that requestHasAPIKey compares: header lookups ignore case, so X-API-Key comes twice.
unfoldable pub candidates : Request → List String
candidates r =
    trim_space r.api_key
    ∷ trim_space r.api_key
    ∷ (if has_prefix (to_lower (trim_space r.authorization)) "bearer "
        then trim_space (skip 7 (trim_space r.authorization)) ∷ []
        else [])

unfoldable pub request_has_api_key : Request → String → Bool
unfolding candidates
request_has_api_key r expected =
    if is_empty (trim_space expected) then true else is_one_of (trim_space expected) (candidates r)

-- What the middleware does with a request.
pub data Verdict : Type 0 where
  served unauthorized rate_limited : Verdict

-- The part of the server that the middleware reads and changes.
pub record Security : Type 0 where
  pub required_api_key : String
  pub rate_limiter : Option Limiter

-- Server.SetAPISecurity
unfoldable pub set_api_security : String → ℤ → Security
unfolding new
set_api_security api_key rate_limit_per_minute = record {
  required_api_key = api_key;
  rate_limiter =
      if ltb_ℤ (pos 0) rate_limit_per_minute
      then some (new rate_limit_per_minute (pos minute))
      else none;
}

abbrev pub head_or : String → List String → String
head_or s [] = s
head_or s (t ∷ ts) = t

module _ (split_host_port : String → Option String) where
  unfoldable pub remote_host : Request → String
  remote_host r =
      let raw =
        if is_empty (trim_space r.remote_addr) then "unknown" else trim_space r.remote_addr in
      elim (split_host_port (trim_space r.remote_addr)) [
        | none ↦ raw
        | some host ↦ if is_empty host then raw else host
      ]

  unfoldable pub request_client_identity : Request → String
  unfolding remote_host
  request_client_identity r =
      let first = trim_space (head_or "" (split b',' (trim_space r.forwarded_for))) in
      if is_empty (trim_space r.forwarded_for)
      then remote_host r
      else if is_empty first
      then remote_host r
      else first

  unfoldable pub limited : Security → Request → ℕ → Security × Verdict
  unfolding request_client_identity
  limited s r now = elim s.rate_limiter [
    | none ↦ (s, served)
    | some l ↦
        let (next, granted) = allow l (request_client_identity r) now in
        (
          record { required_api_key = s.required_api_key; rate_limiter = some next },
          if granted then served else rate_limited,
        )
  ]

  -- withAPISecurity: what happens to a request that the server reads at `now`.
  unfoldable pub with_api_security : Security → Request → ℕ → Security × Verdict
  unfolding limited
  with_api_security s r now =
      if not (requires_create_auth_and_rate_limit r)
      then (s, served)
      else if not (is_empty (trim_space s.required_api_key))
          && not (request_has_api_key r s.required_api_key)
      then (s, unauthorized)
      else limited s r now
