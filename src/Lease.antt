-- ===== src/Lease.antt =====
-- internal/lease/manager.go and inmemory.go: leases with fencing tokens over named resources.
-- A method takes the clock's reading as its last argument and returns the new state beside its
-- result; `none` is the source's `(Lease{}, false, nil)`. An error leaves the state as it was.
pub mod Fencing
pub mod Exclusion
mod Tests
use browser_use.Base.{
  ℕ, suc, ◌+◌, ◌*◌, ◌%◌, ◌^◌, String, ◌≡◌, refl, Bool, true, false, not, ◌&&◌, ◌||◌, Option, none,
  some, List, [], ◌∷◌, ltb, ◌==◌, if◌then◌else◌, ℤ, pos, negsuc, positive_or, second, str_eq,
  is_empty, trim_space, Dict, lookup, insert, delete, Error, plain, Result, ok, err, ◌>>=◌, ◌>>◌,
  guard,
}

pub record Lease : Type 0 where
  pub token : ℕ
  pub expires_at : ℕ

pub record Entry : Type 0 where
  pub owner : String
  pub token : ℕ
  pub expires_at : ℕ

pub record Manager : Type 0 where
  pub seq : ℕ
  pub entries : Dict Entry

abbrev pub u64 : ℕ → ℕ
u64 n = n % 2 ^ 64

-- NewInMemoryManager
abbrev pub new : Manager
new = record { seq = 0; entries = [] }

abbrev pub default_ttl : ℕ
default_ttl = 90 * second

-- The rest of Acquire once no live entry is in the way: count `seq` up and write the entry.
unfoldable pub grant : Manager → String → String → ℕ → ℕ → Manager × Option Lease
grant m resource owner ttl now =
    let token = u64 (m.seq + 1) in
    let entry : Entry = record { owner = owner; token = token; expires_at = now + ttl } in
    (
      record { seq = token; entries = insert resource entry m.entries },
      some (record { token = token; expires_at = now + ttl }),
    )

-- What Acquire does under the lock, with the names trimmed and the duration positive.
unfoldable pub acquire_locked : Manager → String → String → ℕ → ℕ → Manager × Option Lease
unfolding grant
acquire_locked m resource owner ttl now = elim (lookup resource m.entries) [
  | none ↦ grant m resource owner ttl now
  | some e ↦ if ltb now e.expires_at then (m, none) else grant m resource owner ttl now
]

unfoldable pub acquire : Manager → String → String → ℤ → ℕ → Result (Manager × Option Lease)
unfolding acquire_locked
acquire m resource owner ttl now = do
  guard (not (is_empty (trim_space resource))) (plain "resource is required")
  guard (not (is_empty (trim_space owner))) (plain "owner is required")
  ok (acquire_locked m (trim_space resource) (trim_space owner) (positive_or ttl default_ttl) now)

-- `existing.owner != owner || existing.token != token`
abbrev pub is_foreign : Entry → String → ℕ → Bool
is_foreign e owner token = not (str_eq e.owner owner) || not (e.token == token)

unfoldable pub release_locked : Manager → String → String → ℕ → Manager
release_locked m resource owner token = elim (lookup resource m.entries) [
  | none ↦ m
  | some e ↦
      if is_foreign e owner token then m else record m { entries = delete resource m.entries }
]

unfoldable pub release : Manager → String → String → ℕ → Result Manager
unfolding release_locked
release m resource owner token = do
  guard (not (is_empty (trim_space resource))) (plain "resource is required")
  guard (not (is_empty (trim_space owner))) (plain "owner is required")
  guard (not (token == 0)) (plain "token is required")
  ok (release_locked m (trim_space resource) (trim_space owner) token)

unfoldable pub renew_locked : Manager → String → String → ℕ → ℕ → ℕ → Manager × Option Lease
renew_locked m resource owner token ttl now = elim (lookup resource m.entries) [
  | none ↦ (m, none)
  | some e ↦
      if ltb e.expires_at now
      then (record m { entries = delete resource m.entries }, none)
      else if is_foreign e owner token
      then (m, none)
      else (
        record m { entries = insert resource (record e { expires_at = now + ttl }) m.entries },
        some (record { token = token; expires_at = now + ttl }),
      )
]

unfoldable pub renew : Manager → String → String → ℕ → ℤ → ℕ → Result (Manager × Option Lease)
unfolding renew_locked
renew m resource owner token ttl now = do
  guard (not (is_empty (trim_space resource))) (plain "resource is required")
  guard (not (is_empty (trim_space owner))) (plain "owner is required")
  guard (not (token == 0)) (plain "token is required")
  ok (
      renew_locked m (trim_space resource) (trim_space owner) token (positive_or ttl default_ttl)
        now)

-- A history of calls by any number of clients: the manager's mutex makes each call one step.
pub data Call : Type 0 where
  acquires : String → String → ℤ → ℕ → Call
  releases : String → String → ℕ → ℕ → Call
  renews : String → String → ℕ → ℤ → ℕ → Call

abbrev pub after_pair : Manager → Result (Manager × Option Lease) → Manager
after_pair m (ok (n, _)) = n
after_pair m (err _) = m

abbrev pub after : Manager → Result Manager → Manager
after m (ok n) = n
after m (err _) = m

unfoldable pub step : Manager → Call → Manager
step m (acquires resource owner ttl now) = after_pair m (acquire m resource owner ttl now)
step m (releases resource owner token now) = after m (release m resource owner token)
step m (renews resource owner token ttl now) = after_pair m (renew m resource owner token ttl now)

unfoldable pub run : Manager → List Call → Manager
run m [] = m
run m (c ∷ cs) = run (step m c) cs
