-- ===== src/Lease/Tests.antt =====
-- The lease manager at concrete inputs.
use browser_use.Base.{
  ℕ, All, ◌≤◌, ◌+◌, ◌<◌, ◌≡◌, refl, ◌≢◌, inr, some, none, [], ◌∷◌, arith, pos, lookup, positive_or,
  trim_space, is_space, ok, List, insert, delete,
}
use browser_use.Lease.{
  Manager, Lease, Call, acquires, releases, renews, new, grant, acquire, release, renew, run, step,
  default_ttl,
}
use browser_use.Lease.Fencing.{superseded_token_is_fenced}
use browser_use.Lease.Exclusion.{IsOther, lease_is_exclusive, holder_renews, ended_lease_is_free}

-- What the tests compute with.
program : Unit {0}
unfolding acquire release renew run step lookup insert delete trim_space is_space
program = tt

abbrev lease_of : ℕ → ℕ → Lease
lease_of t e = record { token = t; expires_at = e }

abbrev held : Manager
held = record {
  seq = 1;
  entries = ("node:a", record { owner = "w1"; token = 1; expires_at = 100 }) ∷ [];
}

abbrev retaken : Manager
retaken = record {
  seq = 2;
  entries = ("node:a", record { owner = "w2"; token = 2; expires_at = 250 }) ∷ [];
}

first_acquire : acquire new " node:a" "w1" (pos 90) 10 ≡ ok (held, some (lease_of 1 100))
unfolding program
first_acquire = refl

second_acquire :
    acquire (run held (renews "node:a" "w3" 7 (pos 5) 20 ∷ [])) " node:a" "w2" (pos 100) 150
    ≡ ok (retaken, some (lease_of 2 250))
unfolding program
second_acquire = refl

superseded_token_is_fenced_example :
    (◌<◌ 1 2)
    × (renew (run retaken (acquires "node:a" "w1" (pos 5) 200 ∷ [])) " node:a" "w1" 1 (pos 5) 210
        ≢ ok (held, some (lease_of 1 215)))
    × (release (run retaken (acquires "node:a" "w1" (pos 5) 200 ∷ [])) " node:a" "w1" 1 ≡ ok held
        → lookup (trim_space " node:a") held.entries
          ≡ lookup
              (trim_space " node:a")
              (run retaken (acquires "node:a" "w1" (pos 5) 200 ∷ [])).entries)
superseded_token_is_fenced_example =
    superseded_token_is_fenced new held retaken held " node:a" "w1" "w2" "w1" (pos 90) (pos 100)
      (pos 5) 10 150 210 (renews "node:a" "w3" 7 (pos 5) 20 ∷ [])
      (acquires "node:a" "w1" (pos 5) 200 ∷ []) (lease_of 1 100) (lease_of 2 250) (lease_of 1 215)
      (omega arith) first_acquire second_acquire

abbrev others : List Call
others = acquires "node:a" "w2" (pos 5) 20 ∷ releases "node:a" "w1" 7 30 ∷ []

others-IsOther : All (IsOther (trim_space " node:a") (trim_space "w1") 1 100) others
unfolding program
others-IsOther = (omega arith, ((omega arith, inr (inr (omega arith))), tt))

lease_is_exclusive_example :
    acquire (run held others) " node:a" "w2" (pos 5) 99 ≡ ok (run held others, none)
unfolding program
lease_is_exclusive_example =
    lease_is_exclusive new held " node:a" "w1" "w2" (pos 90) (pos 5) 10 99 (lease_of 1 100) others
      first_acquire others-IsOther (omega arith) refl refl

holder_renews_example :
    renew (run held others) " node:a" "w1" 1 (pos 60) 100
    ≡ ok (
      record (run held others) {
        entries =
            insert
              (trim_space " node:a")
              (record {
                owner = trim_space "w1";
                token = 1;
                expires_at = 100 + positive_or (pos 60) default_ttl;
              })
              (run held others).entries;
      },
      some (lease_of 1 (100 + positive_or (pos 60) default_ttl)),
    )
holder_renews_example =
    holder_renews new held " node:a" "w1" (pos 90) (pos 60) 10 100 (lease_of 1 100) others
      (omega arith) first_acquire others-IsOther (omega arith)

ended_lease_is_free_example :
    (◌≤◌ 100 130
      → acquire (run held others) " node:a" "w2" (pos 60) 130
        ≡ ok (
            grant
              (run held others)
              (trim_space " node:a")
              (trim_space "w2")
              (positive_or (pos 60) default_ttl)
              130))
    × ((freed : Manager) × (release (run held others) " node:a" "w1" 1 ≡ ok freed)
        × (acquire freed " node:a" "w2" (pos 60) 130
            ≡ ok (
                grant freed
                  (trim_space " node:a")
                  (trim_space "w2")
                  (positive_or (pos 60) default_ttl)
                  130)))
unfolding program
ended_lease_is_free_example =
    ended_lease_is_free new held " node:a" "w1" "w2" (pos 90) (pos 60) 10 130 (lease_of 1 100)
      others (omega arith) first_acquire others-IsOther refl
