-- ===== src/Lease/Exclusion.antt =====
-- Mutual exclusion by the in-memory lease manager (internal/lease/inmemory.go): nobody else gets a
-- resource before the lease on it ends, and it is free once it has ended.
use browser_use.Base.{
  ℕ, ◌+◌, ◌^◌, ◌≤◌, ◌<◌, String, ◌≡◌, ◌≢◌, ◌⊎◌, false, none, some, List, [], ◌∷◌, All, arith, ℤ,
  positive_or, positive_or-pos, str_eq_iff, is_empty, trim_space, lookup, insert, delete,
  lookup-insert, lookup-delete, ok,
}
use browser_use.Lease.{
  Lease, Entry, Manager, Call, acquires, releases, renews, default_ttl, grant, acquire_locked,
  acquire, release_locked, release, renew_locked, renew, step, run,
}

-- A call made before the instant `until` that is neither a Renew nor a Release by the owner `o`
-- with the token `t` for the resource `r` (names as they are after trimming).
abbrev pub IsOther : String → String → ℕ → ℕ → Call → Type 0
IsOther r o t until (acquires s p ttl now) = now < until
IsOther r o t until (releases s p u now) =
    (now < until) × ((trim_space s ≢ r) ⊎ (trim_space p ≢ o) ⊎ (u ≢ t))
IsOther r o t until (renews s p u ttl now) =
    (now ≤ until) × ((trim_space s ≢ r) ⊎ (trim_space p ≢ o) ⊎ (u ≢ t))

step-lookup_other :
    (r : String) (e : Entry) (m : Manager) (c : Call)
    → IsOther r e.owner e.token e.expires_at c
    → lookup r m.entries ≡ some e
    → lookup r (step m c).entries ≡ some e
unfolding step acquire acquire_locked grant release release_locked renew renew_locked
step-lookup_other r e m (acquires s p ttl now) k h =
    grind (arith, lookup-insert, str_eq_iff (trim_space s) r)
step-lookup_other r e m (releases s p u now) k h =
    grind (arith, lookup-delete, str_eq_iff (trim_space s) r, str_eq_iff e.owner (trim_space p))
step-lookup_other r e m (renews s p u ttl now) k h = grind (
  arith,
  lookup-insert,
  lookup-delete,
  str_eq_iff (trim_space s) r,
  str_eq_iff e.owner (trim_space p),
)

run-lookup_other :
    (r : String) (e : Entry) (m : Manager) (cs : List Call)
    → All (IsOther r e.owner e.token e.expires_at) cs
    → lookup r m.entries ≡ some e
    → lookup r (run m cs).entries ≡ some e
unfolding run
run-lookup_other r e m [] k h = h
run-lookup_other r e m (c ∷ cs) k h =
    run-lookup_other r e (step m c) cs k.1 (step-lookup_other r e m c k.0 h)

grant_entry : String → Lease → Entry
grant_entry o l = record { owner = trim_space o; token = l.token; expires_at = l.expires_at }

granted :
    (m n : Manager) (r o : String) (ttl : ℤ) (now : ℕ) (l : Lease)
    → acquire m r o ttl now ≡ ok (n, some l)
    → (lookup (trim_space r) n.entries ≡ some (grant_entry o l)) × (now < l.expires_at)
unfolding acquire acquire_locked grant grant_entry
granted m n r o ttl now l h =
    grind (arith, lookup-insert, str_eq_iff, positive_or-pos ttl default_ttl)

refused :
    (m : Manager) (r o : String) (ttl : ℤ) (now : ℕ) (e : Entry)
    → lookup (trim_space r) m.entries ≡ some e
    → now < e.expires_at
    → is_empty (trim_space r) ≡ false
    → is_empty (trim_space o) ≡ false
    → acquire m r o ttl now ≡ ok (m, none)
unfolding acquire acquire_locked
refused m r o ttl now e h b p q = ground arith

-- A lease keeps the others out. After an Acquire has granted a lease, and after any calls by anybody
-- else before the lease's expiry (anybody else: no Renew or Release that carries the holder's owner
-- and token for this resource), a further Acquire of the resource by any named owner before the
-- expiry is refused without an error and changes nothing.
pub lease_is_exclusive :
    (m n : Manager) (r o o' : String) (ttl ttl' : ℤ) (now now' : ℕ) (l : Lease) (cs : List Call)
    → acquire m r o ttl now ≡ ok (n, some l)
    → All (IsOther (trim_space r) (trim_space o) l.token l.expires_at) cs
    → now' < l.expires_at
    → is_empty (trim_space r) ≡ false
    → is_empty (trim_space o') ≡ false
    → acquire (run n cs) r o' ttl' now' ≡ ok (run n cs, none)
unfolding grant_entry
lease_is_exclusive m n r o o' ttl ttl' now now' l cs h k b p q =
    let (held, _) = granted m n r o ttl now l h in
    let kept = run-lookup_other (trim_space r) (grant_entry o l) n cs k held in
    refused (run n cs) r o' ttl' now' (grant_entry o l) kept b p q

named :
    (m n : Manager) (r o : String) (ttl : ℤ) (now : ℕ) (l : Lease)
    → acquire m r o ttl now ≡ ok (n, some l)
    → m.seq + 1 < 2 ^ 64
    → (is_empty (trim_space r) ≡ false) × (is_empty (trim_space o) ≡ false) × (0 < l.token)
unfolding acquire acquire_locked grant
named m n r o ttl now l h b = ground arith

renew_held :
    (m : Manager) (r o : String) (ttl : ℤ) (now : ℕ) (l : Lease)
    → (is_empty (trim_space r) ≡ false) × (is_empty (trim_space o) ≡ false) × (0 < l.token)
    → lookup (trim_space r) m.entries ≡ some (grant_entry o l)
    → now ≤ l.expires_at
    → renew m r o l.token ttl now
      ≡ ok (
        record m {
          entries =
              insert
                (trim_space r)
                (record {
                  owner = trim_space o;
                  token = l.token;
                  expires_at = now + positive_or ttl default_ttl;
                })
                m.entries;
        },
        some (record { token = l.token; expires_at = now + positive_or ttl default_ttl }),
      )
unfolding renew renew_locked grant_entry
renew_held m r o ttl now l (p, q, z) h b = ground (arith, str_eq_iff (trim_space o) (trim_space o))

-- The holder keeps a lease that it renews in time: after an Acquire has granted the lease and after
-- calls by anybody else before the expiry, a Renew not after the expiry with the holder's owner and
-- token returns the same token, with the expiry at the given duration from then, and stores that
-- expiry under the same owner and token. The token counter is assumed not to wrap at the Acquire.
pub holder_renews :
    (m n : Manager) (r o : String) (ttl ttl' : ℤ) (now now' : ℕ) (l : Lease) (cs : List Call)
    → m.seq + 1 < 2 ^ 64
    → acquire m r o ttl now ≡ ok (n, some l)
    → All (IsOther (trim_space r) (trim_space o) l.token l.expires_at) cs
    → now' ≤ l.expires_at
    → renew (run n cs) r o l.token ttl' now'
      ≡ ok (
        record (run n cs) {
          entries =
              insert
                (trim_space r)
                (record {
                  owner = trim_space o;
                  token = l.token;
                  expires_at = now' + positive_or ttl' default_ttl;
                })
                (run n cs).entries;
        },
        some (record { token = l.token; expires_at = now' + positive_or ttl' default_ttl }),
      )
unfolding grant_entry
holder_renews m n r o ttl ttl' now now' l cs w h k b =
    let kept =
      run-lookup_other (trim_space r) (grant_entry o l) n cs k (granted m n r o ttl now l h).0 in
    renew_held (run n cs) r o ttl' now' l (named m n r o ttl now l h w) kept b

release_held :
    (m : Manager) (r o : String) (l : Lease)
    → (is_empty (trim_space r) ≡ false) × (is_empty (trim_space o) ≡ false) × (0 < l.token)
    → lookup (trim_space r) m.entries ≡ some (grant_entry o l)
    → release m r o l.token ≡ ok (record m { entries = delete (trim_space r) m.entries })
unfolding release release_locked grant_entry
release_held m r o l (p, q, z) h = ground (arith, str_eq_iff (trim_space o) (trim_space o))

acquire_absent :
    (m : Manager) (r o : String) (ttl : ℤ) (now : ℕ)
    → lookup (trim_space r) m.entries ≡ none
    → is_empty (trim_space r) ≡ false
    → is_empty (trim_space o) ≡ false
    → acquire m r o ttl now
      ≡ ok (grant m (trim_space r) (trim_space o) (positive_or ttl default_ttl) now)
unfolding acquire acquire_locked
acquire_absent m r o ttl now h p q = ground arith

acquire_expired :
    (m : Manager) (r o : String) (ttl : ℤ) (now : ℕ) (e : Entry)
    → lookup (trim_space r) m.entries ≡ some e
    → e.expires_at ≤ now
    → is_empty (trim_space r) ≡ false
    → is_empty (trim_space o) ≡ false
    → acquire m r o ttl now
      ≡ ok (grant m (trim_space r) (trim_space o) (positive_or ttl default_ttl) now)
unfolding acquire acquire_locked
acquire_expired m r o ttl now e h b p q = ground arith

-- A lease that has ended does not keep the resource. After an Acquire has granted the lease and after
-- calls by anybody else before the expiry, an Acquire by any named owner at or after the expiry is
-- granted; and a Release with the holder's owner and token succeeds, after which an Acquire by any
-- named owner at any time is granted. The token counter is assumed not to wrap at the first Acquire.
pub ended_lease_is_free :
    (m n : Manager) (r o o' : String) (ttl ttl' : ℤ) (now now' : ℕ) (l : Lease) (cs : List Call)
    → m.seq + 1 < 2 ^ 64
    → acquire m r o ttl now ≡ ok (n, some l)
    → All (IsOther (trim_space r) (trim_space o) l.token l.expires_at) cs
    → is_empty (trim_space o') ≡ false
    → (l.expires_at ≤ now'
        → acquire (run n cs) r o' ttl' now'
          ≡ ok
              (grant (run n cs) (trim_space r) (trim_space o') (positive_or ttl' default_ttl) now'))
      × ((freed : Manager) × (release (run n cs) r o l.token ≡ ok freed)
          × (acquire freed r o' ttl' now'
              ≡ ok
                  (grant freed (trim_space r) (trim_space o') (positive_or ttl' default_ttl) now')))
unfolding grant_entry
ended_lease_is_free m n r o o' ttl ttl' now now' l cs w h k q =
    let kept =
      run-lookup_other (trim_space r) (grant_entry o l) n cs k (granted m n r o ttl now l h).0 in
    let named' = named m n r o ttl now l h w in
    let freed : Manager = record (run n cs) {
      entries = delete (trim_space r) (run n cs).entries;
    } in
    (
      λ b. acquire_expired (run n cs) r o' ttl' now' (grant_entry o l) kept b named'.0 q,
      (
        freed,
        release_held (run n cs) r o l named' kept,
        acquire_absent freed r o' ttl' now'
            (grind (arith, lookup-delete, str_eq_iff (trim_space r) (trim_space r))) named'.0 q,
      ),
    )
