-- ===== src/Lease/Fencing.antt =====
-- Fencing tokens of the in-memory lease manager (internal/lease/inmemory.go): who holds a
-- superseded token can never renew or release the resource again.
use browser_use.Base.{
  ℕ, ◌+◌, ◌^◌, ◌≤◌, ◌<◌, String, ◌≡◌, ◌≢◌, Option, none, some, List, [], ◌∷◌, arith, length, ℤ,
  positive_or, str_eq_iff, trim_space, lookup, lookup-insert, lookup-delete, ok,
}
use browser_use.Lease.{
  Lease, Entry, Manager, Call, acquires, releases, renews, default_ttl, grant, acquire_locked,
  acquire, release_locked, release, renew_locked, renew, step, run,
}

abbrev pub TokenFrom : ℕ → Option Entry → Type 0
TokenFrom t none = Unit {0}
TokenFrom t (some e) = t ≤ e.token

-- The entry of `r`, if there is one, carries a token that is at least `t`; so does the next one.
pub record Fenced (r : String) (t : ℕ) (m : Manager) : Type 0 where
  pub reached : t ≤ m.seq
  pub at_least : TokenFrom t (lookup r m.entries)

module _ (r s o : String) (t ttl now : ℕ) (m : Manager) (f : Fenced r t m) where
  grant-Fenced : m.seq + 1 < 2 ^ 64 → Fenced r t (grant m s o ttl now).0
  unfolding grant
  grant-Fenced b = grind (arith, lookup-insert)

  acquire_locked-Fenced : m.seq + 1 < 2 ^ 64 → Fenced r t (acquire_locked m s o ttl now).0
  unfolding acquire_locked grant
  acquire_locked-Fenced b = grind (arith, lookup-insert)

  release_locked-Fenced : (token : ℕ) → Fenced r t (release_locked m s o token)
  unfolding release_locked
  release_locked-Fenced token = grind (arith, lookup-delete)

  renew_locked-Fenced : (token : ℕ) → Fenced r t (renew_locked m s o token ttl now).0
  unfolding renew_locked
  renew_locked-Fenced token = grind (arith, lookup-delete, lookup-insert, str_eq_iff)

-- A call keeps the fence, and counts `seq` up by at most one.
step-Fenced :
    (r : String) (t : ℕ) (m : Manager) (c : Call)
    → m.seq + 1 < 2 ^ 64
    → Fenced r t m
    → Fenced r t (step m c)
unfolding step acquire release renew
step-Fenced r t m (acquires s o ttl now) b f = ground (
  arith,
  acquire_locked-Fenced r (trim_space s) (trim_space o) t (positive_or ttl default_ttl) now m f,
)
step-Fenced r t m (releases s o token now) b f =
    ground (arith, release_locked-Fenced r (trim_space s) (trim_space o) t 0 now m f token)
step-Fenced r t m (renews s o token ttl now) b f = ground (
  arith,
  renew_locked-Fenced r (trim_space s) (trim_space o) t (positive_or ttl default_ttl) now m f token,
)

step-seq : (m : Manager) (c : Call) → m.seq + 1 < 2 ^ 64 → (step m c).seq ≤ m.seq + 1
unfolding step acquire release renew acquire_locked grant release_locked renew_locked
step-seq m (acquires s o ttl now) b = ground arith
step-seq m (releases s o token now) b = ground arith
step-seq m (renews s o token ttl now) b = ground arith

run-Fenced :
    (r : String) (t : ℕ) (m : Manager) (cs : List Call)
    → m.seq + length cs < 2 ^ 64
    → Fenced r t m
    → Fenced r t (run m cs) × ((run m cs).seq ≤ m.seq + length cs)
unfolding run
run-Fenced r t m [] b f = (f, omega arith)
run-Fenced r t m (c ∷ cs) b f =
    let below : m.seq + 1 < 2 ^ 64 = omega arith in
    let counted = step-seq m c below in
    let (g, h) = run-Fenced r t (step m c) cs (omega arith) (step-Fenced r t m c below f) in
    (g, omega arith)

-- A granted lease carries the value that `seq` has then.
grant_fences :
    (m n : Manager) (r o : String) (ttl : ℤ) (now : ℕ) (l : Lease)
    → m.seq + 1 < 2 ^ 64
    → acquire m r o ttl now ≡ ok (n, some l)
    → Fenced (trim_space r) l.token n × (l.token ≡ m.seq + 1) × (n.seq ≡ l.token)
unfolding acquire acquire_locked grant
grant_fences m n r o ttl now l b h = grind (arith, lookup-insert, str_eq_iff)

-- In a state whose entry carries a later token, an older one renews and releases nothing.
Fenced-refuses :
    (m n : Manager) (r o : String) (t u : ℕ) (ttl : ℤ) (now : ℕ) (l : Lease)
    → Fenced (trim_space r) t m
    → u < t
    → (renew m r o u ttl now ≢ ok (n, some l))
      × (release m r o u ≡ ok n → lookup (trim_space r) n.entries ≡ lookup (trim_space r) m.entries)
unfolding renew renew_locked release release_locked
Fenced-refuses m n r o t u ttl now l f b = (λ h. ground arith, λ h. ground arith)

-- Let `old` be a lease of a resource, and `new` one that a later call acquired, after any calls in
-- between. The token of `new` is greater, and after any further calls a Renew with the old token
-- grants nothing and a Release with it leaves the resource's entry as it is. The token counter is
-- assumed not to pass 2^64 over those calls.
pub superseded_token_is_fenced :
    (m m1 m2 n : Manager) (r o o' o'' : String) (ttl ttl' ttl'' : ℤ) (now now' now'' : ℕ)
    (cs ds : List Call) (old new l : Lease)
    → m.seq + length cs + length ds + 2 < 2 ^ 64
    → acquire m r o ttl now ≡ ok (m1, some old)
    → acquire (run m1 cs) r o' ttl' now' ≡ ok (m2, some new)
    → (old.token < new.token)
      × (renew (run m2 ds) r o'' old.token ttl'' now'' ≢ ok (n, some l))
      × (release (run m2 ds) r o'' old.token ≡ ok n
          → lookup (trim_space r) n.entries ≡ lookup (trim_space r) (run m2 ds).entries)
superseded_token_is_fenced m m1 m2 n r o o' o'' ttl ttl' ttl'' now now' now'' cs ds old new l b h
      h' =
    let (f1, t1, s1) = grant_fences m m1 r o ttl now old (omega arith) h in
    let (g1, q1) = run-Fenced (trim_space r) old.token m1 cs (omega arith) f1 in
    let (f2, t2, s2) =
      grant_fences (run m1 cs) m2 r o' ttl' now' new (omega (arith, g1.reached)) h' in
    let (g2, q2) = run-Fenced (trim_space r) new.token m2 ds (omega arith) f2 in
    let later : old.token < new.token = omega (arith, g1.reached) in
    let (p, q) = Fenced-refuses (run m2 ds) n r o'' new.token old.token ttl'' now'' l g2 later in
    (later, p, q)
