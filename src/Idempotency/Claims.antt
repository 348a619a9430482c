-- ===== src/Idempotency/Claims.antt =====
-- Histories of the in-memory idempotency store (internal/idempotency/inmemory.go): a live claim keeps
-- others out, and a saved entry is found until it expires.
use browser_use.Base.{
  ℕ, ◌+◌, ◌*◌, ◌≤◌, ◌<◌, String, ◌≡◌, ◌≢◌, ◌⊎◌, Bool, true, false, Option, some, List, [], ◌∷◌, All,
  arith, ℤ, positive_or, second, hour, str_eq_iff, is_empty, trim_space, lookup, lookup-insert,
  lookup-delete, Result, ok, err,
}
use browser_use.Idempotency.Store.{
  Entry, Item, Claim, Store, normalize_compound_key, get, get_at, claim, claim_at, save, save_at,
  release, release_at,
}

-- A call on the store, by any client: the store's mutex makes each of them one step.
pub data Call : Type 0 where
  gets : String → String → ℕ → Call
  claims : String → String → String → ℤ → ℕ → Call
  saves : String → String → Entry → ℤ → ℕ → Call
  releases : String → String → String → ℕ → Call

abbrev after_get : Store → Result (Store × Option Entry) → Store
after_get s (ok (n, e)) = n
after_get s (err e) = s

abbrev after_claim : Store → Result (Store × Bool) → Store
after_claim s (ok (n, b)) = n
after_claim s (err e) = s

abbrev pub after : Store → Result Store → Store
after s (ok n) = n
after s (err e) = s

module _ (digest : String → String) where
  unfoldable pub step : Store → Call → Store
  step s (gets scope key now) = after_get s (get digest s scope key now)
  step s (claims scope key owner ttl now) = after_claim s (claim digest s scope key owner ttl now)
  step s (saves scope key entry ttl now) = after s (save digest s scope key entry ttl now)
  step s (releases scope key owner now) = after s (release digest s scope key owner)

  unfoldable pub run : Store → List Call → Store
  run s [] = s
  run s (c ∷ cs) = run (step s c) cs

  -- A call before `until` that is no Release of the key `c` by `owner`.
  abbrev pub LeavesClaim : String → String → ℕ → Call → Type 0
  LeavesClaim c owner until (gets scope key now) = now < until
  LeavesClaim c owner until (claims scope key other ttl now) = now < until
  LeavesClaim c owner until (saves scope key entry ttl now) = now < until
  LeavesClaim c owner until (releases scope key other now) =
      (now < until)
      × ((normalize_compound_key digest scope key ≢ ok c) ⊎ (trim_space other ≢ owner))

  step_claim :
      (c : String) (x : Claim) (s : Store) (call : Call)
      → LeavesClaim c x.owner x.expires_at call
      → lookup c s.claims ≡ some x
      → lookup c (step s call).claims ≡ some x
  unfolding step get get_at claim claim_at save save_at release release_at
  step_claim c x s (gets scope key now) k h = ground arith
  step_claim c x s (claims scope key other ttl now) k h = grind (arith, lookup-insert, str_eq_iff)
  step_claim c x s (saves scope key entry ttl now) k h = ground arith
  step_claim c x s (releases scope key other now) k h = grind (arith, lookup-delete, str_eq_iff)

  run_claim :
      (c : String) (x : Claim) (s : Store) (cs : List Call)
      → All (LeavesClaim c x.owner x.expires_at) cs
      → lookup c s.claims ≡ some x
      → lookup c (run s cs).claims ≡ some x
  unfolding run
  run_claim c x s [] k h = h
  run_claim c x s (d ∷ cs) k h = run_claim c x (step s d) cs k.1 (step_claim c x s d k.0 h)

  claimed :
      (s n : Store) (scope key owner c : String) (ttl : ℤ) (now : ℕ)
      → normalize_compound_key digest scope key ≡ ok c
      → claim digest s scope key owner ttl now ≡ ok (n, true)
      → lookup c n.claims
        ≡ some
            (record { owner = trim_space owner; expires_at = now + positive_or ttl (30 * second) })
  unfolding claim claim_at
  claimed s n scope key owner c ttl now e h = grind (arith, lookup-insert, str_eq_iff)

  claim_refused :
      (s : Store) (scope key owner c : String) (ttl : ℤ) (now : ℕ) (x : Claim)
      → normalize_compound_key digest scope key ≡ ok c
      → is_empty (trim_space owner) ≡ false
      → lookup c s.claims ≡ some x
      → now < x.expires_at
      → claim digest s scope key owner ttl now ≡ ok (s, false)
  unfolding claim claim_at
  claim_refused s scope key owner c ttl now x e o h b = ground arith

  -- A claim keeps every other request out while it lives: after a Claim of a key has succeeded, and
  -- after any calls before the claim's expiry, none of them a Release of the same key by its owner,
  -- a Claim of the key by any named owner before the expiry is refused, and changes nothing.
  pub claim_is_exclusive :
      (s n : Store) (scope key owner other c : String) (ttl ttl' : ℤ) (now now' : ℕ)
      (cs : List Call)
      → normalize_compound_key digest scope key ≡ ok c
      → claim digest s scope key owner ttl now ≡ ok (n, true)
      → All (LeavesClaim c (trim_space owner) (now + positive_or ttl (30 * second))) cs
      → now' < now + positive_or ttl (30 * second)
      → is_empty (trim_space other) ≡ false
      → claim digest (run n cs) scope key other ttl' now' ≡ ok (run n cs, false)
  claim_is_exclusive s n scope key owner other c ttl ttl' now now' cs e h k b o =
      let x : Claim = record {
        owner = trim_space owner;
        expires_at = now + positive_or ttl (30 * second);
      } in
      claim_refused (run n cs) scope key other c ttl' now' x e o
        (run_claim c x n cs k (claimed s n scope key owner c ttl now e h)) b

  -- A call not after `until` that is no Save under the key `c`.
  abbrev pub LeavesItem : String → ℕ → Call → Type 0
  LeavesItem c until (gets scope key now) = now ≤ until
  LeavesItem c until (claims scope key other ttl now) = now ≤ until
  LeavesItem c until (saves scope key entry ttl now) =
      (now ≤ until) × (normalize_compound_key digest scope key ≢ ok c)
  LeavesItem c until (releases scope key other now) = now ≤ until

  step_item :
      (c : String) (x : Item) (s : Store) (call : Call)
      → LeavesItem c x.expires_at call
      → lookup c s.items ≡ some x
      → lookup c (step s call).items ≡ some x
  unfolding step get get_at claim claim_at save save_at release release_at
  step_item c x s (gets scope key now) k h = grind (arith, lookup-delete, str_eq_iff)
  step_item c x s (claims scope key other ttl now) k h = ground arith
  step_item c x s (saves scope key entry ttl now) k h = grind (arith, lookup-insert, str_eq_iff)
  step_item c x s (releases scope key other now) k h = ground arith

  pub run_item :
      (c : String) (x : Item) (s : Store) (cs : List Call)
      → All (LeavesItem c x.expires_at) cs
      → lookup c s.items ≡ some x
      → lookup c (run s cs).items ≡ some x
  unfolding run
  run_item c x s [] k h = h
  run_item c x s (d ∷ cs) k h = run_item c x (step s d) cs k.1 (step_item c x s d k.0 h)

  saved :
      (s n : Store) (scope key c : String) (entry : Entry) (ttl : ℤ) (now : ℕ)
      → normalize_compound_key digest scope key ≡ ok c
      → save digest s scope key entry ttl now ≡ ok n
      → lookup c n.items
        ≡ some (record { entry = entry; expires_at = now + positive_or ttl (24 * hour) })
  unfolding save save_at
  saved s n scope key c entry ttl now e h = grind (arith, lookup-insert, str_eq_iff)

  got :
      (s : Store) (scope key c : String) (x : Item) (now : ℕ)
      → normalize_compound_key digest scope key ≡ ok c
      → lookup c s.items ≡ some x
      → now ≤ x.expires_at
      → get digest s scope key now ≡ ok (s, some x.entry)
  unfolding get get_at
  got s scope key c x now e h b = ground arith

  -- A saved entry is found until it expires: after a Save under a key, and after any calls not after the
  -- entry's expiry, none of them a Save under the same key, a Get of the key not after the expiry
  -- returns the entry that was saved, and changes nothing.
  pub saved_entry_is_found :
      (s n : Store) (scope key c : String) (entry : Entry) (ttl : ℤ) (now now' : ℕ) (cs : List Call)
      → normalize_compound_key digest scope key ≡ ok c
      → save digest s scope key entry ttl now ≡ ok n
      → All (LeavesItem c (now + positive_or ttl (24 * hour))) cs
      → now' ≤ now + positive_or ttl (24 * hour)
      → get digest (run n cs) scope key now' ≡ ok (run n cs, some entry)
  saved_entry_is_found s n scope key c entry ttl now now' cs e h k b =
      let x : Item = record { entry = entry; expires_at = now + positive_or ttl (24 * hour) } in
      got (run n cs) scope key c x now' e
        (run_item c x n cs k (saved s n scope key c entry ttl now e h)) b
