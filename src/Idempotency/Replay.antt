-- ===== src/Idempotency/Replay.antt =====
-- What a repeated request gets (internal/api/idempotency.go).
use mathlib.Core.Option.{some-injective}
use browser_use.Base.{
  ℕ, ◌+◌, ◌*◌, ◌≤◌, String, ◌≡◌, refl, sym, ◌∙◌, ◌≢◌, ◌⊎◌, subst, inl, inr, true, false, none, some,
  List, [], ◌∷◌, All, arith, Bool-cases, ℤ, pos, ltb_ℤ, positive_or, second, hour, str_eq,
  str_eq_iff, is_empty, trim_space, Fresh, Keyed, lookup, insert, delete, lookup-insert,
  lookup-delete, ok,
}
use browser_use.Idempotency.Store.{
  Entry, Claim, Store, normalize_compound_key, get, get_at, claim, claim_at, save, save_at, release,
  release_at,
}
use browser_use.Idempotency.Claims.{Call, LeavesItem, run, after, saved_entry_is_found}
use browser_use.Idempotency.Response.{
  Headers, or_nil, first_value, add_header, add_values, copy_headers, write_idempotency_entry,
  copy_response,
}
use browser_use.Idempotency.Handler.{
  Recorded, replayed, looking, waiting, executing, saving, done, Request, Config, Input, entry_of,
  reply_of, advance, interleave,
}

save_ok :
    (digest : String → String) (s : Store) (scope key c : String) (entry : Entry) (ttl : ℤ)
    (now : ℕ)
    → normalize_compound_key digest scope key ≡ ok c
    → save digest s scope key entry ttl now
      ≡ ok (save_at digest s c entry (positive_or ttl (24 * hour)) now)
unfolding save
save_ok digest s scope key c entry ttl now e = rw e

-- A finished request is answered again from the store. When a request has saved the answer `r` of the
-- wrapped handler, and whatever calls follow on the store, not after the entry's expiry and none of them a
-- Save under the same key, a second request with that key that comes not after the expiry is at once
-- answered with the stored answer: it neither claims the key nor executes anything, and the store stays
-- as it is. So is one that was already waiting.
pub stored_answer_is_replayed :
    (digest : String → String) (cfg : Config) (s : Store) (q q' : Request) (r : Recorded)
    (i i' : Input) (c : String) (cs : List Call)
    → normalize_compound_key digest q.scope q.key ≡ ok c
    → q'.scope ≡ q.scope
    → q'.key ≡ q.key
    → All (LeavesItem digest c (i.now + positive_or cfg.ttl (24 * hour))) cs
    → i'.now ≤ i.now + positive_or cfg.ttl (24 * hour)
    → let later = run digest (advance digest cfg s q (saving r) i).0 cs in
      let answer = done (replayed (write_idempotency_entry q'.base (entry_of r))) in
      (advance digest cfg later q' looking i' ≡ (later, answer))
      × (advance digest cfg later q' waiting i' ≡ (later, answer))
unfolding advance
stored_answer_is_replayed digest cfg s q q' r i i' c cs e es ek k b =
    let n = save_at digest s c (entry_of r) (positive_or cfg.ttl (24 * hour)) i.now in
    let stored = save_ok digest s q.scope q.key c (entry_of r) cfg.ttl i.now e in
    let found : get digest (run digest n cs) q'.scope q'.key i'.now
        ≡ ok (run digest n cs, some (entry_of r)) =
      rw (es, ek)
        (saved_entry_is_found digest s n q.scope q.key c (entry_of r) cfg.ttl i.now i'.now cs e
          stored k b) in
    (rw (stored, after, found, advance) refl, rw (stored, after, found, advance) refl)

-- An answer with a status of 500 or more is not stored: executing and releasing leave the stored entries
-- as they were, and the request's claim is gone if it still held it.
pub server_error_is_not_stored :
    (digest : String → String) (cfg : Config) (s : Store) (q : Request) (i j : Input) (c : String)
    (x : Claim)
    → ltb_ℤ i.answer.status (pos 500) ≡ false
    → normalize_compound_key digest q.scope q.key ≡ ok c
    → is_empty (trim_space q.owner) ≡ false
    → lookup c s.claims ≡ some x
    → x.owner ≡ trim_space q.owner
    → let (s1, p1) = advance digest cfg s q executing i in
      let (s2, p2) = advance digest cfg s1 q p1 j in
      (s2.items ≡ s.items) × (lookup c s2.claims ≡ none) × (p2 ≡ done (reply_of q i.answer))
unfolding advance release release_at
server_error_is_not_stored digest cfg s q i j c x h e o l w =
    grind (arith, lookup-delete, str_eq_iff)

-- What the four calls on the store return when nothing is stored or claimed under the key.
module _ (digest : String → String) (s : Store) (scope key c : String) where
  get_miss :
      (now : ℕ)
      → normalize_compound_key digest scope key ≡ ok c
      → lookup c s.items ≡ none
      → get digest s scope key now ≡ ok (s, none)
  unfolding get get_at
  get_miss now e h = ground arith

  claim_free :
      (owner : String) (ttl : ℤ) (now : ℕ)
      → normalize_compound_key digest scope key ≡ ok c
      → is_empty (trim_space owner) ≡ false
      → lookup c s.claims ≡ none
      → claim digest s scope key owner ttl now
        ≡ ok (
          record s {
            claims =
                insert c
                  (record {
                    owner = trim_space owner;
                    expires_at = now + positive_or ttl (30 * second);
                  })
                  s.claims;
          },
          true,
        )
  unfolding claim claim_at
  claim_free owner ttl now e o h = ground arith

  release_own :
      (owner : String) (x : Claim)
      → normalize_compound_key digest scope key ≡ ok c
      → is_empty (trim_space owner) ≡ false
      → lookup c s.claims ≡ some x
      → x.owner ≡ trim_space owner
      → release digest s scope key owner ≡ ok (record s { claims = delete c s.claims })
  unfolding release release_at
  release_own owner x e o h w = ground (arith, str_eq_iff x.owner (trim_space owner))

-- Two requests with one key can both execute, though the first one's answer is stored by then. Let both
-- name the key and an owner, let nothing be stored or claimed under the key, and let both answers have a
-- status below 500. If both requests look before either claims, and the first then claims, executes,
-- saves and releases before the second claims, the second's Claim succeeds and it executes the wrapped
-- handler too, for it does not look again: the first has replied with its own answer, which is stored,
-- and the second goes on to save another.
pub late_claimant_executes_again :
    (digest : String → String) (cfg : Config) (s : Store) (q r : Request) (c : String)
    (i1 i2 i3 i4 i5 i6 i7 i8 : Input)
    → normalize_compound_key digest q.scope q.key ≡ ok c
    → normalize_compound_key digest r.scope r.key ≡ ok c
    → is_empty (trim_space q.owner) ≡ false
    → is_empty (trim_space r.owner) ≡ false
    → lookup c s.items ≡ none
    → lookup c s.claims ≡ none
    → ltb_ℤ i4.answer.status (pos 500) ≡ true
    → ltb_ℤ i8.answer.status (pos 500) ≡ true
    → let (n, p, o) =
        interleave digest cfg q r
          ((true, i1)
            ∷ (false, i2)
            ∷ (true, i3)
            ∷ (true, i4)
            ∷ (true, i5)
            ∷ (true, i6)
            ∷ (false, i7)
            ∷ (false, i8)
            ∷ [])
          (s, looking, looking) in
      (p ≡ done (reply_of q i4.answer))
      × (o ≡ saving i8.answer)
      × (lookup c n.items
          ≡ some (record {
            entry = entry_of i4.answer;
            expires_at = i5.now + positive_or cfg.ttl (24 * hour);
          }))
unfolding interleave advance
late_claimant_executes_again digest cfg s q r c i1 i2 i3 i4 i5 i6 i7 i8 e f o o' h k a b =
    let x : Claim = record {
      owner = trim_space q.owner;
      expires_at = i3.now + positive_or cfg.lock_ttl (30 * second);
    } in
    let s3 : Store = record s { claims = insert c x s.claims } in
    let s5 = save_at digest s3 c (entry_of i4.answer) (positive_or cfg.ttl (24 * hour)) i5.now in
    let s6 : Store = record s5 { claims = delete c s5.claims } in
    let held : lookup c s5.claims ≡ some x =
      unfold save_at in ground (arith, lookup-insert c c x s.claims, str_eq_iff c c) in
    let free : lookup c s6.claims ≡ none =
      ground (arith, lookup-delete c c s5.claims, str_eq_iff c c) in
    let stored : lookup c s6.items
        ≡ some (record {
          entry = entry_of i4.answer;
          expires_at = i5.now + positive_or cfg.ttl (24 * hour);
        }) =
      unfold save_at in grind (arith, lookup-insert, str_eq_iff) in
    let e1 = get_miss digest s q.scope q.key c i1.now e h in
    let e2 = get_miss digest s r.scope r.key c i2.now f h in
    let e3 = claim_free digest s q.scope q.key c q.owner cfg.lock_ttl i3.now e o k in
    let e5 = save_ok digest s3 q.scope q.key c (entry_of i4.answer) cfg.ttl i5.now e in
    let e6 = release_own digest s5 q.scope q.key c q.owner x e o held refl in
    let e7 = claim_free digest s6 r.scope r.key c r.owner cfg.lock_ttl i7.now f o' free in
    ground (arith, stored)

add_values-lookup_ne :
    (key k : String) (vs : List String) (w : Headers)
    → key ≢ k
    → lookup k (add_values key vs w) ≡ lookup k w
unfolding add_values add_header
add_values-lookup_ne key k [] w n = refl
add_values-lookup_ne key k (v ∷ vs) w n =
    add_values-lookup_ne key k vs (add_header key v w) n
    ∙ grind (arith, lookup-insert, str_eq_iff key k)

copy_headers-lookup_ne :
    (k : String) (hs w : Headers) → Fresh k hs → lookup k (copy_headers hs w) ≡ lookup k w
unfolding copy_headers
copy_headers-lookup_ne k [] w f = refl
copy_headers-lookup_ne k ((key, vs) ∷ hs) w f =
    copy_headers-lookup_ne k hs (add_values key vs (delete key w)) f.1
    ∙ add_values-lookup_ne key k vs (delete key w) (λ e. f.0 (sym e))
    ∙ ground (arith, lookup-delete key k w, str_eq_iff key k)

first_added :
    (k v : String) (w : Headers) → lookup k (add_values k (v ∷ []) (delete k w)) ≡ some (v ∷ [])
unfolding add_values add_header
first_added k v w =
    let none_left : lookup k (delete k w) ≡ none =
      ground (arith, lookup-delete k k w, str_eq_iff k k) in
    rw none_left (grind (arith, lookup-insert, str_eq_iff k k))

copy_headers-lookup :
    (k v : String) (hs w : Headers)
    → Keyed hs
    → lookup k hs ≡ some (v ∷ [])
    → lookup k (copy_headers hs w) ≡ some (v ∷ [])
unfolding copy_headers lookup
copy_headers-lookup k v [] w u h = cc
copy_headers-lookup k v ((key, vs) ∷ hs) w u h = elim (Bool-cases (str_eq key k)) [
  | inl t ↦
      let e = (str_eq_iff key k).0 t in
      let same : vs ≡ v ∷ [] = some-injective vs (v ∷ []) (rw t at h) in
      copy_headers-lookup_ne k hs (add_values key vs (delete key w)) (subst (λ x. Fresh x hs) e u.0)
      ∙ subst (λ (x : String). lookup k (add_values x vs (delete x w)) ≡ some (v ∷ [])) (sym e)
          (rw same (first_added k v w))
  | inr t ↦ copy_headers-lookup k v hs (add_values key vs (delete key w)) u.1 (rw t at h)
]

trim-empty : trim_space "" ≡ ""
unfolding trim_space
trim-empty = refl

-- A replay is the response that was sent first, where the answer has at most one Content-Type, with no
-- space around it, and names no header twice: over the same base headers it has the same status, the
-- same body and under every header name the same values.
pub replay_is_same_response :
    (w : Headers) (r : Recorded) (ct : String)
    → Keyed r.headers
    → (lookup "Content-Type" r.headers ≡ none)
      ⊎ ((lookup "Content-Type" r.headers ≡ some (ct ∷ [])) × (trim_space ct ≡ ct))
    → let replay = write_idempotency_entry w (entry_of r) in
      let first = copy_response w r.headers r.status r.body in
      (replay.status ≡ first.status)
      × (replay.body ≡ first.body)
      × ((k : String) → lookup k replay.headers ≡ lookup k first.headers)
unfolding write_idempotency_entry copy_response entry_of
replay_is_same_response w r ct u h = (refl, refl, λ k. same_header k h)
  where
    same_header :
        (k : String)
        → (lookup "Content-Type" r.headers ≡ none)
          ⊎ ((lookup "Content-Type" r.headers ≡ some (ct ∷ [])) × (trim_space ct ≡ ct))
        → lookup k (write_idempotency_entry w (entry_of r)).headers
          ≡ lookup k (copy_response w r.headers r.status r.body).headers
    same_header k (inl e) = rw (e, or_nil, first_value) (rw trim-empty refl)
    same_header k (inr (e, t)) =
        let copied = copy_headers-lookup "Content-Type" ct r.headers w u e in
        ground (
          arith,
          lookup-insert "Content-Type" k (ct ∷ []) (copy_headers r.headers w),
          str_eq_iff "Content-Type" k,
        )
