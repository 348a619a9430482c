-- ===== src/Session/Laws.antt =====
-- What the session service promises (internal/session/service.go).
use text.Mathlib.TextLemmas.{append_cancel_left}
use browser_use.Base.{
  ℕ, ◌+◌, ◌%◌, ◌^◌, ◌≤◌, ◌<◌, String, ◌≡◌, refl, inl, inr, false, none, some, List, [], ◌∷◌, All,
  length, arith, if◌then◌else◌, Bool-cases, Option-cases, str_eq, str_eq_iff, is_empty, Dict,
  lookup, delete, lookup-insert, lookup-delete, lookup-All, insert-All, delete-All, format_06d_inj,
  session_not_found, ok, err,
}
use browser_use.Session.{
  Session, Service, new, session_id, added, create, remove, get, Call, creates, deletes,
  after_delete, step, run,
}

-- The key was issued by one of the first `n` calls of Create.
abbrev pub IsIssued : ℕ → String × Session → Type 0
IsIssued n (k, x) = (c : ℕ) × (c ≤ n) × (k ≡ session_id c)

session_id_inj : (a b : ℕ) → a < 2 ^ 63 → b < 2 ^ 63 → session_id a ≡ session_id b → a ≡ b
unfolding session_id
session_id_inj a b h k e = format_06d_inj a b h k (append_cancel_left "sess_" _ _ e)

IsIssued-mono : (n m : ℕ) (d : Dict Session) → n ≤ m → All (IsIssued n) d → All (IsIssued m) d
IsIssued-mono n m [] h a = tt
IsIssued-mono n m ((k, x) ∷ d) h a =
    let (c, l, e) = a.0 in ((c, omega arith, e), IsIssued-mono n m d h a.1)

pub record IsValid (s : Service) : Type 0 where
  pub issued : All (IsIssued s.counter) s.items

next_id_unused :
    (s : Service)
    → IsValid s
    → s.counter + 1 < 2 ^ 63
    → lookup (session_id (s.counter + 1)) s.items ≡ none
next_id_unused s v b = elim (Option-cases (lookup (session_id (s.counter + 1)) s.items)) [
  | inl e ↦ e
  | inr (x, e) ↦
      let (c, l, q) =
        lookup-All (IsIssued s.counter) (session_id (s.counter + 1)) s.items v.issued e in
      let same = session_id_inj (s.counter + 1) c b (omega arith) q in absurd (omega arith)
]

record Next (s n : Service) : Type 0 where
  valid : IsValid n
  counted : n.counter ≤ s.counter + 1

added-Next :
    (s : Service) (tenant : String) (now : ℕ)
    → s.counter + 1 < 2 ^ 63
    → IsValid s
    → Next s (added s tenant now).0
unfolding added
added-Next s tenant now b v =
    let same : (s.counter + 1) % 2 ^ 64 ≡ s.counter + 1 = omega arith in
    rw same (record {
      valid = record {
        issued =
            insert-All (IsIssued (s.counter + 1)) (session_id (s.counter + 1)) _ s.items
              (s.counter + 1, omega arith, refl)
              (IsIssued-mono s.counter (s.counter + 1) s.items (omega arith) v.issued);
      };
      counted = omega arith;
    })

step-Next : (s : Service) (c : Call) → s.counter + 1 < 2 ^ 63 → IsValid s → Next s (step s c)
unfolding step
step-Next s (creates tenant now) b v = elim (Bool-cases (is_empty tenant)) [
  | inl e ↦ rw (e, step) (record { valid = v; counted = omega arith })
  | inr e ↦ rw (e, step) (added-Next s tenant now b v)
]
step-Next s (deletes id) b v = elim (Option-cases (lookup id s.items)) [
  | inl e ↦ rw (e, step, remove, after_delete) (record { valid = v; counted = omega arith })
  | inr (x, e) ↦
      rw (e, step, remove, after_delete)
        (record {
          valid = record { issued = delete-All (IsIssued s.counter) id s.items v.issued };
          counted = omega arith;
        })
]

run-IsValid :
    (s : Service) (cs : List Call)
    → s.counter + length cs < 2 ^ 63
    → IsValid s
    → IsValid (run s cs) × ((run s cs).counter ≤ s.counter + length cs)
unfolding run
run-IsValid s [] b v = (v, omega arith)
run-IsValid s (c ∷ cs) b v =
    let n = step-Next s c (omega arith) v in
    let counted = n.counted in
    let (x, m) = run-IsValid (step s c) cs (omega arith) n.valid in (x, omega arith)

-- After any calls on a new service (fewer than 2^63 - 1), Create for a named tenant returns a session
-- of that tenant under an id that is not in use, also where sessions were deleted before; Get of an id
-- then finds that session under the new id and under any other what it found before; Delete of the new
-- id gives back a service in which Get finds nothing under it and the rest as before Create; and
-- deleting it again is refused as not found.
pub create-get-delete :
    (cs : List Call) (tenant : String) (now : ℕ)
    → length cs + 1 < 2 ^ 63
    → is_empty tenant ≡ false
    → let s = run new cs in
      (n m : Service) × (x : Session) × (create s tenant now ≡ ok (n, x))
      × (x.tenant_id ≡ tenant)
      × (get s x.id ≡ err session_not_found)
      × ((k : String) → get n k ≡ (if str_eq x.id k then ok x else get s k))
      × (remove n x.id ≡ ok m)
      × ((k : String) → get m k ≡ get s k)
      × (remove m x.id ≡ err session_not_found)
unfolding create added get remove
create-get-delete cs tenant now b h =
    let s = run new cs in
    let (v, l) = run-IsValid new cs (omega arith) (record { issued = tt }) in
    let same : (s.counter + 1) % 2 ^ 64 ≡ s.counter + 1 = omega arith in
    let id = session_id ((s.counter + 1) % 2 ^ 64) in
    let x = (added s tenant now).1 in
    let unused : lookup id s.items ≡ none = rw same (next_id_unused s v (omega arith)) in
    let n = (added s tenant now).0 in
    let m : Service = record n { items = delete id n.items } in
    let gone : (k : String) → lookup k m.items ≡ lookup k s.items = λ k.
      ground (
        arith,
        lookup-delete id k n.items,
        lookup-insert id k x s.items,
        str_eq_iff id k,
        unused,
      ) in
    let found : lookup id n.items ≡ some x =
      ground (arith, lookup-insert id id x s.items, str_eq_iff id id) in
    (
      n,
      m,
      x,
      rw h refl,
      refl,
      ground arith,
      λ k. ground (arith, lookup-insert id k x s.items),
      ground arith,
      λ k. ground (arith, gone k),
      ground (arith, gone id),
    )
