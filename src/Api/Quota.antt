-- ===== src/Api/Quota.antt =====
-- What the rate limiter (internal/api/security.go) grants to one client in one window, over any calls of all
-- clients.
use browser_use.Base.{
  ℕ, ◌+◌, ◌-◌, ◌≤◌, ◌<◌, min, String, ◌≡◌, refl, inl, inr, Bool, true, false, ◌&&◌, List, [], ◌∷◌,
  arith, ltb, ◌==◌, if◌then◌else◌, Bool-cases, str_eq, str_eq_iff, lookup, Keyed, ℤ, positive_or,
  minute,
}
use browser_use.Api.Limiter.{Limiter, truncate, client_key, new, allow}
use browser_use.Api.Buckets.{
  AtMost, AtMost-weaken, allow_at_lem, counted, counted-AtMost, counted-Keyed, used_of,
  used_of-counted,
}

-- Calls of Allow: a client and the instant that the caller read.
abbrev pub InOrder : ℕ → ℕ → List (String × ℕ) → Type 0
InOrder window last [] = Unit
InOrder window last ((c, now) ∷ cs) =
    (last ≤ truncate now window) × InOrder window (truncate now window) cs

module _ (key : String) (start : ℕ) where
  abbrev pub is_of : ℕ → String × ℕ → Bool
  is_of window (c, now) = str_eq (client_key c) key && truncate now window == start

  -- The calls of the client in the window, and those of them that are granted.
  unfoldable pub asked : ℕ → List (String × ℕ) → ℕ
  asked window [] = 0
  asked window (c ∷ cs) = (if is_of window c then 1 else 0) + asked window cs

  unfoldable pub granted : Limiter → List (String × ℕ) → ℕ
  granted l [] = 0
  granted l ((c, now) ∷ cs) =
      (if is_of l.window (c, now) && (allow l c now).1 then 1 else 0) + granted (allow l c now).0 cs

  asked_later :
      (window last : ℕ) (cs : List (String × ℕ))
      → start < last
      → InOrder window last cs
      → asked window cs ≡ 0
  unfolding asked
  asked_later window last [] h o = refl
  asked_later window last ((c, now) ∷ cs) h o =
      ground (arith, asked_later window (truncate now window) cs)

  quota_arith :
      (same granting : Bool) (w limit used used' used_k rest more : ℕ)
      → (start < w → rest ≡ 0)
      → (same ≡ true → w ≡ start → used_k ≡ used)
      → ltb used_k limit ≡ granting
      → (granting ≡ true → w ≤ start → used' ≡ (if same && w == start then 1 else 0) + used)
      → (granting ≡ false → used' ≡ used)
      → more ≡ min (limit - used') rest
      → (if (same && w == start) && granting then 1 else 0) + more
        ≡ min (limit - used) ((if same && w == start then 1 else 0) + rest)
  quota_arith same granting w limit used used' used_k rest more h1 h2 h3 h4 h5 h6 = ground arith

  used_of_same :
      (l : Limiter) (k : String) (w : ℕ)
      → str_eq k key ≡ true
      → w ≡ start
      → used_of w (lookup k l.clients) ≡ used_of start (lookup key l.clients)
  used_of_same l k w e f = λ i. used_of (f i) (lookup ((str_eq_iff k key).0 e i) l.clients)

  quota :
      (l : Limiter) (last : ℕ) (cs : List (String × ℕ))
      → 0 < last
      → Keyed l.clients
      → AtMost last (lookup key l.clients)
      → InOrder l.window last cs
      → granted l cs ≡ min (l.limit - used_of start (lookup key l.clients)) (asked l.window cs)
  unfolding granted asked allow
  quota l last [] p d a o = omega arith
  quota l last ((c, now) ∷ cs) p d a o =
      let w : ℕ = truncate now l.window in
      let k : String = client_key c in
      let pw : 0 < w = omega (arith, o.0) in
      let aw : AtMost w (lookup key l.clients) =
        AtMost-weaken last w (lookup key l.clients) o.0 a in
      elim (Bool-cases (ltb (used_of w (lookup k l.clients)) l.limit)) [
        | inl e ↦
            rw (allow_at_lem l k w pw, e)
              (quota_arith (str_eq k key) true w l.limit (used_of start (lookup key l.clients))
                (used_of start (lookup key (counted l k w).clients))
                (used_of w (lookup k l.clients)) (asked l.window cs) (granted (counted l k w) cs)
                (λ h. asked_later l.window w cs h o.1) (used_of_same l k w) e
                (λ t h. used_of-counted l k key w start pw h d aw) (λ t. absurd (ground (arith, t)))
                (quota (counted l k w) w cs pw (counted-Keyed l k w d)
                  (counted-AtMost l k key w pw d aw) o.1))
        | inr e ↦
            rw (allow_at_lem l k w pw, e)
              (quota_arith (str_eq k key) false w l.limit (used_of start (lookup key l.clients))
                (used_of start (lookup key l.clients)) (used_of w (lookup k l.clients))
                (asked l.window cs) (granted l cs) (λ h. asked_later l.window w cs h o.1)
                (used_of_same l k w) e (λ t h. absurd (ground (arith, t))) (λ t. refl)
                (quota l w cs pw d aw o.1))
      ]

-- For calls whose windows come in order, the limiter grants a client in a window exactly the calls that it
-- makes there, up to the limit: no other client's calls and no removal of old buckets takes a grant away
-- or adds one. The limit is 1 and the window a minute where the setting is not positive; the
-- calls come after the clock's first window.
pub client_gets_its_quota :
    (limit window : ℤ) (key : String) (start : ℕ) (calls : List (String × ℕ))
    → InOrder (positive_or window minute) 1 calls
    → granted key start (new limit window) calls
      ≡ min (positive_or limit 1) (asked key start (positive_or window minute) calls)
unfolding new lookup
client_gets_its_quota limit window key start calls o =
    rw (quota key start (new limit window) 1 calls (omega arith) tt tt o) (omega arith)
