-- ===== src/Runner/Domains.antt =====
-- isDomainBlocked, markDomainBlocked and normalizedHost (internal/taskrunner/runner.go): the cooldown of a
-- domain after a challenge. `hostname` is net/url's Parse followed by Hostname, `none` where Parse
-- fails. Each function holds the map's mutex, so it is one step.
use browser_use.Base.{
  ℕ, ◌+◌, ◌≤◌, String, ◌≡◌, inl, inr, Bool, true, false, not, ◌||◌, Option, none, some, List, [],
  ◌∷◌, All, arith, ltb, if◌then◌else◌, Option-cases, str_eq, str_eq_iff, is_empty, trim_space,
  to_lower, Dict, lookup, insert, delete, lookup-insert, lookup-delete,
}

-- What the domains are read with: net/url, and strings.ToLower, which knows all of Unicode.
pub record Hosts : Type 0 where
  pub hostname : String → Option String
  pub to_lower : String → String

abbrev pub Blocked : Type 0
Blocked = Dict ℕ

-- Whether a blocker's type starts a cooldown.
unfoldable pub is_cooled : String → Bool
is_cooled blocker_type =
    str_eq (trim_space (to_lower blocker_type)) "human_verification_required"
    || str_eq (trim_space (to_lower blocker_type)) "bot_blocked"

-- A check of a URL's domain, and a mark of it with a blocker's type.
pub data Event : Type 0 where
  checks : String → ℕ → Event
  marks : String → String → ℕ → Event

abbrev pub at_of : Event → ℕ
at_of (checks raw now) = now
at_of (marks raw kind now) = now

module _ (hosts : Hosts) where
  unfoldable pub normalized_host : String → String
  normalized_host raw =
      if is_empty (trim_space raw) then "" else elim (hosts.hostname (trim_space raw)) [
        | none ↦ ""
        | some host ↦ trim_space (hosts.to_lower host)
      ]

  -- The map as the call leaves it, and the host with the end of its cooldown if it is in one.
  unfoldable pub is_domain_blocked : Blocked → String → ℕ → Blocked × Option (String × ℕ)
  is_domain_blocked b raw now =
      if is_empty (normalized_host raw) then (b, none) else elim (lookup (normalized_host raw) b) [
        | none ↦ (b, none)
        | some until ↦
            if ltb until now
            then (delete (normalized_host raw) b, none)
            else (b, some (normalized_host raw, until))
      ]

  -- `cooldown` is Config.DomainBlockCooldown.
  unfoldable pub mark_domain_blocked : ℕ → Blocked → String → String → ℕ → Blocked
  mark_domain_blocked cooldown b raw blocker_type now =
      let marked = insert (normalized_host raw) (now + cooldown) b in
      if not (is_cooled blocker_type)
      then b
      else if is_empty (normalized_host raw)
      then b
      else elim (lookup (normalized_host raw) b) [
        | none ↦ marked
        | some existing ↦ if ltb existing (now + cooldown) then marked else b
      ]

  unfoldable pub step : ℕ → Blocked → Event → Blocked
  step cooldown b (checks raw now) = (is_domain_blocked b raw now).0
  step cooldown b (marks raw kind now) = mark_domain_blocked cooldown b raw kind now

  unfoldable pub run : ℕ → Blocked → List Event → Blocked
  run cooldown b [] = b
  run cooldown b (e ∷ es) = run cooldown (step cooldown b e) es

  -- The host is in a cooldown that lasts at least until `t`.
  abbrev Lasts : ℕ → Option ℕ → Type 0
  Lasts t none = ⊥
  Lasts t (some until) = t ≤ until

  step-Lasts :
      (cooldown t : ℕ) (host : String) (b : Blocked) (e : Event)
      → at_of e ≤ t
      → Lasts t (lookup host b)
      → Lasts t (lookup host (step cooldown b e))
  unfolding step is_domain_blocked mark_domain_blocked
  step-Lasts cooldown t host b (checks raw now) h k =
      grind (arith, lookup-delete, str_eq_iff (normalized_host raw) host)
  step-Lasts cooldown t host b (marks raw kind now) h k =
      grind (arith, lookup-insert, str_eq_iff (normalized_host raw) host)

  run-Lasts :
      (cooldown t : ℕ) (host : String) (b : Blocked) (es : List Event)
      → All (λ e. at_of e ≤ t) es
      → Lasts t (lookup host b)
      → Lasts t (lookup host (run cooldown b es))
  unfolding run
  run-Lasts cooldown t host b [] h k = k
  run-Lasts cooldown t host b (e ∷ es) h k =
      run-Lasts cooldown t host (step cooldown b e) es h.1 (step-Lasts cooldown t host b e h.0 k)

  marked-Lasts :
      (cooldown : ℕ) (b : Blocked) (raw kind : String) (now : ℕ)
      → is_cooled kind ≡ true
      → is_empty (normalized_host raw) ≡ false
      → Lasts
          (now + cooldown)
          (lookup (normalized_host raw) (mark_domain_blocked cooldown b raw kind now))
  unfolding mark_domain_blocked
  marked-Lasts cooldown b raw kind now h k =
      grind (arith, lookup-insert, str_eq_iff (normalized_host raw) (normalized_host raw))

  blocked_of-Lasts :
      (t now : ℕ) (b : Blocked) (raw : String)
      → is_empty (normalized_host raw) ≡ false
      → Lasts t (lookup (normalized_host raw) b)
      → now ≤ t
      → (until : ℕ) × (t ≤ until)
        × (is_domain_blocked b raw now ≡ (b, some (normalized_host raw, until)))
  unfolding is_domain_blocked
  blocked_of-Lasts t now b raw h k l = elim (Option-cases (lookup (normalized_host raw) b)) [
    | inl e ↦ absurd (rw e at k)
    | inr (until, e) ↦ let m : t ≤ until = rw e at k in (until, m, ground arith)
  ]

  -- A challenge keeps its domain blocked for the whole cooldown: after a mark of a URL with a host for a
  -- human verification or a blocked bot, and after any checks and marks of any URLs no later than the
  -- end of that cooldown, every check of a URL of the same host no later than that finds the domain
  -- blocked, until that time at the earliest, and leaves the map as it is.
  pub cooldown_holds :
      (cooldown : ℕ) (b : Blocked) (raw raw' kind : String) (now later : ℕ) (es : List Event)
      → is_cooled kind ≡ true
      → is_empty (normalized_host raw) ≡ false
      → normalized_host raw' ≡ normalized_host raw
      → All (λ e. at_of e ≤ now + cooldown) es
      → later ≤ now + cooldown
      → let c = run cooldown (mark_domain_blocked cooldown b raw kind now) es in
        (until : ℕ) × (now + cooldown ≤ until)
        × (is_domain_blocked c raw' later ≡ (c, some (normalized_host raw, until)))
  cooldown_holds cooldown b raw raw' kind now later es h k e a l =
      let t = now + cooldown in
      let c = run cooldown (mark_domain_blocked cooldown b raw kind now) es in
      let lasts =
        run-Lasts cooldown t (normalized_host raw) (mark_domain_blocked cooldown b raw kind now) es
          a (marked-Lasts cooldown b raw kind now h k) in
      rw (← e) (blocked_of-Lasts t later c raw' (rw e k) (rw e lasts) l)
