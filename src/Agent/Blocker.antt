-- ===== src/Agent/Blocker.antt =====
-- cmd/node-agent/blocker.go: what a page's URL, title and text say about a challenge.
use Prim.Native.String.{◌++◌}
use mathlib.Core.List.{◌++◌ as append}
use browser_use.Base.{
  ℕ, ◌+◌, ◌≤◌, some, inl, inr, arith, ltb, Bool-cases, Option-cases, lookup, lookup-insert,
  str_eq_iff, String, ◌≡◌, refl, sym, ◌∙◌, Bool, true, false, ◌||◌, List, [], ◌∷◌, if◌then◌else◌,
  is_empty, trim_space, to_lower, contains, contains_any, join, is_space,
}
use browser_use.Runner.Domains.{Hosts, Blocked, is_cooled, normalized_host, mark_domain_blocked}

unfoldable pub blocker_haystack : String → String → String → String
blocker_haystack url title body_text =
    to_lower (join " " (trim_space url ∷ trim_space title ∷ trim_space body_text ∷ []))

abbrev pub human_signals : List String
human_signals =
    "captcha" ∷ "hcaptcha" ∷ "recaptcha" ∷ "verify you are human" ∷ "prove you are human"
    ∷ "are you a robot" ∷ "confirm this search was made by a human"
    ∷ "complete the following challenge" ∷ "security check"
    ∷ "please stand by while we check your browser" ∷ "attention required" ∷ []

abbrev pub bot_signals : List String
bot_signals =
    "access denied" ∷ "bot detected" ∷ "automated access" ∷ "suspicious traffic" ∷ "unusual traffic"
    ∷ "request blocked" ∷ "forbidden" ∷ "error 1020" ∷ []

abbrev pub transient_signals : List String
transient_signals =
    "checking if the site connection is secure" ∷ "checking your browser before accessing"
    ∷ "just a moment" ∷ "enable javascript and cookies to continue"
    ∷ "ddos protection by cloudflare" ∷ []

-- What classifyBlocker finds in a haystack: the blocker's type and its message.
unfoldable pub classify : String → String × String
classify haystack =
    if is_empty haystack
    then ("", "")
    else if contains_any haystack bot_signals
    then ("bot_blocked", "target denied automated access")
    else if contains_any haystack human_signals
    then ("human_verification_required", "human verification challenge detected")
    else if contains haystack "please fill out this field"
    then ("form_validation_error", "submission blocked by required-field validation")
    else ("", "")

unfoldable pub classify_blocker : String → String → String → String × String
classify_blocker url title body_text = classify (blocker_haystack url title body_text)

unfoldable pub is_likely_transient_challenge : String → String → String → Bool
is_likely_transient_challenge url title body_text =
    if is_empty (blocker_haystack url title body_text)
    then false
    else contains_any (blocker_haystack url title body_text) transient_signals

cooled_types :
    (is_cooled "bot_blocked" ≡ true)
    × (is_cooled "human_verification_required" ≡ true)
    × (is_cooled "form_validation_error" ≡ false)
    × (is_cooled "" ≡ false)
unfolding is_cooled trim_space is_space to_lower
cooled_types = (refl, refl, refl, refl)

empty_holds_none :
    (s : String)
    → is_empty s ≡ true
    → contains_any s bot_signals || contains_any s human_signals ≡ false
unfolding contains_any contains
empty_holds_none String.[] h = refl
empty_holds_none (String.◌∷◌ c s) h = cc

by_signals :
    (empty bot human form : Bool)
    → (empty ≡ true → bot || human ≡ false)
    → let found : String × String =
        if empty
        then ("", "")
        else if bot
        then ("bot_blocked", "target denied automated access")
        else if human
        then ("human_verification_required", "human verification challenge detected")
        else if form
        then ("form_validation_error", "submission blocked by required-field validation")
        else ("", "") in
      is_cooled found.0 ≡ bot || human
by_signals true bot human form h = cooled_types.3 ∙ sym (h refl)
by_signals false true human form h = cooled_types.0
by_signals false false true form h = cooled_types.1
by_signals false false false true h = cooled_types.2
by_signals false false false false h = cooled_types.3

cooled_by_signals :
    (url title body_text : String)
    → is_cooled (classify_blocker url title body_text).0 ≡ (
        contains_any (blocker_haystack url title body_text) bot_signals
        || contains_any (blocker_haystack url title body_text) human_signals)
unfolding classify_blocker classify
cooled_by_signals url title body_text =
    let h : String = blocker_haystack url title body_text in
    by_signals (is_empty h) (contains_any h bot_signals) (contains_any h human_signals)
      (contains h "please fill out this field") (empty_holds_none h)

-- What a page's address, title and text are searched for, and the text that is searched.
abbrev pub challenges : List String
challenges =
    "access denied" ∷ "bot detected" ∷ "automated access" ∷ "suspicious traffic" ∷ "unusual traffic"
    ∷ "request blocked" ∷ "forbidden" ∷ "error 1020" ∷ "captcha" ∷ "hcaptcha" ∷ "recaptcha"
    ∷ "verify you are human" ∷ "prove you are human" ∷ "are you a robot"
    ∷ "confirm this search was made by a human" ∷ "complete the following challenge"
    ∷ "security check" ∷ "please stand by while we check your browser" ∷ "attention required" ∷ []

abbrev pub page_text : String → String → String → String
page_text url title body_text =
    to_lower (trim_space url ++ (" " ++ (trim_space title ++ (" " ++ trim_space body_text))))

contains_any-append :
    (s : String) (ts us : List String)
    → contains_any s ts || contains_any s us ≡ contains_any s (append ts us)
unfolding contains_any
contains_any-append s [] us = refl
contains_any-append s (t ∷ ts) us = ground (arith, contains_any-append s ts us)

cooled_by_challenges :
    (url title body_text : String)
    → is_cooled (classify_blocker url title body_text).0
      ≡ contains_any (page_text url title body_text) challenges
unfolding blocker_haystack join
cooled_by_challenges url title body_text =
    cooled_by_signals url title body_text
    ∙ contains_any-append (page_text url title body_text) bot_signals human_signals

module _ (hosts : Hosts) (cooldown : ℕ) (b : Blocked) (raw : String) (now : ℕ)
    (named : is_empty (normalized_host hosts raw) ≡ false) where
  marked_if_cooled :
      (kind : String)
      → let n = mark_domain_blocked hosts cooldown b raw kind now in
        (is_cooled kind ≡ true
          → (until : ℕ) × (lookup (normalized_host hosts raw) n ≡ some until)
            × (now + cooldown ≤ until))
        × (is_cooled kind ≡ false → n ≡ b)
  unfolding mark_domain_blocked
  marked_if_cooled kind =
      let host = normalized_host hosts raw in
      (
        λ c. elim (Option-cases (lookup host b)) [
          | inl e ↦ (
            now + cooldown,
            ground (arith, c, e, lookup-insert host host (now + cooldown) b, str_eq_iff host host),
            omega arith,
          )
          | inr (u, e) ↦ elim (Bool-cases (ltb u (now + cooldown))) [
            | inl l ↦ (
              now + cooldown,
              ground
                  (arith, c, e, lookup-insert host host (now + cooldown) b, str_eq_iff host host),
              omega arith,
            )
            | inr l ↦ (u, ground (arith, c, e), ground (arith, l))
          ]
        ],
        λ c. ground (arith, c),
      )

  -- What a page means for the runner's cooldowns. When the blocker that the agent finds on a page is reported for
  -- a URL with a host, the host is in a cooldown that lasts at least the configured time from now on if
  -- one of the phrases occurs, in lower case, in the page's address, title and text, each trimmed, with a space
  -- between them. If none occurs, as where only a form is not filled in, the cooldowns stay as they were.
  pub cooldown_needs_challenge :
      (url title body_text : String)
      → let found = contains_any (page_text url title body_text) challenges in
        let kind = (classify_blocker url title body_text).0 in
        let n = mark_domain_blocked hosts cooldown b raw kind now in
        (found ≡ true
          → (until : ℕ) × (lookup (normalized_host hosts raw) n ≡ some until)
            × (now + cooldown ≤ until))
        × (found ≡ false → n ≡ b)
  cooldown_needs_challenge url title body_text =
      let kind = (classify_blocker url title body_text).0 in
      let (marks, leaves) = marked_if_cooled kind in
      let same = cooled_by_challenges url title body_text in
      (λ h. marks (same ∙ h), λ h. leaves (same ∙ h))
