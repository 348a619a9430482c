-- ===== src/Agent/Actions.antt =====
-- The clean-up of a plan in cmd/node-agent/planner.go: sanitizePlannedActions, trimSnippet, plannerActionSignature
-- and staticStepPlanner.PlanStep, with executeAction and normalizeTraceAction of cmd/node-agent/main.go. A slice of a text at
-- a byte is Go's where it does not part a character.
use Prim.Native.Char.{code}
use Prim.Native.String.{◌++◌, len, slice}
use browser_use.Base.{
  ℕ, zero, suc, min, String, Bool, true, false, not, ◌&&◌, ◌||◌, Option, none, some, List, [], ◌∷◌,
  if◌then◌else◌, ltb, leb, ◌==◌, ℤ, pos, negsuc, str_eq, is_empty, trim_space, to_lower, is_one_of,
  join, decimal, length, drop, Result, ok, err,
}

pub record ExecuteAction : Type 0 where
  pub kind : String
  pub selector : String
  pub text : String
  pub pixels : ℤ
  pub timeout_ms : ℤ
  pub delay_ms : ℤ

-- `fmt.Sprintf("%d", n)`
abbrev pub decimal_ℤ : ℤ → String
decimal_ℤ (pos n) = decimal n
decimal_ℤ (negsuc n) = "-" ++ decimal (suc n)

-- The characters of the regular expression `\s`.
abbrev pub is_gap : ℕ → Bool
is_gap c = c == 9 || c == 10 || c == 12 || c == 13 || c == 32

-- spacesExpr.ReplaceAllString(s, " "); the argument says that a gap is being passed over.
unfoldable pub collapse : Bool → String → String
collapse gap String.[] = ""
collapse gap (String.◌∷◌ c s) = elim (is_gap (code c)) [
  | true ↦ (elim gap [ true ↦ collapse true s | false ↦ " " ++ collapse true s ])
  | false ↦ String.◌∷◌ c (collapse false s)
]

unfoldable pub trim_snippet : String → ℕ → String
trim_snippet value max =
    let normalized = collapse false (trim_space value) in
    if max == 0 || leb (len normalized) max then normalized else trim_space (slice normalized 0 max)

-- `if n < 0 { n = 0 }; if n > most { n = most }`
abbrev pub clamped : ℕ → ℤ → ℤ
clamped most (pos n) = pos (min n most)
clamped most (negsuc n) = pos 0

abbrev pub allowed_types : List String
allowed_types =
    "wait_for" ∷ "click" ∷ "type" ∷ "scroll" ∷ "extract_text" ∷ "wait" ∷ "press_enter"
    ∷ "submit_search" ∷ "wait_for_url_contains" ∷ []

abbrev pub selector_types : List String
selector_types =
    "wait_for" ∷ "click" ∷ "type" ∷ "extract_text" ∷ "press_enter" ∷ "submit_search" ∷ []

unfoldable pub normalized : String → ExecuteAction → ExecuteAction
normalized kind action = record {
  kind = kind;
  selector = trim_space action.selector;
  text = trim_snippet (trim_space action.text) 320;
  pixels = clamped 3000 action.pixels;
  timeout_ms = clamped 60000 action.timeout_ms;
  delay_ms = clamped 15000 action.delay_ms;
}

unfoldable pub scroll_direction : String → String
scroll_direction text =
    let direction = to_lower (trim_space text) in
    if not (str_eq direction "up") && not (str_eq direction "down") then "down" else direction

-- The switch on the type: an action with what it needs, or `none` for `continue`.
unfoldable pub complete_action : ExecuteAction → Option ExecuteAction
complete_action n =
    if is_one_of n.kind selector_types
    then if is_empty n.selector || (str_eq n.kind "type" && is_empty n.text) then none else some n
    else if str_eq n.kind "wait_for_url_contains"
    then if ltb (len n.text) 2 then none else some n
    else if str_eq n.kind "scroll"
    then some (record n { text = scroll_direction n.text })
    else some n

unfoldable pub sanitize_action : ExecuteAction → Option ExecuteAction
sanitize_action action =
    let kind = to_lower (trim_space action.kind) in
    if is_one_of kind allowed_types then complete_action (normalized kind action) else none

unfoldable pub signature : ExecuteAction → String
signature a = join "|" (
    a.kind
    ∷ a.selector
    ∷ a.text
    ∷ decimal_ℤ a.timeout_ms
    ∷ decimal_ℤ a.delay_ms
    ∷ decimal_ℤ a.pixels
    ∷ [])

-- The loop with `room` more actions to come.
unfoldable pub sanitize_loop : ℕ → List String → List ExecuteAction → List ExecuteAction
sanitize_loop zero seen actions = []
sanitize_loop (suc room) seen [] = []
sanitize_loop (suc room) seen (action ∷ actions) = elim (sanitize_action action) [
  | none ↦ sanitize_loop (suc room) seen actions
  | some a ↦ elim (is_one_of (signature a) seen) [
    | true ↦ sanitize_loop (suc room) seen actions
    | false ↦ a ∷ sanitize_loop room (signature a ∷ seen) actions
  ]
]

unfoldable pub sanitize_planned_actions : List ExecuteAction → List ExecuteAction
sanitize_planned_actions actions = sanitize_loop 12 [] actions

unfoldable pub normalize_trace_action : ExecuteAction → ExecuteAction
normalize_trace_action a = record a {
  kind = to_lower (trim_space a.kind);
  selector = trim_space a.selector;
  text = trim_space a.text;
}

unfoldable pub planner_action_signature : ExecuteAction → String
planner_action_signature a = signature (normalize_trace_action a)

-- plannerStepResponse of a plan: the next action, or why there is none.
pub data PlanStep : Type 0 where
  next_action : ExecuteAction → PlanStep
  stop : String → PlanStep

-- The signatures of the prior steps' actions that pass the clean-up.
unfoldable pub used_signatures : List ExecuteAction → List String
used_signatures [] = []
used_signatures (prior ∷ priors) = elim (sanitize_planned_actions (prior ∷ [])) [
  | [] ↦ used_signatures priors
  | first ∷ rest ↦ planner_action_signature first ∷ used_signatures priors
]

unfoldable pub first_unused : List String → List ExecuteAction → PlanStep
first_unused used [] = stop "plan_exhausted"
first_unused used (candidate ∷ candidates) =
    let rest = first_unused used candidates in
    if is_one_of (planner_action_signature candidate) used then rest else next_action candidate

-- staticStepPlanner.PlanStep for a planner's answer and the actions of the prior steps.
unfoldable pub plan_step : Result (List ExecuteAction) → List ExecuteAction → Result PlanStep
plan_step (err e) priors = err e
plan_step (ok planned) priors = elim (sanitize_planned_actions planned) [
  | [] ↦ ok (stop "no_actions")
  | first ∷ rest ↦ elim (drop (length priors) (first ∷ rest)) [
    | next ∷ later ↦ ok (next_action next)
    | [] ↦ ok (first_unused (used_signatures priors) (first ∷ rest))
  ]
]
