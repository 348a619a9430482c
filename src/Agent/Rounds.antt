-- ===== src/Agent/Rounds.antt =====
-- The goal loop of ExecuteWithActions (cmd/node-agent/main.go): the rounds in which a planner chooses an action and the
-- browser carries it out. What the planner, the browser and the blocker check answer in a round is an argument; a
-- page's snapshot is its plannerSnapshotSignature. The loop runs under the executor's mutex.
use browser_use.Base.{
  ℕ, ◌+◌, String, Bool, not, List, [], ◌∷◌, if◌then◌else◌, ltb, leb, ◌==◌, str_eq, is_empty,
  trim_space, length, Result, ok, err,
}
use browser_use.Agent.Actions.{ExecuteAction, sanitize_planned_actions, planner_action_signature}

-- The executor's settings for the loop.
pub record Limits : Type 0 where
  pub max_steps : ℕ
  pub max_failures : ℕ
  pub max_repeat_actions : ℕ
  pub max_repeat_snapshots : ℕ

-- plannerStepResponse
pub data Decision : Type 0 where
  stops : String → Decision
  no_action : Decision
  acts : ExecuteAction → Decision

-- What happens in a round: the planner's answer, whether the action succeeds, whether a blocker is found then, and
-- the signature of the page afterwards.
pub record Answers : Type 0 where
  pub decision : Result Decision
  pub succeeds : Bool
  pub is_blocked : Bool
  pub snapshot : Result String

-- A step of the trace, with the planner's metadata.
pub record Step : Type 0 where
  pub action : ExecuteAction
  pub round : ℕ
  pub failure_count : ℕ
  pub succeeded : Bool

-- The loop's variables. `trace` has the newest step first.
pub record Progress : Type 0 where
  pub trace : List Step
  pub failure_count : ℕ
  pub last_action : String
  pub action_repeats : ℕ
  pub last_snapshot : String
  pub snapshot_repeats : ℕ

unfoldable pub begin : String → Progress
begin snapshot = record {
  trace = [];
  failure_count = 0;
  last_action = "";
  action_repeats = 0;
  last_snapshot = snapshot;
  snapshot_repeats = 0;
}

-- How a round ends: `continue` or the next round, `break` with a stop reason, or a return from the function.
pub data Next : Type 0 where
  goes_on : Progress → Next
  breaks : String → Progress → Next
  gives_up : Progress → Next
  action_failed : Progress → Next
  blocker_found : Progress → Next

-- `plannerFailureCount++; if plannerFailureCount > e.plannerMaxFailures { return … }; continue`
unfoldable pub failed_round : Limits → Progress → Next
failed_round limits p =
    let counted = record p { failure_count = p.failure_count + 1 } in
    if ltb limits.max_failures (p.failure_count + 1) then gives_up counted else goes_on counted

-- The round's step, and the count of how often its action came in a row.
unfoldable pub acted : Progress → ExecuteAction → ℕ → Bool → Progress
acted p action round succeeded =
    let signature = planner_action_signature action in
    record p {
      trace =
          record {
            action = action;
            round = round;
            failure_count = p.failure_count;
            succeeded = succeeded;
          }
          ∷ p.trace;
      last_action = signature;
      action_repeats = if str_eq signature p.last_action then p.action_repeats + 1 else 1;
    }

unfoldable pub looked : Limits → Progress → String → Next
looked limits p signature =
    let same = str_eq signature p.last_snapshot in
    let seen = record p {
      last_snapshot = signature;
      snapshot_repeats = if same then p.snapshot_repeats + 1 else 0;
    } in
    if leb limits.max_repeat_snapshots (if same then p.snapshot_repeats + 1 else 0)
    then breaks "loop_detected_repeated_snapshot" seen
    else goes_on seen

-- The part of a round behind executeActionStep.
unfoldable pub after_action : Limits → Answers → Progress → Next
after_action limits a p =
    if not a.succeeds
    then action_failed p
    else if a.is_blocked
    then blocker_found p
    else if leb limits.max_repeat_actions p.action_repeats
    then breaks "loop_detected_repeated_action" p
    else elim a.snapshot [
      | err e ↦ failed_round limits p
      | ok signature ↦ looked limits p signature
    ]

-- What becomes of the planner's action once it is cleaned up.
abbrev pub act_cleaned : Limits → Answers → Progress → ℕ → List ExecuteAction → Next
act_cleaned limits a p round [] = failed_round limits p
act_cleaned limits a p round (first ∷ rest) = after_action limits a (acted p first round a.succeeds)

unfoldable pub decided : Limits → Answers → Progress → ℕ → Decision → Next
decided limits a p round (stops reason) =
    breaks (if is_empty (trim_space reason) then "planner_stop" else trim_space reason) p
decided limits a p round no_action = breaks "planner_no_action" p
decided limits a p round (acts action) =
    act_cleaned limits a p round (sanitize_planned_actions (action ∷ []))

unfoldable pub play_round : Limits → Answers → Progress → ℕ → Next
play_round limits a p round = elim a.decision [
  | err e ↦ failed_round limits p
  | ok decision ↦ decided limits a p round decision
]

abbrev pub and_then : Next → (Progress → Next) → Next
and_then (goes_on next) rest = rest next
and_then ended rest = ended

-- The loop: `rounds` are the answers of the rounds to come, as many as plannerMaxSteps leaves.
unfoldable pub play : Limits → List Answers → Progress → ℕ → Next
play limits [] p round = breaks "" p
play limits (a ∷ rounds) p round =
    and_then (play_round limits a p round) (λ next. play limits rounds next (round + 1))

-- The stop reason that the trace's last step gets behind the loop.
unfoldable pub stop_reason : Limits → String → List Step → String
stop_reason limits reason trace =
    if not (is_empty reason)
    then reason
    else if leb limits.max_steps (length trace)
    then "max_planner_steps_reached"
    else if length trace == 0
    then "no_actions"
    else ""
