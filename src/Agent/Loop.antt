-- ===== src/Agent/Loop.antt =====
-- What the goal loop of ExecuteWithActions (cmd/node-agent/main.go) can do, whatever the planner and the page answer.
use browser_use.Base.{
  ℕ, suc, ◌+◌, ◌≤◌, ◌<◌, max, String, ◌≡◌, refl, sym, ap, subst, inl, inr, Bool, true, false, List,
  [], ◌∷◌, arith, if◌then◌else◌, Bool-cases, Result-cases, ltb, leb, str_eq, str_eq_iff, length,
  All,
}
use browser_use.Agent.Actions.{ExecuteAction, sanitize_planned_actions, planner_action_signature}
use browser_use.Agent.Plans.{IsClean, sanitize_planned_actions_lem}
use browser_use.Agent.Rounds.{
  Limits, Decision, stops, no_action, acts, Answers, Step, Progress, begin, Next, goes_on, breaks,
  gives_up, action_failed, blocker_found, failed_round, acted, looked, after_action, act_cleaned,
  decided, play_round, and_then, play,
}

abbrev pub signature_of : Step → String
signature_of s = planner_action_signature s.action

-- How many of the newest steps in a row have a signature.
unfoldable pub run_length : String → List Step → ℕ
run_length s [] = 0
run_length s (x ∷ xs) =
    let rest = run_length s xs in if str_eq (signature_of x) s then suc rest else 0

-- No action comes more than `most` times in a row.
abbrev pub NoRuns : ℕ → List Step → Type 0
NoRuns most [] = Unit
NoRuns most (x ∷ xs) = (run_length (signature_of x) (x ∷ xs) ≤ most) × NoRuns most xs

abbrev Heads : String → List Step → Type 0
Heads s [] = Unit
Heads s (x ∷ xs) = signature_of x ≡ s

abbrev pub most_repeats : Limits → ℕ
most_repeats limits = max 1 limits.max_repeat_actions

-- At most `n` steps, each of an action that the clean-up passes, without long runs of one action.
pub record IsTame (limits : Limits) (n : ℕ) (p : Progress) : Type 0 where
  pub short : length p.trace ≤ n
  pub clean : All (λ s. IsClean s.action) p.trace
  pub runs : NoRuns (most_repeats limits) p.trace
  pub counted : p.action_repeats ≡ run_length p.last_action p.trace
  pub heads : Heads p.last_action p.trace

pub record Ready (limits : Limits) (n : ℕ) (p : Progress) : Type 0 where
  pub tame : IsTame limits n p
  pub room : p.action_repeats < most_repeats limits
  pub patient : p.failure_count ≤ limits.max_failures

-- How the loop may end: tame, and with no more failures than it may have, unless it gives up for one more.
abbrev pub EndsWell : Limits → ℕ → Next → Type 0
EndsWell limits n (goes_on p) = Ready limits n p
EndsWell limits n (breaks reason p) = IsTame limits n p × (p.failure_count ≤ limits.max_failures)
EndsWell limits n (gives_up p) = IsTame limits n p × (p.failure_count ≡ limits.max_failures + 1)
EndsWell limits n (action_failed p) = IsTame limits n p × (p.failure_count ≤ limits.max_failures)
EndsWell limits n (blocker_found p) = IsTame limits n p × (p.failure_count ≤ limits.max_failures)

IsTame-longer :
    (limits : Limits) (n m : ℕ) (p : Progress) → n ≤ m → IsTame limits n p → IsTame limits m p
IsTame-longer limits n m p h t = record {
  short = omega (arith, t.short, h);
  clean = t.clean;
  runs = t.runs;
  counted = t.counted;
  heads = t.heads;
}

run_other :
    (s last : String) (xs : List Step) → Heads last xs → str_eq s last ≡ false → run_length s xs ≡ 0
unfolding run_length
run_other s last [] h n = refl
run_other s last (x ∷ xs) h n =
    ground (arith, str_eq_iff (signature_of x) s, str_eq_iff s last, h, n)

-- A failure after a round that has room for another.
failed-EndsWell :
    (limits : Limits) (n : ℕ) (p : Progress)
    → IsTame limits n p
    → p.action_repeats < most_repeats limits
    → p.failure_count ≤ limits.max_failures
    → EndsWell limits n (failed_round limits p)
unfolding failed_round
failed-EndsWell limits n p t r f =
    elim (Bool-cases (ltb limits.max_failures (p.failure_count + 1))) [
      | inl e ↦
          rw (failed_round, e)
            (
              record {
                short = t.short;
                clean = t.clean;
                runs = t.runs;
                counted = t.counted;
                heads = t.heads;
              },
              ground (arith, e, f),
            )
      | inr e ↦
          rw (failed_round, e)
            (record {
              tame = record {
                short = t.short;
                clean = t.clean;
                runs = t.runs;
                counted = t.counted;
                heads = t.heads;
              };
              room = r;
              patient = ground (arith, e);
            })
    ]

looked-EndsWell :
    (limits : Limits) (n : ℕ) (p : Progress) (signature : String)
    → IsTame limits n p
    → p.action_repeats < most_repeats limits
    → p.failure_count ≤ limits.max_failures
    → EndsWell limits n (looked limits p signature)
unfolding looked
looked-EndsWell limits n p signature t r f =
    let seen : IsTame limits n (record p {
      last_snapshot = signature;
      snapshot_repeats = if str_eq signature p.last_snapshot then p.snapshot_repeats + 1 else 0;
    }) =
      record {
        short = t.short;
        clean = t.clean;
        runs = t.runs;
        counted = t.counted;
        heads = t.heads;
      } in
    elim (Bool-cases (
      leb limits.max_repeat_snapshots
        (if str_eq signature p.last_snapshot then p.snapshot_repeats + 1 else 0))) [
          | inl e ↦ rw (looked, e) (seen, f)
          | inr e ↦ rw (looked, e) (record { tame = seen; room = r; patient = f })
        ]

after-EndsWell :
    (limits : Limits) (n : ℕ) (a : Answers) (p : Progress)
    → IsTame limits n p
    → p.failure_count ≤ limits.max_failures
    → EndsWell limits n (after_action limits a p)
unfolding after_action
after-EndsWell limits n a p t f = elim (Bool-cases a.succeeds) [
  | inr e ↦ rw (after_action, e) (t, f)
  | inl e ↦ elim (Bool-cases a.is_blocked) [
    | inl b ↦ rw (after_action, e, b) (t, f)
    | inr b ↦ elim (Bool-cases (leb limits.max_repeat_actions p.action_repeats)) [
      | inl l ↦ rw (after_action, e, b, l) (t, f)
      | inr l ↦
          let room : p.action_repeats < most_repeats limits = ground (arith, l) in
          elim (Result-cases a.snapshot) [
            | inr (x, s) ↦ rw (after_action, e, b, l, s) (failed-EndsWell limits n p t room f)
            | inl (s, q) ↦ rw (after_action, e, b, l, q) (looked-EndsWell limits n p s t room f)
          ]
    ]
  ]
]

-- The run that a new step ends is one longer than the count of its action so far.
new_run :
    (p : Progress) (signature : String)
    → p.action_repeats ≡ run_length p.last_action p.trace
    → Heads p.last_action p.trace
    → suc (run_length signature p.trace)
      ≡ (if str_eq signature p.last_action then p.action_repeats + 1 else 1)
new_run p signature c h = elim (Bool-cases (str_eq signature p.last_action)) [
  | inl e ↦
      rw (e, ap (λ (s : String). run_length s p.trace) ((str_eq_iff signature p.last_action).0 e))
        (omega (arith, c))
  | inr e ↦ rw (e, run_other signature p.last_action p.trace h e) refl
]

acted-IsTame :
    (limits : Limits) (n : ℕ) (p : Progress) (action : ExecuteAction) (round : ℕ) (succeeded : Bool)
    → Ready limits n p
    → IsClean action
    → IsTame limits (suc n) (acted p action round succeeded)
unfolding acted run_length
acted-IsTame limits n p action round succeeded r c =
    let signature : String = planner_action_signature action in
    let self : str_eq signature signature ≡ true = (str_eq_iff signature signature).1 refl in
    let ends = new_run p signature r.tame.counted r.tame.heads in
    record {
      short = omega (arith, r.tame.short);
      clean = (c, r.tame.clean);
      runs = (rw self (ground (arith, ends, r.room)), r.tame.runs);
      counted = rw self (sym ends);
      heads = refl;
    }

decided-EndsWell :
    (limits : Limits) (n : ℕ) (a : Answers) (p : Progress) (round : ℕ) (d : Decision)
    → Ready limits n p
    → EndsWell limits (suc n) (decided limits a p round d)
unfolding decided
decided-EndsWell limits n a p round (stops reason) r =
    (IsTame-longer limits n (suc n) p (omega arith) r.tame, r.patient)
decided-EndsWell limits n a p round no_action r =
    (IsTame-longer limits n (suc n) p (omega arith) r.tame, r.patient)
decided-EndsWell limits n a p round (acts action) r =
    by_cleaned (sanitize_planned_actions (action ∷ []))
      (sanitize_planned_actions_lem (action ∷ [])).1
  where
    by_cleaned :
        (cleaned : List ExecuteAction)
        → All IsClean cleaned
        → EndsWell limits (suc n) (act_cleaned limits a p round cleaned)
    by_cleaned [] c =
        failed-EndsWell limits (suc n) p (IsTame-longer limits n (suc n) p (omega arith) r.tame)
          r.room r.patient
    by_cleaned (first ∷ rest) c =
        after-EndsWell limits (suc n) a (acted p first round a.succeeds)
          (acted-IsTame limits n p first round a.succeeds r c.0) (unfold acted in r.patient)

play_round-EndsWell :
    (limits : Limits) (n : ℕ) (a : Answers) (p : Progress) (round : ℕ)
    → Ready limits n p
    → EndsWell limits (suc n) (play_round limits a p round)
unfolding play_round
play_round-EndsWell limits n a p round r = elim (Result-cases a.decision) [
  | inr (x, e) ↦
      rw (play_round, e)
        (failed-EndsWell limits (suc n) p (IsTame-longer limits n (suc n) p (omega arith) r.tame)
          r.room r.patient)
  | inl (d, e) ↦ rw (play_round, e) (decided-EndsWell limits n a p round d r)
]

-- The loop is over: nothing of it is left to go on with.
abbrev pub IsOver : Next → Type 0
IsOver (goes_on p) = ⊥
IsOver _ = Unit

after_round :
    (limits : Limits) (n left : ℕ) (next : Next) (rest : Progress → Next)
    → EndsWell limits (suc n) next
    → ((q : Progress)
        → Ready limits (suc n) q
        → EndsWell limits (suc n + left) (rest q) × IsOver (rest q))
    → EndsWell limits (n + suc left) (and_then next rest) × IsOver (and_then next rest)
after_round limits n left (goes_on q) rest w h =
    let same : suc n + left ≡ n + suc left = omega arith in
    subst (λ (m : ℕ). EndsWell limits m (rest q) × IsOver (rest q)) same (h q w)
after_round limits n left (breaks reason q) rest w h =
    ((IsTame-longer limits (suc n) (n + suc left) q (omega arith) w.0, w.1), tt)
after_round limits n left (gives_up q) rest w h =
    ((IsTame-longer limits (suc n) (n + suc left) q (omega arith) w.0, w.1), tt)
after_round limits n left (action_failed q) rest w h =
    ((IsTame-longer limits (suc n) (n + suc left) q (omega arith) w.0, w.1), tt)
after_round limits n left (blocker_found q) rest w h =
    ((IsTame-longer limits (suc n) (n + suc left) q (omega arith) w.0, w.1), tt)

play-EndsWell :
    (limits : Limits) (n : ℕ) (rounds : List Answers) (p : Progress) (round : ℕ)
    → Ready limits n p
    → EndsWell limits (n + length rounds) (play limits rounds p round)
      × IsOver (play limits rounds p round)
unfolding play
play-EndsWell limits n [] p round r =
    ((IsTame-longer limits n (n + 0) p (omega arith) r.tame, r.patient), tt)
play-EndsWell limits n (a ∷ rounds) p round r =
    after_round limits n (length rounds) (play_round limits a p round)
      (λ q. play limits rounds q (round + 1)) (play_round-EndsWell limits n a p round r)
      (λ q w. play-EndsWell limits (suc n) rounds q (round + 1) w)

-- Whatever the planner and the page answer, the goal loop comes to an end within `plannerMaxSteps` rounds: it
-- has carried out at most that many actions, each of them one that the clean-up passes, and no action more
-- often in a row than `plannerMaxRepeatActions` (once, where that is 0); it has met at most
-- `plannerMaxFailures` failures, or gives up on the next one.
pub goal_loop_ends :
    (limits : Limits) (rounds : List Answers) (snapshot : String)
    → length rounds ≡ limits.max_steps
    → EndsWell limits limits.max_steps (play limits rounds (begin snapshot) 1)
      × IsOver (play limits rounds (begin snapshot) 1)
unfolding begin run_length
goal_loop_ends limits rounds snapshot e =
    let same : 0 + length rounds ≡ limits.max_steps = omega (arith, e) in
    subst
      (λ (m : ℕ).
        EndsWell limits m (play limits rounds (begin snapshot) 1)
        × IsOver (play limits rounds (begin snapshot) 1))
      same
      (play-EndsWell limits 0 rounds (begin snapshot) 1 (record {
        tame = record { short = omega arith; clean = tt; runs = tt; counted = refl; heads = tt };
        room = omega arith;
        patient = omega arith;
      }))
