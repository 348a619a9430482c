-- ===== src/Api/Settling.antt =====
-- The steps that the creating handlers of internal/api/tasks.go share: the session of a task, and what becomes of
-- the task once it is handed to the dispatcher.
use mathlib.Core.Bool.{false≢true}
use mathlib.Core.Option.{some-injective}
use browser_use.Base.{
  ℕ, ◌+◌, ◌^◌, ◌<◌, String, ◌≡◌, refl, sym, ap, subst, ◌⊎◌, inl, inr, Bool, true, false, Option,
  none, some, List, [], ◌∷◌, arith, Bool-cases, Option-cases, length, is_empty, trim_space,
  trim_space_idem, is_ok, lookup, lookup-insert, str_eq_iff, Result, ok, err, ok-injective,
  Result-cases,
}
use browser_use.Task.Types.{Task, CreateInput, is_final}
use browser_use.Task.Service.{Service, Call, create, run}
use browser_use.Task.Validity.{IsValid}
use browser_use.Task.Lifecycle.{lives}
use browser_use.Session
use browser_use.Api.Tasks.{
  Reply, error_reply, task_reply, Enqueued, enqueue_created_task, ensure_session_exists,
  resolve_task_session_id, new_session,
}
use browser_use.Api.Handlers.{created_reply, wait_for_task_terminal_state}
use browser_use.Api.Creation.{
  is_accepted, refusal_status, GivesUp, refused_settles, create-IsCreated,
}

-- No task is created and the answer is an error: the tasks are those of the service, or what the calls of
-- others have made of them.
abbrev pub Rejected : Service → List Call → Service → Reply → Type 0
Rejected s before n reply =
    ((n ≡ s) ⊎ (n ≡ run s before))
    × (status : ℕ) × (code : String) × (text : String) × (reply ≡ error_reply status code text)

-- A task that the dispatcher takes is stored, with what the other callers made of it, and answered with
-- 202, or with 200 and a final task; one that it refuses is given up, with the refusal's status.
abbrev pub Settled : Option (Result (Unit {0})) → List Call → Task → Service → Reply → Type 0
Settled d others created n reply =
    (is_accepted d ≡ true
      → (lookup created.id n.items ≡ some (lives created.id others created))
        × ((reply ≡ task_reply 202 (some created))
            ⊎ ((t : Task) × (reply ≡ task_reply 200 (some t)) × (is_final t.status ≡ true))))
    × (is_accepted d ≡ false
        → GivesUp n created.id × (t : Option Task) × (reply ≡ task_reply (refusal_status d) t))

-- Where the server has a session service, the session is one of its sessions.
abbrev pub HasSession : Option Session.Service → String → Type 0
HasSession none id = Unit
HasSession (some s) id = (x : Session.Session) × (lookup id s.items ≡ some x)

wait-IsFinal :
    (polled : List (Result Task)) (t : Task)
    → wait_for_task_terminal_state polled ≡ some t
    → is_final t.status ≡ true
unfolding wait_for_task_terminal_state
wait-IsFinal [] t h = cc
wait-IsFinal (err e ∷ polled) t h = wait-IsFinal polled t h
wait-IsFinal (ok x ∷ polled) t h = elim (Bool-cases (is_final x.status)) [
  | inl f ↦ subst (λ (y : Task). is_final y.status ≡ true) (some-injective x t (rw f at h)) f
  | inr f ↦ wait-IsFinal polled t (rw f at h)
]

accepted_reply :
    (d : Option (Result (Unit {0}))) (s : Service) (created : Task) (waits : Bool)
    (polled : List (Result Task)) (now : ℕ)
    → is_accepted d ≡ true
    → let e = enqueue_created_task s d created now in
      (e.tasks ≡ s)
      × ((created_reply e waits polled ≡ task_reply 202 (some created))
          ⊎ ((t : Task) × (created_reply e waits polled ≡ task_reply 200 (some t))
              × (is_final t.status ≡ true)))
unfolding enqueue_created_task created_reply
accepted_reply none s created waits polled now a = cc
accepted_reply (some (err e)) s created waits polled now a = cc
accepted_reply (some (ok u)) s created false polled now a = (refl, inl refl)
accepted_reply (some (ok u)) s created true polled now a =
    elim (Option-cases (wait_for_task_terminal_state polled)) [
      | inl e ↦ (refl, inl (rw e refl))
      | inr (t, e) ↦ (refl, inr (t, rw e refl, wait-IsFinal polled t e))
    ]

refused_reply :
    (e : Enqueued) (waits : Bool) (polled : List (Result Task)) (status : ℕ)
    → e.status ≡ status
    → e.is_queued ≡ false
    → created_reply e waits polled ≡ task_reply status e.task
unfolding created_reply
refused_reply e waits polled status h q = rw (q, h) refl

-- What both handlers do with a task that Create returned.
pub settled :
    (s n : Service) (input : CreateInput) (created : Task) (d : Option (Result (Unit {0})))
    (others : List Call) (waits : Bool) (polled : List (Result Task)) (now : ℕ)
    → s.counter + (1 + length others) < 2 ^ 63
    → IsValid s
    → create s input now ≡ ok (n, created)
    → let e = enqueue_created_task (run n others) d created now in
      Settled d others created e.tasks (created_reply e waits polled)
settled s n input created d others waits polled now b v h =
    let (same, lived) = create-IsCreated s n input created others now b v h in
    (
      λ a.
          let (kept, answer) = accepted_reply d (run n others) created waits polled now a in
          (
            subst
                (λ (x : Service).
                  lookup created.id x.items ≡ some (lives created.id others created))
                (sym kept) lived,
            answer,
          ),
      λ a.
          let (gone, status, queued) =
            refused_settles (run n others) d created (lives created.id others created) now a
              lived in
          (
            gone,
            (enqueue_created_task (run n others) d created now).task,
            refused_reply _ waits polled (refusal_status d) status queued,
          ),
    )

pub ensured-HasSession :
    (quote : String → String) (sessions : Option Session.Service) (id : String)
    → ensure_session_exists quote sessions id ≡ ok tt
    → HasSession sessions (trim_space id)
unfolding ensure_session_exists Session.get
ensured-HasSession quote none id h = tt
ensured-HasSession quote (some s) id h = elim (Option-cases (lookup (trim_space id) s.items)) [
  | inl e ↦ absurd (ground arith)
  | inr (x, e) ↦ (x, e)
]

added-lookup :
    (s : Session.Service) (tenant : String) (now : ℕ)
    → let (n, x) = Session.added s tenant now in lookup x.id n.items ≡ some x
unfolding Session.added
added-lookup s tenant now = grind (arith, lookup-insert, str_eq_iff)

new_session-HasSession :
    (sessions kept : Option Session.Service) (id tenant : String) (now : ℕ)
    → new_session sessions tenant now ≡ ok (kept, id)
    → HasSession kept id
unfolding new_session Session.create Session.added
new_session-HasSession none kept id tenant now h = cc
new_session-HasSession (some s) kept id tenant now h = elim (Bool-cases (is_empty tenant)) [
  | inl e ↦ absurd (ground arith)
  | inr e ↦
      subst (λ (r : Option Session.Service × String). HasSession r.0 r.1)
        (ok-injective _ _ (rw (new_session, e) at h))
        ((Session.added s tenant now).1, added-lookup s tenant now)
]

pub resolved-HasSession :
    (quote : String → String) (sessions kept : Option Session.Service) (given tenant id : String)
    (now : ℕ)
    → resolve_task_session_id quote sessions given tenant now ≡ ok (kept, id)
    → HasSession kept id
unfolding resolve_task_session_id
resolved-HasSession quote sessions kept given tenant id now h =
    elim (Bool-cases (is_empty (trim_space given))) [
      | inl e ↦ new_session-HasSession sessions kept id _ now (rw e at h)
      | inr e ↦ elim (Result-cases (ensure_session_exists quote sessions (trim_space given))) [
        | inl (u, f) ↦
            subst (λ (r : Option Session.Service × String). HasSession r.0 r.1)
              (ok-injective _ _ (rw (e, f) at h))
              (subst (HasSession sessions) (trim_space_idem given)
                (ensured-HasSession quote sessions (trim_space given) f))
        | inr (x, f) ↦ absurd (false≢true (ap is_ok (rw (e, f) at h)))
      ]
    ]
