-- ===== src/Api/Outcomes.antt =====
-- createAndQueueTaskNonIdempotent and replayTaskNonIdempotent (internal/api/tasks.go) as wholes, with the task
-- service and the session service behind them.
use browser_use.Base.{
  ℕ, ◌+◌, ◌^◌, ◌<◌, String, ◌≡◌, refl, sym, ap, subst, ◌⊎◌, inl, inr, Bool, false, not, ◌&&◌,
  Option, none, some, List, [], Bool-cases, Option-cases, length, is_empty, trim_space, Result, ok,
  Result-cases, arith,
}
use browser_use.Task.Types.{Task, CreateInput}
use browser_use.Task.Service.{Service, Call, task_id, create, created_task, get, run}
use browser_use.Task.Validity.{IsValid, run-IsValid}
use browser_use.Session
use browser_use.Api.Tasks.{
  CreateTaskRequest, ReplayTaskRequest, Server, Reply, error_reply, ensure_session_exists,
  resolve_task_session_id, or_default,
}
use browser_use.Api.Handlers.{
  Between, run_sessions, create_and_queue_task, replay_task, replay_session, replay_in,
  replay_found, value_or, create_input, replay_input,
}
use browser_use.Api.Creation.{create-IsCreated}
use browser_use.Api.Settling.{
  HasSession, Rejected, Settled, ensured-HasSession, resolved-HasSession, settled,
}

-- The server had the session when it was checked; its sessions are what others have made of those since.
abbrev pub HadSession : Between → Option Session.Service → String → Type 0
HadSession between sessions id =
    (known : Option Session.Service) × HasSession known id
    × (sessions ≡ run_sessions between.checked known)

-- What creating a task comes to: no task, or a queued task under the next id, in a session of the server, that
-- is settled.
abbrev pub Created :
    Server → Between → Option (Result (Unit {0})) → List Call → Server × Reply → Type 0
Created srv between d others (n, reply) =
    Rejected srv.tasks between.tasks n.tasks reply
    ⊎ ((created : Task) × (created.id ≡ task_id ((run srv.tasks between.tasks).counter + 1))
        × HadSession between n.sessions created.session_id
        × Settled d others created n.tasks reply)

-- The task repeats the original one, which it names as its source, under the next id.
abbrev pub IsReplay : Service → String → Task → Task → Type 0
IsReplay s source original created =
    (created.id ≡ task_id (s.counter + 1))
    × (created.source_task_id ≡ source)
    × (created.url ≡ trim_space original.url)
    × (created.goal ≡ trim_space original.goal)
    × (created.actions ≡ original.actions)

abbrev pub Replayed :
    Server → String → Between → Option (Result (Unit {0})) → List Call → Server × Reply → Type 0
Replayed srv source between d others (n, reply) =
    Rejected srv.tasks between.tasks n.tasks reply
    ⊎ ((created : Task) × (original : Task) × (get srv.tasks source ≡ ok original)
        × IsReplay (run srv.tasks between.tasks) source original created
        × HadSession between n.sessions (trim_space created.session_id)
        × Settled d others created n.tasks reply)

replay_session_cases :
    (sessions : Option Session.Service) (req : ReplayTaskRequest) (original : Task) (now : ℕ)
    → ((x : Option Session.Service × String) × (replay_session sessions req original now ≡ inl x))
      ⊎ ((status : ℕ) × (code : String) × (text : String) × (replay_session sessions req original
              now
            ≡ inr (error_reply status code text)))
unfolding replay_session
replay_session_cases sessions req original now = elim (Bool-cases req.create_new_session) [
  | inr b ↦ rw b (inl (_, refl))
  | inl b ↦ elim (Option-cases sessions) [
    | inl e ↦ rw (b, e) (inr (_, _, _, refl))
    | inr (s, e) ↦
        elim (Result-cases
          (Session.create s (or_default (trim_space req.tenant_id) "replay") now)) [
            | inl (x, f) ↦ rw (b, e, f) (inl (_, refl))
            | inr (x, f) ↦ rw (b, e, f) (inr (_, _, _, refl))
          ]
  ]
]

found_original :
    (quote : String → String) (srv : Server) (source : String) (body : Option ReplayTaskRequest)
    (original : Task) (between : Between) (d : Option (Result (Unit {0}))) (others : List Call)
    (now : ℕ)
    → get srv.tasks source ≡ ok original
    → replay_task quote srv source body between d others now
      ≡ replay_found quote srv source body original between d others now
unfolding replay_task
found_original quote srv source body original between d others now e = rw (replay_task, e) refl

module _ (quote : String → String) (srv : Server) (between : Between)
    (d : Option (Result (Unit {0}))) (others : List Call) (now : ℕ)
    (room : srv.tasks.counter + (length between.tasks + (1 + length others)) < 2 ^ 63)
    (valid : IsValid srv.tasks) where
  -- The tasks that Create finds.
  abbrev pub found : Service
  found = run srv.tasks between.tasks

  found-IsValid : IsValid found
  found-IsValid = (run-IsValid srv.tasks between.tasks (omega arith) valid).0

  found_room : found.counter + (1 + length others) < 2 ^ 63
  found_room =
      let l = (run-IsValid srv.tasks between.tasks (omega arith) valid).1 in omega (arith, l, room)

  made_of :
      (input : CreateInput) {n : Service} {created : Task}
      → create found input now ≡ ok (n, created)
      → created ≡ created_task input (task_id (found.counter + 1)) now
  made_of input {n} {created} f =
      (create-IsCreated found n input created others now found_room found-IsValid f).0

  -- Every request to create a task, whatever other callers do on the tasks between its steps and on the
  -- sessions once it has checked its own, is answered with an error and creates no task (a session that was
  -- made for it stays), or creates one task under the next id, in a session that the server had when it
  -- checked; a task that the dispatcher takes is stored and answered with 202, or with 200 and a task
  -- in a final state; one that it refuses ends failed or canceled, never left queued, and is answered with 503
  -- where the queue is full and 500 otherwise. The task service is valid and its counter has room.
  pub create_and_queue_task_lem :
      (waits : Bool) (body : Option CreateTaskRequest) (polled : List (Result Task))
      → Created srv between d others
          (create_and_queue_task quote srv waits body between d others polled now)
  unfolding create_and_queue_task created_task create_input
  create_and_queue_task_lem waits none polled = inl (inl refl, 400, "invalid_json", _, refl)
  create_and_queue_task_lem waits (some req) polled =
      elim (Result-cases (
        resolve_task_session_id quote srv.sessions (trim_space req.session_id)
          (trim_space req.tenant_id) now)) [
            | inr (x, e) ↦
                rw (create_and_queue_task, e) (inl (inl refl, 400, "create_failed", _, refl))
            | inl ((sessions, sid), e) ↦
                elim (Result-cases (create found (create_input srv req sid) now)) [
                  | inr (x, f) ↦
                      rw (create_and_queue_task, e, f)
                        (inl (inr refl, 400, "create_failed", _, refl))
                  | inl ((n, created), f) ↦
                      rw (create_and_queue_task, e, f)
                        (inr (
                          created,
                          ap (λ (t : Task). t.id) (made_of (create_input srv req sid) f),
                          (
                            sessions,
                            subst (HasSession sessions)
                                (sym (
                                  ap (λ (t : Task). t.session_id)
                                    (made_of (create_input srv req sid) f)))
                                (resolved-HasSession quote srv.sessions sessions
                                  (trim_space req.session_id) (trim_space req.tenant_id) sid now e),
                            refl,
                          ),
                          settled found n (create_input srv req sid) created d others
                              (value_or req.wait_for_completion waits) polled now found_room
                              found-IsValid f,
                        ))
                ]
          ]

  replay_in-Replayed :
      (sessions : Option Session.Service) (session_id source : String) (req : ReplayTaskRequest)
      (original : Task)
      → get srv.tasks source ≡ ok original
      → Replayed srv source between d others
          (replay_in quote srv sessions session_id req original source between d others now)
  unfolding replay_in created_task replay_input
  replay_in-Replayed sessions session_id source req original g =
      let input = replay_input req original source session_id in
      let known = run_sessions between.unchecked sessions in
      elim (Result-cases (ensure_session_exists quote known session_id)) [
        | inr (x, e) ↦ rw (replay_in, e) (inl (inr refl, 400, "replay_failed", _, refl))
        | inl (u, e) ↦ elim (Result-cases (create found input now)) [
          | inr (x, f) ↦ rw (replay_in, e, f) (inl (inr refl, 400, "replay_failed", _, refl))
          | inl ((n, created), f) ↦
              rw (replay_in, e, f)
                (inr (
                  created,
                  original,
                  g,
                  subst (IsReplay found source original) (sym (made_of input f))
                      (refl, refl, refl, refl, refl),
                  (
                    known,
                    subst (λ (t : Task). HasSession known (trim_space t.session_id))
                        (sym (made_of input f)) (ensured-HasSession quote known session_id e),
                    refl,
                  ),
                  settled found n input created d others false [] now found_room found-IsValid f,
                ))
        ]
      ]

  replay_body :
      (source : String) (body : Option ReplayTaskRequest) (original : Task)
      → get srv.tasks source ≡ ok original
      → Replayed srv source between d others
          (replay_found quote srv source body original between d others now)
  unfolding replay_found
  replay_body source none original g =
      inl (inl refl, 400, "invalid_json", "request body must be valid JSON", refl)
  replay_body source (some req) original g =
      elim (Bool-cases (req.create_new_session && not (is_empty (trim_space req.session_id)))) [
        | inl b ↦ rw (replay_found, b) (inl (inl refl, 400, "invalid_replay_request", _, refl))
        | inr b ↦ elim (replay_session_cases srv.sessions req original now) [
          | inl ((sessions, sid), e) ↦
              rw (replay_found, b, e) (replay_in-Replayed sessions sid source req original g)
          | inr (status, code, text, e) ↦
              rw (replay_found, b, e) (inl (inl refl, status, code, text, refl))
        ]
      ]

  -- Every request to replay a task, whatever other callers do on the tasks and the sessions between its
  -- steps, is answered with an error and creates no task (a session that was made for it stays), or creates
  -- one task under the next id that names the original as its source and repeats its URL, goal and
  -- actions, in a session that the server had when it checked; the task is then stored or
  -- given up as a created one is. The task service is valid and its counter has room.
  pub replay_task_lem :
      (source : String) (body : Option ReplayTaskRequest)
      → Replayed srv source between d others
          (replay_task quote srv source body between d others now)
  unfolding replay_task
  replay_task_lem source body = elim (Result-cases (get srv.tasks source)) [
    | inr (x, e) ↦ rw (replay_task, e) (inl (inl refl, 404, "not_found", _, refl))
    | inl (original, e) ↦
        subst (Replayed srv source between d others)
          (sym (found_original quote srv source body original between d others now e))
          (replay_body source body original e)
  ]
