-- ===== src/Api/Guarding.antt =====
-- The security middleware (internal/api/security.go) in front of the task and session routes (internal/api/tasks.go,
-- sessions.go): which requests it holds back.
use Prim.Native.String.{◌++◌, char_at}
use text.Mathlib.TextLemmas.{cons-append, append_assoc}
use text.Mathlib.TextPositions.{starts_with-append}
use browser_use.Base.{
  ℕ, String, ◌≡◌, refl, sym, ap, subst, ◌∙◌, ◌⊎◌, inl, inr, Bool, true, false, ◌&&◌, Option, List,
  [], ◌∷◌, arith, if◌then◌else◌, Bool-cases, str_eq, str_eq_iff, is_empty, trim_space, trim_left,
  trim_right, has_prefix, has_suffix, split, join, join-split, is_one_of, ◌||◌, trim_prefix,
  strip_prefix-append, has_suffix-append, trim_right-append, is_empty-append, is_space,
}
use browser_use.Api.Security.{
  Request, Security, unauthorized, requires_create_auth_and_rate_limit, request_has_api_key,
  with_api_security,
}
use browser_use.Api.Routes.{
  Route, sessions, session_by_id, task_alias, task_alias_by_id, tasks, task_by_id, Target,
  bad_request, Selects, dispatch, starts_or_stops, handle_tasks, handle_task_alias,
  handle_task_alias_by_id, handle_task_by_id, by_parts, task_operation, handle_sessions,
  handle_session_by_id, only,
}

-- The operations behind a task's id that the middleware looks for.
trim_prefix_lem : (t r : String) → trim_prefix (t ++ r) t ≡ r
unfolding trim_prefix
trim_prefix_lem t r = rw (trim_prefix, strip_prefix-append t r) refl

starts_by_parts :
    (method : String) (parts : List String)
    → starts_or_stops (by_parts method parts) ≡ true
    → (str_eq method "POST" ≡ true)
      × (a : String) × ((parts ≡ a ∷ "replay" ∷ []) ⊎ (parts ≡ a ∷ "cancel" ∷ []))
unfolding by_parts task_operation
starts_by_parts method [] h = cc
starts_by_parts method (a ∷ []) h = absurd (ground arith)
starts_by_parts method (a ∷ op ∷ []) h = elim (Bool-cases (str_eq op "replay")) [
  | inl e ↦ (ground arith, a, inl (λ i. a ∷ (str_eq_iff op "replay").0 e i ∷ []))
  | inr e ↦ elim (Bool-cases (str_eq op "cancel")) [
    | inl f ↦ (ground arith, a, inr (λ i. a ∷ (str_eq_iff op "cancel").0 f i ∷ []))
    | inr f ↦ absurd (ground arith)
  ]
]
starts_by_parts method (a ∷ op ∷ more ∷ rest) h = absurd (ground arith)

trim_left_task : (x : String) → trim_left ("/v1/tasks/" ++ x) ≡ "/v1/tasks/" ++ x
unfolding trim_left is_space
trim_left_task x = rw (cons-append (char_at "/" 0) "v1/tasks/" x) refl

-- A path under /v1/tasks/ that ends in an operation is trimmed.
trim_task_path :
    (a op : String)
    → trim_right op ≡ op
    → is_empty op ≡ false
    → trim_space ("/v1/tasks/" ++ (a ++ op)) ≡ "/v1/tasks/" ++ (a ++ op)
unfolding trim_space
trim_task_path a op h k =
    rw (trim_left_task (a ++ op)) (
      trim_right-append "/v1/tasks/" (a ++ op) (trim_right-append a op h k)
        (is_empty-append a op k))

requires_at :
    (r : Request) (path : String)
    → str_eq r.method "POST" ≡ true
    → trim_space r.path ≡ path
    → (if is_one_of path ("/sessions" ∷ "/v1/sessions" ∷ "/task" ∷ "/v1/tasks" ∷ [])
        then true
        else has_prefix path "/v1/tasks/"
          && (has_suffix path "/replay" || has_suffix path "/cancel"))
      ≡ true
    → requires_create_auth_and_rate_limit r ≡ true
unfolding requires_create_auth_and_rate_limit
requires_at r path m p h = rw (m, p) h

if_or_and :
    (b p x y : Bool)
    → p ≡ true
    → (x ≡ true) ⊎ (y ≡ true)
    → (if b then true else p && (x || y)) ≡ true
if_or_and b p x y h k = ground arith

has_suffix_task : (a op : String) → has_suffix ("/v1/tasks/" ++ (a ++ op)) op ≡ true
has_suffix_task a op =
    rw (sym (append_assoc "/v1/tasks/" a op)) (has_suffix-append ("/v1/tasks/" ++ a) op)

requires_task :
    (r : Request) (a op : String)
    → str_eq r.method "POST" ≡ true
    → r.path ≡ "/v1/tasks/" ++ (a ++ op)
    → (op ≡ "/replay") ⊎ (op ≡ "/cancel")
    → requires_create_auth_and_rate_limit r ≡ true
unfolding trim_right is_space
requires_task r a op m p o =
    let path : String = "/v1/tasks/" ++ (a ++ op) in
    requires_at r path m
      (ap trim_space p
        ∙ trim_task_path a op (elim o [ inl e ↦ rw e refl | inr e ↦ rw e refl ])
            (elim o [ inl e ↦ rw e refl | inr e ↦ rw e refl ]))
      (if_or_and (is_one_of path ("/sessions" ∷ "/v1/sessions" ∷ "/task" ∷ "/v1/tasks" ∷ []))
        (has_prefix path "/v1/tasks/") (has_suffix path "/replay") (has_suffix path "/cancel")
        (starts_with-append "/v1/tasks/" (a ++ op))
        (elim o [
          | inl e ↦ inl (subst (λ (v : String). has_suffix path v ≡ true) e (has_suffix_task a op))
          | inr e ↦ inr (subst (λ (v : String). has_suffix path v ≡ true) e (has_suffix_task a op))
        ]))

split_path : (q a op : String) → split b'/' q ≡ a ∷ op ∷ [] → q ≡ a ++ ("/" ++ op)
unfolding join
split_path q a op h = sym (join-split (char_at "/" 0) q) ∙ ap (join "/") h

only_started :
    (m : String) (t : Target) → starts_or_stops (only "POST" m t) ≡ true → str_eq m "POST" ≡ true
only_started m t h = ground arith

started_past :
    (b : Bool) (t : Target)
    → starts_or_stops (if b then bad_request else t) ≡ true
    → starts_or_stops t ≡ true
started_past b t h = ground arith

requires_by_id :
    (r : Request) (q : String)
    → r.path ≡ "/v1/tasks/" ++ q
    → starts_or_stops (handle_task_by_id r.method r.path) ≡ true
    → requires_create_auth_and_rate_limit r ≡ true
unfolding handle_task_by_id
requires_by_id r q p h =
    let by : starts_or_stops (by_parts r.method (split b'/' q)) ≡ true =
      started_past (is_empty q) (by_parts r.method (split b'/' q))
        (rw (p, trim_prefix_lem "/v1/tasks/" q) at h) in
    let (m, a, o) = starts_by_parts r.method (split b'/' q) by in
    elim o [
      | inl e ↦
          requires_task r a "/replay" m
            (p ∙ ap (λ x. "/v1/tasks/" ++ x) (split_path q a "replay" e)) (inl refl)
      | inr e ↦
          requires_task r a "/cancel" m
            (p ∙ ap (λ x. "/v1/tasks/" ++ x) (split_path q a "cancel" e)) (inr refl)
    ]

-- Every request that creates a session or a task, replays a task or cancels one is guarded.
requires_started :
    (route : Route) (r : Request)
    → Selects route r.path
    → starts_or_stops (dispatch route r.method r.path) ≡ true
    → requires_create_auth_and_rate_limit r ≡ true
unfolding dispatch handle_tasks handle_task_alias handle_task_alias_by_id handle_sessions
    handle_session_by_id is_one_of trim_space is_space
requires_started sessions r (inl p) h =
    requires_at r "/sessions" (only_started r.method _ h) (rw p refl) refl
requires_started sessions r (inr p) h =
    requires_at r "/v1/sessions" (only_started r.method _ h) (rw p refl) refl
requires_started session_by_id r p h = absurd (ground arith)
requires_started task_alias r p h =
    requires_at r "/task" (only_started r.method _ h) (rw p refl) refl
requires_started task_alias_by_id r p h = absurd (ground arith)
requires_started tasks r p h = requires_at r "/v1/tasks" (ground arith) (rw p refl) refl
requires_started task_by_id r (q, p) h = requires_by_id r q p h

-- With an API key configured, a request without it that would create a session or a task, replay a
-- task or cancel one is answered with 401 before it is handled, on whichever of the server's routes it
-- comes, and the rate limiter does not count it.
pub unauthorized_never_starts :
    (split_host_port : String → Option String) (s : Security) (route : Route) (r : Request)
    (now : ℕ)
    → Selects route r.path
    → starts_or_stops (dispatch route r.method r.path) ≡ true
    → is_empty (trim_space s.required_api_key) ≡ false
    → request_has_api_key r s.required_api_key ≡ false
    → with_api_security split_host_port s r now ≡ (s, unauthorized)
unfolding with_api_security
unauthorized_never_starts split_host_port s route r now p h k n =
    rw (requires_started route r p h, k, n) refl
