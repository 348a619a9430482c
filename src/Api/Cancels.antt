-- ===== src/Api/Cancels.antt =====
-- cancelTask (internal/api/tasks.go) with the task service behind it.
use browser_use.Base.{
  ℕ, ◌+◌, ◌^◌, ◌<◌, String, ◌≡◌, refl, sym, ap, subst, ◌⊎◌, inl, inr, Bool, true, false, some, List,
  arith, if◌then◌else◌, Bool-cases, length, lookup, insert, lookup-insert, lookup-All, str_eq_iff,
  Result-cases, ok, err, error_text, task_not_cancelable,
}
use browser_use.Task.Types.{Task, canceled, is_final, is_running}
use browser_use.Task.Service.{Service, Call, get, cancel, canceled_task, run}
use browser_use.Task.Validity.{IsValid, IsEntry}
use browser_use.Task.Lifecycle.{lives, run-lives}
use browser_use.Api.Tasks.{Server, Reply, error_reply, task_reply}
use browser_use.Api.Handlers.{cancel_task, cancel_found, cancel_input}

stored_id :
    (s : Service) (id : String) (t : Task) → IsValid s → lookup id s.items ≡ some t → t.id ≡ id
stored_id s id t v h = (lookup-All (IsEntry s.counter) id s.items v.entries h).1

cancel_at :
    (s : Service) (id : String) (u : Task) (now : ℕ)
    → lookup id s.items ≡ some u
    → cancel s (cancel_input id now) now ≡ (
        if is_final u.status
        then err task_not_cancelable
        else let c = canceled_task u (cancel_input id now) now in
          ok (record s { items = insert id c s.items }, c))
unfolding cancel get
cancel_at s id u now h = ground arith

-- What the cancel handler comes to for a task that other callers have made `u`.
abbrev pub Canceled : String → Service → Task → Server × Reply × Bool → Type 0
Canceled id s u (n, reply, told) =
    ((is_final u.status ≡ true)
      × (n.tasks ≡ s)
      × (reply ≡ error_reply 409 "task_not_cancelable" "task is not cancelable"))
    ⊎ ((is_final u.status ≡ false)
        × (c : Task) × (c.status ≡ canceled)
        × (lookup id n.tasks.items ≡ some c)
        × (reply ≡ task_reply 200 (some c)))

cancel_found-Canceled :
    (srv : Server) (s : Service) (id : String) (u : Task) (told : Bool) (now : ℕ)
    → lookup id s.items ≡ some u
    → Canceled id s u (cancel_found srv s id told now)
unfolding cancel_found canceled_task error_text
cancel_found-Canceled srv s id u told now h = elim (Bool-cases (is_final u.status)) [
  | inl f ↦ rw (cancel_found, rw f at (cancel_at s id u now h)) (inl (f, refl, refl))
  | inr f ↦
      rw (cancel_found, rw f at (cancel_at s id u now h))
        (inr (f, _, refl, grind (arith, lookup-insert, str_eq_iff), refl))
]

told_is :
    (srv : Server) (s : Service) (id : String) (told : Bool) (now : ℕ)
    → (cancel_found srv s id told now).2 ≡ told
unfolding cancel_found
told_is srv s id told now = elim (Result-cases (cancel s (cancel_input id now) now)) [
  | inl (x, e) ↦ rw (cancel_found, e) refl
  | inr (x, e) ↦ rw (cancel_found, e) refl
]

cancel_task_found :
    (srv : Server) (id : String) (t : Task) (others : List Call) (now : ℕ)
    → IsValid srv.tasks
    → lookup id srv.tasks.items ≡ some t
    → cancel_task srv id others now
      ≡ cancel_found srv (run srv.tasks others) id (is_running t.status) now
unfolding cancel_task get
cancel_task_found srv id t others now v h =
    rw (cancel_task, get, h)
      (ap (λ (i : String). cancel_found srv (run srv.tasks others) i (is_running t.status) now)
        (stored_id srv.tasks id t v h))

-- For a stored task, whatever other callers do between the handler's read and its Cancel: the runner is
-- told to stop exactly when the task was running as it was read; the task that the calls have
-- made of it is canceled and returned with 200, or, where it is already final, everything is left to it
-- and the answer is 409. The task service is valid and its counter has room.
pub cancel_task_lem :
    (srv : Server) (id : String) (t : Task) (others : List Call) (now : ℕ)
    → srv.tasks.counter + length others < 2 ^ 63
    → IsValid srv.tasks
    → lookup id srv.tasks.items ≡ some t
    → Canceled id (run srv.tasks others) (lives id others t) (cancel_task srv id others now)
      × ((cancel_task srv id others now).2 ≡ is_running t.status)
unfolding cancel_task
cancel_task_lem srv id t others now b v h =
    subst
      (λ (r : Server × Reply × Bool).
        Canceled id (run srv.tasks others) (lives id others t) r × (r.2 ≡ is_running t.status))
      (sym (cancel_task_found srv id t others now v h))
      (
        cancel_found-Canceled srv (run srv.tasks others) id (lives id others t)
            (is_running t.status) now (run-lives srv.tasks others id t b v h),
        told_is srv (run srv.tasks others) id (is_running t.status) now,
      )
