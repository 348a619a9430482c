-- ===== src/Session.antt =====
-- internal/session/service.go: the in-memory session service. `now` is the clock's reading.
pub mod Laws
mod Tests
use Prim.Native.String.{◌++◌}
use browser_use.Base.{
  ℕ, ◌+◌, ◌%◌, ◌^◌, String, Bool, true, false, not, Option, none, some, List, [], ◌∷◌, is_empty,
  Dict, lookup, insert, delete, format_06d, Error, plain, session_not_found, Result, ok, err, ◌>>=◌,
  ◌>>◌, guard,
}

-- The source's Status has this one value.
pub data Status : Type 0 where
  ready : Status

pub record Session : Type 0 where
  pub id : String
  pub tenant_id : String
  pub status : Status
  pub created_at : ℕ

-- `counter` is the bit pattern of an int64.
pub record Service : Type 0 where
  pub counter : ℕ
  pub items : Dict Session

-- NewInMemoryService
abbrev pub new : Service
new = record { counter = 0; items = [] }

unfoldable pub session_id : ℕ → String
session_id n = "sess_" ++ format_06d n

-- The part of Create after the check.
unfoldable pub added : Service → String → ℕ → Service × Session
added s tenant now =
    let counter = (s.counter + 1) % 2 ^ 64 in
    let created : Session = record {
      id = session_id counter;
      tenant_id = tenant;
      status = ready;
      created_at = now;
    } in
    (record { counter = counter; items = insert created.id created s.items }, created)

unfoldable pub create : Service → String → ℕ → Result (Service × Session)
unfolding added
create s tenant now = do
  guard (not (is_empty tenant)) (plain "tenant_id is required")
  ok (added s tenant now)

unfoldable pub remove : Service → String → Result Service
remove s id = elim (lookup id s.items) [
  | none ↦ err session_not_found
  | some x ↦ ok (record s { items = delete id s.items })
]

unfoldable pub get : Service → String → Result Session
get s id = elim (lookup id s.items) [ none ↦ err session_not_found | some x ↦ ok x ]

-- A history of Create and Delete: the service's mutex makes each of them one step.
pub data Call : Type 0 where
  creates : String → ℕ → Call
  deletes : String → Call

abbrev pub after_create : Service → Result (Service × Session) → Service
after_create s (ok (n, x)) = n
after_create s (err e) = s

abbrev pub after_delete : Service → Result Service → Service
after_delete s (ok n) = n
after_delete s (err e) = s

unfoldable pub step : Service → Call → Service
unfolding create remove
step s (creates tenant now) = after_create s (create s tenant now)
step s (deletes id) = after_delete s (remove s id)

unfoldable pub run : Service → List Call → Service
run s [] = s
run s (c ∷ cs) = run (step s c) cs
