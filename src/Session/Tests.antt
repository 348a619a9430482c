-- ===== src/Session/Tests.antt =====
-- The session service at a concrete input.
use browser_use.Base.{
  String, ◌≡◌, refl, [], ◌∷◌, arith, if◌then◌else◌, str_eq, session_not_found, ok, err,
}
use browser_use.Session.{Service, Session, new, create, get, remove, creates, deletes, run}
use browser_use.Session.Laws.{create-get-delete}

create-get-delete_example :
    let s = run new (creates "t1" 5 ∷ deletes "sess_000001" ∷ []) in
    (n m : Service) × (x : Session) × (create s "t2" 6 ≡ ok (n, x))
    × (x.tenant_id ≡ "t2")
    × (get s x.id ≡ err session_not_found)
    × ((k : String) → get n k ≡ (if str_eq x.id k then ok x else get s k))
    × (remove n x.id ≡ ok m)
    × ((k : String) → get m k ≡ get s k)
    × (remove m x.id ≡ err session_not_found)
create-get-delete_example =
    create-get-delete (creates "t1" 5 ∷ deletes "sess_000001" ∷ []) "t2" 6 (omega arith) refl
