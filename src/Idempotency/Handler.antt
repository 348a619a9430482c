-- ===== src/Idempotency/Handler.antt =====
-- handleIdempotentRequest and waitForIdempotentEntry (internal/api/idempotency.go): one request, from
-- call to call on the shared store, so that several requests can be interleaved.
use browser_use.Base.{
  ℕ, String, Bool, true, false, not, ◌&&◌, none, some, List, [], ◌∷◌, if◌then◌else◌, ℤ, pos, ltb_ℤ,
  is_empty, trim_space, Error, ok, err,
}
use browser_use.Idempotency.Store.{Entry, Store, get, claim, save, release}
use browser_use.Idempotency.Claims.{after}
use browser_use.Idempotency.Response.{
  Headers, Response, get_header, write_idempotency_entry, copy_response,
}

-- The response that the wrapped handler recorded.
pub record Recorded : Type 0 where
  pub status : ℤ
  pub headers : Headers
  pub body : List ℕ

-- `replayed` is written from the store, `fresh` from the wrapped handler; `failed` is the error
-- idempotency_failed (500), and `in_progress` the error request_in_progress (409).
pub data Reply : Type 0 where
  replayed : Response → Reply
  fresh : Response → Reply
  failed : Error → Reply
  in_progress : Reply

-- Where a request stands: before its Get, its Claim, a Get of the waiting loop, the wrapped handler, its
-- Save, and its Release (the response is written by then).
pub data Phase : Type 0 where
  looking claiming waiting executing : Phase
  saving : Recorded → Phase
  releasing : Reply → Phase
  done : Reply → Phase

-- The scope, the trimmed header value, the owner that the request drew, and the headers that the
-- response has already.
pub record Request : Type 0 where
  pub scope : String
  pub key : String
  pub owner : String
  pub base : Headers

pub record Config : Type 0 where
  pub lock_ttl : ℤ
  pub ttl : ℤ

-- What the environment does in a step: the time, whether the wait's context has ended (by its timeout
-- of four seconds or with the client), and what the wrapped handler answers.
pub record Input : Type 0 where
  pub now : ℕ
  pub gone : Bool
  pub answer : Recorded

unfoldable pub entry_of : Recorded → Entry
entry_of r = record {
  status_code = r.status;
  content_type = get_header "Content-Type" r.headers;
  headers = r.headers;
  body = r.body;
}

unfoldable pub reply_of : Request → Recorded → Reply
reply_of q r = fresh (copy_response q.base r.headers r.status r.body)

-- `if s.idempotency == nil || key == "" { return false }`: whether the request goes this way at all.
unfoldable pub is_handled : Bool → String → Bool
is_handled has_store header = has_store && not (is_empty (trim_space header))

module _ (digest : String → String) (cfg : Config) where
  unfoldable pub advance : Store → Request → Phase → Input → Store × Phase
  unfolding entry_of reply_of
  advance s q looking i = elim (get digest s q.scope q.key i.now) [
    | err e ↦ (s, done (failed e))
    | ok (n, found) ↦ elim found [
      | some e ↦ (n, done (replayed (write_idempotency_entry q.base e)))
      | none ↦ (n, claiming)
    ]
  ]
  advance s q claiming i = elim (claim digest s q.scope q.key q.owner cfg.lock_ttl i.now) [
    | err e ↦ (s, done (failed e))
    | ok (n, claimed) ↦ (n, if claimed then executing else waiting)
  ]
  advance s q waiting i = elim (get digest s q.scope q.key i.now) [
    | err e ↦ (s, done in_progress)
    | ok (n, found) ↦ elim found [
      | some e ↦ (n, done (replayed (write_idempotency_entry q.base e)))
      | none ↦ (n, if i.gone then done in_progress else waiting)
    ]
  ]
  advance s q executing i = (
    s,
    if ltb_ℤ i.answer.status (pos 500) then saving i.answer else releasing (reply_of q i.answer),
  )
  advance s q (saving r) i =
      (after s (save digest s q.scope q.key (entry_of r) cfg.ttl i.now), releasing (reply_of q r))
  advance s q (releasing p) i = (after s (release digest s q.scope q.key q.owner), done p)
  advance s q (done p) i = (s, done p)

  -- Two requests over one store. A step is made by the one (`true`) or by the other.
  unfoldable pub interleave :
      Request → Request → List (Bool × Input) → Store × Phase × Phase → Store × Phase × Phase
  interleave q r [] state = state
  interleave q r ((true, i) ∷ is) (s, p, o) =
      let (n, p') = advance s q p i in interleave q r is (n, p', o)
  interleave q r ((false, i) ∷ is) (s, p, o) =
      let (n, o') = advance s r o i in interleave q r is (n, p, o')
