-- ===== src/Idempotency/Tests.antt =====
-- Idempotent requests at concrete inputs.
use browser_use.Base.{
  ℕ, ◌+◌, ◌*◌, String, ◌≡◌, refl, ◌≢◌, inr, true, false, none, some, List, [], ◌∷◌, arith, ℤ, pos,
  positive_or, str_eq, str_eq_iff, hour, trim_space, is_space, lookup, insert, delete, ok,
}
use browser_use.Idempotency.Store.{Entry, Store, normalize_compound_key, claim, save, new}
use browser_use.Idempotency.Claims.{Call, gets, claims, releases, run, claim_is_exclusive}
use browser_use.Idempotency.Response.{write_idempotency_entry, copy_response}
use browser_use.Idempotency.Handler.{
  Recorded, replayed, looking, waiting, executing, saving, done, Request, Config, Input, entry_of,
  reply_of, advance, interleave,
}
use browser_use.Idempotency.Replay.{
  stored_answer_is_replayed, server_error_is_not_stored, late_claimant_executes_again,
  replay_is_same_response,
}

-- What the tests compute with.
program : Unit {0}
unfolding normalize_compound_key claim save run lookup insert delete trim_space is_space
program = tt

texts_differ : (s t : String) → str_eq s t ≡ false → s ≢ t
texts_differ s t h e = absurd (ground (arith, str_eq_iff s t))

abbrev digest : String → String
digest s = s

abbrev compound : String
compound = "post /tasks:post /tasks|k1"

abbrev answer : ℤ → Recorded
answer status = record {
  status = status;
  headers = ("Content-Type", "application/json" ∷ []) ∷ ("X-Trace", "t" ∷ []) ∷ [];
  body = 123 ∷ 125 ∷ [];
}

abbrev claimed_by : String → ℕ → Store
claimed_by owner until = record {
  items = [];
  claims = (compound, record { owner = owner; expires_at = until }) ∷ [];
}

key_of_request : normalize_compound_key digest "post /tasks" " k1" ≡ ok compound
unfolding program
key_of_request = refl

first_claim : claim digest new "post /tasks" " k1" "o1" (pos 50) 10 ≡ ok (claimed_by "o1" 60, true)
unfolding program
first_claim = refl

abbrev calls_of_others : List Call
calls_of_others =
    gets "post /tasks" "k1" 20
    ∷ claims "post /tasks" "k1" "o2" (pos 50) 25
    ∷ releases "post /tasks" "k1" "o2" 30
    ∷ []

claim_is_exclusive_example :
    claim digest
      (run digest (claimed_by "o1" 60) calls_of_others)
      "post /tasks"
      " k1"
      "o2"
      (pos 50)
      59
    ≡ ok (run digest (claimed_by "o1" 60) calls_of_others, false)
unfolding trim_space is_space
claim_is_exclusive_example =
    claim_is_exclusive digest new (claimed_by "o1" 60) "post /tasks" " k1" "o1" "o2" compound
      (pos 50) (pos 50) 10 59 calls_of_others key_of_request first_claim
      (omega arith, (omega arith, ((omega arith, inr (texts_differ "o2" "o1" refl)), tt)))
      (omega arith) refl

abbrev entry : Entry
entry = entry_of (answer (pos 201))

abbrev stored : Store
stored = record { items = (compound, record { entry = entry; expires_at = 110 }) ∷ []; claims = [] }

first_save : save digest new "post /tasks" " k1" entry (pos 100) 10 ≡ ok stored
unfolding program
first_save = refl

abbrev cfg : Config
cfg = record { lock_ttl = pos 50; ttl = pos 100 }

abbrev request : String → Request
request owner = record {
  scope = "post /tasks";
  key = " k1";
  owner = owner;
  base = ("Vary", "Origin" ∷ []) ∷ [];
}

abbrev at : ℕ → ℤ → Input
at now status = record { now = now; gone = false; answer = answer status }

stored_answer_is_replayed_example :
    let later =
      run digest
        (advance digest cfg
          (claimed_by "o1" 60)
          (request "o1")
          (saving (answer (pos 201)))
          (at 10 (pos 200))).0
        (releases "post /tasks" "k1" "o1" 20 ∷ []) in
    let reply =
      done (replayed (write_idempotency_entry (request "o2").base (entry_of (answer (pos 201))))) in
    (advance digest cfg later (request "o2") looking (at 30 (pos 200)) ≡ (later, reply))
    × (advance digest cfg later (request "o2") waiting (at 30 (pos 200)) ≡ (later, reply))
stored_answer_is_replayed_example =
    stored_answer_is_replayed digest cfg (claimed_by "o1" 60) (request "o1") (request "o2")
      (answer (pos 201)) (at 10 (pos 200)) (at 30 (pos 200)) compound
      (releases "post /tasks" "k1" "o1" 20 ∷ []) key_of_request refl refl (omega arith, tt)
      (omega arith)

server_error_is_not_stored_example :
    let (s1, p1) =
      advance digest cfg (claimed_by "o1" 60) (request "o1") executing (at 20 (pos 503)) in
    let (s2, p2) = advance digest cfg s1 (request "o1") p1 (at 21 (pos 503)) in
    (s2.items ≡ [])
    × (lookup compound s2.claims ≡ none)
    × (p2 ≡ done (reply_of (request "o1") (answer (pos 503))))
unfolding program
server_error_is_not_stored_example =
    server_error_is_not_stored digest cfg (claimed_by "o1" 60) (request "o1") (at 20 (pos 503))
      (at 21 (pos 503)) compound (record { owner = "o1"; expires_at = 60 }) refl key_of_request refl
      refl refl

late_claimant_executes_again_example :
    let (n, p, o) =
      interleave digest cfg
        (request "o1")
        (request "o2")
        ((true, at 1 (pos 200))
          ∷ (false, at 2 (pos 200))
          ∷ (true, at 3 (pos 200))
          ∷ (true, at 4 (pos 201))
          ∷ (true, at 5 (pos 200))
          ∷ (true, at 6 (pos 200))
          ∷ (false, at 7 (pos 200))
          ∷ (false, at 8 (pos 202))
          ∷ [])
        (new, looking, looking) in
    (p ≡ done (reply_of (request "o1") (answer (pos 201))))
    × (o ≡ saving (answer (pos 202)))
    × (lookup compound n.items
        ≡ some (record {
          entry = entry_of (answer (pos 201));
          expires_at = 5 + positive_or (pos 100) (24 * hour);
        }))
unfolding program
late_claimant_executes_again_example =
    late_claimant_executes_again digest cfg new (request "o1") (request "o2") compound
      (at 1 (pos 200)) (at 2 (pos 200)) (at 3 (pos 200)) (at 4 (pos 201)) (at 5 (pos 200))
      (at 6 (pos 200)) (at 7 (pos 200)) (at 8 (pos 202)) key_of_request key_of_request refl refl
      refl refl refl refl

replay_is_same_response_example :
    let replay = write_idempotency_entry (request "o2").base (entry_of (answer (pos 201))) in
    let first =
      copy_response (request "o2").base (answer (pos 201)).headers (pos 201) (123 ∷ 125 ∷ []) in
    (replay.status ≡ first.status)
    × (replay.body ≡ first.body)
    × ((k : String) → lookup k replay.headers ≡ lookup k first.headers)
unfolding program
replay_is_same_response_example =
    replay_is_same_response (request "o2").base (answer (pos 201)) "application/json"
      ((texts_differ "Content-Type" "X-Trace" refl, tt), (tt, tt)) (inr (refl, refl))
