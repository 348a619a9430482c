-- ===== src/Api/Listings.antt =====
-- The task handlers of internal/api/tasks.go that only read: the limits of a query, getReplayChain,
-- listDirectReplays, listRecentTasks and the counts of handleTaskStats. `atoi` is strconv.Atoi, `none` where it
-- fails; `range` is the tasks in the order in which the service's map is ranged over.
use mathlib.Core.Option.{some-injective}
use browser_use.Base.{
  ◌≡◌, ◌<◌, ◌≤◌, inl, inr, arith, Bool-cases, ℕ, zero, suc, String, Bool, true, false, not, Option,
  none, some, List, [], ◌∷◌, if◌then◌else◌, ◌==◌, ltb, ℤ, pos, negsuc, is_empty, trim_space,
  is_one_of, Error, Result, ok, err,
}
use browser_use.Task.Types.{Task}
use browser_use.Task.Service.{Service, get, is_nil}
use browser_use.Task.Listing.{list_recent, list_by_source_task_id}

-- `if parsed <= 0 { … }; if parsed > cap { parsed = cap }`
unfoldable pub capped : ℕ → Option ℤ → Option ℕ
capped cap none = none
capped cap (some (negsuc n)) = none
capped cap (some (pos n)) = if n == 0 then none else some (if ltb cap n then cap else n)

-- The loop of getReplayChain with `depth` more tasks to come; the ids in `visited` come before.
-- An error is that of the first Get.
unfoldable pub chain_loop : ℕ → Service → List String → String → Result (List Task × Bool)
chain_loop zero s visited next = ok ([], not (is_empty next))
chain_loop (suc depth) s visited next =
    if is_empty next
    then ok ([], false)
    else if is_one_of next visited
    then ok ([], true)
    else elim (get s next) [
      | err e ↦ if is_nil visited then err e else ok ([], true)
      | ok found ↦ elim (chain_loop depth s (next ∷ visited) (trim_space found.source_task_id)) [
        | err e ↦ err e
        | ok (chain, truncated) ↦ ok (found ∷ chain, truncated)
      ]
    ]

-- What getReplayChain answers: 400, 404 or the chain.
pub data ChainReply : Type 0 where
  invalid_max_depth : ChainReply
  not_found : Error → ChainReply
  chain_reply : List Task → Bool → ChainReply

module _ (atoi : String → Option ℤ) where
  -- A query's number: the default where it is blank, `none` where it is not a positive integer.
  unfoldable pub query_number : ℕ → ℕ → String → Option ℕ
  query_number fallback cap raw =
      if is_empty (trim_space raw) then some fallback else capped cap (atoi (trim_space raw))

  unfoldable pub get_replay_chain : Service → String → String → ChainReply
  get_replay_chain s id raw = elim (query_number 20 100 raw) [
    | none ↦ invalid_max_depth
    | some depth ↦ elim (chain_loop depth s [] (trim_space id)) [
      | err e ↦ not_found e
      | ok (chain, truncated) ↦ chain_reply chain truncated
    ]
  ]

  -- `none` is the answer 400.
  unfoldable pub list_direct_replays : List Task → String → String → Option (List Task)
  list_direct_replays range id raw = elim (query_number 200 500 raw) [
    | none ↦ none
    | some limit ↦ some (list_by_source_task_id range id (pos limit))
  ]

  unfoldable pub list_recent_tasks : List Task → String → Option (List Task)
  list_recent_tasks range raw = elim (query_number 50 200 raw) [
    | none ↦ none
    | some limit ↦ some (list_recent range (pos limit))
  ]

capped_bounds :
    (cap : ℕ) (n : Option ℤ) (limit : ℕ)
    → 0 < cap
    → capped cap n ≡ some limit
    → (0 < limit) × (limit ≤ cap)
unfolding capped
capped_bounds cap none limit p h = cc
capped_bounds cap (some (negsuc n)) limit p h = cc
capped_bounds cap (some (pos n)) limit p h = ground arith

-- A query's number is positive and at most the cap.
pub query_number_bounds :
    (atoi : String → Option ℤ) (fallback cap : ℕ) (raw : String) (limit : ℕ)
    → 0 < fallback
    → fallback ≤ cap
    → query_number atoi fallback cap raw ≡ some limit
    → (0 < limit) × (limit ≤ cap)
unfolding query_number
query_number_bounds atoi fallback cap raw limit p b h =
    elim (Bool-cases (is_empty (trim_space raw))) [
      | inl e ↦
          let q : fallback ≡ limit = some-injective fallback limit (rw (query_number, e) at h) in
          omega (arith, q)
      | inr e ↦
          capped_bounds cap (atoi (trim_space raw)) limit (omega arith) (rw (query_number, e) at h)
    ]
