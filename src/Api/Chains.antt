-- ===== src/Api/Chains.antt =====
-- getReplayChain (internal/api/tasks.go) over the task service.
use mathlib.Core.Bool.{false≢true}
use browser_use.Base.{
  ℕ, zero, suc, ◌≤◌, ◌<◌, String, ◌≡◌, refl, sym, ap, subst, ◌≢◌, ◌⊎◌, inl, inr, Bool, true, false,
  not, Option, some, List, [], ◌∷◌, arith, Bool-cases, length, All, ◌++◌, ◌∙◌, is_ok, is_empty,
  trim_space, str_eq_iff, is_one_of, ok, err, ok-injective, Result-cases, Error, ℤ,
}
use browser_use.Task.Types.{Task}
use browser_use.Task.Service.{Service, get, is_nil}
use browser_use.Api.Listings.{
  chain_loop, query_number_bounds, get_replay_chain, query_number, ChainReply, not_found,
  chain_reply,
}

-- A chain of tasks from the id `next`: each is stored under the id that the one before names as its source.
abbrev pub IsChain : Service → String → List Task → String → Type 0
IsChain s next [] end = next ≡ end
IsChain s next (t ∷ ts) end = (get s next ≡ ok t) × IsChain s (trim_space t.source_task_id) ts end

-- The ids under which the tasks of a chain are stored.
abbrev pub chain_ids : String → List Task → List String
chain_ids next [] = []
chain_ids next (t ∷ ts) = next ∷ chain_ids (trim_space t.source_task_id) ts

abbrev pub Distinct : List String → Type 0
Distinct [] = Unit
Distinct (x ∷ xs) = All (λ y. x ≢ y) xs × Distinct xs

-- A chain of at most `depth` different tasks that goes on from the ids `visited`, and why it ends at `end`:
-- there is no further source, or it is flagged as cut off, where that source comes a second time, is no
-- task's id, or would be one task too many.
pub record IsReplayChain (depth : ℕ) (s : Service) (visited : List String) (next : String)
    (result : List Task × Bool) : Type 0 where
  pub end : String
  pub linked : IsChain s next result.0 end
  pub short : length result.0 ≤ depth
  pub fresh : All (λ x. is_one_of x visited ≡ false) (chain_ids next result.0)
  pub distinct : Distinct (chain_ids next result.0)
  pub flagged : result.1 ≡ not (is_empty end)
  pub ended :
      (is_empty end ≡ true)
      ⊎ (is_one_of end (chain_ids next result.0 ++ visited) ≡ true)
      ⊎ ((e : Error) × (get s end ≡ err e))
      ⊎ (length result.0 ≡ depth)

stopped :
    (depth : ℕ) (s : Service) (visited : List String) (next : String)
    → ((is_empty next ≡ true)
        ⊎ (is_one_of next visited ≡ true)
        ⊎ ((e : Error) × (get s next ≡ err e))
        ⊎ (0 ≡ depth))
    → IsReplayChain depth s visited next ([], not (is_empty next))
stopped depth s visited next why = record {
  end = next;
  linked = refl;
  short = omega arith;
  fresh = tt;
  distinct = tt;
  flagged = refl;
  ended = why;
}

fresh_cons :
    (next : String) (visited xs : List String)
    → All (λ x. is_one_of x (next ∷ visited) ≡ false) xs
    → All (λ y. next ≢ y) xs × All (λ x. is_one_of x visited ≡ false) xs
unfolding is_one_of
fresh_cons next visited [] h = (tt, tt)
fresh_cons next visited (x ∷ xs) h =
    let (p, q) = fresh_cons next visited xs h.1 in
    ((λ e. absurd (ground (arith, str_eq_iff x next, sym e, h.0)), p), (ground (arith, h.0), q))

one_of_middle :
    (e next : String) (xs visited : List String)
    → is_one_of e (xs ++ (next ∷ visited)) ≡ is_one_of e (next ∷ (xs ++ visited))
unfolding is_one_of
one_of_middle e next [] visited = refl
one_of_middle e next (x ∷ xs) visited = ground (arith, one_of_middle e next xs visited)

followed :
    (depth : ℕ) (s : Service) (visited : List String) (next : String) (found : Task)
    (chain : List Task) (truncated : Bool)
    → is_one_of next visited ≡ false
    → get s next ≡ ok found
    → IsReplayChain depth s (next ∷ visited) (trim_space found.source_task_id) (chain, truncated)
    → IsReplayChain (suc depth) s visited next (found ∷ chain, truncated)
followed depth s visited next found chain truncated n g r =
    let ids = chain_ids (trim_space found.source_task_id) chain in
    let (others, kept) = fresh_cons next visited ids r.fresh in
    record {
      end = r.end;
      linked = (g, r.linked);
      short = omega (arith, r.short);
      fresh = (n, kept);
      distinct = (others, r.distinct);
      flagged = r.flagged;
      ended = elim r.ended [
        | inl e ↦ inl e
        | inr (inl e) ↦ inr (inl (sym (one_of_middle r.end next ids visited) ∙ e))
        | inr (inr (inl e)) ↦ inr (inr (inl e))
        | inr (inr (inr e)) ↦ inr (inr (inr (omega (arith, e))))
      ];
    }

chain_loop-IsReplayChain :
    (depth : ℕ) (s : Service) (visited : List String) (next : String) (r : List Task × Bool)
    → chain_loop depth s visited next ≡ ok r
    → IsReplayChain depth s visited next r
unfolding chain_loop
chain_loop-IsReplayChain zero s visited next r h =
    subst (IsReplayChain zero s visited next) (ok-injective _ _ h)
      (stopped zero s visited next (inr (inr (inr refl))))
chain_loop-IsReplayChain (suc depth) s visited next r h = elim (Bool-cases (is_empty next)) [
  | inl e ↦
      subst (IsReplayChain (suc depth) s visited next)
        (ok-injective ([], not (is_empty next)) r (rw e (rw (chain_loop, e) at h)))
        (stopped (suc depth) s visited next (inl e))
  | inr e ↦ elim (Bool-cases (is_one_of next visited)) [
    | inl o ↦
        subst (IsReplayChain (suc depth) s visited next)
          (ok-injective ([], not (is_empty next)) r (rw e (rw (chain_loop, e, o) at h)))
          (stopped (suc depth) s visited next (inr (inl o)))
    | inr o ↦ elim (Result-cases (get s next)) [
      | inr (x, g) ↦ elim (Bool-cases (is_nil visited)) [
        | inl v ↦ absurd (false≢true (ap is_ok (rw (chain_loop, e, o, g, v) at h)))
        | inr v ↦
            subst (IsReplayChain (suc depth) s visited next)
              (ok-injective ([], not (is_empty next)) r (rw e (rw (chain_loop, e, o, g, v) at h)))
              (stopped (suc depth) s visited next (inr (inr (inl (x, g)))))
      ]
      | inl (found, g) ↦
          elim (Result-cases
            (chain_loop depth s (next ∷ visited) (trim_space found.source_task_id))) [
              | inr (x, c) ↦ absurd (false≢true (ap is_ok (rw (chain_loop, e, o, g, c) at h)))
              | inl ((chain, truncated), c) ↦
                  subst (IsReplayChain (suc depth) s visited next)
                    (ok-injective (found ∷ chain, truncated) r (rw (chain_loop, e, o, g, c) at h))
                    (followed depth s visited next found chain truncated o g (
                      chain_loop-IsReplayChain depth s (next ∷ visited)
                        (trim_space found.source_task_id) (chain, truncated) c))
            ]
    ]
  ]
]

-- After the first task the loop cannot fail, whatever the sources are.
chain_loop_total :
    (depth : ℕ) (s : Service) (visited : List String) (next : String)
    → is_nil visited ≡ false
    → is_ok (chain_loop depth s visited next) ≡ true
unfolding chain_loop
chain_loop_total zero s visited next v = refl
chain_loop_total (suc depth) s visited next v = elim (Bool-cases (is_empty next)) [
  | inl e ↦ rw (chain_loop, e) refl
  | inr e ↦ elim (Bool-cases (is_one_of next visited)) [
    | inl o ↦ rw (chain_loop, e, o) refl
    | inr o ↦ elim (Result-cases (get s next)) [
      | inr (x, g) ↦ rw (chain_loop, e, o, g, v) refl
      | inl (found, g) ↦
          elim (Result-cases
            (chain_loop depth s (next ∷ visited) (trim_space found.source_task_id))) [
              | inl (r, c) ↦ rw (chain_loop, e, o, g, c) refl
              | inr (x, c) ↦ absurd (
                  false≢true (
                    rw c at (
                      chain_loop_total depth s (next ∷ visited) (trim_space found.source_task_id)
                        refl)))
            ]
    ]
  ]
]

-- What the handler answers for a depth that the query gives.
abbrev pub Answers : ℕ → Service → String → ChainReply → Type 0
Answers depth s id reply =
    ((e : Error) × (get s (trim_space id) ≡ err e) × (reply ≡ not_found e))
    ⊎ ((chain : List Task) × (truncated : Bool) × (reply ≡ chain_reply chain truncated)
        × IsReplayChain depth s [] (trim_space id) (chain, truncated))

loop_from_start :
    (depth : ℕ) (s : Service) (next : String)
    → 0 < depth
    → ((r : List Task × Bool) × (chain_loop depth s [] next ≡ ok r))
      ⊎ ((e : Error) × (get s next ≡ err e) × (chain_loop depth s [] next ≡ err e))
unfolding chain_loop is_one_of
loop_from_start zero s next p = absurd (omega (arith, p))
loop_from_start (suc depth) s next p = elim (Bool-cases (is_empty next)) [
  | inl e ↦ rw (chain_loop, e) (inl (_, refl))
  | inr e ↦ elim (Result-cases (get s next)) [
    | inr (x, g) ↦ inr (x, g, rw (chain_loop, is_one_of, e, g) refl)
    | inl (found, g) ↦
        elim (Result-cases (chain_loop depth s (next ∷ []) (trim_space found.source_task_id))) [
          | inl (r, c) ↦ inl ((found ∷ r.0, r.1), rw (chain_loop, is_one_of, e, g, c) refl)
          | inr (x, c) ↦ absurd (
              false≢true (
                rw c at
                  (chain_loop_total depth s (next ∷ []) (trim_space found.source_task_id) refl)))
        ]
  ]
]

-- The replay chain of an id is the tasks that one reaches from it by their sources, each once, in that
-- order and at most `max_depth` of them, which is 20 by default and 100 at most; the answer ends even
-- where sources form a cycle, and is flagged as truncated exactly when a source is left that the
-- chain does not follow: one that it has already, that no task has, or that is one too many. The answer is 404
-- only where the task itself is not found.
pub get_replay_chain_lem :
    (atoi : String → Option ℤ) (s : Service) (id raw : String) (depth : ℕ)
    → query_number atoi 20 100 raw ≡ some depth
    → (depth ≤ 100) × Answers depth s id (get_replay_chain atoi s id raw)
unfolding get_replay_chain
get_replay_chain_lem atoi s id raw depth h =
    let (positive, bounded) =
      query_number_bounds atoi 20 100 raw depth (omega arith) (omega arith) h in
    (
      bounded,
      elim (loop_from_start depth s (trim_space id) positive) [
        | inl ((chain, truncated), c) ↦
            rw (get_replay_chain, h, c)
              (inr (
                chain,
                truncated,
                refl,
                chain_loop-IsReplayChain depth s [] (trim_space id) (chain, truncated) c,
              ))
        | inr (e, g, c) ↦ rw (get_replay_chain, h, c) (inl (e, g, refl))
      ],
    )
