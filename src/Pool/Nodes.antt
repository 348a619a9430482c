-- ===== src/Pool/Nodes.antt =====
-- What holds of a node in the registry (internal/pool/registry.go).
use mathlib.Core.List.Permᴰ
use mathlib.Core.List.{Memᴰ, Permᴰ}
use browser_use.Base.{
  ℕ, String, ◌≡◌, refl, ◌≢◌, ◌⊎◌, inl, inr, false, Option, none, some, List, [], ◌∷◌, All, arith,
  Bool-cases, Option-cases, str_eq_iff, is_empty, trim_space, lookup, lookup-insert, insert-All,
  lookup-All, values, IsSorted, sort_slice-IsSorted, sort_slice-mem, mem-sort_slice, Permᴰ-mem,
}
use browser_use.Pool.Registry.{
  NodeState, ready, leased, draining, dead, Node, HeartbeatInput, Registry, is_leased, known_node,
  registered, register, reported, beaten, heartbeat, set, set_state, earlier, list, Call, registers,
  beats, sets, after, step, run,
}

-- A node has an instant until which it is leased only while it is leased, and stands under its own id.
pub record IsNode (e : String × Node) : Type 0 where
  pub lease_only : is_leased e.1.state ≡ false → e.1.leased_until ≡ 0
  pub named : e.1.id ≡ e.0

known_node-named :
    (r : Registry) (id : String) (now : ℕ) → All IsNode r → (known_node r id now).id ≡ id
known_node-named r id now h = elim (Option-cases (lookup id r)) [
  | inl e ↦ rw (e, known_node) refl
  | inr (n, e) ↦ rw (e, known_node) (lookup-All IsNode id r h e).named
]

step-IsNode : (r : Registry) (c : Call) → All IsNode r → All IsNode (step r c)
unfolding step register registered heartbeat beaten set_state set
step-IsNode r (registers i now) h = elim (Bool-cases (is_empty (trim_space i.node_id))) [
  | inl e ↦ rw (e, step, register, after) h
  | inr e ↦ elim (Bool-cases (is_empty (trim_space i.address))) [
    | inl f ↦ rw (e, f, step, register, after) h
    | inr f ↦
        rw (e, f, step, register, after)
          (insert-All IsNode (trim_space i.node_id)
            (registered (known_node r (trim_space i.node_id) now) i now) r
            (record {
              lease_only = λ k. refl;
              named = known_node-named r (trim_space i.node_id) now h;
            })
            h)
  ]
]
step-IsNode r (beats i now) h = elim (Bool-cases (is_empty (trim_space i.node_id))) [
  | inl e ↦ rw (e, step, heartbeat, after) h
  | inr e ↦ elim (Option-cases (lookup (trim_space i.node_id) r)) [
    | inl f ↦ rw (e, f, step, heartbeat, after) h
    | inr (old, f) ↦
        rw (e, f, step, heartbeat, after)
          (insert-All IsNode (trim_space i.node_id) _ r
            (record {
              lease_only = λ k. ground arith;
              named = (lookup-All IsNode (trim_space i.node_id) r h f).named;
            })
            h)
  ]
]
step-IsNode r (sets id s at now) h = elim (Bool-cases (is_empty (trim_space id))) [
  | inl e ↦ rw (e, step, set_state, after) h
  | inr e ↦ elim (Option-cases (lookup (trim_space id) r)) [
    | inl f ↦ rw (e, f, step, set_state, after) h
    | inr (old, f) ↦
        rw (e, f, step, set_state, after)
          (insert-All IsNode (trim_space id) _ r
            (record {
              lease_only = λ k. ground arith;
              named = (lookup-All IsNode (trim_space id) r h f).named;
            })
            h)
  ]
]

run_from-IsNode : (r : Registry) (cs : List Call) → All IsNode r → All IsNode (run r cs)
unfolding run
run_from-IsNode r [] h = h
run_from-IsNode r (c ∷ cs) h = run_from-IsNode (step r c) cs (step-IsNode r c h)

-- After any calls on an empty registry every node stands under its own id, and one that is not leased
-- has no instant until which it is leased.
pub run-IsNode : (cs : List Call) → All IsNode (run [] cs)
run-IsNode cs = run_from-IsNode [] cs tt

-- A call about the node `id` that is a heartbeat of ready, or a call about another node.
abbrev pub IsReport : String → Call → Type 0
IsReport id (registers i now) = trim_space i.node_id ≢ id
IsReport id (beats i now) = (trim_space i.node_id ≢ id) ⊎ (i.state ≡ some ready) ⊎ (i.state ≡ none)
IsReport id (sets node_id s at now) = trim_space node_id ≢ id

abbrev pub state_of : String → Registry → Option NodeState
state_of id r = elim (lookup id r) [ none ↦ none | some n ↦ some n.state ]

step_keeps :
    (id : String) (s : NodeState) (r : Registry) (c : Call)
    → (s ≡ draining) ⊎ (s ≡ dead)
    → IsReport id c
    → state_of id r ≡ some s
    → state_of id (step r c) ≡ some s
unfolding step register registered heartbeat reported beaten set_state set
step_keeps id s r (registers i now) k p h = grind (arith, lookup-insert, str_eq_iff)
step_keeps id s r (beats i now) k p h = grind (arith, lookup-insert, str_eq_iff)
step_keeps id s r (sets node_id t at now) k p h = grind (arith, lookup-insert, str_eq_iff)

-- A draining node stays draining, and a dead one dead, under any calls that do no more to it than
-- report that it is ready: what a node's own heartbeat does, and the release of a node after a task.
pub draining_or_dead_stays :
    (id : String) (s : NodeState) (r : Registry) (cs : List Call)
    → (s ≡ draining) ⊎ (s ≡ dead)
    → All (IsReport id) cs
    → state_of id r ≡ some s
    → state_of id (run r cs) ≡ some s
unfolding run
draining_or_dead_stays id s r [] k p h = h
draining_or_dead_stays id s r (c ∷ cs) k p h =
    draining_or_dead_stays id s (step r c) cs k p.1 (step_keeps id s r c k p.0 h)

-- A drained node comes back when it is still leased: whatever its heartbeats said before, a report of
-- leased (the keepalive of the task that holds it) and then a report of ready (its release) make a
-- draining or dead node ready again.
pub lease_report_ends_draining :
    (r : Registry) (n : Node) (i j : HeartbeatInput) (now later : ℕ)
    → lookup (trim_space i.node_id) r ≡ some n
    → (n.state ≡ draining) ⊎ (n.state ≡ dead)
    → is_empty (trim_space i.node_id) ≡ false
    → i.state ≡ some leased
    → j.node_id ≡ i.node_id
    → j.state ≡ some ready
    → state_of (trim_space i.node_id) (run r (beats i now ∷ beats j later ∷ [])) ≡ some ready
unfolding run step heartbeat reported beaten
lease_report_ends_draining r n i j now later h d e s k q = grind (arith, lookup-insert, str_eq_iff)

-- ListNodes gives the nodes of the registry, each of them, in the order of their creation.
pub list_lem :
    (r : Registry) (range : List Node)
    → Permᴰ range (values r)
    → IsSorted earlier (list range)
      × ((n : Node)
          → (Memᴰ n (list range) → Memᴰ n (values r)) × (Memᴰ n (values r) → Memᴰ n (list range)))
unfolding list
list_lem r range p = (
  sort_slice-IsSorted earlier
      (record { asymmetric = λ a b h. ground arith; transitive = λ a b c h k. ground arith }) range,
  λ n. (
    λ m. Permᴰ-mem n p (sort_slice-mem earlier n range m),
    λ m. mem-sort_slice earlier n range (Permᴰ-mem n (Permᴰ.symm p) m),
  ),
)
