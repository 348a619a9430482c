-- ===== src/Api/Recycling.antt =====
-- handleNodeRecycle (internal/api/nodes.go) over the node registry.
use browser_use.Base.{
  ℕ, String, ◌≡◌, refl, ap, false, some, is_empty, trim_space, lookup, insert, time_or, Error,
  error_text, ok, err,
}
use browser_use.Pool.Registry.{Registry, Node, NodeState, draining, dead, set, set_state}
use browser_use.Api.Nodes.{node_error, node_reply, recycled, handle_node_recycle}

set_state_of :
    (r : Registry) (id : String) (n : Node) (s : NodeState) (now : ℕ)
    → trim_space id ≡ id
    → is_empty id ≡ false
    → lookup id r ≡ some n
    → (x : Node) × (x.state ≡ s) × (set_state r id (some s) now now ≡ ok (insert id x r, x))
unfolding set_state set
set_state_of r id n s now t e h =
    let x : Node = set n s (time_or now now) in
    (x, refl, rw (set_state, t, e, h) (ap (λ (i : String). ok (insert i x r, x)) t))

-- Recycling a registered node first sets it draining, so that no task is given to it while it is destroyed. If that
-- fails the answer is 502 and nothing more is done to it; if it succeeds, whatever other callers have
-- done in the meantime but remove the node, the node is stored as dead and returned with 200.
pub handle_node_recycle_lem :
    (r : Registry) (id : String) (n : Node) (meanwhile : Registry → Registry) (now : ℕ)
    → trim_space id ≡ id
    → is_empty id ≡ false
    → lookup id r ≡ some n
    → (drained : Node) × (drained.state ≡ draining)
      × ((e : Error)
          → handle_node_recycle r "POST" id (some (err e)) meanwhile now
            ≡ (meanwhile (insert id drained r), node_error 502 "destroy_failed" (error_text e)))
      × ((m : Node)
          → lookup id (meanwhile (insert id drained r)) ≡ some m
          → (x : Node) × (x.state ≡ dead)
            × (handle_node_recycle r "POST" id (some (ok tt)) meanwhile now
                ≡ (insert id x (meanwhile (insert id drained r)), node_reply 200 x)))
unfolding handle_node_recycle recycled
handle_node_recycle_lem r id n meanwhile now t e h =
    let (drained, d, first) = set_state_of r id n draining now t e h in
    (
      drained,
      d,
      λ x. rw (handle_node_recycle, first) refl,
      λ m k.
          let (x, q, second) = set_state_of (meanwhile (insert id drained r)) id m dead now t e k in
          (x, q, rw (handle_node_recycle, first, recycled, second) refl),
    )
