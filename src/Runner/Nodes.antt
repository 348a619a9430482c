-- ===== src/Runner/Nodes.antt =====
-- tryAcquireReadyNode, releaseNode and the lease keepalive (internal/taskrunner/runner.go), over the
-- in-memory lease manager and node registry. A call reads the clock once, as `now`.
use Prim.Native.String.{◌++◌}
use mathlib.Core.List.{Memᴰ}
use browser_use.Base.{
  ℕ, ◌*◌, ◌/◌, ◌≤◌, String, ◌≡◌, refl, subst, sym, ap, ◌∙◌, inl, inr, Bool, true, false, not,
  Option, none, some, List, [], ◌∷◌, arith, ltb, if◌then◌else◌, Bool-cases, Option-cases, ℤ,
  millisecond, second, trim_space, Result, ok, err, Result-cases,
}
use browser_use.Lease
use browser_use.Lease.{Lease, Manager, Call}
use browser_use.Pool.Registry.{
  NodeState, ready, leased, Node, HeartbeatInput, Registry, is_ready, heartbeat, reported, beaten,
}
use browser_use.Pool.Registry

-- What the runner shares with other runners: the leases and the nodes.
pub record Shared : Type 0 where
  pub leases : Manager
  pub nodes : Registry

pub record LeasedNode : Type 0 where
  pub node : Node
  pub token : ℕ
  pub expires_at : ℕ

unfoldable pub resource_of : Node → String
resource_of n = "node:" ++ trim_space n.id

-- The registry after a heartbeat whose answer is not looked at.
unfoldable pub beat : Registry → String → NodeState → ℕ → ℕ → Registry
beat r id state at leased_until = Registry.after r (
    heartbeat r (record { node_id = id; state = some state; at = at; leased_until = leased_until })
      at)

module _ (owner : String) (ttl : ℤ) where
  -- `nodes` is the answer of the registry's List.
  unfoldable pub try_acquire_ready_node :
      Shared → List Node → ℕ → Shared × Result (Option LeasedNode)
  unfolding beat resource_of
  try_acquire_ready_node w [] now = (w, ok none)
  try_acquire_ready_node w (n ∷ nodes) now =
      let rest = try_acquire_ready_node w nodes now in
      let tried : Shared × Result (Option LeasedNode) =
        elim (Lease.acquire w.leases (resource_of n) owner ttl now) [
          | err e ↦ (w, err e)
          | ok (m, granted) ↦ elim granted [
            | none ↦ try_acquire_ready_node (record w { leases = m }) nodes now
            | some l ↦ (
              record { leases = m; nodes = beat w.nodes n.id leased now l.expires_at },
              ok (some (record { node = n; token = l.token; expires_at = l.expires_at })),
            )
          ]
        ] in
      if not (is_ready n.state) then rest else tried

  unfoldable pub release_node : Shared → LeasedNode → ℕ → Shared
  unfolding beat resource_of
  release_node w n now = record {
    leases = Lease.after w.leases (Lease.release w.leases (resource_of n.node) owner n.token);
    nodes = beat w.nodes n.node.id ready now 0;
  }

  -- One tick of the keepalive, and whether it goes on; it ends when ownership is lost.
  unfoldable pub keepalive_tick : Shared → LeasedNode → ℕ → Shared × Bool
  unfolding beat resource_of
  keepalive_tick w n now = elim (Lease.renew w.leases (resource_of n.node) owner n.token ttl now) [
    | err e ↦ (w, true)
    | ok (m, renewed) ↦ elim renewed [
      | none ↦ (record w { leases = m }, false)
      | some l ↦
          (record { leases = m; nodes = beat w.nodes n.node.id leased now l.expires_at }, true)
    ]
  ]

-- `ttl / 3`, held between half a second and ten seconds.
unfoldable pub keepalive_interval : ℕ → ℕ
keepalive_interval ttl =
    let third = ttl / 3 in
    let raised = if ltb third (500 * millisecond) then 500 * millisecond else third in
    if ltb (10 * second) raised then 10 * second else raised

-- The keepalive has three ticks within a lease of a second and a half or more, and comes at least every
-- ten seconds and at most twice a second; a lease of half a second or less has run out by its first
-- tick.
pub keepalive_interval_bounds :
    (ttl : ℕ)
    → (1500 * millisecond ≤ ttl → 3 * keepalive_interval ttl ≤ ttl)
      × (500 * millisecond ≤ keepalive_interval ttl)
      × (keepalive_interval ttl ≤ 10 * second)
      × (ttl ≤ 500 * millisecond → ttl ≤ keepalive_interval ttl)
unfolding keepalive_interval
keepalive_interval_bounds ttl = (λ h. ground arith, ground arith, ground arith, λ h. ground arith)

acquire_refused_same :
    (m n : Manager) (r o : String) (ttl : ℤ) (now : ℕ)
    → Lease.acquire m r o ttl now ≡ ok (n, none)
    → n ≡ m
unfolding Lease.acquire Lease.acquire_locked Lease.grant
acquire_refused_same m n r o ttl now h = ground arith

module _ (owner : String) (ttl : ℤ) (w : Shared) (now : ℕ) where
  -- What it is to have taken `n`: the lease was granted by the manager that was found, and the node, if
  -- the registry knows it, is leased there.
  pub record Taken (nodes : List Node) (v : Shared) (n : LeasedNode) : Type 0 where
    pub listed : Memᴰ n.node nodes
    pub was_ready : is_ready n.node.state ≡ true
    pub granted :
        Lease.acquire w.leases (resource_of n.node) owner ttl now
        ≡ ok (v.leases, some (record { token = n.token; expires_at = n.expires_at }))
    pub registered : v.nodes ≡ beat w.nodes n.node.id leased now n.expires_at

  later :
      {nodes : List Node} {v : Shared} {n : LeasedNode} (x : Node)
      → Taken nodes v n
      → Taken (x ∷ nodes) v n
  later x t = record {
    listed = Memᴰ.tail t.listed;
    was_ready = t.was_ready;
    granted = t.granted;
    registered = t.registered;
  }

  first :
      {nodes : List Node} {v : Shared} {n : LeasedNode} (x : Node) (m : Manager) (l : Lease)
      → is_ready x.state ≡ true
      → Lease.acquire w.leases (resource_of x) owner ttl now ≡ ok (m, some l)
      → (n ≡ record { node = x; token = l.token; expires_at = l.expires_at })
        × (v ≡ record { leases = m; nodes = beat w.nodes x.id leased now l.expires_at })
      → Taken (x ∷ nodes) v n
  first {nodes} {v} {n} x m l q a (e, f) =
      let n' : LeasedNode = record { node = x; token = l.token; expires_at = l.expires_at } in
      let t : Taken (x ∷ nodes)
          (record { leases = m; nodes = beat w.nodes x.id leased now l.expires_at }) n' =
        record { listed = Memᴰ.head refl; was_ready = q; granted = a; registered = refl } in
      subst (λ (u : Shared). Taken (x ∷ nodes) u n) (sym f)
        (subst
          (Taken (x ∷ nodes)
            (record { leases = m; nodes = beat w.nodes x.id leased now l.expires_at }))
          (sym e) t)

  pub acquired_is_Taken :
      (nodes : List Node) (v : Shared) (n : LeasedNode)
      → try_acquire_ready_node owner ttl w nodes now ≡ (v, ok (some n))
      → Taken nodes v n
  unfolding try_acquire_ready_node
  acquired_is_Taken [] v n h = cc
  acquired_is_Taken (x ∷ nodes) v n h = elim (Bool-cases (is_ready x.state)) [
    | inr q ↦ later x (acquired_is_Taken nodes v n (rw (q, try_acquire_ready_node) at h))
    | inl q ↦ elim (Result-cases (Lease.acquire w.leases (resource_of x) owner ttl now)) [
      | inr (e, a) ↦ absurd (ground arith)
      | inl ((m, granted), a) ↦ elim (Option-cases granted) [
        | inl g ↦
            let a' = a ∙ ap (λ (o : Option Lease). ok (m, o)) g in
            let same = acquire_refused_same w.leases m (resource_of x) owner ttl now a' in
            later x (acquired_is_Taken nodes v n (ground (arith)))
        | inr (l, g) ↦
            let a' = a ∙ ap (λ (o : Option Lease). ok (m, o)) g in first x m l q a' (ground arith)
      ]
    ]
  ]
