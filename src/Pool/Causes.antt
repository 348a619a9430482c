-- ===== src/Pool/Causes.antt =====
-- The conditions of a reconcile (internal/pool/manager.go), described without the code's own tests: which
-- nodes are the pool's, which have to go, which may be given up as surplus, and in which order.
use browser_use.Base.{
  ℕ, ◌-◌, ◌<◌, ◌≡◌, ◌≢◌, ◌⊎◌, Bool, true, false, not, ◌&&◌, ◌||◌, arith, ltb, ◌==◌, min, is_empty,
  trim_space, has_prefix,
}
use browser_use.Pool.Registry.{Node, NodeState, ready, leased, dead, is_ready}
use browser_use.Pool.Manager.{
  Config, is_managed_node, should_reap_by_heartbeat, should_reap_by_age, boots_before,
}

-- The time from `t` to `now` is longer than `limit`, as Go's saturating difference has it.
abbrev pub IsPast : ℕ → ℕ → ℕ → Type 0
IsPast now t limit = limit < min (now - t) 9_223_372_036_854_775_807

abbrev pub is_late : ℕ → ℕ → ℕ → Bool
is_late now t limit = ltb 0 t && ltb limit (min (now - t) 9_223_372_036_854_775_807)

-- Booted earlier; a node that never booted comes after all that did, by its creation.
abbrev pub is_older : Node → Node → Bool
is_older a b =
    (ltb 0 a.booted_at && (b.booted_at == 0 || ltb a.booted_at b.booted_at))
    || (a.booted_at == 0 && (b.booted_at == 0 && ltb a.created_at b.created_at))

module _ (cfg : Config) (now : ℕ) where
  -- The pool's own node: every node is, where there is no prefix.
  abbrev pub IsOwn : Node → Type 0
  IsOwn n =
      (is_empty (trim_space cfg.managed_node_prefix) ≡ true)
      ⊎ (has_prefix (trim_space n.id) (trim_space cfg.managed_node_prefix) ≡ true)

  -- Why a reconcile may destroy a node of the registry.
  pub data Cause (n : Node) : Type 0 where
    stale :
        n.state ≢ dead
        → n.last_heartbeat ≢ 0
        → IsPast now n.last_heartbeat cfg.heartbeat_timeout
        → Cause n
    aged : n.state ≢ leased → n.booted_at ≢ 0 → IsPast now n.booted_at cfg.node_max_age → Cause n
    surplus : n.state ≡ ready → Cause n

  abbrev pub is_own : Node → Bool
  is_own n =
      is_empty (trim_space cfg.managed_node_prefix)
      || has_prefix (trim_space n.id) (trim_space cfg.managed_node_prefix)

  abbrev is_alive : NodeState → Bool
  is_alive dead = false
  is_alive _ = true

  abbrev is_unleased : NodeState → Bool
  is_unleased leased = false
  is_unleased _ = true

  -- Its heartbeats stopped, or it is too old and not leased.
  abbrev pub has_expired : Node → Bool
  has_expired n =
      (is_alive n.state && is_late now n.last_heartbeat cfg.heartbeat_timeout)
      || (is_unleased n.state && is_late now n.booted_at cfg.node_max_age)

  abbrev pub is_reaped : Node → Bool
  is_reaped n = is_own n && has_expired n

  -- A ready node that is not reaped, and one that may be given up as surplus.
  abbrev pub survives : Node → Bool
  survives n = is_ready n.state && not (is_reaped n)

  abbrev pub is_candidate : Node → Bool
  is_candidate n = is_own n && survives n

  pub managed_is_own : (n : Node) → is_managed_node cfg n.id ≡ is_own n
  unfolding is_managed_node
  managed_is_own n = ground arith

  pub reaped_has_expired :
      (n : Node)
      → should_reap_by_heartbeat cfg n now || should_reap_by_age cfg n now ≡ has_expired n
  unfolding should_reap_by_heartbeat should_reap_by_age
  reaped_has_expired n = ground arith

  pub IsOwn-of : (n : Node) → is_managed_node cfg n.id ≡ true → IsOwn n
  unfolding is_managed_node
  IsOwn-of n h = ground arith

  pub stale-of : (n : Node) → should_reap_by_heartbeat cfg n now ≡ true → Cause n
  unfolding should_reap_by_heartbeat
  stale-of n h = stale (ground arith) (ground arith) (ground arith)

  pub aged-of : (n : Node) → should_reap_by_age cfg n now ≡ true → Cause n
  unfolding should_reap_by_age
  aged-of n h = aged (ground arith) (ground arith) (ground arith)

  pub surplus-of : (n : Node) → is_ready n.state ≡ true → Cause n
  surplus-of n h = surplus (ground arith)

  pub boots_before-is_older : (a b : Node) → boots_before cfg a b ≡ is_older a b
  unfolding boots_before
  boots_before-is_older a b = ground arith
