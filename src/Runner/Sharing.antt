-- ===== src/Runner/Sharing.antt =====
-- No node is with two runners (internal/taskrunner/runner.go over internal/lease/inmemory.go).
use Prim.Native.String.{◌++◌, char_at}
use text.Mathlib.TextLemmas.{cons-append}
use browser_use.Base.{
  ℕ, ◌<◌, String, ◌≡◌, refl, ◌≢◌, false, some, List, All, arith, ℤ, is_empty, trim_space, is_space,
  ok,
}
use browser_use.Lease
use browser_use.Lease.{Lease, Manager, Call, run}
use browser_use.Lease.Exclusion.{IsOther, lease_is_exclusive}
use browser_use.Pool.Registry.{Node}
use browser_use.Runner.Nodes.{
  Shared, LeasedNode, resource_of, try_acquire_ready_node, acquired_is_Taken,
}

prefix-named : (t : String) → is_empty (trim_space ("node:" ++ t)) ≡ false
unfolding trim_space is_space
prefix-named t =
    let e : "node:" ++ t ≡ String.◌∷◌ (char_at "n" 0) ("ode:" ++ t) =
      cons-append (char_at "n" 0) "ode:" t in
    rw e refl

resource_of-named : (n : Node) → is_empty (trim_space (resource_of n)) ≡ false
unfolding resource_of
resource_of-named n = prefix-named (trim_space n.id)

owner_of_grant :
    (m k : Manager) (r o : String) (ttl : ℤ) (now : ℕ) (l : Lease)
    → Lease.acquire m r o ttl now ≡ ok (k, some l)
    → is_empty (trim_space o) ≡ false
unfolding Lease.acquire Lease.acquire_locked Lease.grant
owner_of_grant m k r o ttl now l h = ground arith

-- A node that one runner has taken is taken by nobody else before its lease ends. Let a runner have
-- taken `n`, let the others have called the lease manager before that lease's expiry, and let any
-- runner, whatever nodes it is shown and whatever state the registry is in, take a node at a time
-- before the expiry: the node that it gets has another resource.
pub node_is_not_shared :
    (owner owner' : String) (ttl ttl' : ℤ) (w v later after : Shared) (now now' : ℕ)
    (nodes nodes' : List Node) (n n' : LeasedNode) (cs : List Call)
    → try_acquire_ready_node owner ttl w nodes now ≡ (v, ok (some n))
    → All (IsOther (trim_space (resource_of n.node)) (trim_space owner) n.token n.expires_at) cs
    → later.leases ≡ run v.leases cs
    → now' < n.expires_at
    → try_acquire_ready_node owner' ttl' later nodes' now' ≡ (after, ok (some n'))
    → resource_of n'.node ≢ resource_of n.node
node_is_not_shared owner owner' ttl ttl' w v later after now now' nodes nodes' n n' cs h k e b h'
      same =
    let one = acquired_is_Taken owner ttl w now nodes v n h in
    let two = acquired_is_Taken owner' ttl' later now' nodes' after n' h' in
    let granted = rw (same, e) at two.granted in
    let refused =
      lease_is_exclusive w.leases v.leases (resource_of n.node) owner owner' ttl ttl' now now'
        (record { token = n.token; expires_at = n.expires_at }) cs one.granted k b
        (resource_of-named n.node)
        (owner_of_grant later.leases after.leases (resource_of n'.node) owner' ttl' now'
          (record { token = n'.token; expires_at = n'.expires_at }) two.granted) in
    absurd (ground arith)
