-- ===== src/Pool/Tests.antt =====
-- The pool at concrete inputs.
use mathlib.Core.List.{Memᴰ}
use browser_use.Base.{
  ℕ, String, List, ◌≡◌, refl, ◌⊎◌, inl, inr, Option, none, some, [], ◌∷◌, trim_space, is_space,
  lookup, insert, delete, sort_slice, Result, ok,
}
use browser_use.Pool.Registry.{
  NodeState, ready, leased, draining, Node, HeartbeatInput, Registry, register, heartbeat,
  set_state, list, Call, registers, beats, sets, step, run,
}
use browser_use.Pool.Nodes.{state_of, draining_or_dead_stays, lease_report_ends_draining}
use browser_use.Pool.Manager.{
  Config, Manager, is_managed_node, reconcile, should_reap_by_heartbeat, scan, scan_node,
  destroy_node,
}
use browser_use.Pool.Causes.{IsPast, IsOwn, Cause}
use browser_use.Pool.Safety.{destroys_only_what_it_may}

-- What the tests compute with.
program : Unit {0}
unfolding register heartbeat set_state step run lookup insert delete sort_slice trim_space is_space
    list
program = tt

abbrev register_a : Call
register_a = registers (record { node_id = " a "; address = "h:1"; version = "1"; booted = 5 }) 10

abbrev beat_as : Option NodeState → HeartbeatInput
beat_as s = record { node_id = "a"; state = s; at = 30; leased_until = 90 }

abbrev drained : Registry
drained = run [] (register_a ∷ sets "a" (some draining) 20 20 ∷ [])

abbrev node_a : Node
node_a = record {
  id = "a";
  address = "h:1";
  version = "1";
  state = draining;
  booted_at = 5;
  last_heartbeat = 20;
  leased_until = 0;
  created_at = 10;
  updated_at = 20;
}

a_is_drained : lookup "a" drained ≡ some node_a
unfolding program
a_is_drained = refl

draining_or_dead_stays_example :
    state_of "a" (run drained (beats (beat_as (some ready)) 30 ∷ beats (beat_as none) 31 ∷ []))
    ≡ some draining
unfolding program
draining_or_dead_stays_example =
    draining_or_dead_stays "a" draining drained
      (beats (beat_as (some ready)) 30 ∷ beats (beat_as none) 31 ∷ []) (inl refl)
      (inr (inl refl), (inr (inr refl), tt)) refl

lease_report_ends_draining_example :
    state_of
      (trim_space "a")
      (run drained (beats (beat_as (some leased)) 30 ∷ beats (beat_as (some ready)) 40 ∷ []))
    ≡ some ready
unfolding program
lease_report_ends_draining_example =
    lease_report_ends_draining drained node_a (beat_as (some leased)) (beat_as (some ready)) 30 40
      a_is_drained (inl refl) refl refl refl refl

abbrev config : Config
config = record {
  target_ready = 2;
  reconcile_interval = 5;
  heartbeat_timeout = 30;
  node_max_age = 1000;
  managed_node_prefix = "";
}

abbrev manager : Manager
manager = record { registry = drained; warming = ("w", 60) ∷ []; destroyed = [] }

abbrev outcome : ℕ → Result String
outcome i = ok "fresh"

stale_is_destroyed :
    (reconcile config manager (node_a ∷ []) 2 100 outcome).manager.destroyed ≡ "a" ∷ "w" ∷ []
unfolding program reconcile scan scan_node is_managed_node should_reap_by_heartbeat destroy_node
stale_is_destroyed = refl

destroys_only_what_it_may_example :
    Memᴰ "a" manager.destroyed
    ⊎ ((n : Node) × Memᴰ n (node_a ∷ []) × (n.id ≡ "a") × IsOwn config 100 n × Cause config 100 n)
    ⊎ ((t : ℕ) × Memᴰ ("a", t) manager.warming × IsPast 100 t config.heartbeat_timeout)
unfolding program reconcile scan scan_node is_managed_node should_reap_by_heartbeat destroy_node
destroys_only_what_it_may_example =
    destroys_only_what_it_may config 100 manager (node_a ∷ []) 2 outcome "a" (Memᴰ.head refl)
