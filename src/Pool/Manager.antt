-- ===== src/Pool/Manager.antt =====
-- Manager (internal/pool/manager.go) over the in-memory registry. What the provider does enters as the
-- outcomes of its ProvisionNode calls, in order; its DestroyNode calls are logged, as their errors
-- are only logged by the source too. `now` is the clock's reading at the start of a reconcile.
use browser_use.Base.{
  ℕ, zero, suc, ◌+◌, ◌-◌, ◌*◌, String, Bool, true, false, not, ◌&&◌, ◌||◌, Option, none, some, List,
  [], ◌∷◌, ◌++◌, ltb, leb, min, if◌then◌else◌, ℤ, pos_part, positive_or, second, hour, is_zero,
  is_empty, trim_space, has_prefix, length, take, Dict, insert, delete, sort_slice, Error, Result,
  ok, err,
}
use browser_use.Pool.Registry.{dead, Node, Registry, is_ready, is_leased, is_dead, heartbeat, after}

-- The durations are what NewManager leaves: positive.
pub record Config : Type 0 where
  pub target_ready : ℕ
  pub reconcile_interval : ℕ
  pub heartbeat_timeout : ℕ
  pub node_max_age : ℕ
  pub managed_node_prefix : String

-- The defaults of NewManager.
unfoldable pub new_config : ℤ → ℤ → ℤ → ℤ → String → Config
new_config target interval timeout age prefix = record {
  target_ready = pos_part target;
  reconcile_interval = positive_or interval (5 * second);
  heartbeat_timeout = positive_or timeout (30 * second);
  node_max_age = positive_or age (1 * hour);
  managed_node_prefix = prefix;
}

-- The registry, the warming nodes with the time of their provisioning, and the log of DestroyNode.
pub record Manager : Type 0 where
  pub registry : Registry
  pub warming : Dict ℕ
  pub destroyed : List String

-- `now.Sub(t) > limit`: Go's difference saturates at the largest duration, 2^63 - 1.
abbrev pub past : ℕ → ℕ → ℕ → Bool
past now t limit = ltb limit (min (now - t) 9_223_372_036_854_775_807)

-- The variables of the loop over the nodes.
pub record Scan : Type 0 where
  pub manager : Manager
  pub known_managed : List String
  pub ready_count : ℕ
  pub candidates : List Node

-- The result of reconcile, with the counts that it worked with.
pub record Outcome : Type 0 where
  pub manager : Manager
  pub error : Option Error
  pub ready_count : ℕ
  pub warming_count : ℕ
  pub needed : ℕ

module _ (cfg : Config) where
  unfoldable pub is_managed_node : String → Bool
  is_managed_node id =
      if is_empty (trim_space cfg.managed_node_prefix)
      then true
      else has_prefix (trim_space id) (trim_space cfg.managed_node_prefix)

  unfoldable pub should_reap_by_heartbeat : Node → ℕ → Bool
  should_reap_by_heartbeat n now =
      if is_dead n.state
      then false
      else if is_zero n.last_heartbeat
      then false
      else past now n.last_heartbeat cfg.heartbeat_timeout

  unfoldable pub should_reap_by_age : Node → ℕ → Bool
  should_reap_by_age n now =
      if is_leased n.state || is_zero n.booted_at
      then false
      else past now n.booted_at cfg.node_max_age

  -- The registry's answer only matters for the log.
  unfoldable pub destroy_node : Manager → String → ℕ → Manager
  destroy_node m id at = record m {
    registry = after m.registry (
        heartbeat m.registry (record { node_id = id; state = some dead; at = at; leased_until = 0 })
          at);
    warming = delete id m.warming;
    destroyed = m.destroyed ++ id ∷ [];
  }

  unfoldable pub scan_node : Scan → Node → ℕ → Scan
  scan_node v n now =
      let known : Scan = record v { known_managed = n.id ∷ v.known_managed } in
      let reaped : Scan = record known { manager = destroy_node v.manager n.id now } in
      if not (is_managed_node n.id)
      then (if is_ready n.state then record v { ready_count = v.ready_count + 1 } else v)
      else if should_reap_by_heartbeat n now
      then reaped
      else if should_reap_by_age n now
      then reaped
      else if is_ready n.state
      then record known { ready_count = v.ready_count + 1; candidates = v.candidates ++ n ∷ [] }
      else known

  unfoldable pub scan : Scan → List Node → ℕ → Scan
  unfolding scan_node
  scan v [] now = v
  scan v (n ∷ nodes) now = scan (scan_node v n now) nodes now

-- pruneWarmingKnown: the known nodes are no longer warming.
unfoldable pub prune_warming_known : List String → Dict ℕ → Dict ℕ
prune_warming_known [] w = w
prune_warming_known (id ∷ ids) w = prune_warming_known ids (delete id w)

module _ (cfg : Config) where
  -- reapTimedOutWarming: the nodes still warming, and those given up, whose number and destruction
  -- do not depend on the order in which Go ranges over the map.
  unfoldable pub still_warming : Dict ℕ → ℕ → Dict ℕ
  still_warming [] now = []
  still_warming ((id, t) ∷ w) now =
      let rest = still_warming w now in
      if past now t cfg.heartbeat_timeout then rest else (id, t) ∷ rest

  unfoldable pub given_up : Dict ℕ → ℕ → List String
  given_up [] now = []
  given_up ((id, t) ∷ w) now =
      let rest = given_up w now in if past now t cfg.heartbeat_timeout then id ∷ rest else rest

  unfoldable pub reap_timed_out_warming : Manager → ℕ → Manager × ℕ
  unfolding still_warming given_up
  reap_timed_out_warming m now = (
    record m {
      warming = still_warming m.warming now;
      destroyed = m.destroyed ++ given_up m.warming now;
    },
    length (still_warming m.warming now),
  )

  -- The oldest by boot first, those never booted last, in the order of their creation.
  unfoldable pub boots_before : Node → Node → Bool
  boots_before a b =
      if is_zero a.booted_at && is_zero b.booted_at
      then ltb a.created_at b.created_at
      else if is_zero a.booted_at
      then false
      else if is_zero b.booted_at
      then true
      else ltb a.booted_at b.booted_at

  unfoldable pub destroy_all : Manager → List Node → ℕ → Manager
  unfolding destroy_node
  destroy_all m [] now = m
  destroy_all m (n ∷ nodes) now = destroy_all (destroy_node cfg m n.id now) nodes now

  -- `readyCount - targetReady` is positive where it is used.
  unfoldable pub scale_down_excess_ready : Manager → ℕ → ℕ → ℕ → List Node → Manager × ℕ
  unfolding destroy_all boots_before
  scale_down_excess_ready m now ready_count target candidates =
      let surplus = ready_count - target in
      let to_reap = min surplus (length candidates) in
      if leb ready_count target || leb (length candidates) 0 then (m, ready_count) else (
        destroy_all m (take to_reap (sort_slice boots_before candidates)) now,
        ready_count - to_reap,
      )

  -- The loop of `needed` ProvisionNode calls, with the outcomes from the `i`-th on: the node's id, or an
  -- error, of which the first is kept.
  unfoldable pub provision :
      Manager → ℕ → (ℕ → Result String) → ℕ → Option Error → ℕ → Manager × Option Error
  provision m zero outcome i first now = (m, first)
  provision m (suc needed) outcome i first now = elim (outcome i) [
    | err e ↦
        provision m needed outcome (suc i) (elim first [ none ↦ some e | some f ↦ some f ]) now
    | ok id ↦
        provision (record m { warming = insert id now m.warming }) needed outcome (suc i) first now
  ]

  -- `nodes` is the answer of the registry's List. `needed` is 0 where the source returns early.
  unfoldable pub reconcile : Manager → List Node → ℕ → ℕ → (ℕ → Result String) → Outcome
  unfolding provision scale_down_excess_ready reap_timed_out_warming prune_warming_known
  reconcile m nodes target now outcome =
      let start : Scan = record {
        manager = m;
        known_managed = [];
        ready_count = 0;
        candidates = [];
      } in
      let v = scan cfg start nodes now in
      let pruned : Manager = record (v.manager) {
        warming = prune_warming_known v.known_managed v.manager.warming;
      } in
      let (reaped, warming_count) = reap_timed_out_warming pruned now in
      let (scaled, ready_count) =
        scale_down_excess_ready reaped now v.ready_count target v.candidates in
      let needed = target - ready_count - warming_count in
      let (grown, error) = provision scaled needed outcome 0 none now in
      record {
        manager = grown;
        error = error;
        ready_count = ready_count;
        warming_count = warming_count;
        needed = needed;
      }
