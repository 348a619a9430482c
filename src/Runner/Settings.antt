-- ===== src/Runner/Settings.antt =====
-- New (internal/taskrunner/runner.go): the settings of a runner with their defaults.
use browser_use.Base.{
  ℕ, ◌*◌, ◌≤◌, ◌<◌, ◌≡◌, false, String, arith, ltb, if◌then◌else◌, ℤ, positive_or, positive_or-pos,
  millisecond, second, minute, is_empty, trim_space,
}
use browser_use.Runner.Retry.{Delays}

-- Config, without the lease manager. Durations are in nanoseconds.
pub record Config : Type 0 where
  pub queue_size : ℤ
  pub workers : ℤ
  pub node_wait_timeout : ℤ
  pub poll_interval : ℤ
  pub retry_base_delay : ℤ
  pub retry_max_delay : ℤ
  pub domain_block_cooldown : ℤ
  pub lease_ttl : ℤ
  pub runner_instance_id : String

-- The settings that a Runner holds.
pub record Settings : Type 0 where
  pub queue_size : ℕ
  pub workers : ℕ
  pub node_wait_timeout : ℕ
  pub poll_interval : ℕ
  pub delays : Delays
  pub domain_block_cooldown : ℕ
  pub lease_ttl : ℕ
  pub owner_id : String

-- `generated` is "runner-" and a UUID without its dashes.
unfoldable pub new : Config → String → Settings
new cfg generated =
    let base = positive_or cfg.retry_base_delay second in
    let most = positive_or cfg.retry_max_delay (20 * second) in
    record {
      queue_size = positive_or cfg.queue_size 256;
      workers = positive_or cfg.workers 1;
      node_wait_timeout = positive_or cfg.node_wait_timeout (30 * second);
      poll_interval = positive_or cfg.poll_interval (250 * millisecond);
      delays = record { base = base; most = if ltb most base then base else most };
      domain_block_cooldown = positive_or cfg.domain_block_cooldown (3 * minute);
      lease_ttl = positive_or cfg.lease_ttl (90 * second);
      owner_id =
          if is_empty (trim_space cfg.runner_instance_id)
          then generated
          else trim_space cfg.runner_instance_id;
    }

-- Whatever it is given, New leaves settings that the runner can work with: a queue with a place and a
-- worker, positive durations, a base delay not beyond the largest, and, where the generated name is
-- not empty, a named owner.
pub new_lem :
    (cfg : Config) (generated : String)
    → is_empty generated ≡ false
    → let s = new cfg generated in
      (0 < s.queue_size)
      × (0 < s.workers)
      × (0 < s.node_wait_timeout)
      × (0 < s.poll_interval)
      × (0 < s.delays.base)
      × (s.delays.base ≤ s.delays.most)
      × (0 < s.domain_block_cooldown)
      × (0 < s.lease_ttl)
      × (is_empty s.owner_id ≡ false)
unfolding new
new_lem cfg generated h = (
  positive_or-pos cfg.queue_size _ (omega arith),
  positive_or-pos cfg.workers _ (omega arith),
  positive_or-pos cfg.node_wait_timeout _ (omega arith),
  positive_or-pos cfg.poll_interval _ (omega arith),
  positive_or-pos cfg.retry_base_delay _ (omega arith),
  ground arith,
  positive_or-pos cfg.domain_block_cooldown _ (omega arith),
  positive_or-pos cfg.lease_ttl _ (omega arith),
  ground arith,
)
