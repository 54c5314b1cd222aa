-- ===== src/Config.antt =====
-- src/config.rs: the tuning records, their defaults, and the slow-handle threshold. A `Duration` is
-- a count of nanoseconds. The Tokio runtime builders of the file are not modelled.
use lane_switchboards.Base.{nat_eq, or_else, ℕ, ◌*◌, Option, none, from_secs}

-- Mailbox sizing and handle limits of one actor.
pub record ActorConfig : Type 0 where
  pub mailbox_capacity : ℕ
  pub handle_timeout : Option ℕ
  pub slow_handle_threshold : Option ℕ

abbrev pub default_actor_config : ActorConfig
default_actor_config = record {
  mailbox_capacity = 64;
  handle_timeout = none;
  slow_handle_threshold = none;
}

-- `slow_handle_threshold.or(handle_timeout)`.
unfoldable pub effective_slow_threshold : ActorConfig → Option ℕ
effective_slow_threshold c = or_else c.slow_handle_threshold c.handle_timeout

-- Sizing and limits of one TCP node or remote reference.
pub record DistributedConfig : Type 0 where
  pub bridge_capacity : ℕ
  pub max_in_flight : ℕ
  pub max_frame_bytes : ℕ
  pub read_timeout : ℕ
  pub remote_send_capacity : ℕ

abbrev pub default_distributed_config : DistributedConfig
default_distributed_config = record {
  bridge_capacity = 32;
  max_in_flight = 32;
  max_frame_bytes = 4 * 1024 * 1024;
  read_timeout = from_secs 30;
  remote_send_capacity = 32;
}
