-- ===== src/Client/Config.antt =====
-- The client's settings (internal/control/config.go).
use walkie.Prelude.{ℕ, Option, none, some, ltb, leb, ◌==◌, if◌then◌else◌}

-- Durations in nanoseconds; one that is not positive is 0.
pub record Config : Type 0 where
  pub backoff_base : ℕ
  pub backoff_cap : ℕ
  pub heartbeat_period : ℕ
  pub dead_peer_interval : ℕ
  pub handshake_timeout : ℕ

abbrev pub default_config : Config
default_config = record {
  backoff_base = 1_000_000_000;
  backoff_cap = 60_000_000_000;
  heartbeat_period = 15_000_000_000;
  dead_peer_interval = 45_000_000_000;
  handshake_timeout = 10_000_000_000;
}

pub data ConfigError : Type 0 where
  bad_base bad_cap cap_below_base bad_period bad_interval bad_timeout : ConfigError

-- validate; `none` is a nil error.
unfoldable pub validate : Config → Option ConfigError
validate c =
    if c.backoff_base == 0
    then some bad_base
    else if c.backoff_cap == 0
    then some bad_cap
    else if ltb c.backoff_cap c.backoff_base
    then some cap_below_base
    else if c.heartbeat_period == 0
    then some bad_period
    else if leb c.dead_peer_interval c.heartbeat_period
    then some bad_interval
    else if c.handshake_timeout == 0
    then some bad_timeout
    else none
