-- ===== src/Node/TcpForward.antt =====
-- The counters of the TCP forwarder: StatsState of rust/iroh_mobile_bridge/src/tcp_forward.rs, and
-- what the accept loop and the two pumps of a connection do to it.
pub mod Throughput
pub mod Counters
pub mod Table
use Prim.Native.Nat.{◌/◌}
use iroh_react_native_bridge.Base.{
  ℕ, ◌+◌, ◌-◌, ◌%◌, ◌^◌, Bool, true, false, Option, none, some, if◌then◌else◌, leb,
}

-- BURST_IDLE_GAP, in nanoseconds
abbrev pub burst_idle_gap : ℕ
burst_idle_gap = 250000000

-- `active_connections` is a u32, the others are u64.
pub record TcpForwarderStats : Type 0 where
  pub active_connections : ℕ
  pub total_connections : ℕ
  pub failed_streams : ℕ
  pub bytes_up : ℕ
  pub bytes_down : ℕ
  pub active_down_ms : ℕ

-- An Instant is a number of nanoseconds.
pub record StatsState : Type 0 where
  pub stats : TcpForwarderStats
  pub last_down_at : Option ℕ

abbrev pub default_stats : TcpForwarderStats
default_stats = record {
  active_connections = 0;
  total_connections = 0;
  failed_streams = 0;
  bytes_up = 0;
  bytes_down = 0;
  active_down_ms = 0;
}

-- `StatsState::default()`
abbrev pub default_state : StatsState
default_state = record { stats = default_stats; last_down_at = none }

-- What `record_down` adds to active_down_ms: `saturating_duration_since`, and `as_millis` for a gap
-- inside a burst.
unfoldable pub burst_ms : Option ℕ → ℕ → ℕ
burst_ms none now = 0
burst_ms (some previous) now =
    if leb (now - previous) burst_idle_gap then (now - previous) / 1000000 else 0

unfoldable pub record_down : ℕ → ℕ → StatsState → StatsState
unfolding burst_ms
record_down bytes now st = record {
  stats = record (st.stats) {
    active_down_ms = (st.stats.active_down_ms + burst_ms st.last_down_at now) % 2 ^ 64;
    bytes_down = (st.stats.bytes_down + bytes) % 2 ^ 64;
  };
  last_down_at = some now;
}

-- upstream of `pump`
unfoldable pub record_up : ℕ → StatsState → StatsState
record_up n st = record st {
  stats = record (st.stats) { bytes_up = (st.stats.bytes_up + n) % 2 ^ 64 };
}

-- the accept loop, for a connection
unfoldable pub connection_accepted : StatsState → StatsState
connection_accepted st = record st {
  stats = record (st.stats) {
    total_connections = (st.stats.total_connections + 1) % 2 ^ 64;
    active_connections = (st.stats.active_connections + 1) % 2 ^ 32;
  };
}

-- the task of a connection, once `pump` has returned; `saturating_sub`
unfoldable pub connection_ended : Bool → StatsState → StatsState
connection_ended is_err st = record st {
  stats = record (st.stats) {
    active_connections = st.stats.active_connections - 1;
    failed_streams =
        if is_err then (st.stats.failed_streams + 1) % 2 ^ 64 else st.stats.failed_streams;
  };
}

-- the accept loop, once it was told to stop
unfoldable pub loop_stopped : StatsState → StatsState
loop_stopped st = record st { stats = record (st.stats) { active_connections = 0 } }
