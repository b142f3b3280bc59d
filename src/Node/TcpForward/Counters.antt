-- ===== src/Node/TcpForward/Counters.antt =====
-- What the counters of a forwarder count, over every order of its tasks' steps.
use iroh_react_native_bridge.Base.{
  ℕ, ◌+◌, ◌-◌, ◌%◌, ◌^◌, ◌≤◌, ◌<◌, ◌≡◌, refl, Bool, true, false, arith,
}
use iroh_react_native_bridge.Node.TcpForward.{
  StatsState, default_state, record_down, record_up, connection_accepted, connection_ended,
  loop_stopped,
}

-- A forwarder's counters with what happened: connections accepted, streams that failed, bytes up
-- and down; and the tasks that run, and whether the accept loop does.
pub record Forwarder : Type 0 where
  pub state : StatsState
  pub accepted : ℕ
  pub failures : ℕ
  pub up : ℕ
  pub down : ℕ
  pub running : ℕ
  pub is_listening : Bool

abbrev pub started : Forwarder
started = record {
  state = default_state;
  accepted = 0;
  failures = 0;
  up = 0;
  down = 0;
  running = 0;
  is_listening = true;
}

-- A step of the accept loop or of a connection's task. A task may still end after the loop was told
-- to stop, or is aborted, which leaves the counters alone.
pub data Step (f : Forwarder) : Forwarder → Type 0 where
  accepts :
      f.is_listening ≡ true
      → f.running + 1 < 2 ^ 32
      → Step f (record f {
        state = connection_accepted f.state;
        accepted = f.accepted + 1;
        running = f.running + 1;
      })
  sends_up : (n : ℕ) → Step f (record f { state = record_up n f.state; up = f.up + n })
  receives :
      (n now : ℕ) → Step f (record f { state = record_down n now f.state; down = f.down + n })
  ends :
      0 < f.running
      → Step f (record f { state = connection_ended false f.state; running = f.running - 1 })
  fails :
      0 < f.running
      → Step f (record f {
        state = connection_ended true f.state;
        failures = f.failures + 1;
        running = f.running - 1;
      })
  stops : Step f (record f { state = loop_stopped f.state; is_listening = false })
  aborts : f.is_listening ≡ false → 0 < f.running → Step f (record f { running = f.running - 1 })

pub data Reach : Forwarder → Type 0 where
  here : Reach started
  next : {f g : Forwarder} → Reach f → Step f g → Reach g

-- `active_connections`, while the loop runs and after it was told to stop.
abbrev Active : Bool → ℕ → ℕ → Type 0
Active true active running = active ≡ running
Active false active running = active ≡ 0

pub record IsCounted (f : Forwarder) : Type 0 where
  pub total : f.state.stats.total_connections ≡ f.accepted % 2 ^ 64
  pub failed : f.state.stats.failed_streams ≡ f.failures % 2 ^ 64
  pub sent : f.state.stats.bytes_up ≡ f.up % 2 ^ 64
  pub received : f.state.stats.bytes_down ≡ f.down % 2 ^ 64
  pub active : Active f.is_listening f.state.stats.active_connections f.running
  pub few : f.running < 2 ^ 32
  pub ended : f.running + f.failures ≤ f.accepted

accept-Active :
    (b : Bool) (active running : ℕ)
    → b ≡ true
    → running + 1 < 2 ^ 32
    → Active b active running
    → Active b ((active + 1) % 2 ^ 32) (running + 1)
accept-Active true active running e h a = omega arith
accept-Active false active running e h a = absurd (ground arith)

end-Active :
    (b : Bool) (active running : ℕ) → Active b active running → Active b (active - 1) (running - 1)
end-Active true active running a = omega arith
end-Active false active running a = omega arith

abort-Active :
    (b : Bool) (active running left : ℕ)
    → b ≡ false
    → Active b active running
    → Active b active left
abort-Active true active running left e a = absurd (ground arith)
abort-Active false active running left e a = a

Step-IsCounted : {f g : Forwarder} → IsCounted f → Step f g → IsCounted g
unfolding record_down record_up connection_accepted connection_ended loop_stopped
Step-IsCounted {f} v (accepts listening room) = record {
  total = omega (arith, v.total);
  failed = v.failed;
  sent = v.sent;
  received = v.received;
  active = accept-Active f.is_listening _ f.running listening room v.active;
  few = room;
  ended = omega (arith, v.ended);
}
Step-IsCounted {f} v (sends_up n) = record {
  total = v.total;
  failed = v.failed;
  sent = omega (arith, v.sent);
  received = v.received;
  active = v.active;
  few = v.few;
  ended = v.ended;
}
Step-IsCounted {f} v (receives n now) = record {
  total = v.total;
  failed = v.failed;
  sent = v.sent;
  received = omega (arith, v.received);
  active = v.active;
  few = v.few;
  ended = v.ended;
}
Step-IsCounted {f} v (ends some_run) = record {
  total = v.total;
  failed = v.failed;
  sent = v.sent;
  received = v.received;
  active = end-Active f.is_listening _ f.running v.active;
  few = omega (arith, v.few);
  ended = omega (arith, v.ended);
}
Step-IsCounted {f} v (fails some_run) = record {
  total = v.total;
  failed = omega (arith, v.failed);
  sent = v.sent;
  received = v.received;
  active = end-Active f.is_listening _ f.running v.active;
  few = omega (arith, v.few);
  ended = omega (arith, v.ended);
}
Step-IsCounted {f} v stops = record {
  total = v.total;
  failed = v.failed;
  sent = v.sent;
  received = v.received;
  active = refl;
  few = v.few;
  ended = v.ended;
}
Step-IsCounted {f} v (aborts stopped some_run) = record {
  total = v.total;
  failed = v.failed;
  sent = v.sent;
  received = v.received;
  active = abort-Active f.is_listening _ f.running _ stopped v.active;
  few = omega (arith, v.few);
  ended = omega (arith, v.ended);
}

-- Whatever the accept loop and the tasks of a forwarder's connections do, in whatever order: its
-- counters of connections, failed streams and bytes are the true counts, as u64; active_connections
-- is the number of connections that run while the loop does, and 0 once it was told to stop; and
-- the connections that run and those that failed are no more than were accepted. Fewer than 2^32
-- connections run at a time.
pub Reach-IsCounted : {f : Forwarder} → Reach f → IsCounted f
Reach-IsCounted here = record {
  total = omega arith;
  failed = omega arith;
  sent = omega arith;
  received = omega arith;
  active = refl;
  few = omega arith;
  ended = omega arith;
}
Reach-IsCounted (next r step) = Step-IsCounted (Reach-IsCounted r) step
