-- ===== src/Sample/Forwarders.antt =====
-- The theorems on the TCP forwarder, applied to one that listens, forwards two chunks and stops.
use Prim.Native.Nat.{◌*◌}
use Prim.Native.String
use iroh_react_native_bridge.Base.{
  ℕ, zero, suc, ◌+◌, ◌%◌, ◌^◌, ◌≤◌, ◌≡◌, ◌≢◌, if◌then◌else◌, ◌==◌, refl, sym, ◌∙◌, ap, String, true,
  false, [], ◌∷◌, none, some, ◌⊎◌, inl, inr, arith,
}
use text.Mathlib.Text.{◌==◌ as str_eq, starts_with}
use text.Mathlib.TextPositions.{starts_with-append}
use text.Mathlib.TextLemmas.{append_cancel_left}
use iroh_react_native_bridge.Node.Errors.{not_connected}
use iroh_react_native_bridge.Node.Lifecycle.{normalize_alpn}
use iroh_react_native_bridge.Node.Targets.{
  endpoint_addr_from_hint, from_dial_hint, normalize_dial_hint, parse_transport_addr,
  parse_direct_addr, parse_endpoint_id, normalize_node_id,
}
use iroh_react_native_bridge.Node.TcpForward.{default_state, default_stats, record_down, burst_ms}
use iroh_react_native_bridge.Node.TcpForward.Throughput.{record_all, record_all-bounds}
use iroh_react_native_bridge.Node.TcpForward.Counters
use iroh_react_native_bridge.Node.TcpForward.Counters.{
  Forwarder, accepts, receives, fails, stops, IsCounted, Reach-IsCounted,
}
use iroh_react_native_bridge.Node.TcpForward.Table.{
  TcpForwarderOptions, TcpForwarderInfo, Forwarders, forwarder_name, resolve_target, route_of,
  insert_forwarder, start_tcp_forwarder, stop_tcp_forwarder, tcp_forwarder_stats,
}
use iroh_react_native_bridge.Node.TcpForward.Table.Managed
use iroh_react_native_bridge.Node.TcpForward.Table.Managed.{
  Injective, starts, IsManaged, no_forwarders, Reach-IsManaged,
}
use iroh_react_native_bridge.Node.TcpForward.Table.Started.{start_tcp_forwarder-stop_tcp_forwarder}
use iroh_react_native_bridge.Sample.Lifecycle.{network, started}
use iroh_react_native_bridge.Sample.Targets.{dial}

-- Chunks at 0, 100 and 200 milliseconds, and one five seconds later.
burst_test :
    (record_all
      ((1000, 0)
        ∷ (1000, 100000000)
        ∷ (1000, 200000000)
        ∷ (1000, 5200000000)
        ∷ (1000, 5300000000)
        ∷ [])
      default_state).stats.active_down_ms
    ≡ 300
unfolding record_down burst_ms
burst_test = refl

record_all-bounds_example :
    ((record_all ((1000, 5) ∷ (1000, 100000005) ∷ []) default_state).stats.bytes_down
      ≡ (1000 + (1000 + 0)) % 2 ^ 64)
    × ((record_all ((1000, 5) ∷ (1000, 100000005) ∷ []) default_state).stats.active_down_ms
            * 1000000
          + 5
        ≤ 100000005)
record_all-bounds_example =
    record_all-bounds 1000 5 100000005 ((1000, 100000005) ∷ []) (omega arith, omega arith)

-- 64 KiB each half a millisecond.
-- Two connections, of which one fails before the forwarder stops.
two_connections :
    (f : Forwarder) × Counters.Reach f
    × (f.accepted ≡ 2)
    × (f.failures ≡ 1)
    × (f.is_listening ≡ false)
two_connections = (
  _,
  Counters.next
      (Counters.next
        (Counters.next
          (Counters.next (Counters.next Counters.here (accepts refl (omega arith)))
            (accepts refl (omega arith)))
          (receives 1000 5))
        (fails (omega arith)))
      stops,
  refl,
  refl,
  refl,
)

Reach-IsCounted_example : IsCounted two_connections.0
Reach-IsCounted_example = Reach-IsCounted two_connections.1

-- Decimals stand for numbers; here a number is as many strokes.
abbrev pub strokes : ℕ → String
strokes zero = ""
strokes (suc n) = String.◌++◌ "I" (strokes n)

not_empty : (s : String) → "" ≢ String.◌++◌ "I" s
not_empty s h =
    let impossible : false ≡ true = ap (λ t. starts_with t "I") h ∙ starts_with-append "I" s in
    absurd (ground arith)

strokes-Injective : Injective strokes
strokes-Injective zero zero h = refl
strokes-Injective zero (suc b) h = absurd (not_empty (strokes b) h)
strokes-Injective (suc a) zero h = absurd (not_empty (strokes a) (sym h))
strokes-Injective (suc a) (suc b) h =
    ap suc (strokes-Injective a b (append_cancel_left "I" (strokes a) (strokes b) h))

abbrev options : TcpForwarderOptions
options = record {
  node_id = some "qv47olqig7";
  alpn = "iroh-rn/1";
  address_hint = some "ip:192.168.1.2:4433";
  target_kind = none;
  endpoint_ticket = none;
  direct_addresses = none;
  relay_url = none;
  listen_port = 0;
  preamble = none;
  timeout_ms = none;
}

abbrev listen : ℕ → String ⊎ ℕ
listen port = inr 49152

abbrev info : TcpForwarderInfo
info = record { id = "tcp-forwarder-I"; port = 49152 }

abbrev one_forwarder : Forwarders
one_forwarder = record {
  forwarders = ("tcp-forwarder-I", 1) ∷ [];
  stop_sent = λ b. if b == 1 then false else false;
  stats = λ b. if b == 1 then default_state else default_state;
  next_forwarder_id = 2;
}

abbrev none_yet : Forwarders
none_yet = no_forwarders dial network strokes

start_tcp_forwarder_test :
    start_tcp_forwarder dial network strokes listen options started none_yet
    ≡ (inr info, one_forwarder)
unfolding start_tcp_forwarder route_of resolve_target insert_forwarder parse_endpoint_id
    normalize_node_id endpoint_addr_from_hint from_dial_hint normalize_dial_hint
    parse_transport_addr parse_direct_addr normalize_alpn
start_tcp_forwarder_test = refl

Reach-IsManaged_example :
    IsManaged
      (forwarder_name strokes)
      (start_tcp_forwarder dial network strokes listen options started none_yet).1
Reach-IsManaged_example =
    Reach-IsManaged dial network strokes strokes-Injective
      (Managed.next Managed.here (starts listen options started (omega arith)))

start_tcp_forwarder-stop_tcp_forwarder_example :
    (tcp_forwarder_stats dial network "tcp-forwarder-I" one_forwarder ≡ inr default_stats)
    × (tcp_forwarder_stats dial network "tcp-forwarder-I"
          (stop_tcp_forwarder dial network "tcp-forwarder-I" one_forwarder)
        ≡ inl not_connected)
    × ((j : String)
        → str_eq "tcp-forwarder-I" j ≡ false
        → (tcp_forwarder_stats dial network j one_forwarder
            ≡ tcp_forwarder_stats dial network j none_yet)
          × (tcp_forwarder_stats dial network j
                (stop_tcp_forwarder dial network "tcp-forwarder-I" one_forwarder)
              ≡ tcp_forwarder_stats dial network j none_yet))
start_tcp_forwarder-stop_tcp_forwarder_example =
    start_tcp_forwarder-stop_tcp_forwarder dial network strokes strokes-Injective listen options
      started none_yet one_forwarder info Managed.here start_tcp_forwarder_test
