-- ===== src/Node/TcpForward/Table.antt =====
-- The table of TCP forwarders: start_tcp_forwarder, stop_tcp_forwarder, tcp_forwarder_stats and
-- stop_all_tcp_forwarders of rust/iroh_mobile_bridge/src/tcp_forward.rs, and the whole of `stop` of
-- lib.rs. Binding the listener and writing a number in decimal are parameters.
pub mod Managed
pub mod Started
use Prim.Native.String
use iroh_react_native_bridge.Base.{
  ℕ, ◌+◌, ◌%◌, ◌^◌, Bool, false, String, List, [], ◌∷◌, Option, none, some, ◌⊎◌, inl, inr,
  if◌then◌else◌, ◌==◌, ltb, length,
}
use iroh_react_native_bridge.HostObject.{lookup}
use iroh_react_native_bridge.Node.Errors.{
  Result, not_started, not_connected, operation_failed, or_operation_failed,
}
use iroh_react_native_bridge.Node.Targets.{
  Dial, and_then, ok_or, unwrap_or, parse_endpoint_id, endpoint_addr_from_typed_target,
  endpoint_addr_from_hint,
}
use iroh_react_native_bridge.Node.Lifecycle.{
  Network, BridgeState, normalize_alpn, without, store_closed, close_all, stop,
}
use iroh_react_native_bridge.Node.Dial.{timeout_of}
use iroh_react_native_bridge.Node.TcpForward.{TcpForwarderStats, StatsState, default_state}

pub record TcpForwarderOptions : Type 0 where
  pub node_id : Option String
  pub alpn : String
  pub address_hint : Option String
  pub target_kind : Option String
  pub endpoint_ticket : Option String
  pub direct_addresses : Option (List String)
  pub relay_url : Option String
  pub listen_port : ℕ
  pub preamble : Option (List ℕ)
  pub timeout_ms : Option ℕ

pub record TcpForwarderInfo : Type 0 where
  pub id : String
  pub port : ℕ

-- MAX_PREAMBLE_BYTES
abbrev pub max_preamble_bytes : ℕ
max_preamble_bytes = 4096

abbrev pub forwarder_name : (ℕ → String) → ℕ → String
forwarder_name to_decimal number = String.◌++◌ "tcp-forwarder-" (to_decimal number)

-- The forwarders that can be named, each with its number; whether `stop_tx` of a forwarder has
-- sent, and its counters, which its tasks share.
pub record Forwarders : Type 0 where
  pub forwarders : List (String × ℕ)
  pub stop_sent : ℕ → Bool
  pub stats : ℕ → StatsState
  pub next_forwarder_id : ℕ

module _ (d : Dial) (n : Network) where
  -- What a forwarded connection needs; `timeout` is in milliseconds.
  pub record Route : Type 0 where
    pub endpoint : n.Endpoint
    pub addr : d.EndpointAddr
    pub alpn : List ℕ
    pub preamble : List ℕ
    pub timeout : ℕ

  abbrev pub hinted_target : TcpForwarderOptions → Result d.EndpointAddr
  hinted_target options =
      and_then (ok_or (operation_failed "node_id or target_kind is required") options.node_id)
        (λ node_id.
          and_then (parse_endpoint_id d node_id)
            (λ id. endpoint_addr_from_hint d id options.address_hint))

  abbrev pub target_of : Option String → TcpForwarderOptions → Result d.EndpointAddr
  target_of none options = hinted_target options
  target_of (some kind) options =
      endpoint_addr_from_typed_target d kind options.node_id options.endpoint_ticket
        options.direct_addresses options.relay_url

  unfoldable pub resolve_target : TcpForwarderOptions → Result d.EndpointAddr
  resolve_target options = target_of options.target_kind options

  -- start_tcp_forwarder, up to the listener
  unfoldable pub route_of : TcpForwarderOptions → Option n.Endpoint → Result Route
  unfolding resolve_target
  route_of options running = and_then (resolve_target options) (λ addr.
      and_then (normalize_alpn n options.alpn) (λ alpn.
        let preamble = unwrap_or [] options.preamble in
        if ltb max_preamble_bytes (length preamble)
        then inl (operation_failed "preamble is too large")
        else and_then (ok_or not_started running) (λ endpoint. inr (record {
          endpoint = endpoint;
          addr = addr;
          alpn = alpn;
          preamble = preamble;
          timeout = timeout_of options.timeout_ms;
        }))))

  -- `listen` binds a loopback port and gives the port that it got.
  module _ (to_decimal : ℕ → String) (listen : ℕ → String ⊎ ℕ) where
    -- start_tcp_forwarder, once the listener is bound
    unfoldable pub insert_forwarder : ℕ → Forwarders → Result TcpForwarderInfo × Forwarders
    insert_forwarder port fs =
        let number = fs.next_forwarder_id in
        (
          inr (record { id = forwarder_name to_decimal number; port = port }),
          record {
            forwarders =
                (forwarder_name to_decimal number, number)
                ∷ without n (forwarder_name to_decimal number) fs.forwarders;
            stop_sent = λ b. if b == number then false else fs.stop_sent b;
            stats = λ b. if b == number then default_state else fs.stats b;
            next_forwarder_id = (number + 1) % 2 ^ 64;
          },
        )

    abbrev pub listened : String ⊎ ℕ → Forwarders → Result TcpForwarderInfo × Forwarders
    listened (inl message) fs = (inl (operation_failed message), fs)
    listened (inr port) fs = insert_forwarder port fs

    abbrev pub routed : ℕ → Result Route → Forwarders → Result TcpForwarderInfo × Forwarders
    routed port (inl e) fs = (inl e, fs)
    routed port (inr route) fs = listened (listen port) fs

    unfoldable pub start_tcp_forwarder :
        TcpForwarderOptions → BridgeState n → Forwarders → Result TcpForwarderInfo × Forwarders
    unfolding route_of insert_forwarder
    start_tcp_forwarder options st fs = routed options.listen_port (route_of options st.endpoint) fs

  unfoldable pub stop_tcp_forwarder : String → Forwarders → Forwarders
  stop_tcp_forwarder id fs = elim (lookup id fs.forwarders) [
    | none ↦ fs
    | some a ↦ record fs {
      forwarders = without n id fs.forwarders;
      stop_sent = store_closed n a fs.stop_sent;
    }
  ]

  unfoldable pub tcp_forwarder_stats : String → Forwarders → Result TcpForwarderStats
  tcp_forwarder_stats id fs = elim (lookup id fs.forwarders) [
    | none ↦ inl not_connected
    | some a ↦ inr ((fs.stats a).stats)
  ]

  -- `close_all` sends to each that is drained.
  unfoldable pub stop_all_tcp_forwarders : Forwarders → Forwarders
  stop_all_tcp_forwarders fs = record fs {
    forwarders = [];
    stop_sent = close_all n fs.forwarders fs.stop_sent;
  }

  -- `stop` of lib.rs, the forwarders included
  unfoldable pub stop_node : BridgeState n × Forwarders → BridgeState n × Forwarders
  unfolding stop_all_tcp_forwarders
  stop_node (st, fs) = (stop n st, stop_all_tcp_forwarders fs)
