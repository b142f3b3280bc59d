-- ===== src/Node/Dial.antt =====
-- Opening a stream: connect, connect_target and connect_endpoint_addr of
-- rust/iroh_mobile_bridge/src/lib.rs, and session of tcp_forward.rs. What iroh does to dial and to
-- open a stream is a parameter; the stream's tasks are in Stream.
pub mod Peer
pub mod Reused
pub mod Repeated
pub mod Interleaved
pub mod Effect
use Prim.Native.String
use iroh_react_native_bridge.Base.{
  ℕ, ◌+◌, ◌%◌, ◌^◌, Bool, String, List, Option, none, some, ◌⊎◌, inl, inr, if◌then◌else◌, ◌==◌,
}
use iroh_react_native_bridge.Node.Errors.{IrohBridgeError, Result, not_started, operation_failed}
use iroh_react_native_bridge.Node.Targets
use iroh_react_native_bridge.Node.Targets.{
  and_then, parse_endpoint_id, endpoint_addr_from_typed_target, endpoint_addr_from_hint,
}
use iroh_react_native_bridge.Node.Sessions.{Cache, use_session, take_session, cache_session}
use iroh_react_native_bridge.Node.Lifecycle.{
  Network, BridgeState, normalize_alpn, keep_session, register_stream,
}

-- time::timeout around a call that may fail.
pub data Timed (A : Type 0) : Type 0 where
  elapsed : Timed A
  failed : String → Timed A
  done : A → Timed A

-- What the code calls of iroh and of hex. A timeout is in milliseconds; `Bi` is the two halves of a
-- stream.
pub record Quic (d : Targets.Dial) (n : Network) : Type 1 where
  pub Bi : Type 0
  pub is_closed : n.Connection → n.Outside → Bool
  pub open_bi : n.Connection → ℕ → n.Outside → Timed Bi × n.Outside
  pub connect :
      n.Endpoint → d.EndpointAddr → List ℕ → ℕ → n.Outside → Timed n.Connection × n.Outside
  pub id_to_z32 : d.EndpointId → String
  pub hex_encode : List ℕ → String

-- DEFAULT_CONNECT_TIMEOUT_MS
abbrev pub default_connect_timeout_ms : ℕ
default_connect_timeout_ms = 4500

-- `.filter(|value| *value > 0).unwrap_or(DEFAULT_CONNECT_TIMEOUT_MS)`
abbrev pub timeout_of : Option ℕ → ℕ
timeout_of none = default_connect_timeout_ms
timeout_of (some ms) = if ms == 0 then default_connect_timeout_ms else ms

abbrev pub connection_name : (ℕ → String) → ℕ → String
connection_name to_decimal number = String.◌++◌ "iroh-" (to_decimal number)

module _ {d : Targets.Dial} {n : Network} (q : Quic d n) where
  -- The node's state with NEXT_CONNECTION_ID.
  pub record Bridge : Type 0 where
    pub node : BridgeState n
    pub next_connection_id : ℕ

  unfoldable pub session_key : d.EndpointId → List ℕ → String
  session_key remote_id alpn =
      String.◌++◌ (q.id_to_z32 remote_id) (String.◌++◌ ":" (q.hex_encode alpn))

  abbrev pub Taken : Type 0
  Taken = Result (n.Endpoint × Option n.Connection)

  abbrev pub with_endpoint :
      Option n.Endpoint
      → Option n.Connection × Cache n.Connection
      → BridgeState n
      → Taken × BridgeState n
  with_endpoint none taken st = (inl not_started, st)
  with_endpoint (some endpoint) (cached, cache) st =
      (inr (endpoint, cached), record st { cache = cache })

  -- The first part of connect_endpoint_addr that holds the lock.
  unfoldable pub take_endpoint : String → BridgeState n → Taken × BridgeState n
  unfolding take_session
  take_endpoint key st =
      with_endpoint st.endpoint (take_session (λ c. q.is_closed c st.outside) key st.cache) st

  abbrev pub Opened : Type 0
  Opened = Result (n.Connection × q.Bi) × n.Outside

  -- open_bi_with_timeout
  abbrev pub opened_bi : n.Connection → Timed q.Bi × n.Outside → Opened
  opened_bi connection (elapsed, outside) =
      (inl (operation_failed "Iroh stream open timed out"), outside)
  opened_bi connection (failed message, outside) = (inl (operation_failed message), outside)
  opened_bi connection (done bi, outside) = (inr (connection, bi), outside)

  abbrev pub dialled : ℕ → Timed n.Connection × n.Outside → Opened
  dialled timeout (elapsed, outside) = (inl (operation_failed "Iroh connect timed out"), outside)
  dialled timeout (failed message, outside) = (inl (operation_failed message), outside)
  dialled timeout (done connection, outside) =
      opened_bi connection (q.open_bi connection timeout outside)

  -- A new session and a stream on it.
  unfoldable pub dial_session : n.Endpoint → d.EndpointAddr → List ℕ → ℕ → n.Outside → Opened
  dial_session endpoint addr alpn timeout outside =
      dialled timeout (q.connect endpoint addr alpn timeout outside)

  abbrev pub or_dial : (n.Outside → Opened) → n.Connection → Timed q.Bi × n.Outside → Opened
  or_dial dial connection (done bi, outside) = (inr (connection, bi), outside)
  or_dial dial connection (elapsed, outside) = dial outside
  or_dial dial connection (failed message, outside) = dial outside

  -- A stream on the cached session, or on a new one where that gives none.
  unfoldable pub open_session :
      n.Endpoint → Option n.Connection → d.EndpointAddr → List ℕ → ℕ → n.Outside → Opened
  unfolding dial_session
  open_session endpoint none addr alpn timeout outside =
      dial_session endpoint addr alpn timeout outside
  open_session endpoint (some connection) addr alpn timeout outside =
      or_dial (dial_session endpoint addr alpn timeout) connection
        (q.open_bi connection timeout outside)

  module _ (to_decimal : ℕ → String) where
    -- connect_endpoint_addr, once the stream is open or has failed to open.
    unfoldable pub finish_connect : String → Opened → Bridge → Result String × Bridge
    unfolding keep_session register_stream
    finish_connect key (inl e, outside) b =
        (inl e, record b { node = record (b.node) { outside = outside } })
    finish_connect key (inr (connection, bi), outside) b =
        let number = b.next_connection_id in
        let kept = keep_session n key connection (record (b.node) { outside = outside }) in
        (
          inr (connection_name to_decimal number),
          record {
            node = register_stream n (connection_name to_decimal number) number kept;
            next_connection_id = (number + 1) % 2 ^ 64;
          },
        )

    abbrev pub connect_taken :
        String
        → d.EndpointAddr
        → List ℕ
        → ℕ
        → Taken × BridgeState n
        → Bridge
        → Result String × Bridge
    connect_taken key addr alpn timeout (inl e, st) b = (inl e, record b { node = st })
    connect_taken key addr alpn timeout (inr (endpoint, cached), st) b =
        finish_connect key (open_session endpoint cached addr alpn timeout st.outside)
          (record b { node = st })

    abbrev pub connect_normalized :
        d.EndpointAddr → ℕ → Result (List ℕ) → Bridge → Result String × Bridge
    connect_normalized addr timeout (inl e) b = (inl e, b)
    connect_normalized addr timeout (inr alpn) b =
        let key = session_key (d.id_of addr) alpn in
        connect_taken key addr alpn timeout (take_endpoint key b.node) b

    unfoldable pub connect_endpoint_addr :
        d.EndpointAddr → String → Option ℕ → Bridge → Result String × Bridge
    unfolding take_endpoint open_session finish_connect
    connect_endpoint_addr addr alpn timeout_ms b =
        connect_normalized addr (timeout_of timeout_ms) (normalize_alpn n alpn) b

    abbrev pub connect_resolved :
        Result d.EndpointAddr → String → Option ℕ → Bridge → Result String × Bridge
    connect_resolved (inl e) alpn timeout_ms b = (inl e, b)
    connect_resolved (inr addr) alpn timeout_ms b = connect_endpoint_addr addr alpn timeout_ms b

    unfoldable pub connect :
        String → String → Option String → Option ℕ → Bridge → Result String × Bridge
    unfolding connect_endpoint_addr
    connect node_id alpn address_hint timeout_ms b =
        connect_resolved
          (and_then (parse_endpoint_id d node_id) (λ id. endpoint_addr_from_hint d id address_hint))
          alpn timeout_ms b

    unfoldable pub connect_target :
        String
        → Option String
        → Option String
        → Option (List String)
        → Option String
        → String
        → Option ℕ
        → Bridge
        → Result String × Bridge
    unfolding connect_endpoint_addr
    connect_target target_kind node_id endpoint_ticket direct_addresses relay_url alpn timeout_ms
          b =
        connect_resolved
          (endpoint_addr_from_typed_target d target_kind node_id endpoint_ticket direct_addresses
            relay_url)
          alpn timeout_ms b

  -- session of tcp_forward.rs, what it does with the answer of the dial
  abbrev pub cached_dial :
      String → Timed n.Connection × n.Outside → BridgeState n → Result n.Connection × BridgeState n
  cached_dial key (elapsed, outside) st =
      (inl (operation_failed "Iroh connect timed out"), record st { outside = outside })
  cached_dial key (failed message, outside) st =
      (inl (operation_failed message), record st { outside = outside })
  cached_dial key (done connection, outside) st =
      (inr connection, keep_session n key connection (record st { outside = outside }))

  abbrev pub used_or_dialled :
      n.Endpoint
      → d.EndpointAddr
      → List ℕ
      → ℕ
      → Option n.Connection × Cache n.Connection
      → BridgeState n
      → Result n.Connection × BridgeState n
  used_or_dialled endpoint addr alpn timeout (some connection, cache) st =
      (inr connection, record st { cache = cache })
  used_or_dialled endpoint addr alpn timeout (none, cache) st =
      cached_dial (session_key (d.id_of addr) alpn)
        (q.connect endpoint addr alpn timeout st.outside) (record st { cache = cache })

  unfoldable pub session :
      n.Endpoint → d.EndpointAddr → List ℕ → ℕ → BridgeState n → Result n.Connection × BridgeState n
  unfolding keep_session use_session session_key
  session endpoint addr alpn timeout st =
      used_or_dialled endpoint addr alpn timeout
        (use_session (λ c. q.is_closed c st.outside) (session_key (d.id_of addr) alpn) st.cache) st
