-- ===== src/Node/Dial/Reused.antt =====
-- A call of connect_endpoint_addr (rust/iroh_mobile_bridge/src/lib.rs) that finds an open session.
use iroh_react_native_bridge.Base.{
  ℕ, ◌+◌, ◌%◌, ◌^◌, Bool, false, String, List, Option, some, inr, ◌≡◌, refl, ◌∙◌, ap,
}
use iroh_react_native_bridge.Node.Targets
use iroh_react_native_bridge.Node.Sessions.{
  ManagedSession, Cache, find, set_last_used, used, use_session, without_missing, take_session,
}
use iroh_react_native_bridge.Node.Lifecycle.{
  Network, BridgeState, normalize_alpn, keep_session, register_stream,
}
use iroh_react_native_bridge.Node.Dial.{
  done, Quic, Bridge, session_key, with_endpoint, take_endpoint, or_dial, dial_session,
  open_session, timeout_of, connection_name, finish_connect, connect_taken, connect_normalized,
  connect_endpoint_addr,
}

module _ {C : Type 0} where
  -- The cache once a session was used.
  abbrev touched : String → Cache C → Cache C
  touched key cache = record {
    sessions = set_last_used key cache.next_session_use cache.sessions;
    next_session_use = (cache.next_session_use + 1) % 2 ^ 64;
  }

  take_session_live :
      (is_closed : C → Bool) (key : String) (cache : Cache C) (s : ManagedSession C)
      → find key cache.sessions ≡ some s
      → is_closed s.connection ≡ false
      → take_session is_closed key cache ≡ (some s.connection, touched key cache)
  unfolding take_session use_session
  take_session_live is_closed key cache s there live =
      ap (λ o. without_missing key (used is_closed key o cache)) there ∙ rw live refl

module _ {d : Targets.Dial} {n : Network} (q : Quic d n) (to_decimal : ℕ → String) where
  -- A session that is there and open.
  module _ (addr : d.EndpointAddr) (alpn : String) (bytes : List ℕ) (timeout_ms : Option ℕ)
      (b : Bridge q) (endpoint : n.Endpoint) (s : ManagedSession n.Connection)
      (named : normalize_alpn n alpn ≡ inr bytes) (runs : b.node.endpoint ≡ some endpoint)
      (there : find (session_key q (d.id_of addr) bytes) b.node.cache.sessions ≡ some s)
      (live : q.is_closed s.connection b.node.outside ≡ false) where
    abbrev key : String
    key = session_key q (d.id_of addr) bytes

    abbrev taken : BridgeState n
    taken = record (b.node) { cache = touched key b.node.cache }

    connect_endpoint_addr_live :
        connect_endpoint_addr q to_decimal addr alpn timeout_ms b
        ≡ finish_connect q to_decimal key
            (open_session q endpoint
              (some s.connection)
              addr
              bytes
              (timeout_of timeout_ms)
              b.node.outside)
            (record b { node = taken })
    unfolding connect_endpoint_addr take_endpoint
    connect_endpoint_addr_live =
        ap (λ r. connect_normalized q to_decimal addr (timeout_of timeout_ms) r b) named
        ∙ ap
            (λ x.
              connect_taken q to_decimal key addr bytes (timeout_of timeout_ms)
                (with_endpoint q b.node.endpoint x b.node) b)
            (take_session_live (λ c. q.is_closed c b.node.outside) key b.node.cache s there live)
        ∙ ap
            (λ e.
              connect_taken q to_decimal key addr bytes (timeout_of timeout_ms)
                (with_endpoint q e (some s.connection, touched key b.node.cache) b.node) b)
            runs

    -- Where the session gives a stream, the call ends with it, and what is outside of the bridge is
    -- as that request left it.
    pub connect_endpoint_addr-open_bi :
        (bi : q.Bi) (outside : n.Outside)
        → q.open_bi s.connection (timeout_of timeout_ms) b.node.outside ≡ (done bi, outside)
        → ((connect_endpoint_addr q to_decimal addr alpn timeout_ms b).0
            ≡ inr (connection_name to_decimal b.next_connection_id))
          × ((connect_endpoint_addr q to_decimal addr alpn timeout_ms b).1.node.outside ≡ outside)
    unfolding open_session finish_connect keep_session register_stream
    connect_endpoint_addr-open_bi bi outside e =
        let dial = dial_session q endpoint addr bytes (timeout_of timeout_ms) in
        let both =
          connect_endpoint_addr_live
          ∙ ap
              (λ x.
                finish_connect q to_decimal key (or_dial q dial s.connection x)
                  (record b { node = taken }))
              e in
        (ap (λ x. x.0) both, ap (λ x. x.1.node.outside) both)
