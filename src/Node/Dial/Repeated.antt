-- ===== src/Node/Dial/Repeated.antt =====
-- Two calls of connect_endpoint_addr (rust/iroh_mobile_bridge/src/lib.rs) for one node and one ALPN.
use text.Mathlib.Text.{◌==◌ as str_eq}
use iroh_react_native_bridge.Base.{ℕ, ◌+◌, ◌≤◌, true, String, List, Option, some, ◌⊎◌, inr, ◌≡◌}
use iroh_react_native_bridge.Node.Targets
use iroh_react_native_bridge.Node.Sessions.{ManagedSession, Sessions, Cache, find}
use iroh_react_native_bridge.Node.Sessions.Newest.{IsValid}
use iroh_react_native_bridge.Node.Lifecycle.{Network, normalize_alpn}
use iroh_react_native_bridge.Node.Dial.{
  elapsed, failed, done, Quic, Bridge, session_key, timeout_of, connection_name,
  connect_endpoint_addr,
}

module _ {C : Type 0} where
  -- Of a cache whose sessions were used before the counter's value, a look-up leaves one like it.
  abbrev Left : Cache C → Option C × Cache C → Type 0
  Left cache x = IsValid x.1 × (x.1.next_session_use ≤ cache.next_session_use + 1)

module _ {d : Targets.Dial} {n : Network} (q : Quic d n) (to_decimal : ℕ → String) where
  -- A session is in the cache, and the node runs.
  abbrev Keeps : String → Bridge q → Type 0
  Keeps key b =
      (s : ManagedSession n.Connection) × (find key b.node.cache.sessions ≡ some s)
      × (endpoint : n.Endpoint) × (b.node.endpoint ≡ some endpoint)

  module _ (addr : d.EndpointAddr) (alpn : String) (bytes : List ℕ) (second_ms : Option ℕ)
      (named : normalize_alpn n alpn ≡ inr bytes) where
    abbrev key : String
    key = session_key q (d.id_of addr) bytes

    -- What a call does that finds the session `s`.
    pub data Second (b : Bridge q) (s : ManagedSession n.Connection) : Type 0 where
      closed : q.is_closed s.connection b.node.outside ≡ true → Second b s
      no_stream :
          ((q.open_bi s.connection (timeout_of second_ms) b.node.outside).0 ≡ elapsed)
            ⊎ ((message : String) × ((q.open_bi s.connection
                    (timeout_of second_ms)
                    b.node.outside).0
                  ≡ failed message))
          → Second b s
      shares :
          (bi : q.Bi) (outside : n.Outside)
          → q.open_bi s.connection (timeout_of second_ms) b.node.outside ≡ (done bi, outside)
          → (connect_endpoint_addr q to_decimal addr alpn second_ms b).0
            ≡ inr (connection_name to_decimal b.next_connection_id)
          → (connect_endpoint_addr q to_decimal addr alpn second_ms b).1.node.outside ≡ outside
          → Second b s
