-- ===== src/Node/Dial/Effect.antt =====
-- What one call of connect_endpoint_addr does to the shared state.

use text.Mathlib.Text.{◌==◌ as str_eq}
use iroh_react_native_bridge.Base.{
  ℕ, ◌<◌, Bool, true, false, not, String, Option, none, some, inl, inr, ◌≡◌, ◌==◌,
}
use iroh_react_native_bridge.HostObject.{lookup}
use iroh_react_native_bridge.Node.Errors.{IrohBridgeError, Result}
use iroh_react_native_bridge.Node.Targets
use iroh_react_native_bridge.Node.Lifecycle.{Network, BridgeState, is_running, is_stream_open}
use iroh_react_native_bridge.Node.Dial.{Quic, Bridge, connection_name}

module _ {d : Targets.Dial} {n : Network} (q : Quic d n) (to_decimal : ℕ → String) where
  -- The address of a stream's flag is a number that was given out.
  abbrev pub IsFresh : Bridge q → Type 0
  IsFresh b = (j : String) (a : ℕ) → lookup j b.node.connections ≡ some a → a < b.next_connection_id

  -- The streams and the node are as they were.
  record Keeps (st st' : BridgeState n) : Type 0 where
    endpoint : st'.endpoint ≡ st.endpoint
    node_id : st'.node_id ≡ st.node_id
    connections : st'.connections ≡ st.connections
    is_closed : st'.is_closed ≡ st.is_closed

  abbrev open_at : (ℕ → Bool) → Option ℕ → Bool
  open_at flags none = false
  open_at flags (some a) = not (flags a)

  -- A stream was opened, or nothing changed but the sessions.
  pub data Outcome (b : Bridge q) : Result String × Bridge q → Type 0 where
    refused :
        {b' : Bridge q} (e : IrohBridgeError)
        → (b'.node.endpoint ≡ b.node.endpoint)
          × (b'.node.node_id ≡ b.node.node_id)
          × (b'.node.connections ≡ b.node.connections)
          × (b'.node.is_closed ≡ b.node.is_closed)
          × (b'.next_connection_id ≡ b.next_connection_id)
        → Outcome b (inl e, b')
    opened :
        {b' : Bridge q} (id : String)
        → id ≡ connection_name to_decimal b.next_connection_id
        → is_running n b.node ≡ true
        → is_stream_open n id b'.node ≡ true
        → ((j : String)
            → str_eq id j ≡ false
            → is_stream_open n j b'.node ≡ is_stream_open n j b.node)
        → (b'.node.endpoint ≡ b.node.endpoint) × (b'.node.node_id ≡ b.node.node_id)
        → Outcome b (inr id, b')
