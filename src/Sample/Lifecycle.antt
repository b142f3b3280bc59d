-- ===== src/Sample/Lifecycle.antt =====
-- The theorems on the node's life, applied to a network that binds every endpoint.
use iroh_react_native_bridge.Base.{ℕ, ◌+◌, ◌≡◌, refl, false, [], ◌∷◌, none, some, inr}
use iroh_react_native_bridge.Node.Lifecycle.{
  Network, BridgeState, start, node_id, normalize_alpn_list, normalize_all, normalize_alpn,
  bind_endpoint, bound,
}
use iroh_react_native_bridge.HostObject.{lookup}

abbrev pub network : Network
network = record {
  Endpoint = ℕ;
  Connection = ℕ;
  Outside = ℕ;
  bind = λ alpns o. (inr o, o + 1);
  to_z32 = λ e. "qv47olqig7";
  close_endpoint = λ e o. o;
  trim = λ s. s;
  as_bytes = λ s. 105 ∷ 114 ∷ [];
}

abbrev pub stopped : BridgeState network
stopped = record {
  endpoint = none;
  node_id = none;
  alpns = [];
  cache = record { sessions = []; next_session_use = 1 };
  connections = [];
  is_closed = λ a. false;
  outside = 40;
}

abbrev pub started : BridgeState network
started = record stopped {
  endpoint = some 40;
  node_id = some "qv47olqig7";
  alpns = (105 ∷ 114 ∷ []) ∷ [];
  outside = 41;
}

start_test : start network none stopped ≡ (inr tt, started)
unfolding start normalize_alpn_list normalize_all normalize_alpn bind_endpoint bound
start_test = refl

-- A stream with its flag at address 3.
abbrev streaming : BridgeState network
streaming = record started { connections = ("iroh-1", 3) ∷ [] }

lookup_test : lookup "iroh-1" streaming.connections ≡ some 3
unfolding lookup
lookup_test = refl
