-- ===== src/Node/Lifecycle.antt =====
-- The node's life: start, stop, close, is_running, node_id and is_stream_open of
-- rust/iroh_mobile_bridge/src/lib.rs, with what connect_endpoint_addr does to the shared state.
-- Each operation here runs under the state's lock.
pub mod Running
pub mod StartStop
use text.Mathlib.Text.{◌==◌ as str_eq}
use iroh_react_native_bridge.Base.{
  ℕ, Bool, true, false, not, String, List, [], ◌∷◌, Option, none, some, ◌⊎◌, inl, inr,
  if◌then◌else◌, ◌==◌, length,
}
use iroh_react_native_bridge.HostObject.{lookup}
use iroh_react_native_bridge.Node.Sessions.{Cache, cache_session}
use iroh_react_native_bridge.Node.Errors.{Result, operation_failed, or_operation_failed}

-- What the node calls in iroh, tokio and std: binding an endpoint, its z-base-32 id, closing it,
-- and `str::trim` with `str::as_bytes`.
pub record Network : Type 1 where
  pub Endpoint : Type 0
  pub Connection : Type 0
  pub Outside : Type 0
  pub bind : List (List ℕ) → Outside → (String ⊎ Endpoint) × Outside
  pub to_z32 : Endpoint → String
  pub close_endpoint : Endpoint → Outside → Outside
  pub trim : String → String
  pub as_bytes : String → List ℕ

abbrev pub default_alpn : String
default_alpn = "iroh-rn/1"

module _ (n : Network) where
  -- BridgeState. A stream in `connections` is the address of its `closed` flag, which the stream's
  -- tasks share; `is_closed` is the flags' store.
  pub record BridgeState : Type 0 where
    pub endpoint : Option (n.Endpoint)
    pub node_id : Option String
    pub alpns : List (List ℕ)
    pub cache : Cache (n.Connection)
    pub connections : List (String × ℕ)
    pub is_closed : ℕ → Bool
    pub outside : n.Outside

  unfoldable pub normalize_alpn : String → Result (List ℕ)
  normalize_alpn alpn =
      let value = n.as_bytes (n.trim alpn) in
      if length value == 0 then inl (operation_failed "Iroh ALPN must not be empty") else inr value

  abbrev pub cons_result : Result (List ℕ) → Result (List (List ℕ)) → Result (List (List ℕ))
  cons_result (inl e) rs = inl e
  cons_result (inr v) (inl e) = inl e
  cons_result (inr v) (inr vs) = inr (v ∷ vs)

  -- `collect` into a Result: the first error.
  unfoldable pub normalize_all : List String → Result (List (List ℕ))
  unfolding normalize_alpn
  normalize_all [] = inr []
  normalize_all (a ∷ rest) = cons_result (normalize_alpn a) (normalize_all rest)

  unfoldable pub normalize_alpn_list : Option (List String) → Result (List (List ℕ))
  unfolding normalize_all
  normalize_alpn_list none = normalize_all (default_alpn ∷ [])
  normalize_alpn_list (some []) = inl (operation_failed "At least one Iroh ALPN is required")
  normalize_alpn_list (some (a ∷ rest)) = normalize_all (a ∷ rest)

  -- What `start` does with the answer of `bind`.
  unfoldable pub bound :
      List (List ℕ) → String ⊎ n.Endpoint → BridgeState → Result (Unit {0}) × BridgeState
  bound endpoint_alpns (inl message) st = (inl (operation_failed message), st)
  bound endpoint_alpns (inr endpoint) st = (
    inr tt,
    record st {
      endpoint = some endpoint;
      node_id = some (n.to_z32 endpoint);
      alpns = endpoint_alpns;
    },
  )

  -- `start` where there is no endpoint.
  unfoldable pub bind_endpoint :
      Result (List (List ℕ)) → BridgeState → Result (Unit {0}) × BridgeState
  unfolding bound
  bind_endpoint (inl e) st = (inl e, st)
  bind_endpoint (inr endpoint_alpns) st =
      let (answer, outside) = n.bind endpoint_alpns st.outside in
      bound endpoint_alpns answer (record st { outside = outside })

  unfoldable pub start : Option (List String) → BridgeState → Result (Unit {0}) × BridgeState
  unfolding normalize_alpn_list bind_endpoint
  start alpns st = elim (st.endpoint) [
    | some endpoint ↦ (inr tt, st)
    | none ↦ bind_endpoint (normalize_alpn_list alpns) st
  ]

  -- `connection.closed.store(true)`
  abbrev pub store_closed : ℕ → (ℕ → Bool) → ℕ → Bool
  store_closed a flags b = if b == a then true else flags b

  -- `state.connections.drain()`
  unfoldable pub close_all : List (String × ℕ) → (ℕ → Bool) → ℕ → Bool
  close_all [] flags = flags
  close_all ((id, a) ∷ rest) flags = close_all rest (store_closed a flags)

  abbrev pub close_endpoint : Option (n.Endpoint) → n.Outside → n.Outside
  close_endpoint none outside = outside
  close_endpoint (some endpoint) outside = n.close_endpoint endpoint outside

  -- `stop`, after the TCP forwarders.
  unfoldable pub stop : BridgeState → BridgeState
  unfolding close_all
  stop st = record {
    endpoint = none;
    node_id = none;
    alpns = [];
    cache = record (st.cache) { sessions = [] };
    connections = [];
    is_closed = close_all st.connections st.is_closed;
    outside = close_endpoint st.endpoint st.outside;
  }

  abbrev pub without : String → List (String × ℕ) → List (String × ℕ)
  without id [] = []
  without id ((j, a) ∷ rest) =
      let others = without id rest in if str_eq j id then others else (j, a) ∷ others

  unfoldable pub close : String → BridgeState → BridgeState
  close id st = elim (lookup id st.connections) [
    | none ↦ st
    | some a ↦ record st {
      connections = without id st.connections;
      is_closed = store_closed a st.is_closed;
    }
  ]

  -- The last two parts of `connect_endpoint_addr` that hold the lock: it keeps the session that it
  -- dialled, and then registers a stream with a `closed` flag of its own.
  unfoldable pub keep_session : String → n.Connection → BridgeState → BridgeState
  unfolding cache_session
  keep_session key session st = record st { cache = cache_session key session st.cache }

  unfoldable pub register_stream : String → ℕ → BridgeState → BridgeState
  register_stream id a st = record st {
    connections = (id, a) ∷ without id st.connections;
    is_closed = λ b. if b == a then false else st.is_closed b;
  }

  unfoldable pub is_running : BridgeState → Bool
  is_running st = elim (st.endpoint) [ none ↦ false | some endpoint ↦ true ]

  -- `unwrap_or_default`
  unfoldable pub node_id : BridgeState → String
  node_id st = elim (st.node_id) [ none ↦ "" | some id ↦ id ]

  unfoldable pub is_stream_open : String → BridgeState → Bool
  is_stream_open id st = elim (lookup id st.connections) [
    | none ↦ false
    | some a ↦ not (st.is_closed a)
  ]
