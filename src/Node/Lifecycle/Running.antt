-- ===== src/Node/Lifecycle/Running.antt =====
-- What the node says of itself, after any events.
use iroh_react_native_bridge.Base.{
  ℕ, ◌<◌, ◌≡◌, String, List, [], Option, none, some, inr, length, arith,
}
use iroh_react_native_bridge.Node.Lifecycle.{
  Network, BridgeState, normalize_alpn_list, bind_endpoint, start, stop, close, store_closed,
  keep_session, register_stream, node_id,
}

module _ (n : Network) where
  -- One event on the shared state. `task_ends` is a stream's reader or writer that stops, and
  -- `elsewhere` is anything outside the bridge.
  pub data Step (st : BridgeState n) : BridgeState n → Type 0 where
    starting : (alpns : Option (List String)) → Step st (start n alpns st).1
    stopping : Step st (stop n st)
    closing : (id : String) → Step st (close n id st)
    keeping : (key : String) (session : n.Connection) → Step st (keep_session n key session st)
    registering : (id : String) (a : ℕ) → Step st (register_stream n id a st)
    task_ends : (a : ℕ) → Step st (record st { is_closed = store_closed n a st.is_closed })
    elsewhere : (outside : n.Outside) → Step st (record st { outside = outside })

  pub data Reach (st : BridgeState n) : BridgeState n → Type 0 where
    here : Reach st st
    next : {t u : BridgeState n} → Reach st t → Step t u → Reach st u

  -- The node's id and its ALPNs go with its endpoint.
  abbrev pub Agree : Option (n.Endpoint) → Option String → List (List ℕ) → Type 0
  Agree none id alpns = (id ≡ none) × (alpns ≡ [])
  Agree (some endpoint) id alpns = (id ≡ some (n.to_z32 endpoint)) × (0 < length alpns)

  abbrev pub IsConsistent : BridgeState n → Type 0
  IsConsistent st = Agree st.endpoint st.node_id st.alpns

  pub start_up :
      (alpns : Option (List String)) (st : BridgeState n) {endpoint : n.Endpoint}
      → st.endpoint ≡ some endpoint
      → start n alpns st ≡ (inr tt, st)
  unfolding start
  start_up alpns st h = ground arith

  pub start_down :
      (alpns : Option (List String)) (st : BridgeState n)
      → st.endpoint ≡ none
      → start n alpns st ≡ bind_endpoint n (normalize_alpn_list n alpns) st
  unfolding start
  start_down alpns st h = ground arith
