-- ===== src/Node/Lifecycle/StartStop.antt =====
-- What starting and stopping the node leave behind.
use text.Mathlib.Text.{◌==◌ as str_eq}
use text.Mathlib.TextEquality.{eq_iff}
use iroh_react_native_bridge.Base.{
  ℕ, ◌≡◌, refl, Bool, true, false, String, List, [], ◌∷◌, Option, some, ◌⊎◌, inl, inr, arith,
  Option-cases, Bool-cases, ◌∙◌, ap, sym,
}
use iroh_react_native_bridge.HostObject.{lookup}
use iroh_react_native_bridge.Node.Errors.{Result}
use iroh_react_native_bridge.Node.Lifecycle.{
  Network, BridgeState, normalize_alpn_list, bound, bind_endpoint, start, stop, close_all,
  store_closed, register_stream, is_running, node_id, is_stream_open,
}
use iroh_react_native_bridge.Node.Lifecycle.Running.{start_up, start_down}

module _ (n : Network) where
  pub close_all-keeps :
      (connections : List (String × ℕ)) (flags : ℕ → Bool) (a : ℕ)
      → flags a ≡ true
      → close_all n connections flags a ≡ true
  unfolding close_all
  close_all-keeps [] flags a h = h
  close_all-keeps ((id, b) ∷ rest) flags a h =
      close_all-keeps rest (store_closed n b flags) a (ground arith)

  pub close_all-lookup :
      (connections : List (String × ℕ)) (flags : ℕ → Bool) (id : String) (a : ℕ)
      → lookup id connections ≡ some a
      → close_all n connections flags a ≡ true
  unfolding close_all lookup
  close_all-lookup [] flags id a h = absurd (ground arith)
  close_all-lookup ((j, b) ∷ rest) flags id a h = elim (Bool-cases (str_eq j id)) [
    | inl e ↦
        let same : b ≡ a = ground arith in
        close_all-keeps rest (store_closed n b flags) a (ground arith)
    | inr e ↦ close_all-lookup rest (store_closed n b flags) id a (rw e at h)
  ]

  -- `stop` stops everything: the node does not run and has no id afterwards, no identifier names an
  -- open stream, there is no session, and the `closed` flag of a stream that was registered is set.
  pub stop_closes :
      (st : BridgeState n) (id : String) (a : ℕ)
      → lookup id st.connections ≡ some a
      → (is_running n (stop n st) ≡ false)
        × (node_id n (stop n st) ≡ "")
        × ((other : String) → is_stream_open n other (stop n st) ≡ false)
        × ((stop n st).cache.sessions ≡ [])
        × ((stop n st).is_closed a ≡ true)
  unfolding stop is_running node_id is_stream_open lookup
  stop_closes st id a h =
      (refl, refl, λ other. refl, refl, close_all-lookup st.connections st.is_closed id a h)

  bound-inr :
      (alpns : List (List ℕ)) (answer : String ⊎ n.Endpoint) (st st' : BridgeState n)
      → bound n alpns answer st ≡ (inr tt, st')
      → (endpoint : n.Endpoint) × (st'.endpoint ≡ some endpoint)
  unfolding bound
  bound-inr alpns (inl message) st st' h = absurd (ground arith)
  bound-inr alpns (inr endpoint) st st' h = (endpoint, ground arith)

  bind_endpoint-inr :
      (r : Result (List (List ℕ))) (st st' : BridgeState n)
      → bind_endpoint n r st ≡ (inr tt, st')
      → (endpoint : n.Endpoint) × (st'.endpoint ≡ some endpoint)
  unfolding bind_endpoint
  bind_endpoint-inr (inl e) st st' h = absurd (ground arith)
  bind_endpoint-inr (inr alpns) st st' h = bound-inr alpns _ _ st' h

  start-inr :
      (alpns : Option (List String)) (st st' : BridgeState n)
      → start n alpns st ≡ (inr tt, st')
      → (endpoint : n.Endpoint) × (st'.endpoint ≡ some endpoint)
  start-inr alpns st st' h = elim (Option-cases st.endpoint) [
    | inl down ↦
        bind_endpoint-inr (normalize_alpn_list n alpns) st st'
          (sym (start_down n alpns st down) ∙ h)
    | inr (endpoint, up) ↦
        let same : st ≡ st' = ap (λ x. x.1) (sym (start_up n alpns st up) ∙ h) in
        (endpoint, ap (λ s. s.endpoint) (sym same) ∙ up)
  ]

  -- A `start` that succeeds leaves a node that runs, and every further `start`, with any ALPNs,
  -- succeeds and changes nothing.
  pub start_again :
      (alpns others : Option (List String)) (st st' : BridgeState n)
      → start n alpns st ≡ (inr tt, st')
      → (is_running n st' ≡ true) × (start n others st' ≡ (inr tt, st'))
  unfolding is_running
  start_again alpns others st st' h =
      let (endpoint, up) = start-inr alpns st st' h in (ground arith, start_up n others st' up)

  -- A connect that goes on after the node was stopped still registers its stream: `is_stream_open`
  -- says that it is open while `is_running` says that the node does not run.
  pub register_stream-stop :
      (st : BridgeState n) (id : String) (a : ℕ)
      → (is_running n (register_stream n id a (stop n st)) ≡ false)
        × (is_stream_open n id (register_stream n id a (stop n st)) ≡ true)
  unfolding stop register_stream is_running is_stream_open lookup
  register_stream-stop st id a = (refl, ground (arith, eq_iff id id))
