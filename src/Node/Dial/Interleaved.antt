-- ===== src/Node/Dial/Interleaved.antt =====
-- Every order of the parts of connect, of the forwarder's session, of start, stop and close.
use mathlib.Core.Path.{subst}
use iroh_react_native_bridge.Base.{
  ℕ, zero, suc, String, List, [], ◌∷◌, Option, none, some, ◌⊎◌, inl, inr, ◌≡◌, refl, sym, All,
  arith, Option-cases, get_elem?,
}
use iroh_react_native_bridge.HostObject.{lookup}
use iroh_react_native_bridge.Node.Errors.{Result}
use iroh_react_native_bridge.Node.Targets
use iroh_react_native_bridge.Node.Sessions.{Cache, use_session}
use iroh_react_native_bridge.Node.Sessions.Reuse.{
  AllSessions, Taken, use_session-Taken, take_session-Taken, AllSessions-cache_session,
}
use iroh_react_native_bridge.Node.Lifecycle.{
  Network, BridgeState, start, bound, bind_endpoint, normalize_alpn_list, stop, close, store_closed,
  keep_session, register_stream,
}
use iroh_react_native_bridge.Node.Lifecycle.Running.{start_up, start_down}
use iroh_react_native_bridge.Node.Dial.{Quic, done, session_key, with_endpoint, take_endpoint}
use iroh_react_native_bridge.Node.Dial.Peer.{
  AreBytes, QuicLaws, IsOf, dialled-IsOf, session_key_inj,
}

-- The shared state, and the sessions that calls under way hold, each with its key.
pub record Shared (n : Network) : Type 0 where
  pub node : BridgeState n
  pub held : List (String × n.Connection)

abbrev pub also_held : {C : Type 0} → String → Option C → List (String × C) → List (String × C)
also_held key none held = held
also_held key (some c) held = (key, c) ∷ held

module _ {d : Targets.Dial} {n : Network} (q : Quic d n) where
  abbrev pub cached_of : Result (n.Endpoint × Option n.Connection) → Option n.Connection
  cached_of (inl e) = none
  cached_of (inr (endpoint, cached)) = cached

  abbrev pub used_by_forwarder : String → BridgeState n → Option n.Connection × Cache n.Connection
  used_by_forwarder key st = use_session (λ c. q.is_closed c st.outside) key st.cache

  -- `taking` is the first locked part of connect_endpoint_addr and `using` that of the forwarder's
  -- session; `keeping` is cache_session with a session that was taken, used or dialled at any time.
  pub data Step (s : Shared n) : Shared n → Type 0 where
    starting :
        (alpns : Option (List String)) → Step s (record s { node = (start n alpns s.node).1 })
    stopping : Step s (record s { node = stop n s.node })
    closing : (id : String) → Step s (record s { node = close n id s.node })
    registering : (id : String) (a : ℕ) → Step s (record s { node = register_stream n id a s.node })
    task_ends :
        (a : ℕ)
        → Step s
            (record s { node = record (s.node) { is_closed = store_closed n a s.node.is_closed } })
    elsewhere :
        (outside : n.Outside) → Step s (record s { node = record (s.node) { outside = outside } })
    taking :
        (key : String)
        → Step s (record s {
          node = (take_endpoint q key s.node).1;
          held = also_held key (cached_of (take_endpoint q key s.node).0) s.held;
        })
    using :
        (key : String)
        → Step s (record s {
          node = record (s.node) { cache = (used_by_forwarder key s.node).1 };
          held = also_held key (used_by_forwarder key s.node).0 s.held;
        })
    dialling :
        (endpoint : n.Endpoint) (addr : d.EndpointAddr) (alpn : List ℕ) (timeout : ℕ)
        (o outside : n.Outside) (c : n.Connection)
        → AreBytes alpn
        → q.connect endpoint addr alpn timeout o ≡ (done c, outside)
        → Step s (record s {
          node = record (s.node) { outside = outside };
          held = (session_key q (d.id_of addr) alpn, c) ∷ s.held;
        })
    keeping :
        (i : ℕ) (key : String) (c : n.Connection)
        → get_elem? s.held i ≡ some (key, c)
        → Step s (record s { node = keep_session n key c s.node })

  pub data Reach (st : BridgeState n) : Shared n → Type 0 where
    here : Reach st (record { node = st; held = [] })
    next : {s t : Shared n} → Reach st s → Step s t → Reach st t

  module _ (laws : QuicLaws q) where
    abbrev pub Sessions : BridgeState n → Type 0
    Sessions st = AllSessions (IsOf q laws) st.cache.sessions

    abbrev pub Held : List (String × n.Connection) → Type 0
    Held held = All (λ e. IsOf q laws e.0 e.1) held

    bound-Sessions :
        (alpns : List (List ℕ)) (answer : String ⊎ n.Endpoint) (st : BridgeState n)
        → Sessions st
        → Sessions (bound n alpns answer st).1
    unfolding bound
    bound-Sessions alpns (inl message) st h = h
    bound-Sessions alpns (inr endpoint) st h = h

    bind_endpoint-Sessions :
        (r : Result (List (List ℕ))) (st : BridgeState n)
        → Sessions st
        → Sessions (bind_endpoint n r st).1
    unfolding bind_endpoint
    bind_endpoint-Sessions (inl e) st h = h
    bind_endpoint-Sessions (inr alpns) st h = bound-Sessions alpns _ _ h

    start-Sessions :
        (alpns : Option (List String)) (st : BridgeState n)
        → Sessions st
        → Sessions (start n alpns st).1
    start-Sessions alpns st h = elim (Option-cases st.endpoint) [
      | inl down ↦
          subst (λ x. Sessions x.1) (sym (start_down n alpns st down))
            (bind_endpoint-Sessions (normalize_alpn_list n alpns) st h)
      | inr (endpoint, up) ↦ subst (λ x. Sessions x.1) (sym (start_up n alpns st up)) h
    ]

    close-Sessions : (id : String) (st : BridgeState n) → Sessions st → Sessions (close n id st)
    unfolding close
    close-Sessions id st h = elim (Option-cases (lookup id st.connections)) [
      | inl e ↦ rw (e, close) h
      | inr (a, e) ↦ rw (e, close) h
    ]

    also_held-Held :
        (key : String) (o : Option n.Connection) (held : List (String × n.Connection))
        → ((c : n.Connection) → o ≡ some c → IsOf q laws key c)
        → Held held
        → Held (also_held key o held)
    also_held-Held key none held new h = h
    also_held-Held key (some c) held new h = (new c refl, h)

    -- What with_endpoint leaves.
    with_endpoint-Sessions :
        (endpoint : Option n.Endpoint) (key : String) (x : Option n.Connection × Cache n.Connection)
        (st : BridgeState n)
        → Taken (IsOf q laws) key x
        → Sessions st
        → Sessions (with_endpoint q endpoint x st).1
          × ((c : n.Connection)
              → cached_of (with_endpoint q endpoint x st).0 ≡ some c
              → IsOf q laws key c)
    with_endpoint-Sessions none key x st new h = (h, λ c e. absurd (ground arith))
    with_endpoint-Sessions (some endpoint) key (o, cache) st new h = (new.1, new.0)

    take_endpoint-Sessions :
        (key : String) (st : BridgeState n)
        → Sessions st
        → Sessions (take_endpoint q key st).1
          × ((c : n.Connection) → cached_of (take_endpoint q key st).0 ≡ some c → IsOf q laws key c)
    unfolding take_endpoint
    take_endpoint-Sessions key st h =
        with_endpoint-Sessions st.endpoint key _ st
          (take_session-Taken (IsOf q laws) (λ c. q.is_closed c st.outside) key st.cache h) h

    Held-get_elem? :
        (held : List (String × n.Connection)) (i : ℕ) (key : String) (c : n.Connection)
        → Held held
        → get_elem? held i ≡ some (key, c)
        → IsOf q laws key c
    Held-get_elem? [] i key c h e = absurd (ground arith)
    Held-get_elem? (x ∷ rest) zero key c h e =
        let same : x ≡ (key, c) = ground arith in subst (λ p. IsOf q laws p.0 p.1) same h.0
    Held-get_elem? (x ∷ rest) (suc i) key c h e = Held-get_elem? rest i key c h.1 e

    Step-Sessions :
        {s t : Shared n} → Sessions s.node × Held s.held → Step s t → Sessions t.node × Held t.held
    unfolding stop register_stream keep_session
    Step-Sessions {s} h (starting alpns) = (start-Sessions alpns s.node h.0, h.1)
    Step-Sessions {s} h stopping = (tt, h.1)
    Step-Sessions {s} h (closing id) = (close-Sessions id s.node h.0, h.1)
    Step-Sessions {s} h (registering id a) = h
    Step-Sessions {s} h (task_ends a) = h
    Step-Sessions {s} h (elsewhere outside) = h
    Step-Sessions {s} h (taking key) =
        let (left, new) = take_endpoint-Sessions key s.node h.0 in
        (left, also_held-Held key (cached_of (take_endpoint q key s.node).0) s.held new h.1)
    Step-Sessions {s} h (using key) =
        let (new, left) =
          use_session-Taken (IsOf q laws) (λ c. q.is_closed c s.node.outside) key s.node.cache
            h.0 in
        (left, also_held-Held key (used_by_forwarder key s.node).0 s.held new h.1)
    Step-Sessions {s} h (dialling endpoint addr alpn timeout o outside c bytes e) =
        (h.0, (dialled-IsOf q laws endpoint addr alpn timeout o outside c bytes e, h.1))
    Step-Sessions {s} h (keeping i key c e) = (
      AllSessions-cache_session (IsOf q laws) key c s.node.cache
          (Held-get_elem? s.held i key c h.1 e) h.0,
      h.1,
    )

    Reach-Sessions :
        {st : BridgeState n} {s : Shared n}
        → st.cache.sessions ≡ []
        → Reach st s
        → Sessions s.node × Held s.held
    Reach-Sessions {st} none_yet here = (subst (AllSessions (IsOf q laws)) (sym none_yet) tt, tt)
    Reach-Sessions none_yet (next r step) = Step-Sessions (Reach-Sessions none_yet r) step

    -- No stream is opened to a node, or for an ALPN, other than the ones asked for: whatever calls
    -- of connect, of the forwarder's session, of start, stop and close run, and however their parts
    -- interleave, a session that was taken, used or dialled for a node and an ALPN is with that
    -- node and of that ALPN. The node begins with no session.
    pub Reach-peer :
        {st : BridgeState n} {s : Shared n} (i : ℕ) (id : d.EndpointId) (alpn : List ℕ)
        (c : n.Connection)
        → st.cache.sessions ≡ []
        → AreBytes alpn
        → Reach st s
        → get_elem? s.held i ≡ some (session_key q id alpn, c)
        → (laws.node_of c ≡ id) × (laws.alpn_of c ≡ alpn)
    Reach-peer {s = s} i id alpn c none_yet bytes r e =
        let (same, are_bytes) =
          Held-get_elem? s.held i (session_key q id alpn) c (Reach-Sessions none_yet r).1 e in
        session_key_inj q laws _ id _ alpn are_bytes bytes same
