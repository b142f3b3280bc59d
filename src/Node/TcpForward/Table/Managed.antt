-- ===== src/Node/TcpForward/Table/Managed.antt =====
-- No forwarder is lost: one that listens can be named, and so be stopped.
use text.Mathlib.Text.{◌==◌ as str_eq}
use text.Mathlib.TextEquality.{eq_iff}
use text.Mathlib.TextLemmas.{append_cancel_left}
use iroh_react_native_bridge.Base.{
  ℕ, ◌+◌, ◌≤◌, ◌<◌, ◌^◌, ◌%◌, ◌≡◌, refl, sym, ◌∙◌, ap, true, false, String, List, [], ◌∷◌, none,
  some, ◌⊎◌, inl, inr, if◌then◌else◌, ◌==◌, ltb, arith, Bool-cases, Option-cases,
}
use iroh_react_native_bridge.HostObject.{lookup}
use iroh_react_native_bridge.Node.Errors.{Result}
use iroh_react_native_bridge.Node.Targets.{Dial}
use iroh_react_native_bridge.Node.Lifecycle.{Network, BridgeState, without, store_closed}
use iroh_react_native_bridge.Node.Lifecycle.StartStop.{close_all-keeps, close_all-lookup}
use iroh_react_native_bridge.Node.TcpForward.{default_state}
use iroh_react_native_bridge.Node.TcpForward.Table.{
  TcpForwarderOptions, Forwarders, Route, forwarder_name, insert_forwarder, routed, listened,
  route_of, start_tcp_forwarder, stop_tcp_forwarder, stop_all_tcp_forwarders,
}

module _ (n : Network) where
  pub lookup-without :
      (id k : String) (m : List (String × ℕ))
      → lookup k (without n id m) ≡ (if str_eq id k then none else lookup k m)
  unfolding lookup
  lookup-without id k [] = ground arith
  lookup-without id k ((j, a) ∷ rest) =
      ground (arith, eq_iff j id, eq_iff j k, eq_iff id k, lookup-without id k rest)

-- A decimal is of one number.
abbrev pub Injective : (ℕ → String) → Type 0
Injective to_decimal = (a b : ℕ) → to_decimal a ≡ to_decimal b → a ≡ b

pub forwarder_name-Injective :
    (to_decimal : ℕ → String)
    → Injective to_decimal
    → (a b : ℕ) → forwarder_name to_decimal a ≡ forwarder_name to_decimal b
    → a ≡ b
forwarder_name-Injective to_decimal injective a b h =
    injective a b (append_cancel_left "tcp-forwarder-" (to_decimal a) (to_decimal b) h)

module _ (name : ℕ → String) where
  -- A forwarder that can be named is there under its own name and was not told to stop, and one
  -- that was started was told to stop or can be named.
  pub record IsManaged (fs : Forwarders) : Type 0 where
    pub known :
        (id : String) (a : ℕ)
        → lookup id fs.forwarders ≡ some a
        → (a < fs.next_forwarder_id) × (name a ≡ id) × (fs.stop_sent a ≡ false)
    pub managed :
        (a : ℕ)
        → 1 ≤ a
        → a < fs.next_forwarder_id
        → (fs.stop_sent a ≡ true) ⊎ (lookup (name a) fs.forwarders ≡ some a)

module _ (d : Dial) (n : Network) (name : ℕ → String) (injective : Injective name) where
  abbrev pub table : ℕ → Forwarders → List (String × ℕ)
  table number fs = (name number, number) ∷ without n (name number) fs.forwarders

  pub lookup-table :
      (number : ℕ) (fs : Forwarders) (k : String)
      → lookup k (table number fs)
        ≡ (if str_eq (name number) k then some number else lookup k fs.forwarders)
  unfolding lookup
  lookup-table number fs k = ground (arith, lookup-without n (name number) k fs.forwarders)

  older_of_other :
      (number a : ℕ) → a < number + 1 → str_eq (name number) (name a) ≡ false → a < number
  older_of_other number a below e = elim (Bool-cases (ltb a number)) [
    | inl h ↦ ground arith
    | inr h ↦
        let same : number ≡ a = ground arith in
        absurd (ground (arith, (eq_iff (name number) (name a)).1 (ap name same)))
  ]

  -- What a start leaves, in the fields that matter here.
  started-IsManaged :
      (fs fs' : Forwarders)
      → fs.next_forwarder_id + 1 < 2 ^ 64
      → IsManaged name fs
      → fs'.forwarders ≡ table fs.next_forwarder_id fs
      → ((b : ℕ) → fs'.stop_sent b ≡ (if b == fs.next_forwarder_id then false else fs.stop_sent b))
      → fs'.next_forwarder_id ≡ (fs.next_forwarder_id + 1) % 2 ^ 64
      → IsManaged name fs'
  started-IsManaged fs fs' small v made flags more =
      let number = fs.next_forwarder_id in
      let look = λ (k : String). ap (lookup k) made ∙ lookup-table number fs k in
      record {
        known = λ id a h. elim (Bool-cases (str_eq (name number) id)) [
          | inl e ↦
              let same : number ≡ a = ground (arith, look id) in
              (
                omega arith,
                ap name (sym same) ∙ (eq_iff (name number) id).0 e,
                ground (arith, flags a),
              )
          | inr e ↦
              let there : lookup id fs.forwarders ≡ some a = ground (arith, look id) in
              let (below, named, open_still) = v.known id a there in
              (omega arith, named, ground (arith, flags a))
        ];
        managed = λ a from below. elim (Bool-cases (str_eq (name number) (name a))) [
          | inl e ↦
              let same : number ≡ a = injective number a ((eq_iff (name number) (name a)).0 e) in
              inr (look (name a) ∙ rw e (ap some same))
          | inr e ↦
              let older : a < number = older_of_other number a (omega arith) e in
              elim (v.managed a from older) [
                | inl sent ↦ inl (ground (arith, flags a))
                | inr there ↦ inr (look (name a) ∙ rw e there)
              ]
        ];
      }

  -- Not named any more, and told to stop.
  removed-IsManaged :
      (id : String) (a : ℕ) (fs : Forwarders)
      → lookup id fs.forwarders ≡ some a
      → IsManaged name fs
      → IsManaged name (record fs {
        forwarders = without n id fs.forwarders;
        stop_sent = store_closed n a fs.stop_sent;
      })
  removed-IsManaged id a fs there v =
      let (_, own, _) = v.known id a there in
      record {
        known = λ k b h. elim (Bool-cases (str_eq id k)) [
          | inl e ↦ absurd (ground (arith, lookup-without n id k fs.forwarders))
          | inr e ↦
              let (below, named, open_still) =
                v.known k b (ground (arith, lookup-without n id k fs.forwarders)) in
              let other : (b == a) ≡ false = ground (arith, ap name, (eq_iff id k).1) in
              (below, named, ground arith)
        ];
        managed = λ b from below. elim (v.managed b from below) [
          | inl sent ↦ inl (ground arith)
          | inr named ↦ elim (Bool-cases (str_eq id (name b))) [
            | inl e ↦
                let same : b ≡ a = ground (arith, (eq_iff id (name b)).0 e) in inl (ground arith)
            | inr e ↦ inr (lookup-without n id (name b) fs.forwarders ∙ rw e named)
          ]
        ];
      }

  stop_tcp_forwarder-IsManaged :
      (id : String) (fs : Forwarders)
      → IsManaged name fs
      → IsManaged name (stop_tcp_forwarder d n id fs)
  unfolding stop_tcp_forwarder
  stop_tcp_forwarder-IsManaged id fs v = elim (Option-cases (lookup id fs.forwarders)) [
    | inl e ↦ rw (e, stop_tcp_forwarder) v
    | inr (a, e) ↦ rw (e, stop_tcp_forwarder) (removed-IsManaged id a fs e v)
  ]

  stop_all-IsManaged :
      (fs : Forwarders) → IsManaged name fs → IsManaged name (stop_all_tcp_forwarders d n fs)
  unfolding stop_all_tcp_forwarders lookup
  stop_all-IsManaged fs v = record {
    known = λ id a h. absurd (ground arith);
    managed = λ a from below. elim (v.managed a from below) [
      | inl sent ↦ inl (close_all-keeps n fs.forwarders fs.stop_sent a sent)
      | inr there ↦ inl (close_all-lookup n fs.forwarders fs.stop_sent (name a) a there)
    ];
  }

-- What may happen to the table, in any order, whatever the node's state is at each start.
module _ (d : Dial) (n : Network) (to_decimal : ℕ → String) where
  pub data Step (fs : Forwarders) : Forwarders → Type 0 where
    starts :
        (listen : ℕ → String ⊎ ℕ) (options : TcpForwarderOptions) (st : BridgeState n)
        → fs.next_forwarder_id + 1 < 2 ^ 64
        → Step fs (start_tcp_forwarder d n to_decimal listen options st fs).1
    stops : (id : String) → Step fs (stop_tcp_forwarder d n id fs)
    stops_all : Step fs (stop_all_tcp_forwarders d n fs)

  abbrev pub no_forwarders : Forwarders
  no_forwarders = record {
    forwarders = [];
    stop_sent = λ a. false;
    stats = λ a. default_state;
    next_forwarder_id = 1;
  }

  pub data Reach : Forwarders → Type 0 where
    here : Reach no_forwarders
    next : {fs gs : Forwarders} → Reach fs → Step fs gs → Reach gs

  abbrev Managed : Forwarders → Type 0
  Managed = IsManaged (forwarder_name to_decimal)

  module _ (injective : Injective to_decimal) where
    names : Injective (forwarder_name to_decimal)
    names = forwarder_name-Injective to_decimal injective

    listened-Managed :
        (listen : ℕ → String ⊎ ℕ) (answer : String ⊎ ℕ) (fs : Forwarders)
        → fs.next_forwarder_id + 1 < 2 ^ 64
        → Managed fs
        → Managed (listened d n to_decimal listen answer fs).1
    unfolding insert_forwarder
    listened-Managed listen (inl message) fs small v = v
    listened-Managed listen (inr port) fs small v =
        started-IsManaged d n (forwarder_name to_decimal) names fs _ small v refl (λ b. refl) refl

    routed-Managed :
        (listen : ℕ → String ⊎ ℕ) (port : ℕ) (route : Result (Route d n)) (fs : Forwarders)
        → fs.next_forwarder_id + 1 < 2 ^ 64
        → Managed fs
        → Managed (routed d n to_decimal listen port route fs).1
    routed-Managed listen port (inl e) fs small v = v
    routed-Managed listen port (inr route) fs small v =
        listened-Managed listen (listen port) fs small v

    Step-Managed : {fs gs : Forwarders} → Managed fs → Step fs gs → Managed gs
    unfolding start_tcp_forwarder
    Step-Managed {fs} v (starts listen options st small) =
        routed-Managed listen options.listen_port (route_of d n options st.endpoint) fs small v
    Step-Managed {fs} v (stops id) =
        stop_tcp_forwarder-IsManaged d n (forwarder_name to_decimal) names id fs v
    Step-Managed {fs} v stops_all = stop_all-IsManaged d n (forwarder_name to_decimal) names fs v

    -- Whatever forwarders start and stop, in whatever order: a name in the table is that of a
    -- forwarder that was started and not told to stop, and a forwarder that was started is in the
    -- table under its name or was told to stop, so that none listens that cannot be stopped. Fewer
    -- than 2^64 are started, and numbers differ in decimal.
    pub Reach-IsManaged : {fs : Forwarders} → Reach fs → IsManaged (forwarder_name to_decimal) fs
    unfolding lookup
    Reach-IsManaged here = record {
      known = λ id a h. absurd (ground arith);
      managed = λ a from below. absurd (omega arith);
    }
    Reach-IsManaged (next r step) = Step-Managed (Reach-IsManaged r) step
