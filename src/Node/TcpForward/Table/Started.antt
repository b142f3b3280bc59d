-- ===== src/Node/TcpForward/Table/Started.antt =====
-- What starting and stopping one forwarder does to what is read of all of them.
use mathlib.Core.Path.{subst}
use text.Mathlib.Text.{◌==◌ as str_eq}
use text.Mathlib.TextEquality.{eq_iff}
use iroh_react_native_bridge.Base.{
  ℕ, ◌<◌, ◌≡◌, refl, sym, ◌∙◌, ap, Bool, true, false, String, List, Option, none, some, ◌⊎◌, inl,
  inr, if◌then◌else◌, ◌==◌, arith, Bool-cases, Option-cases,
}
use iroh_react_native_bridge.HostObject.{lookup}
use iroh_react_native_bridge.Node.Errors.{Result, not_connected}
use iroh_react_native_bridge.Node.Targets.{Dial}
use iroh_react_native_bridge.Node.Lifecycle.{Network, BridgeState}
use iroh_react_native_bridge.Node.TcpForward.{
  StatsState, TcpForwarderStats, default_stats, default_state,
}
use iroh_react_native_bridge.Node.TcpForward.Table.{
  TcpForwarderOptions, TcpForwarderInfo, Forwarders, Route, forwarder_name, insert_forwarder,
  routed, listened, route_of, start_tcp_forwarder, stop_tcp_forwarder, tcp_forwarder_stats,
}
use iroh_react_native_bridge.Node.TcpForward.Table.Managed.{
  Injective, IsManaged, Reach, Reach-IsManaged, lookup-without, lookup-table,
  forwarder_name-Injective,
}

abbrev stats_at : (ℕ → StatsState) → Option ℕ → Result TcpForwarderStats
stats_at stats none = inl not_connected
stats_at stats (some a) = inr ((stats a).stats)

module _ (d : Dial) (n : Network) where
  tcp_forwarder_stats-lookup :
      (id : String) (fs : Forwarders)
      → tcp_forwarder_stats d n id fs ≡ stats_at fs.stats (lookup id fs.forwarders)
  unfolding tcp_forwarder_stats
  tcp_forwarder_stats-lookup id fs = elim (Option-cases (lookup id fs.forwarders)) [
    | inl e ↦ rw (e, tcp_forwarder_stats) refl
    | inr (a, e) ↦ rw (e, tcp_forwarder_stats) refl
  ]

  lookup-missing :
      (id j : String) (m : List (String × ℕ))
      → lookup id m ≡ none
      → lookup j m ≡ (if str_eq id j then none else lookup j m)
  lookup-missing id j m e = elim (Bool-cases (str_eq id j)) [
    | inl same ↦ rw same (ap (λ k. lookup k m) (sym ((eq_iff id j).0 same)) ∙ e)
    | inr other ↦ rw other refl
  ]

  -- A stop takes the name out, and leaves the counters.
  stop_tcp_forwarder-lookup :
      (id j : String) (fs : Forwarders)
      → (lookup j (stop_tcp_forwarder d n id fs).forwarders
          ≡ (if str_eq id j then none else lookup j fs.forwarders))
        × ((stop_tcp_forwarder d n id fs).stats ≡ fs.stats)
  unfolding stop_tcp_forwarder
  stop_tcp_forwarder-lookup id j fs = elim (Option-cases (lookup id fs.forwarders)) [
    | inl e ↦ (
      rw (e, stop_tcp_forwarder) (lookup-missing id j fs.forwarders e),
      rw (e, stop_tcp_forwarder) refl,
    )
    | inr (a, e) ↦ (
      rw (e, stop_tcp_forwarder) (lookup-without n id j fs.forwarders),
      rw (e, stop_tcp_forwarder) refl,
    )
  ]

  stats_at-if :
      (stats : ℕ → StatsState) (b : Bool) (found : Option ℕ)
      → stats_at stats (if b then none else found)
        ≡ (if b then inl not_connected else stats_at stats found)
  stats_at-if stats true found = refl
  stats_at-if stats false found = refl

  -- Stopping a forwarder makes its name unknown, and what is read of any other is as it was.
  stop_tcp_forwarder-stats :
      (id j : String) (fs : Forwarders)
      → tcp_forwarder_stats d n j (stop_tcp_forwarder d n id fs)
        ≡ (if str_eq id j then inl not_connected else tcp_forwarder_stats d n j fs)
  stop_tcp_forwarder-stats id j fs =
      let (named, counters) = stop_tcp_forwarder-lookup id j fs in
      tcp_forwarder_stats-lookup j (stop_tcp_forwarder d n id fs)
      ∙ ap (stats_at (stop_tcp_forwarder d n id fs).stats) named
      ∙ ap (λ s. stats_at s (if str_eq id j then none else lookup j fs.forwarders)) counters
      ∙ stats_at-if fs.stats (str_eq id j) (lookup j fs.forwarders)
      ∙ ap (λ r. if str_eq id j then inl not_connected else r)
          (sym (tcp_forwarder_stats-lookup j fs))

module _ (d : Dial) (n : Network) (to_decimal : ℕ → String) (injective : Injective to_decimal) where
  -- What is read after `info` was started.
  abbrev Reads : TcpForwarderInfo → Forwarders → Forwarders → Type 0
  Reads info fs gs =
      (tcp_forwarder_stats d n info.id gs ≡ inr default_stats)
      × ((j : String)
          → str_eq info.id j ≡ false
          → tcp_forwarder_stats d n j gs ≡ tcp_forwarder_stats d n j fs)

  older_stats :
      (fs gs : Forwarders) (found : Option ℕ)
      → ((a : ℕ) → found ≡ some a → a < fs.next_forwarder_id)
      → ((b : ℕ) → gs.stats b ≡ (if b == fs.next_forwarder_id then default_state else fs.stats b))
      → stats_at gs.stats found ≡ stats_at fs.stats found
  older_stats fs gs none below counters = refl
  older_stats fs gs (some a) below counters =
      let before = below a refl in
      let kept : gs.stats a ≡ fs.stats a = ground (arith, counters a) in
      ap (λ s. inr (s.stats)) kept

  info_of : ℕ → ℕ → TcpForwarderInfo
  info_of number port = record { id = forwarder_name to_decimal number; port = port }

  insert_forwarder-Reads :
      (listen : ℕ → String ⊎ ℕ) (port : ℕ) (fs : Forwarders)
      → IsManaged (forwarder_name to_decimal) fs
      → Reads
          (info_of fs.next_forwarder_id port)
          fs
          (insert_forwarder d n to_decimal listen port fs).1
  unfolding insert_forwarder info_of
  insert_forwarder-Reads listen port fs v =
      let number = fs.next_forwarder_id in
      let gs = (insert_forwarder d n to_decimal listen port fs).1 in
      let name = forwarder_name to_decimal in
      let look = λ (k : String).
        lookup-table d n name (forwarder_name-Injective to_decimal injective) number fs k in
      let mine : lookup (name number) gs.forwarders ≡ some number =
        look (name number) ∙ rw ((eq_iff (name number) (name number)).1 refl) refl in
      let kept : (j : String)
          → str_eq (name number) j ≡ false
          → lookup j gs.forwarders ≡ lookup j fs.forwarders =
        λ j other. look j ∙ rw other refl in
      let zeros : stats_at gs.stats (some number) ≡ inr default_stats = ground arith in
      (
        tcp_forwarder_stats-lookup d n (name number) gs ∙ ap (stats_at gs.stats) mine ∙ zeros,
        λ j other.
            tcp_forwarder_stats-lookup d n j gs
            ∙ ap (stats_at gs.stats) (kept j other)
            ∙ older_stats fs gs (lookup j fs.forwarders) (λ a e. (v.known j a e).0) (λ b. refl)
            ∙ sym (tcp_forwarder_stats-lookup d n j fs),
      )

  same_info : (i j : TcpForwarderInfo) (r : Result TcpForwarderInfo) → r ≡ inr i → r ≡ inr j → i ≡ j
  same_info i j r h k = ground arith

  listened-Reads :
      (listen : ℕ → String ⊎ ℕ) (answer : String ⊎ ℕ) (fs : Forwarders) (info : TcpForwarderInfo)
      (gs : Forwarders)
      → IsManaged (forwarder_name to_decimal) fs
      → listened d n to_decimal listen answer fs ≡ (inr info, gs)
      → Reads info fs gs
  unfolding insert_forwarder info_of
  listened-Reads listen (inl message) fs info gs v h = absurd (ground arith)
  listened-Reads listen (inr port) fs info gs v h =
      subst (λ i. Reads i fs gs)
        (same_info (info_of fs.next_forwarder_id port) info _ refl (ap (λ x. x.0) h))
        (subst (Reads (info_of fs.next_forwarder_id port) fs) (ap (λ x. x.1) h)
          (insert_forwarder-Reads listen port fs v))

  routed-Reads :
      (listen : ℕ → String ⊎ ℕ) (port : ℕ) (route : Result (Route d n)) (fs : Forwarders)
      (info : TcpForwarderInfo) (gs : Forwarders)
      → IsManaged (forwarder_name to_decimal) fs
      → routed d n to_decimal listen port route fs ≡ (inr info, gs)
      → Reads info fs gs
  routed-Reads listen port (inl e) fs info gs v h = absurd (ground arith)
  routed-Reads listen port (inr route) fs info gs v h =
      listened-Reads listen (listen port) fs info gs v h

  -- A forwarder that was started in a table that can be reached is read with counters of 0 under
  -- the id that the start gave, and what is read of every other id is as it was; once it is stopped
  -- its id is NotConnected, and what is read of every other id is still as it was. Numbers differ
  -- in decimal.
  pub start_tcp_forwarder-stop_tcp_forwarder :
      (listen : ℕ → String ⊎ ℕ) (options : TcpForwarderOptions) (st : BridgeState n)
      (fs gs : Forwarders) (info : TcpForwarderInfo)
      → Reach d n to_decimal fs
      → start_tcp_forwarder d n to_decimal listen options st fs ≡ (inr info, gs)
      → (tcp_forwarder_stats d n info.id gs ≡ inr default_stats)
        × (tcp_forwarder_stats d n info.id (stop_tcp_forwarder d n info.id gs) ≡ inl not_connected)
        × ((j : String)
            → str_eq info.id j ≡ false
            → (tcp_forwarder_stats d n j gs ≡ tcp_forwarder_stats d n j fs)
              × (tcp_forwarder_stats d n j (stop_tcp_forwarder d n info.id gs)
                  ≡ tcp_forwarder_stats d n j fs))
  unfolding start_tcp_forwarder
  start_tcp_forwarder-stop_tcp_forwarder listen options st fs gs info reach h =
      let managed = Reach-IsManaged d n to_decimal injective reach in
      let (own, others) =
        routed-Reads listen options.listen_port (route_of d n options st.endpoint) fs info gs
          managed h in
      (
        own,
        stop_tcp_forwarder-stats d n info.id info.id gs ∙ rw ((eq_iff info.id info.id).1 refl) refl,
        λ j other.
            (others j other, stop_tcp_forwarder-stats d n info.id j gs ∙ rw other (others j other)),
      )
