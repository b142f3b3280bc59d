-- ===== src/Node/Targets/Typed.antt =====
-- What a typed target that is accepted must have been.
use mathlib.Core.Path.{subst}
use text.Mathlib.Text.{◌==◌ as str_eq}
use iroh_react_native_bridge.Base.{
  append_nil, true, String, List, [], ◌∷◌, ◌++◌, refl, Option, none, some, inl, inr, ◌≡◌, sym, ◌∙◌,
  ap, arith, Bool-cases, ◌||◌,
}
use iroh_react_native_bridge.Node.Errors.{IrohBridgeError, Result, invalid_dial_target}
use iroh_react_native_bridge.Node.Targets.{
  Dial, ok_or, is_some, Addr, trimmed, some_addrs, parse_endpoint_id, parse_all, parse_direct_addr,
  push_relay, parse_relay_addr, cons_addr, unwrap_or, endpoint_addr_from_ticket, from_ticket_target,
  from_address_target, endpoint_addr_from_typed_target,
}
use iroh_react_native_bridge.Node.Targets.Requested.{
  DialLaws, Reaches, and_then-eq-inr, ok_or-eq-inr, none_of_is_some,
  endpoint_addr_from_ticket-Reaches, some_addrs-IsOf,
}

module _ (d : Dial) (laws : DialLaws d) where
  -- Texts and what each of them is read as, in order.
  abbrev pub ReadAs : (String → Result (Addr d)) → List String → List (Addr d) → Type 0
  ReadAs parse [] [] = Unit {0}
  ReadAs parse [] (a ∷ addrs) = ⊥
  ReadAs parse (text ∷ texts) [] = ⊥
  ReadAs parse (text ∷ texts) (a ∷ addrs) = (parse text ≡ inr a) × ReadAs parse texts addrs

  abbrev pub given_texts : Option String → List String
  given_texts none = []
  given_texts (some text) = text ∷ []

  -- What a typed target must have been, for the address that was made of it.
  pub data Asked (kind : String) (node_id endpoint_ticket : Option String)
      (direct_addresses : Option (List String)) (relay_url : Option String) (addr : d.EndpointAddr)
      : Type 0 where
    by_ticket :
        (ticket : String)
        → str_eq kind "endpoint-ticket" ≡ true
        → node_id ≡ none
        → direct_addresses ≡ none
        → relay_url ≡ none
        → trimmed d endpoint_ticket ≡ some ticket
        → endpoint_addr_from_ticket d ticket ≡ inr addr
        → Asked kind node_id endpoint_ticket direct_addresses relay_url addr
    by_address :
        (id : String) (direct relays : List (Addr d))
        → str_eq kind "endpoint-address" ≡ true
        → endpoint_ticket ≡ none
        → trimmed d node_id ≡ some id
        → parse_endpoint_id d id ≡ inr (d.id_of addr)
        → ReadAs (parse_direct_addr d) (unwrap_or [] direct_addresses) direct
        → ReadAs (parse_relay_addr d) (given_texts relay_url) relays
        → d.from_parts (d.id_of addr) (direct ++ relays) ≡ addr
        → Asked kind node_id endpoint_ticket direct_addresses relay_url addr

  some_addrs-from_parts :
      (e : IrohBridgeError) (id : d.EndpointId) (addrs : List (Addr d)) (addr : d.EndpointAddr)
      → some_addrs d e id addrs ≡ inr addr
      → d.from_parts id addrs ≡ addr
  some_addrs-from_parts e id [] addr h = absurd (ground arith)
  some_addrs-from_parts e id (a ∷ rest) addr h = ground arith

  cons_addr-inr :
      (a : Result (Addr d)) (rest : Result (List (Addr d))) {addrs : List (Addr d)}
      → cons_addr d a rest ≡ inr addrs
      → (b : Addr d) × (bs : List (Addr d)) × (a ≡ inr b) × (rest ≡ inr bs) × (b ∷ bs ≡ addrs)
  cons_addr-inr (inl e) rest h = absurd (ground arith)
  cons_addr-inr (inr a) (inl e) h = absurd (ground arith)
  cons_addr-inr (inr a) (inr rest) h = (a, rest, refl, refl, ground arith)

  parse_all-ReadAs :
      (parse : String → Result (Addr d)) (texts : List String) (addrs : List (Addr d))
      → parse_all d parse texts ≡ inr addrs
      → ReadAs parse texts addrs
  unfolding parse_all
  parse_all-ReadAs parse [] [] h = tt
  parse_all-ReadAs parse [] (a ∷ addrs) h = absurd (ground arith)
  parse_all-ReadAs parse (text ∷ texts) addrs h =
      let (b, bs, first, more, same) = cons_addr-inr (parse text) (parse_all d parse texts) h in
      subst (ReadAs parse (text ∷ texts)) same (first, parse_all-ReadAs parse texts bs more)

  push_relay-ReadAs :
      (relay_url : Option String) (direct addrs : List (Addr d))
      → push_relay d relay_url direct ≡ inr addrs
      → (relays : List (Addr d)) × ReadAs (parse_relay_addr d) (given_texts relay_url) relays
        × (addrs ≡ direct ++ relays)
  push_relay-ReadAs none direct addrs h = ([], tt, ground (arith, append_nil direct))
  push_relay-ReadAs (some relay_url) direct addrs h =
      let (a, read, made) = and_then-eq-inr (parse_relay_addr d relay_url) _ h in
      (a ∷ [], (read, tt), ground arith)

  -- The fields of a typed target.
  module _ (kind : String) (node_id endpoint_ticket : Option String) (direct : Option (List String))
      (relay_url : Option String) (addr : d.EndpointAddr) where
    abbrev Fits : Type 0
    Fits = Reaches d laws addr × Asked kind node_id endpoint_ticket direct relay_url addr

    from_ticket_target-Fits :
        str_eq kind "endpoint-ticket" ≡ true
        → from_ticket_target d node_id endpoint_ticket direct relay_url ≡ inr addr
        → Fits
    unfolding from_ticket_target
    from_ticket_target-Fits named h =
        elim (Bool-cases (is_some node_id || is_some direct || is_some relay_url)) [
          | inl e ↦ absurd (ground arith)
          | inr e ↦
              let (ticket, given, decoded) =
                and_then-eq-inr
                  (ok_or (invalid_dial_target "endpoint-ticket requires a ticket")
                    (trimmed d endpoint_ticket))
                  (endpoint_addr_from_ticket d) (rw e at h) in
              (
                endpoint_addr_from_ticket-Reaches d laws ticket addr decoded,
                by_ticket ticket named (none_of_is_some node_id (ground arith))
                    (none_of_is_some direct (ground arith))
                    (none_of_is_some relay_url (ground arith))
                    (ok_or-eq-inr _ (trimmed d endpoint_ticket) given) decoded,
              )
        ]

    from_address_target-Fits :
        str_eq kind "endpoint-address" ≡ true
        → from_address_target d node_id endpoint_ticket direct relay_url ≡ inr addr
        → Fits
    unfolding from_address_target
    from_address_target-Fits named h = elim (Bool-cases (is_some endpoint_ticket)) [
      | inl e ↦ absurd (ground arith)
      | inr e ↦
          let (remote_id, identified, rest) = and_then-eq-inr _ _ (rw e at h) in
          let (id, given, known) =
            and_then-eq-inr
              (ok_or (invalid_dial_target "endpoint-address requires a node id")
                (trimmed d node_id))
              (parse_endpoint_id d) identified in
          let (ips, all, more) =
            and_then-eq-inr (parse_all d (parse_direct_addr d) (unwrap_or [] direct)) _ rest in
          let (addrs, pushed, made) = and_then-eq-inr (push_relay d relay_url ips) _ more in
          let (relays, relayed, all_of_them) = push_relay-ReadAs relay_url ips addrs pushed in
          let (own, there) = some_addrs-IsOf d laws _ remote_id addrs addr made in
          (
            there,
            by_address id ips relays named (none_of_is_some endpoint_ticket e)
                (ok_or-eq-inr _ (trimmed d node_id) given) (known ∙ ap inr (sym own))
                (parse_all-ReadAs (parse_direct_addr d) (unwrap_or [] direct) ips all) relayed
                (ap (λ l. d.from_parts (d.id_of addr) l) (sym all_of_them)
                  ∙ ap (λ i. d.from_parts i addrs) own
                  ∙ some_addrs-from_parts _ remote_id addrs addr made),
          )
    ]

  -- A typed target that is accepted gives an address with at least one direct address or relay URL,
  -- and was of one of two kinds: an endpoint ticket with no other field, which decodes to the
  -- address; or an endpoint address without a ticket, whose node id parses to that of the address,
  -- and the address was made of exactly what its direct addresses are read as, one for one and in
  -- order, and then what its relay URL is read as, if it has one.
  pub endpoint_addr_from_typed_target-Asked :
      (target_kind : String) (node_id endpoint_ticket : Option String)
      (direct : Option (List String)) (relay_url : Option String) (addr : d.EndpointAddr)
      → endpoint_addr_from_typed_target d target_kind node_id endpoint_ticket direct relay_url
        ≡ inr addr
      → Reaches d laws addr
        × Asked (d.trim target_kind) node_id endpoint_ticket direct relay_url addr
  unfolding endpoint_addr_from_typed_target
  endpoint_addr_from_typed_target-Asked target_kind node_id endpoint_ticket direct relay_url addr
        h =
      elim (Bool-cases (str_eq (d.trim target_kind) "endpoint-ticket")) [
        | inl e ↦
            from_ticket_target-Fits (d.trim target_kind) node_id endpoint_ticket direct relay_url
              addr e (rw e at h)
        | inr e ↦ elim (Bool-cases (str_eq (d.trim target_kind) "endpoint-address")) [
          | inl a ↦
              from_address_target-Fits (d.trim target_kind) node_id endpoint_ticket direct relay_url
                addr a (rw a at (rw e at h))
          | inr a ↦ absurd (ground arith)
        ]
      ]
