-- ===== src/Node/Targets/Requested.antt =====
-- What is dialled is what was asked for.
use mathlib.Core.Path.{subst}
use text.Mathlib.Text.{◌==◌ as str_eq, starts_with}
use iroh_react_native_bridge.Base.{
  true, false, String, List, [], ◌∷◌, Option, none, some, ◌⊎◌, inl, inr, ◌≡◌, refl, arith,
  Bool-cases,
}
use iroh_react_native_bridge.Node.Errors.{IrohBridgeError, Result, invalid_address}
use iroh_react_native_bridge.Node.Targets.{
  IrohAddressTicket, Dial, and_then, ok_or, is_some, Addr, is_empty, trimmed, some_addrs,
  decoded_ticket, ticket_id, of_node, from_given_hint, parse_all, parse_transport_addr, unwrap_or,
  endpoint_addr_from_ticket, from_json_ticket, from_dial_hint, endpoint_addr_from_hint,
  normalize_dial_hint,
}

-- What the documentation of iroh says of its addresses and identifiers.
pub record DialLaws (d : Dial) : Type 0 where
  pub id_eq-true : (a b : d.EndpointId) → d.id_eq a b ≡ true → a ≡ b
  pub id_of-from_parts :
      (id : d.EndpointId) (addrs : List (Addr d)) → d.id_of (d.from_parts id addrs) ≡ id
  pub is_empty-from_parts :
      (id : d.EndpointId) (addrs : List (Addr d))
      → is_empty d (d.addrs_of (d.from_parts id addrs)) ≡ is_empty d addrs

-- Inversion of a step that succeeded.
pub and_then-eq-inr :
    {A B : Type 0} (r : Result A) (f : A → Result B) {b : B}
    → and_then r f ≡ inr b
    → (a : A) × (r ≡ inr a) × (f a ≡ inr b)
and_then-eq-inr (inl e) f h = absurd (ground arith)
and_then-eq-inr (inr a) f h = (a, refl, h)

pub ok_or-eq-inr :
    {A : Type 0} (e : IrohBridgeError) (o : Option A) {a : A} → ok_or e o ≡ inr a → o ≡ some a
ok_or-eq-inr e none h = absurd (ground arith)
ok_or-eq-inr e (some a) h = ground arith

pub none_of_is_some : {A : Type 0} (o : Option A) → is_some o ≡ false → o ≡ none
none_of_is_some none h = refl
none_of_is_some (some a) h = absurd (ground arith)

module _ (d : Dial) (laws : DialLaws d) where
  -- An address of a node at which something can be dialled.
  abbrev pub Reaches : d.EndpointAddr → Type 0
  Reaches addr = is_empty d (d.addrs_of addr) ≡ false

  abbrev pub IsOf : d.EndpointId → d.EndpointAddr → Type 0
  IsOf id addr = (d.id_of addr ≡ id) × Reaches addr

  pub some_addrs-IsOf :
      (e : IrohBridgeError) (id : d.EndpointId) (addrs : List (Addr d)) (addr : d.EndpointAddr)
      → some_addrs d e id addrs ≡ inr addr
      → IsOf id addr
  some_addrs-IsOf e id [] addr h = absurd (ground arith)
  some_addrs-IsOf e id (a ∷ rest) addr h =
      let same : d.from_parts id (a ∷ rest) ≡ addr = ground arith in
      subst (IsOf id) same
        (laws.id_of-from_parts id (a ∷ rest), laws.is_empty-from_parts id (a ∷ rest))

  decoded_ticket-Reaches :
      (r : String ⊎ d.EndpointAddr) (addr : d.EndpointAddr)
      → decoded_ticket d r ≡ inr addr
      → Reaches addr
  decoded_ticket-Reaches (inl error) addr h = absurd (ground arith)
  decoded_ticket-Reaches (inr a) addr h = elim (Bool-cases (is_empty d (d.addrs_of a))) [
    | inl e ↦ absurd (ground arith)
    | inr e ↦ subst Reaches (ground arith) e
  ]

  pub endpoint_addr_from_ticket-Reaches :
      (ticket : String) (addr : d.EndpointAddr)
      → endpoint_addr_from_ticket d ticket ≡ inr addr
      → Reaches addr
  unfolding endpoint_addr_from_ticket
  endpoint_addr_from_ticket-Reaches ticket addr h =
      elim (Bool-cases (str_eq (normalize_dial_hint d ticket) "")) [
        | inl e ↦ absurd (ground arith)
        | inr e ↦
            decoded_ticket-Reaches (d.ticket_from_str (normalize_dial_hint d ticket)) addr
              (rw e at h)
      ]

  of_node-IsOf :
      (id : d.EndpointId) (a addr : d.EndpointAddr)
      → Reaches a
      → of_node d id a ≡ inr addr
      → IsOf id addr
  of_node-IsOf id a addr some_there h = elim (Bool-cases (d.id_eq (d.id_of a) id)) [
    | inl e ↦ subst (IsOf id) (ground arith) (laws.id_eq-true (d.id_of a) id e, some_there)
    | inr e ↦ absurd (ground arith)
  ]

  from_json_ticket-IsOf :
      (id : d.EndpointId) (r : String ⊎ IrohAddressTicket) (addr : d.EndpointAddr)
      → from_json_ticket d id r ≡ inr addr
      → IsOf id addr
  unfolding from_json_ticket
  from_json_ticket-IsOf id (inl error) addr h = absurd (ground arith)
  from_json_ticket-IsOf id (inr ticket) addr h =
      let (own, _, checked) = and_then-eq-inr (ticket_id d id ticket.id) _ h in
      elim (Bool-cases (d.id_eq own id)) [
        | inl e ↦
            let (addrs, _, made) =
              and_then-eq-inr (parse_all d (parse_transport_addr d) (unwrap_or [] ticket.addrs)) _
                (rw e at checked) in
            subst (λ i. IsOf i addr) (laws.id_eq-true own id e)
              (some_addrs-IsOf _ own addrs addr made)
        | inr e ↦ absurd (ground arith)
      ]

  from_dial_hint-IsOf :
      (id : d.EndpointId) (hint : String) (addr : d.EndpointAddr)
      → from_dial_hint d id hint ≡ inr addr
      → IsOf id addr
  unfolding from_dial_hint
  from_dial_hint-IsOf id hint addr h = elim (Bool-cases (starts_with hint "{")) [
    | inl e ↦ from_json_ticket-IsOf id (d.ticket_from_json hint) addr (rw e at h)
    | inr e ↦ elim (Bool-cases (starts_with hint "endpoint")) [
      | inl t ↦
          let (a, decoded, own) =
            and_then-eq-inr (endpoint_addr_from_ticket d hint) (of_node d id)
              (rw t at (rw e at h)) in
          of_node-IsOf id a addr (endpoint_addr_from_ticket-Reaches hint a decoded) own
      | inr t ↦
          let (a, _, made) =
            and_then-eq-inr (parse_transport_addr d hint) _ (rw t at (rw e at h)) in
          some_addrs-IsOf (invalid_address "") id (a ∷ []) addr made
    ]
  ]

  from_given_hint-IsOf :
      (id : d.EndpointId) (hint : Option String) (addr : d.EndpointAddr)
      → from_given_hint d id hint ≡ inr addr
      → IsOf id addr
  from_given_hint-IsOf id none addr h = absurd (ground arith)
  from_given_hint-IsOf id (some hint) addr h =
      elim (Bool-cases (starts_with hint "iroh+relay://")) [
        | inl e ↦ absurd (ground arith)
        | inr e ↦ from_dial_hint-IsOf id (normalize_dial_hint d hint) addr (rw e at h)
      ]

  -- Whatever a hint says, a legacy JSON ticket, an endpoint ticket or one address: where
  -- `endpoint_addr_from_hint` accepts it, what it gives is an address of the node asked for, with
  -- at least one direct address or relay URL.
  pub endpoint_addr_from_hint-IsOf :
      (remote_id : d.EndpointId) (address_hint : Option String) (addr : d.EndpointAddr)
      → endpoint_addr_from_hint d remote_id address_hint ≡ inr addr
      → IsOf remote_id addr
  unfolding endpoint_addr_from_hint
  endpoint_addr_from_hint-IsOf remote_id address_hint addr h =
      from_given_hint-IsOf remote_id (trimmed d address_hint) addr h
