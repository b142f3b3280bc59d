-- ===== src/Node/Targets.antt =====
-- Where to dial: the node identifiers, address hints, tickets and typed targets that
-- rust/iroh_mobile_bridge/src/lib.rs takes from JavaScript. The parsers are iroh's, std's and
-- serde_json's, a parameter.
pub mod Requested
pub mod Typed
use Prim.Native.String
use text.Mathlib.Text.{◌==◌ as str_eq, starts_with}
use iroh_react_native_bridge.Base.{
  ℕ, Bool, true, false, not, String, List, [], ◌∷◌, ◌++◌, Option, none, some, ◌⊎◌, inl, inr,
  if◌then◌else◌, ◌||◌,
}
use iroh_react_native_bridge.Node.Errors.{
  IrohBridgeError, Result, invalid_node_id, invalid_address, invalid_ticket, invalid_dial_target,
  operation_failed,
}

-- TransportAddr
pub data TransportAddr (SocketAddr RelayUrl : Type 0) : Type 0 where
  ip : SocketAddr → TransportAddr SocketAddr RelayUrl
  relay : RelayUrl → TransportAddr SocketAddr RelayUrl

-- IrohAddressTicket
pub record IrohAddressTicket : Type 0 where
  pub id : Option String
  pub addrs : Option (List String)

-- What the code calls of iroh, std and serde_json. A parser of tickets or of JSON says why it
-- fails.
pub record Dial : Type 1 where
  pub EndpointId : Type 0
  pub EndpointAddr : Type 0
  pub SocketAddr : Type 0
  pub RelayUrl : Type 0
  pub id_eq : EndpointId → EndpointId → Bool
  pub from_z32 : String → Option EndpointId
  pub endpoint_id_from_str : String → Option EndpointId
  pub socket_addr_from_str : String → Option SocketAddr
  pub relay_url_from_str : String → Option RelayUrl
  pub ticket_from_str : String → String ⊎ EndpointAddr
  pub ticket_from_json : String → String ⊎ IrohAddressTicket
  pub id_of : EndpointAddr → EndpointId
  pub addrs_of : EndpointAddr → List (TransportAddr SocketAddr RelayUrl)
  pub from_parts : EndpointId → List (TransportAddr SocketAddr RelayUrl) → EndpointAddr
  pub trim : String → String

-- `str::strip_prefix`
abbrev pub strip_prefix : String → String → Option String
strip_prefix prefix input =
    if starts_with input prefix
    then some (String.slice input (String.len prefix) (String.len input))
    else none

-- `unwrap_or` and `or_else`
abbrev pub unwrap_or : {A : Type 0} → A → Option A → A
unwrap_or d none = d
unwrap_or d (some a) = a

abbrev pub or_else : {A : Type 0} → Option A → Option A → Option A
or_else none b = b
or_else (some a) b = some a

-- `ok_or`
abbrev pub ok_or : {A : Type 0} → IrohBridgeError → Option A → Result A
ok_or e none = inl e
ok_or e (some a) = inr a

-- `Option::is_some`
abbrev pub is_some : {A : Type 0} → Option A → Bool
is_some none = false
is_some (some a) = true

-- `?`
abbrev pub and_then : {A B : Type 0} → Result A → (A → Result B) → Result B
and_then (inl e) f = inl e
and_then (inr a) f = f a

module _ (d : Dial) where
  abbrev pub Addr : Type 0
  Addr = TransportAddr d.SocketAddr d.RelayUrl

  unfoldable pub normalize_node_id : String → String
  normalize_node_id input = d.trim (
      unwrap_or input (or_else (strip_prefix "iroh+relay://" input) (strip_prefix "iroh://" input)))

  unfoldable pub parse_endpoint_id : String → Result d.EndpointId
  parse_endpoint_id input =
      let value = normalize_node_id input in
      ok_or invalid_node_id (or_else (d.from_z32 value) (d.endpoint_id_from_str value))

  unfoldable pub normalize_dial_hint : String → String
  normalize_dial_hint input = d.trim (
      unwrap_or input
        (or_else (strip_prefix "iroh+ticket://" input) (strip_prefix "iroh+ticket:" input)))

  abbrev pub quoted : String → String → String
  quoted message value = String.◌++◌ message (String.◌++◌ "\"" (String.◌++◌ value "\""))

  -- `.map(…).map_err(…)` of a parser
  abbrev pub parsed : {A : Type 0} → IrohBridgeError → (A → Addr) → Option A → Result Addr
  parsed e wrap none = inl e
  parsed e wrap (some a) = inr (wrap a)

  unfoldable pub parse_direct_addr : String → Result Addr
  parse_direct_addr input =
      let value = unwrap_or (d.trim input) (
        or_else (strip_prefix "iroh+direct://" (d.trim input))
          (strip_prefix "ip:" (d.trim input))) in
      if str_eq value ""
      then inl (invalid_address "direct address must not be empty")
      else parsed (invalid_address (quoted "invalid direct socket address " value)) ip
          (d.socket_addr_from_str value)

  unfoldable pub parse_relay_addr : String → Result Addr
  parse_relay_addr input =
      let value = unwrap_or (d.trim input) (strip_prefix "relay:" (d.trim input)) in
      if str_eq value ""
      then inl (invalid_address "relay URL must not be empty")
      else parsed (invalid_address (quoted "invalid relay URL " value)) relay
          (d.relay_url_from_str value)

  unfoldable pub parse_transport_addr : String → Result Addr
  unfolding parse_relay_addr parse_direct_addr
  parse_transport_addr input =
      let value = d.trim input in
      if starts_with value "http://" || starts_with value "https://" || starts_with value "relay:"
      then parse_relay_addr value
      else parse_direct_addr value

  -- `is_empty`
  abbrev pub is_empty : {A : Type 0} → List A → Bool
  is_empty [] = true
  is_empty (a ∷ rest) = false

  -- What endpoint_addr_from_ticket does with the decoded ticket.
  abbrev pub decoded_ticket : String ⊎ d.EndpointAddr → Result d.EndpointAddr
  decoded_ticket (inl error) = inl (invalid_ticket (String.◌++◌ "could not decode ticket: " error))
  decoded_ticket (inr addr) =
      if is_empty (d.addrs_of addr)
      then inl (invalid_ticket "ticket must include at least one direct address or relay URL")
      else inr addr

  unfoldable pub endpoint_addr_from_ticket : String → Result d.EndpointAddr
  endpoint_addr_from_ticket ticket =
      let value = normalize_dial_hint ticket in
      if str_eq value ""
      then inl (invalid_ticket "ticket must not be empty")
      else decoded_ticket (d.ticket_from_str value)

  -- `.map(str::trim).filter(|value| !value.is_empty())`
  abbrev pub trimmed : Option String → Option String
  trimmed none = none
  trimmed (some s) = if str_eq (d.trim s) "" then none else some (d.trim s)

  abbrev pub cons_addr : Result Addr → Result (List Addr) → Result (List Addr)
  cons_addr (inl e) rest = inl e
  cons_addr (inr a) (inl e) = inl e
  cons_addr (inr a) (inr rest) = inr (a ∷ rest)

  -- A parser on each of a list, up to the first error.
  unfoldable pub parse_all : (String → Result Addr) → List String → Result (List Addr)
  parse_all parse [] = inr []
  parse_all parse (a ∷ rest) = cons_addr (parse a) (parse_all parse rest)

  -- The relay URL of a typed target, after its direct addresses.
  abbrev pub push_relay : Option String → List Addr → Result (List Addr)
  push_relay none addrs = inr addrs
  push_relay (some relay_url) addrs =
      and_then (parse_relay_addr relay_url) (λ a. inr (addrs ++ (a ∷ [])))

  -- `from_parts`, but for no addresses
  abbrev pub some_addrs : IrohBridgeError → d.EndpointId → List Addr → Result d.EndpointAddr
  some_addrs e remote_id addrs =
      if is_empty addrs then inl e else inr (d.from_parts remote_id addrs)

  -- endpoint_addr_from_typed_target of kind "endpoint-ticket"
  unfoldable pub from_ticket_target :
      Option String → Option String → Option (List String) → Option String → Result d.EndpointAddr
  unfolding endpoint_addr_from_ticket
  from_ticket_target node_id endpoint_ticket direct_addresses relay_url =
      if is_some node_id || is_some direct_addresses || is_some relay_url
      then inl (invalid_dial_target "endpoint-ticket accepts only the ticket field")
      else and_then
          (ok_or (invalid_dial_target "endpoint-ticket requires a ticket")
            (trimmed endpoint_ticket))
          endpoint_addr_from_ticket

  -- endpoint_addr_from_typed_target of kind "endpoint-address"
  unfoldable pub from_address_target :
      Option String → Option String → Option (List String) → Option String → Result d.EndpointAddr
  unfolding parse_all
  from_address_target node_id endpoint_ticket direct_addresses relay_url =
      if is_some endpoint_ticket
      then inl (invalid_dial_target "endpoint-address does not accept an endpoint ticket")
      else and_then
          (and_then
            (ok_or (invalid_dial_target "endpoint-address requires a node id") (trimmed node_id))
            parse_endpoint_id)
          (λ remote_id.
            and_then (parse_all parse_direct_addr (unwrap_or [] direct_addresses)) (λ direct.
              and_then (push_relay relay_url direct) (λ addrs.
                some_addrs
                  (invalid_dial_target
                    "endpoint-address requires at least one direct address or relay URL")
                  remote_id addrs)))

  unfoldable pub endpoint_addr_from_typed_target :
      String
      → Option String
      → Option String
      → Option (List String)
      → Option String
      → Result d.EndpointAddr
  unfolding from_ticket_target from_address_target
  endpoint_addr_from_typed_target target_kind node_id endpoint_ticket direct_addresses relay_url =
      if str_eq (d.trim target_kind) "endpoint-ticket"
      then from_ticket_target node_id endpoint_ticket direct_addresses relay_url
      else if str_eq (d.trim target_kind) "endpoint-address"
      then from_address_target node_id endpoint_ticket direct_addresses relay_url
      else inl (invalid_dial_target (quoted "unsupported target kind " (d.trim target_kind)))

  -- The id in a legacy JSON ticket, or the one asked for.
  abbrev pub ticket_id : d.EndpointId → Option String → Result d.EndpointId
  ticket_id remote_id none = inr remote_id
  ticket_id remote_id (some id) = parse_endpoint_id id

  unfoldable pub from_json_ticket :
      d.EndpointId → String ⊎ IrohAddressTicket → Result d.EndpointAddr
  from_json_ticket remote_id (inl error) =
      inl (invalid_ticket (String.◌++◌ "invalid legacy JSON ticket: " error))
  from_json_ticket remote_id (inr ticket) = and_then (ticket_id remote_id ticket.id) (λ id.
      if d.id_eq id remote_id
      then and_then (parse_all parse_transport_addr (unwrap_or [] ticket.addrs))
          (some_addrs (invalid_address "Iroh addressing hint did not include usable addresses") id)
      else inl (invalid_ticket "legacy JSON ticket endpoint id does not match requested node id"))

  -- The address of a ticket, where it is of the node asked for.
  abbrev pub of_node : d.EndpointId → d.EndpointAddr → Result d.EndpointAddr
  of_node remote_id addr =
      if d.id_eq (d.id_of addr) remote_id
      then inr addr
      else inl (invalid_ticket "endpoint ticket id does not match requested node id")

  -- endpoint_addr_from_hint, behind the relay check
  unfoldable pub from_dial_hint : d.EndpointId → String → Result d.EndpointAddr
  unfolding from_json_ticket endpoint_addr_from_ticket parse_transport_addr
  from_dial_hint remote_id hint =
      if starts_with hint "{"
      then from_json_ticket remote_id (d.ticket_from_json hint)
      else if starts_with hint "endpoint"
      then and_then (endpoint_addr_from_ticket hint) (of_node remote_id)
      else and_then (parse_transport_addr hint) (λ addr. inr (d.from_parts remote_id (addr ∷ [])))

  abbrev pub from_given_hint : d.EndpointId → Option String → Result d.EndpointAddr
  from_given_hint remote_id none =
      inl (operation_failed "Iroh addressing hint is required for dialing")
  from_given_hint remote_id (some hint) =
      if starts_with hint "iroh+relay://"
      then inl (
          operation_failed "Iroh relay hint did not include a relay server URL or direct addresses")
      else from_dial_hint remote_id (normalize_dial_hint hint)

  unfoldable pub endpoint_addr_from_hint : d.EndpointId → Option String → Result d.EndpointAddr
  unfolding from_dial_hint
  endpoint_addr_from_hint remote_id address_hint = from_given_hint remote_id (trimmed address_hint)
