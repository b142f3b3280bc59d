-- ===== src/Sample/Targets.antt =====
-- The theorems on dial targets, applied to parsers that know one node and one ticket.
use text.Mathlib.Text.{◌==◌ as str_eq}
use iroh_react_native_bridge.Base.{
  ℕ, ◌≡◌, refl, String, true, false, List, [], ◌∷◌, none, some, inl, inr, if◌then◌else◌, ◌==◌,
  arith,
}
use iroh_react_native_bridge.Node.Errors.{invalid_ticket}
use iroh_react_native_bridge.Node.Targets.{
  TransportAddr, ip, relay, Dial, is_empty, normalize_node_id, parse_endpoint_id,
  normalize_dial_hint, parse_direct_addr, parse_relay_addr, parse_transport_addr, parse_all,
  endpoint_addr_from_ticket, from_address_target, endpoint_addr_from_typed_target, from_dial_hint,
  endpoint_addr_from_hint,
}
use iroh_react_native_bridge.Node.Targets.Requested.{DialLaws, endpoint_addr_from_hint-IsOf}
use iroh_react_native_bridge.Node.Targets.Typed.{Asked, endpoint_addr_from_typed_target-Asked}

abbrev Address : Type 0
Address = ℕ × List (TransportAddr String String)

abbrev pub dial : Dial
dial = record {
  EndpointId = ℕ;
  EndpointAddr = Address;
  SocketAddr = String;
  RelayUrl = String;
  id_eq = ◌==◌;
  from_z32 = λ s. if str_eq s "qv47olqig7" then some 7 else none;
  endpoint_id_from_str = λ s. none;
  socket_addr_from_str = λ s. some s;
  relay_url_from_str = λ s. some s;
  ticket_from_str = λ s. inr (7, relay s ∷ []);
  ticket_from_json = λ s. inl "expected value";
  id_of = λ a. a.0;
  addrs_of = λ a. a.1;
  from_parts = λ id addrs. (id, addrs);
  trim = λ s. s;
}

pub ==-true : (a b : ℕ) → (a == b) ≡ true → a ≡ b
==-true a b h = ground arith

abbrev pub dial_laws : DialLaws dial
dial_laws = record {
  id_eq-true = ==-true;
  id_of-from_parts = λ id addrs. refl;
  is_empty-from_parts = λ id addrs. refl;
}

abbrev socket : Address
socket = (7, ip "192.168.1.2:4433" ∷ [])

node_id_test : parse_endpoint_id dial "iroh://qv47olqig7" ≡ inr 7
unfolding parse_endpoint_id normalize_node_id
node_id_test = refl

hint_test : endpoint_addr_from_hint dial 7 (some "ip:192.168.1.2:4433") ≡ inr socket
unfolding endpoint_addr_from_hint from_dial_hint normalize_dial_hint parse_transport_addr
    parse_direct_addr
hint_test = refl

wrong_node_test :
    endpoint_addr_from_hint dial 8 (some "iroh+ticket://endpointabc")
    ≡ inl (invalid_ticket "endpoint ticket id does not match requested node id")
unfolding endpoint_addr_from_hint from_dial_hint normalize_dial_hint endpoint_addr_from_ticket
wrong_node_test = refl

endpoint_addr_from_hint-IsOf_example : (socket.0 ≡ 7) × (is_empty dial (socket.1) ≡ false)
endpoint_addr_from_hint-IsOf_example =
    endpoint_addr_from_hint-IsOf dial dial_laws 7 (some "ip:192.168.1.2:4433") socket hint_test

abbrev reachable : Address
reachable = (7, ip "192.168.1.2:4433" ∷ relay "https://relay.example" ∷ [])

typed_test :
    endpoint_addr_from_typed_target dial "endpoint-address"
      (some "qv47olqig7")
      none
      (some ("192.168.1.2:4433" ∷ []))
      (some "relay:https://relay.example")
    ≡ inr reachable
unfolding endpoint_addr_from_typed_target from_address_target parse_all parse_endpoint_id
    normalize_node_id parse_direct_addr parse_relay_addr
typed_test = refl

endpoint_addr_from_typed_target-Asked_example :
    (is_empty dial (reachable.1) ≡ false)
    × Asked dial dial_laws "endpoint-address"
        (some "qv47olqig7")
        none
        (some ("192.168.1.2:4433" ∷ []))
        (some "relay:https://relay.example")
        reachable
endpoint_addr_from_typed_target-Asked_example =
    endpoint_addr_from_typed_target-Asked dial dial_laws "endpoint-address" (some "qv47olqig7") none
      (some ("192.168.1.2:4433" ∷ [])) (some "relay:https://relay.example") reachable typed_test
