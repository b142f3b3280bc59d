-- ===== src/Sample/Dial.antt =====
-- The theorems on opening a stream, applied to two nodes that take every connection.
use Prim.Native.String
use text.Mathlib.Text.{◌==◌ as str_eq, starts_with}
use text.Mathlib.TextPositions.{starts_with-append, slice-append_left}
use text.Mathlib.TextEquality.{eq_iff}
use text.Mathlib.TextLemmas.{append_cancel_left}
use iroh_react_native_bridge.Base.{
  ℕ, zero, suc, ◌+◌, ◌≡◌, ◌≢◌, refl, sym, ◌∙◌, ap, String, Bool, true, false, List, [], ◌∷◌, none,
  some, inl, inr, arith, not, get_elem?,
}
use iroh_react_native_bridge.Node.Targets
use iroh_react_native_bridge.Node.Sessions.{
  find, cache_session, insert, evict, oldest, remove, set_last_used, use_session, take_session,
}
use iroh_react_native_bridge.Node.Lifecycle.{Network, BridgeState, keep_session}
use iroh_react_native_bridge.Node.Dial.{
  Quic, Timed, done, Bridge, session_key, take_endpoint, connect_endpoint_addr,
}
use iroh_react_native_bridge.Node.Dial.Peer.{QuicLaws}
use iroh_react_native_bridge.Node.Dial.Interleaved.{
  Shared, Reach, here, next, dialling, keeping, taking, Reach-peer,
}
use iroh_react_native_bridge.Sample.Forwarders.{strokes}

-- A byte as strokes and a dot, in place of two hexadecimal digits.
abbrev byte_and : ℕ → String → String
byte_and zero rest = String.◌++◌ "." rest
byte_and (suc n) rest = String.◌++◌ "I" (byte_and n rest)

abbrev encode : List ℕ → String
encode [] = ""
encode (n ∷ l) = byte_and n (encode l)

texts_differ : (a b : String) → str_eq a b ≡ false → a ≢ b
texts_differ a b h e = absurd (ground (arith, (eq_iff a b).1 e))

dot_is_no_stroke : (s t : String) → String.◌++◌ "." s ≢ String.◌++◌ "I" t
dot_is_no_stroke s t h =
    texts_differ "." "I" refl
      (sym (slice-append_left "." s) ∙ ap (λ u. String.slice u 0 1) h ∙ slice-append_left "I" t)

byte_and-some : (n : ℕ) (s : String) → "" ≢ byte_and n s
byte_and-some zero s h =
    let impossible : false ≡ true = ap (λ t. starts_with t ".") h ∙ starts_with-append "." s in
    absurd (ground arith)
byte_and-some (suc n) s h =
    let impossible : false ≡ true =
      ap (λ t. starts_with t "I") h ∙ starts_with-append "I" (byte_and n s) in
    absurd (ground arith)

byte_and-same : (a b : ℕ) (s t : String) → byte_and a s ≡ byte_and b t → (a ≡ b) × (s ≡ t)
byte_and-same zero zero s t h = (refl, append_cancel_left "." s t h)
byte_and-same zero (suc b) s t h = absurd (dot_is_no_stroke s (byte_and b t) h)
byte_and-same (suc a) zero s t h = absurd (dot_is_no_stroke t (byte_and a s) (sym h))
byte_and-same (suc a) (suc b) s t h =
    let (n, rest) = byte_and-same a b s t (append_cancel_left "I" _ _ h) in (ap suc n, rest)

encode-same : (a b : List ℕ) → encode a ≡ encode b → a ≡ b
encode-same [] [] h = refl
encode-same [] (n ∷ b) h = absurd (byte_and-some n (encode b) h)
encode-same (n ∷ a) [] h = absurd (byte_and-some n (encode a) (sym h))
encode-same (n ∷ a) (m ∷ b) h =
    let (first, rest) = byte_and-same n m (encode a) (encode b) h in
    let tails = encode-same a b rest in ap (λ x. x ∷ a) first ∙ ap (λ l. m ∷ l) tails

abbrev same_bool : Bool → Bool → Bool
same_bool true b = b
same_bool false b = not b

abbrev two_nodes : Targets.Dial
two_nodes = record {
  EndpointId = Bool;
  EndpointAddr = Bool;
  SocketAddr = String;
  RelayUrl = String;
  id_eq = same_bool;
  from_z32 = λ s. none;
  endpoint_id_from_str = λ s. none;
  socket_addr_from_str = λ s. none;
  relay_url_from_str = λ s. none;
  ticket_from_str = λ s. inl "invalid ticket";
  ticket_from_json = λ s. inl "expected value";
  id_of = λ a. a;
  addrs_of = λ a. [];
  from_parts = λ id addrs. id;
  trim = λ s. s;
}

abbrev z32 : Bool → String
z32 true = "qv47olqig7tr9gho4hcv5wtxdrbo4qoz7nzc3kxkjtezbrqsy9qo"
z32 false = "k51qzi5uqu5dgutdk6i1ynyzgkqngpha5xpgia3a5qqp4jsh0u4c"

len-z32 : (a : Bool) → String.len (z32 a) ≡ 52
len-z32 true = refl
len-z32 false = refl

z32_inj : (a b : Bool) → z32 a ≡ z32 b → a ≡ b
z32_inj true true h = refl
z32_inj true false h = absurd (texts_differ (z32 true) (z32 false) refl h)
z32_inj false true h = absurd (texts_differ (z32 false) (z32 true) refl h)
z32_inj false false h = refl

abbrev network : Network
network = record {
  Endpoint = ℕ;
  Connection = Bool × List ℕ;
  Outside = ℕ;
  bind = λ alpns o. (inr o, o + 1);
  to_z32 = λ e. "qv47olqig7";
  close_endpoint = λ e o. o;
  trim = λ s. s;
  as_bytes = λ s. 105 ∷ 114 ∷ [];
}

-- `Outside` counts the connections.
abbrev quic : Quic two_nodes network
quic = record {
  Bi = ℕ;
  is_closed = λ c o. false;
  open_bi = λ c timeout o. (done o, o);
  connect = λ endpoint addr alpn timeout o. (done (addr, alpn), o + 1);
  id_to_z32 = z32;
  hex_encode = encode;
}

abbrev peer_of : Timed (Bool × List ℕ) → Bool × List ℕ
peer_of (done c) = c
peer_of _ = (true, [])

abbrev quic_laws : QuicLaws quic
quic_laws = record {
  node_of = λ c. c.0;
  alpn_of = λ c. c.1;
  dialled-peer = λ endpoint addr alpn timeout o o' c h.
      (sym (ap (λ x. (peer_of x.0).0) h), sym (ap (λ x. (peer_of x.0).1) h));
  len-id_to_z32 = len-z32;
  id_to_z32_inj = z32_inj;
  hex_encode_inj = λ a b bytes_a bytes_b. encode-same a b;
}

abbrev ir : List ℕ
ir = 105 ∷ 114 ∷ []

abbrev started : BridgeState network
started = record {
  endpoint = some 40;
  node_id = some "qv47olqig7";
  alpns = ir ∷ [];
  cache = record { sessions = []; next_session_use = 1 };
  connections = [];
  is_closed = λ a. false;
  outside = 41;
}

abbrev key : String
key = session_key quic true ir

-- A session is dialled and kept, and the next call takes it.
taken : (s : Shared network) × Reach quic started s × (get_elem? s.held 0 ≡ some (key, (true, ir)))
unfolding take_endpoint take_session use_session find set_last_used keep_session cache_session
    insert evict oldest remove session_key
taken = (
  _,
  next
      (next
        (next here
          (dialling 40 true ir 4500 41 42 (true, ir) (omega arith, (omega arith, tt)) refl))
        (keeping 0 key (true, ir) refl))
      (taking key),
  refl,
)

Reach-peer_example : (quic_laws.node_of (true, ir) ≡ true) × (quic_laws.alpn_of (true, ir) ≡ ir)
Reach-peer_example =
    Reach-peer quic quic_laws 0 true ir (true, ir) refl (omega arith, (omega arith, tt)) taken.1
      taken.2

-- The cache after a session was dialled.
abbrev bridge : Bridge quic
bridge = record {
  node = record started {
    cache = record {
      sessions = (key, record { connection = (true, ir); last_used = 1 }) ∷ [];
      next_session_use = 2;
    };
    connections = ("iroh-I", 1) ∷ [];
  };
  next_connection_id = 2;
}

-- The first call has opened a second stream.
after_call : Bridge quic
after_call = (connect_endpoint_addr quic strokes true "ir" (some 1000) bridge).1
