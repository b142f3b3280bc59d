-- ===== src/Node/Dial/Peer.antt =====
-- A session in the cache is with the node and of the ALPN that its key names, so that no stream is
-- opened to another.
use Prim.Native.String
use mathlib.Core.Path.{subst}
use text.Mathlib.TextLemmas.{append_cancel_left}
use text.Mathlib.TextPositions.{slice-append_left}
use iroh_react_native_bridge.Base.{ℕ, ◌<◌, String, List, ◌≡◌, sym, ◌∙◌, ap, All}
use iroh_react_native_bridge.Node.Targets
use iroh_react_native_bridge.Node.Lifecycle.{Network}
use iroh_react_native_bridge.Node.Dial.{done, Quic, session_key}

-- The elements of a Vec<u8>.
abbrev pub AreBytes : List ℕ → Type 0
AreBytes l = All (λ x. x < 256) l

-- What the documentation of iroh and of hex says: a session that was dialled is with the node and
-- of the ALPN that were asked for; an id is 52 characters of z-base-32; and both encodings are one
-- to one.
pub record QuicLaws {d : Targets.Dial} {n : Network} (q : Quic d n) : Type 0 where
  pub node_of : n.Connection → d.EndpointId
  pub alpn_of : n.Connection → List ℕ
  pub dialled-peer :
      (endpoint : n.Endpoint) (addr : d.EndpointAddr) (alpn : List ℕ) (timeout : ℕ)
      (o o' : n.Outside) (c : n.Connection)
      → q.connect endpoint addr alpn timeout o ≡ (done c, o')
      → (node_of c ≡ d.id_of addr) × (alpn_of c ≡ alpn)
  pub len-id_to_z32 : (a : d.EndpointId) → String.len (q.id_to_z32 a) ≡ 52
  pub id_to_z32_inj : (a b : d.EndpointId) → q.id_to_z32 a ≡ q.id_to_z32 b → a ≡ b
  pub hex_encode_inj :
      (a b : List ℕ) → AreBytes a → AreBytes b → q.hex_encode a ≡ q.hex_encode b → a ≡ b

module _ {d : Targets.Dial} {n : Network} (q : Quic d n) (laws : QuicLaws q) where
  slice-session_key :
      (a : d.EndpointId) (x : List ℕ) → String.slice (session_key q a x) 0 52 ≡ q.id_to_z32 a
  unfolding session_key
  slice-session_key a x =
      ap (String.slice (session_key q a x) 0) (sym (laws.len-id_to_z32 a))
      ∙ slice-append_left (q.id_to_z32 a) (String.◌++◌ ":" (q.hex_encode x))

  -- A key is of one node and one ALPN.
  pub session_key_inj :
      (a b : d.EndpointId) (x y : List ℕ)
      → AreBytes x
      → AreBytes y
      → session_key q a x ≡ session_key q b y
      → (a ≡ b) × (x ≡ y)
  unfolding session_key
  session_key_inj a b x y bytes_x bytes_y h =
      let ids =
        sym (slice-session_key a x) ∙ ap (λ k. String.slice k 0 52) h ∙ slice-session_key b y in
      let rest = ap (λ z. String.◌++◌ z (String.◌++◌ ":" (q.hex_encode x))) (sym ids) ∙ h in
      let colon = append_cancel_left (q.id_to_z32 b) _ _ rest in
      (
        laws.id_to_z32_inj a b ids,
        laws.hex_encode_inj x y bytes_x bytes_y
            (append_cancel_left ":" (q.hex_encode x) (q.hex_encode y) colon),
      )

  -- A session under the key of its node and ALPN.
  abbrev pub IsOf : String → n.Connection → Type 0
  IsOf key c = (session_key q (laws.node_of c) (laws.alpn_of c) ≡ key) × AreBytes (laws.alpn_of c)

  pub dialled-IsOf :
      (endpoint : n.Endpoint) (addr : d.EndpointAddr) (alpn : List ℕ) (timeout : ℕ)
      (o o' : n.Outside) (c : n.Connection)
      → AreBytes alpn
      → q.connect endpoint addr alpn timeout o ≡ (done c, o')
      → IsOf (session_key q (d.id_of addr) alpn) c
  dialled-IsOf endpoint addr alpn timeout o o' c bytes e =
      let (same_node, same_alpn) = laws.dialled-peer endpoint addr alpn timeout o o' c e in
      (
        ap (λ a. session_key q a (laws.alpn_of c)) same_node
            ∙ ap (session_key q (d.id_of addr)) same_alpn,
        subst AreBytes (sym same_alpn) bytes,
      )
