-- ===== src/Facade/Session.antt =====
-- openLogicalSession of react-native/src/index.js, over streams of which only matters which are
-- open in the native runtime. A stream is the identity of its JavaScript object.
pub mod Shut
use iroh_react_native_bridge.Base.{
  ℕ, ◌≡◌, Bool, true, false, List, [], ◌∷◌, Option, none, some, ◌⊎◌, inl, inr, if◌then◌else◌, ◌==◌,
  String,
}
use iroh_react_native_bridge.Facade.Stream.{add, delete}

-- `throws` says for which streams the native close throws.
module _ (throws : ℕ → Bool) where
  pub record Session : Type 0 where
    pub streams : List ℕ
    pub closed : Bool
    pub is_open : ℕ → Bool

  abbrev pub opened_session : Session
  opened_session = record { streams = []; closed = false; is_open = λ i. false }

  abbrev pub with_open : ℕ → Bool → (ℕ → Bool) → ℕ → Bool
  with_open i b is_open j = if j == i then b else is_open j

  -- stream.close: whether it throws, and which streams are open then.
  unfoldable pub close_stream : ℕ → (ℕ → Bool) → Bool × (ℕ → Bool)
  close_stream i is_open = if throws i then (true, is_open) else (false, with_open i false is_open)

  abbrev pub unless_thrown :
      Bool × (ℕ → Bool) → ((ℕ → Bool) → Bool × (ℕ → Bool)) → Bool × (ℕ → Bool)
  unless_thrown (true, is_open) rest = (true, is_open)
  unless_thrown (false, is_open) rest = rest is_open

  -- `active.map((stream) => stream.close())`, which ends at the first that throws.
  unfoldable pub close_active : List ℕ → (ℕ → Bool) → Bool × (ℕ → Bool)
  unfolding close_stream
  close_active [] is_open = (false, is_open)
  close_active (i ∷ active) is_open = unless_thrown (close_stream i is_open) (close_active active)

  -- openStream, where it goes on with the stream that it waited for: whether it gives the stream. Its
  -- test before the wait only throws.
  abbrev pub given : Bool → ℕ → Session → Bool × Session
  given true i s = (false, record s { is_open = (close_stream i (with_open i true s.is_open)).1 })
  given false i s =
      (true, record s { streams = add i s.streams; is_open = with_open i true s.is_open })

  unfoldable pub open_stream : ℕ → Session → Bool × Session
  unfolding close_stream add
  open_stream i s = given s.closed i s

  -- The handler that openStream puts on the stream's close.
  unfoldable pub stream_closed : ℕ → Session → Session
  unfolding delete
  stream_closed i s = record s { streams = delete i s.streams }

  abbrev pub closed_active : Bool → Session → Bool × Session
  closed_active true s = (false, s)
  closed_active false s =
      let (threw, is_open) = close_active s.streams s.is_open in
      (threw, record { streams = []; closed = true; is_open = is_open })

  -- close: whether it throws
  unfoldable pub close_session : Session → Bool × Session
  unfolding close_active
  close_session s = closed_active s.closed s
