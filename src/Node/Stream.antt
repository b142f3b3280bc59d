-- ===== src/Node/Stream.antt =====
-- One direction of a stream between two nodes: `send` and the writer task of connect_endpoint_addr
-- on one side, its reader task and `next_message` on the other
-- (rust/iroh_mobile_bridge/src/lib.rs), over a QUIC stream, which delivers the bytes written in
-- order.
pub mod Refinement
use iroh_react_native_bridge.Base.{ℕ, ◌≡◌, Bool, List, [], ◌∷◌, ◌++◌, some, inl, inr}
use iroh_react_native_bridge.Node.Errors.{IrohBridgeError}
use iroh_react_native_bridge.Node.Frame.{Streams, write_frame, read_frame}
use iroh_react_native_bridge.Node.Frame.RoundTrip.{StreamLaws}
use iroh_react_native_bridge.Node.Inbox.{InboxState, empty_inbox, try_enqueue, pop_frame}
use iroh_react_native_bridge.Node.Send.{Tokio, Outgoing, open_outgoing, send_on, frame_written}
use iroh_react_native_bridge.Node.Send.Laws.{TokioLaws, IsFrame}

-- What the two applications see.
pub data Event : Type 0 where
  sent : List ℕ → Event
  received : List ℕ → Event

module _ (s : Streams) (laws : StreamLaws s) (k : Tokio) where
  -- `in_flight` is what was written and not yet read.
  pub record Stream : Type 0 where
    pub outgoing : Outgoing k
    pub writer : s.Writer
    pub in_flight : List ℕ
    pub inbox : InboxState

  abbrev pub opened_with : s.Writer → Stream
  opened_with writer = record {
    outgoing = open_outgoing k;
    writer = writer;
    in_flight = [];
    inbox = empty_inbox;
  }

  -- What a stream may have done, with the events in their order: a `send` of a length that it lets
  -- pass, which succeeds or fails; a turn of the writer task, which takes a frame and writes it; a
  -- turn of the reader task, whose frame finds room; `next_message`; and the end of a task, which
  -- closes the stream for `send`.
  pub data Run : List Event → Stream → Type 0 where
    opens : (writer : s.Writer) → Run [] (opened_with writer)
    sends :
        {events : List Event} {t : Stream} (payload : List ℕ) {out : Outgoing k}
        → Run events t
        → IsFrame payload
        → send_on k payload t.outgoing ≡ (inr tt, out)
        → Run (events ++ (sent payload ∷ [])) (record t { outgoing = out })
    fails :
        {events : List Event} {t : Stream} (payload : List ℕ) (e : IrohBridgeError)
        {out : Outgoing k}
        → Run events t
        → IsFrame payload
        → send_on k payload t.outgoing ≡ (inl e, out)
        → Run events (record t { outgoing = out })
    writes :
        {events : List Event} {t : Stream} (payload bytes : List ℕ) (rx : k.Channel)
        (writer : s.Writer)
        → Run events t
        → k.recv t.outgoing.tx ≡ some (payload, rx)
        → write_frame s payload t.writer ≡ inr writer
        → laws.written writer ≡ laws.written t.writer ++ bytes
        → Run events (record t {
          outgoing = frame_written k payload rx t.outgoing;
          writer = writer;
          in_flight = t.in_flight ++ bytes;
        })
    reads :
        {events : List Event} {t : Stream} (payload : List ℕ) (r r' : s.Reader) (inbox : InboxState)
        → Run events t
        → laws.remaining r ≡ t.in_flight
        → read_frame s r ≡ inr (some payload, r')
        → try_enqueue payload t.inbox ≡ some inbox
        → Run events (record t { in_flight = laws.remaining r'; inbox = inbox })
    delivers :
        {events : List Event} {t : Stream} (payload : List ℕ) (inbox : InboxState)
        → Run events t
        → pop_frame t.inbox ≡ some (payload, inbox)
        → Run (events ++ (received payload ∷ [])) (record t { inbox = inbox })
    closes :
        {events : List Event} {t : Stream} (flag : Bool)
        → Run events t
        → Run events (record t { outgoing = record (t.outgoing) { is_closed = flag } })

-- The specification: a queue that gives back what was put in, first in, first out, and nothing
-- else.
pub data Fifo : List Event → List (List ℕ) → Type 0 where
  empty : Fifo [] []
  put :
      {events : List Event} {queue : List (List ℕ)} (payload : List ℕ)
      → Fifo events queue
      → Fifo (events ++ (sent payload ∷ [])) (queue ++ (payload ∷ []))
  take :
      {events : List Event} {queue : List (List ℕ)} (payload : List ℕ)
      → Fifo events (payload ∷ queue)
      → Fifo (events ++ (received payload ∷ [])) queue
