-- ===== src/Facade/Stream/LastFrames.antt =====
-- A stream of the facade over the native streams, when its peer sends and ends.
use text.Mathlib.Text.{◌==◌ as str_eq}
use text.Mathlib.TextEquality.{eq_iff}
use iroh_react_native_bridge.Base.{
  ℕ, ◌≡◌, refl, ◌∙◌, ap, Bool, true, false, not, ◌&&◌, String, List, [], ◌∷◌, ◌++◌, Option, none,
  some, inr, if◌then◌else◌, arith,
}
use iroh_react_native_bridge.Node.Receive.{
  Notify, Receiving, enqueue_turn, frame_enqueued, or_await, receive_on, Streams, at_once,
  store_received, receive_from, next_message,
}
use iroh_react_native_bridge.Node.Receive.Early.{pop_and_notify-idle, enqueued-true}
use iroh_react_native_bridge.Node.Inbox.{try_enqueue}
use iroh_react_native_bridge.Node.Inbox.Order.{try_enqueue-some}
use iroh_react_native_bridge.Facade.Errors.{BridgeError, Thrown}
use iroh_react_native_bridge.Facade.Stream.{
  Host, Stream, is_empty, has_pump_observers, call_all, close_native, emit_close, unless_closed,
  checked, polled, round, finish, looped, resume,
}

-- What a handler does to the application, where it throws or not.
pub record Application : Type 1 where
  pub State : Type 0
  pub call_message : ℕ → List ℕ → State → Option Thrown × State
  pub call_close : ℕ → State → State
  pub call_error : ℕ → BridgeError → State → State

module _ (n : Notify) (a : Application) where
  abbrev pub put : String → Option (Receiving n) → Streams n → Streams n
  put id o streams j = if str_eq id j then o else streams j

  -- is_stream_open, of the receiving half of a stream
  abbrev pub is_open : Option (Receiving n) → Bool
  is_open none = false
  is_open (some r) = not r.is_closed

  abbrev pub on_application : {B : Type 0} → B × a.State → Streams n → B × (Streams n × a.State)
  on_application (b, app) streams = (b, (streams, app))

  -- The node's streams behind the generated runtime. `meanwhile` is what the tasks of the node do
  -- between next_message and is_stream_open.
  abbrev pub node_host : (Streams n → Streams n) → Host
  node_host meanwhile = record {
    State = Streams n × a.State;
    next_message = λ id timeout_ms s.
        let ((answer, streams), w) = next_message n id timeout_ms (λ r. r) s.0 in
        (answer, (streams, s.1));
    is_stream_open = some (λ id s. (inr (is_open (s.0 id)), s));
    close = λ id s. (inr tt, (put id none s.0, s.1));
    call_message = λ h bytes s. on_application (a.call_message h bytes s.1) s.0;
    call_close = λ h s. (s.0, a.call_close h s.1);
    call_error = λ h error s. (s.0, a.call_error h error s.1);
    meanwhile = λ s. (meanwhile s.0, s.1);
  }

  abbrev pub close_handlers_called : List ℕ → a.State → a.State
  close_handlers_called [] app = app
  close_handlers_called (h ∷ hs) app = close_handlers_called hs (a.call_close h app)

  -- The reader task puts a last frame in the inbox, and then finds the end of the stream.
  abbrev pub last_frame : String → Receiving n → Streams n → Streams n
  last_frame id r streams = put id (some (record (frame_enqueued n r) { is_closed = true })) streams

  call_all-application :
      (meanwhile : Streams n → Streams n) (hs : List ℕ) (streams : Streams n) (app : a.State)
      → call_all (node_host meanwhile) hs (streams, app) ≡ (streams, close_handlers_called hs app)
  call_all-application meanwhile [] streams app = refl
  call_all-application meanwhile (h ∷ hs) streams app =
      call_all-application meanwhile hs streams (a.call_close h app)

  -- What next_message with a timeout of 0 gives on a stream with no frame.
  receive_on-idle :
      (r : Receiving n)
      → r.inbox.frames ≡ []
      → r.is_closed ≡ false
      → receive_on n 0 (λ x. x) r ≡ ((none, r), at_once)
  unfolding receive_on
  receive_on-idle r empty up =
      ap (or_await n 0 (λ x. x)) (pop_and_notify-idle n r (empty, up)) ∙ rw up refl

  next_message-idle :
      (id : String) (streams : Streams n) (r : Receiving n)
      → streams id ≡ some r
      → r.inbox.frames ≡ []
      → r.is_closed ≡ false
      → next_message n id 0 (λ x. x) streams ≡ ((inr none, put id (some r) streams), at_once)
  unfolding next_message
  next_message-idle id streams r there empty up =
      ap (λ o. receive_from n 0 (λ x. x) id o streams) there
      ∙ ap (λ x. store_received n id streams x) (receive_on-idle r empty up)

  put-found :
      (id : String) (o : Option (Receiving n)) (streams : Streams n) → put id o streams id ≡ o
  put-found id o streams = rw ((eq_iff id id).1 refl) refl

  -- A stream that is open, with a message handler, and without a frame when it is asked for one.
  module _ (id : String) (payload : List ℕ) (r r1 : Receiving n)
      (s : Stream (node_host (last_frame id r1))) (h : ℕ) (hs : List ℕ) (named : s.id ≡ id)
      (up : s.closed ≡ false) (handled : s.message_handlers ≡ h ∷ hs)
      (there : s.state.0 id ≡ some r) (empty : r.inbox.frames ≡ [])
      (native_up : r.is_closed ≡ false) (put_in : enqueue_turn n payload r ≡ (true, r1)) where
    abbrev host : Host
    host = node_host (last_frame id r1)

    abbrev asked : Stream host
    asked = record s { state = (put id (some r) s.state.0, s.state.1) }

    abbrev over : Stream host
    over = record s { state = (last_frame id r1 (put id (some r) s.state.0), s.state.1) }

    first_look :
        (if is_empty s.message_handlers
          then (inr none, s.state)
          else host.next_message s.id 0 s.state)
        ≡ (inr none, asked.state)
    first_look =
        ap (λ b. if b then (inr none, s.state) else host.next_message s.id 0 s.state)
          (ap is_empty handled)
        ∙ ap (λ i. host.next_message i 0 s.state) named
        ∙ ap (λ x. (x.0.0, (x.0.1, s.state.1)))
            (next_message-idle id s.state.0 r there empty native_up)

    shut : is_open (last_frame id r1 (put id (some r) s.state.0) s.id) ≡ false
    shut =
        ap (λ i. is_open (last_frame id r1 (put id (some r) s.state.0) i)) named
        ∙ ap is_open (put-found id _ (put id (some r) s.state.0))

    round_ends : round host s ≡ (false, close_native host over)
    unfolding round
    round_ends =
        ap (λ x. polled host x s) first_look
        ∙ ap (λ b. checked host (some (inr b, over.state)) asked) shut

    resumed : resume host s ≡ record (close_native host over) { pumping = false }
    unfolding resume
    resumed =
        let goes_on : (not s.closed && has_pump_observers host s) ≡ true =
          ground (arith, up, ap is_empty handled) in
        ap (λ b. looped host b s) goes_on ∙ ap (finish host) round_ends

    closed_over : close_native host over ≡ record over {
      closed = true;
      state = (put id none over.state.0, close_handlers_called s.close_handlers s.state.1);
    }
    unfolding close_native emit_close
    closed_over =
        let gone : Stream host = record over { state = (put s.id none over.state.0, s.state.1) } in
        ap (λ b. unless_closed host b gone) up
        ∙ ap
            (λ i. record gone {
              closed = true;
              state = call_all host s.close_handlers (put i none over.state.0, s.state.1);
            })
            named
        ∙ ap (λ x. record over { closed = true; state = x })
            (call_all-application (last_frame id r1) s.close_handlers (put id none over.state.0)
              s.state.1)

    -- The last frame of a peer can be lost: where it arrives and the peer ends the stream after the
    -- pump of a stream with a message handler found no frame and before it asks whether the stream
    -- is open, the round ends with the stream closed, the frame is in the inbox and the native
    -- stream is removed with it, and of the application's handlers only those for the close were
    -- called.
    pub resume-last_frame :
        (r1.inbox.frames ≡ payload ∷ [])
        × ((resume host s).closed ≡ true)
        × ((resume host s).state.0 id ≡ none)
        × ((resume host s).state.1 ≡ close_handlers_called s.close_handlers s.state.1)
    unfolding enqueue_turn
    resume-last_frame =
        let (inbox, fits, left) = enqueued-true n (try_enqueue payload r.inbox) r r1 put_in in
        let (made, _, _) = try_enqueue-some payload r.inbox inbox fits in
        let after = resumed ∙ ap (λ (t : Stream host). record t { pumping = false }) closed_over in
        (
          ap (λ x. x.inbox.frames) left
              ∙ ap (λ i. i.frames) made
              ∙ ap (λ f. f ++ (payload ∷ [])) empty,
          ap (λ t. t.closed) after,
          ap (λ t. t.state.0 id) after ∙ put-found id none over.state.0,
          ap (λ t. t.state.1) after,
        )
