-- ===== src/Facade/Stream.antt =====
-- A stream of the facade: createStream of react-native/src/index.js, without send. What runs
-- between two awaits is a function. A handler is the identity of a JavaScript function; one that
-- calls back into its own stream while that calls it is not modelled.
pub mod Pumped
pub mod LastFrames
use iroh_react_native_bridge.Base.{
  ℕ, zero, suc, ◌+◌, Bool, true, false, not, ◌&&◌, ◌||◌, String, List, [], ◌∷◌, ◌++◌, Option, none,
  some, ◌⊎◌, inl, inr, if◌then◌else◌, ◌==◌, ltb,
}
use iroh_react_native_bridge.Node.Errors.{Result}
use iroh_react_native_bridge.Facade.Errors.{BridgeError, Thrown, of_rust, normalize_rust_error}

-- The generated runtime and the application's handlers, over their state. `meanwhile` is what the
-- native tasks do between two calls.
pub record Host : Type 1 where
  pub State : Type 0
  pub next_message : String → ℕ → State → Result (Option (List ℕ)) × State
  pub is_stream_open : Option (String → State → Result Bool × State)
  pub close : String → State → Result (Unit {0}) × State
  pub call_message : ℕ → List ℕ → State → Option Thrown × State
  pub call_close : ℕ → State → State
  pub call_error : ℕ → BridgeError → State → State
  pub meanwhile : State → State

-- Set.prototype.add and Set.prototype.delete
unfoldable pub add : ℕ → List ℕ → List ℕ
add h [] = h ∷ []
add h (g ∷ hs) = let rest = add h hs in if g == h then g ∷ hs else g ∷ rest

unfoldable pub delete : ℕ → List ℕ → List ℕ
delete h [] = []
delete h (g ∷ hs) = let rest = delete h hs in if g == h then hs else g ∷ rest

abbrev pub is_empty : List ℕ → Bool
is_empty [] = true
is_empty (h ∷ hs) = false

module _ (k : Host) where
  -- `idle_polls` and `delay_ms` are the locals of the pump that sleeps, `microtasks` the close
  -- handlers that were added too late.
  -- `timer` is whether a setTimeout of the pump is under way.
  pub record Stream : Type 0 where
    pub id : String
    pub message_handlers : List ℕ
    pub close_handlers : List ℕ
    pub error_handlers : List ℕ
    pub closed : Bool
    pub pumping : Bool
    pub timer : Bool
    pub idle_polls : ℕ
    pub delay_ms : ℕ
    pub microtasks : List ℕ
    pub state : k.State

  -- createStream
  abbrev pub create_stream : String → k.State → Stream
  create_stream id state = record {
    id = id;
    message_handlers = [];
    close_handlers = [];
    error_handlers = [];
    closed = false;
    pumping = false;
    timer = false;
    idle_polls = 0;
    delay_ms = 0;
    microtasks = [];
    state = state;
  }

  abbrev pub call_all : List ℕ → k.State → k.State
  call_all [] state = state
  call_all (h ∷ hs) state = call_all hs (k.call_close h state)

  abbrev pub unless_closed : Bool → Stream → Stream
  unless_closed true s = s
  unless_closed false s = record s { closed = true; state = call_all s.close_handlers s.state }

  unfoldable pub emit_close : Stream → Stream
  emit_close s = unless_closed s.closed s

  abbrev pub report_all : List ℕ → BridgeError → k.State → k.State
  report_all [] error state = state
  report_all (h ∷ hs) error state = report_all hs error (k.call_error h error state)

  unfoldable pub emit_error : Thrown → Stream → Stream
  unfolding normalize_rust_error
  emit_error error s = record s {
    state = report_all s.error_handlers (normalize_rust_error error) s.state;
  }

  abbrev pub has_pump_observers : Stream → Bool
  has_pump_observers s = not (is_empty s.message_handlers) || not (is_empty s.close_handlers)

  abbrev pub or_emit_error : Option Thrown → Stream → Stream
  or_emit_error none s = s
  or_emit_error (some error) s = emit_error error s

  -- A payload for each handler.
  unfoldable pub deliver : List ℕ → List ℕ → Stream → Stream
  unfolding emit_error
  deliver bytes [] s = s
  deliver bytes (h ∷ hs) s =
      let (thrown, state) = k.call_message h bytes s.state in
      deliver bytes hs (or_emit_error thrown (record s { state = state }))

  -- The native stream's close, whose errors are ignored, and then emitClose.
  unfoldable pub close_native : Stream → Stream
  unfolding emit_close
  close_native s = emit_close (record s { state = (k.close s.id s.state).1 })

  abbrev pub idle : Stream → Stream
  idle s =
      let polls = s.idle_polls + 1 in
      record s {
        idle_polls = polls;
        delay_ms = if is_empty s.message_handlers then 50 else if ltb polls 20 then 10 else 50;
      }

  -- Whether the loop of pump goes on after a delay.
  abbrev pub Round : Type 0
  Round = Bool × Stream

  -- The `catch` of pump.
  abbrev pub caught : Thrown → Stream → Round
  caught error s = (false, close_native (emit_error error s))

  abbrev pub checked : Option (Result Bool × k.State) → Stream → Round
  checked none s = (true, idle s)
  checked (some (inl error, state)) s = caught (of_rust error) (record s { state = state })
  checked (some (inr true, state)) s = (true, idle (record s { state = state }))
  checked (some (inr false, state)) s = (false, close_native (record s { state = state }))

  abbrev pub ask_open :
      Option (String → k.State → Result Bool × k.State) → Stream → Option (Result Bool × k.State)
  ask_open none s = none
  ask_open (some is_stream_open) s = some (is_stream_open s.id (k.meanwhile s.state))

  abbrev pub polled : Result (Option (List ℕ)) × k.State → Stream → Round
  polled (inl error, state) s = caught (of_rust error) (record s { state = state })
  polled (inr (some bytes), state) s = (
    true,
    deliver bytes s.message_handlers (record s { state = state; idle_polls = 0; delay_ms = 0 }),
  )
  polled (inr none, state) s =
      let asked = record s { state = state } in checked (ask_open k.is_stream_open asked) asked

  -- A round of the loop of pump.
  unfoldable pub round : Stream → Round
  unfolding close_native emit_error deliver
  round s =
      polled
        (if is_empty s.message_handlers then (inr none, s.state) else k.next_message s.id 0 s.state)
        s

  -- The `finally` of pump. Where a round ends the loop the stream is closed, and else the loop
  -- ended on the same test, so that pump is not called again.
  abbrev pub finish : Round → Stream
  finish (true, s) = record s { timer = true }
  finish (false, s) = record s { pumping = false }

  abbrev pub looped : Bool → Stream → Stream
  looped true s = finish (round s)
  looped false s = record s { pumping = false }

  -- The loop's test and a round, up to the delay.
  unfoldable pub resume : Stream → Stream
  unfolding round
  resume s = looped (not s.closed && has_pump_observers s) s

  abbrev pub unless_pumped : Bool → Stream → Stream
  unless_pumped true s = s
  unless_pumped false s = resume (record s { pumping = true; idle_polls = 0 })

  -- The end of the delay.
  unfoldable pub wake : Stream → Stream
  unfolding resume
  wake s = resume (record s { timer = false })

  unfoldable pub pump : Stream → Stream
  unfolding resume
  pump s = unless_pumped (s.pumping || (s.closed || not (has_pump_observers s))) s

  abbrev pub message_added : Bool → ℕ → Stream → Stream
  message_added true h s = s
  message_added false h s = pump (record s { message_handlers = add h s.message_handlers })

  unfoldable pub on_message : ℕ → Stream → Stream
  unfolding add pump
  on_message h s = message_added s.closed h s

  abbrev pub close_added : Bool → ℕ → Stream → Stream
  close_added true h s = record s { microtasks = s.microtasks ++ (h ∷ []) }
  close_added false h s = pump (record s { close_handlers = add h s.close_handlers })

  unfoldable pub on_close : ℕ → Stream → Stream
  unfolding add pump
  on_close h s = close_added s.closed h s

  abbrev pub run_first : List ℕ → Stream → Stream
  run_first [] s = s
  run_first (h ∷ hs) s = record s { microtasks = hs; state = k.call_close h s.state }

  -- The microtask of a handler that was added to a closed stream.
  unfoldable pub run_microtask : Stream → Stream
  run_microtask s = run_first s.microtasks s

  unfoldable pub on_error : ℕ → Stream → Stream
  unfolding add
  on_error h s = record s { error_handlers = add h s.error_handlers }

  abbrev pub closed_with : Result (Unit {0}) × k.State → Stream → Result (Unit {0}) × Stream
  closed_with (answer, state) s = (answer, emit_close (record s { state = state }))

  abbrev pub close_unless : Bool → Stream → Result (Unit {0}) × Stream
  close_unless true s = (inr tt, s)
  close_unless false s = closed_with (k.close s.id s.state) s

  -- stream.close: emitClose is in its `finally`.
  unfoldable pub close : Stream → Result (Unit {0}) × Stream
  unfolding emit_close
  close s = close_unless s.closed s
