-- ===== src/Sample/Facade.antt =====
-- The theorems on the JavaScript facade, applied to an application that keeps what its handlers are
-- given.
use iroh_react_native_bridge.Base.{
  ℕ, ◌+◌, ◌≡◌, refl, Bool, true, false, List, [], ◌∷◌, ◌++◌, none, some,
}
use iroh_react_native_bridge.Node.Receive.{Streams}
use iroh_react_native_bridge.Node.Send.{Outgoing, open_outgoing}
use iroh_react_native_bridge.Node.Send.Queue.{waiting, IsValid, open_outgoing-IsValid}
use iroh_react_native_bridge.Facade.Stream.{
  Host, Stream, create_stream, on_message, on_close, resume,
}
use iroh_react_native_bridge.Facade.Stream.Pumped
use iroh_react_native_bridge.Facade.Stream.Pumped.{
  messages, closes, wakes, shuts, IsPumped, Reach-IsPumped,
}
use iroh_react_native_bridge.Facade.Stream.LastFrames.{
  Application, node_host, last_frame, resume-last_frame,
}
use iroh_react_native_bridge.Facade.Session.{Session, open_stream, close_session}
use iroh_react_native_bridge.Facade.Session.Shut
use iroh_react_native_bridge.Facade.Session.Shut.{opens, Reach-is_open}
use iroh_react_native_bridge.Facade.Send.{Sender, turn}
use iroh_react_native_bridge.Facade.Send.Order
use iroh_react_native_bridge.Facade.Send.Order.{
  InOrder, calls_send, turns, none_called, Reach-InOrder,
}
use iroh_react_native_bridge.Facade.Send.Native.{sent_by, native, turn-waiting}
use iroh_react_native_bridge.Sample.Receive.{permits, new_stream, one_frame, one_frame_test}
use iroh_react_native_bridge.Sample.Stream.{tokio, tokio_laws, payload, one_stream}

-- The payloads, and how many close handlers were called.
abbrev application : Application
application = record {
  State = List (List ℕ) × ℕ;
  call_message = λ h bytes s. (none, (bytes ∷ s.0, s.1));
  call_close = λ h s. (s.0, s.1 + 1);
  call_error = λ h error s. s;
}

abbrev host : Host
host = node_host permits application (last_frame permits application "iroh-1" one_frame)

abbrev streams : Streams permits
streams = λ id. some new_stream

abbrev new_facade : Stream host
new_facade = create_stream host "iroh-1" (streams, ([], 0))

watched-Reach : Pumped.Reach host (on_message host 2 (on_close host 1 new_facade))
watched-Reach =
    Pumped.next (Pumped.next (Pumped.here "iroh-1" (streams, ([], 0))) (closes 1)) (messages 2)

Reach-IsPumped_example : IsPumped host (on_message host 2 (on_close host 1 new_facade))
Reach-IsPumped_example = Reach-IsPumped host watched-Reach

abbrev listening : Stream host
listening = record new_facade { message_handlers = 2 ∷ []; close_handlers = 1 ∷ []; pumping = true }

resume-last_frame_example :
    (one_frame.inbox.frames ≡ (7 ∷ []) ∷ [])
    × ((resume host listening).closed ≡ true)
    × ((resume host listening).state.0 "iroh-1" ≡ none)
    × ((resume host listening).state.1 ≡ ([], 1))
resume-last_frame_example =
    resume-last_frame permits application "iroh-1" (7 ∷ []) new_stream one_frame listening 2 [] refl
      refl refl refl refl refl one_frame_test

abbrev never : ℕ → Bool
never i = false

session_shut : (s : Session never) × Shut.Reach never s × (s.closed ≡ true)
unfolding open_stream close_session
session_shut =
    (_, Shut.next (Shut.next (Shut.next Shut.here (opens 1 refl)) (opens 2 refl)) Shut.shuts, refl)

Reach-is_open_example : session_shut.0.is_open 1 ≡ false
Reach-is_open_example = Reach-is_open never (λ i. refl) 1 session_shut.1 session_shut.2

-- Two calls of send, and a turn of the first.
abbrev sending : Sender (native tokio tokio_laws "iroh-1")
sending = record { pending = payload ∷ []; started_at = none; reported = []; state = one_stream }

two_sends :
    (h : Order.History (native tokio tokio_laws "iroh-1")) × Order.Reach
      (native tokio tokio_laws "iroh-1")
      h
    × (h.calls ≡ payload ∷ (7 ∷ []) ∷ [])
two_sends = (
  _,
  Order.next
      (Order.next (Order.next (Order.here one_stream) (calls_send payload)) (calls_send (7 ∷ [])))
      (turns false 1000),
  refl,
)

Reach-InOrder_example :
    InOrder (two_sends.0.sender.state.1 ++ two_sends.0.sender.pending) two_sends.0.calls
Reach-InOrder_example = Reach-InOrder (native tokio tokio_laws "iroh-1") two_sends.1

turn-waiting_example :
    (out' : Outgoing tokio) × ((turn (native tokio tokio_laws "iroh-1") false 1000 sending).1.state
        "iroh-1"
      ≡ some out')
    × IsValid tokio tokio_laws out'
    × (waiting tokio tokio_laws out'
        ≡ waiting tokio tokio_laws (open_outgoing tokio)
          ++ sent_by (turn (native tokio tokio_laws "iroh-1") false 1000 sending).0 (payload ∷ []))
turn-waiting_example =
    turn-waiting tokio tokio_laws "iroh-1" false 1000 sending (open_outgoing tokio) refl
      (open_outgoing-IsValid tokio tokio_laws)
