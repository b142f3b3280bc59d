-- ===== src/Facade/Send.antt =====
-- send of a stream of the facade, createStream of react-native/src/index.js. The promises of a
-- stream's sends are a chain, so that they are a list of payloads whose first is under way. Time is
-- in milliseconds.
pub mod Order
pub mod Native
use iroh_react_native_bridge.Base.{
  ℕ, ◌-◌, ◌≡◌, Bool, true, false, not, ◌||◌, List, [], ◌∷◌, ◌++◌, Option, none, some, ◌⊎◌, inl, inr,
  if◌then◌else◌, leb,
}
use iroh_react_native_bridge.Node.Errors.{IrohBridgeError, Result}
use iroh_react_native_bridge.Facade.Errors.{BridgeError, of_rust, includes, normalize_rust_error}

abbrev pub send_timeout_ms : ℕ
send_timeout_ms = 30000

-- How a turn of a send's loop ends: the promise is resolved, a delay and another turn follow, or
-- the promise is rejected, with what goes to the error handlers.
pub data Attempt : Type 0 where
  sent : Attempt
  retries : Attempt
  rejects : Option BridgeError → Attempt

abbrev pub failed_attempt : BridgeError → Bool → ℕ → Attempt
failed_attempt error closed elapsed =
    if not (includes error.message "send queue is full") || (closed || leb send_timeout_ms elapsed)
    then rejects (some error)
    else retries

-- A turn of the loop, with the runtime's answer.
unfoldable pub attempt : Result (Unit {0}) → Bool → ℕ → Attempt
unfolding normalize_rust_error
attempt (inr tt) closed elapsed = sent
attempt (inl error) closed elapsed =
    failed_attempt (normalize_rust_error (of_rust error)) closed elapsed

-- `S` is the state of the native runtime, and `send` its send on this stream.
module _ {S : Type 0} (send : List ℕ → S → Result (Unit {0}) × S) where
  -- The sends of a stream: those that have not ended, when the first of them began, and what was
  -- reported to the error handlers, the latest first.
  pub record Sender : Type 0 where
    pub pending : List (List ℕ)
    pub started_at : Option ℕ
    pub reported : List BridgeError
    pub state : S

  -- The call of send.
  unfoldable pub called : List ℕ → Sender → Sender
  called payload s = record s { pending = s.pending ++ (payload ∷ []) }

  abbrev pub reports : Option BridgeError → List BridgeError → List BridgeError
  reports none errors = errors
  reports (some error) errors = error ∷ errors

  -- What a turn leaves: whether its payload was sent, and the sender.
  abbrev pub settled : Attempt → ℕ → List (List ℕ) → Sender → Bool × Sender
  settled sent started rest s = (true, record s { pending = rest; started_at = none })
  settled retries started rest s = (false, record s { started_at = some started })
  settled (rejects error) started rest s =
      (false, record s { pending = rest; started_at = none; reported = reports error s.reported })

  abbrev pub sent_to : Bool → ℕ → ℕ → List (List ℕ) → Result (Unit {0}) × S → Sender → Bool × Sender
  sent_to closed started now rest (answer, state) s =
      settled (attempt answer closed (now - started)) started rest (record s { state = state })

  abbrev pub begun : Bool → ℕ → List ℕ → List (List ℕ) → Sender → Bool × Sender
  begun true now payload rest s = settled (rejects none) now rest s
  begun false now payload rest s = sent_to false now now rest (send payload s.state) s

  -- A turn of the first send, which begins it where it has not begun: then the stream's flag is
  -- tested.
  abbrev pub turn_of : List (List ℕ) → Option ℕ → Bool → ℕ → Sender → Bool × Sender
  turn_of [] started closed now s = (false, s)
  turn_of (payload ∷ rest) none closed now s = begun closed now payload rest s
  turn_of (payload ∷ rest) (some started) closed now s =
      sent_to closed started now rest (send payload s.state) s

  unfoldable pub turn : Bool → ℕ → Sender → Bool × Sender
  unfolding attempt
  turn closed now s = turn_of s.pending s.started_at closed now s
