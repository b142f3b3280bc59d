-- ===== src/Facade/Send/Native.antt =====
-- send of the facade over send of the node.

use text.Mathlib.Text.{◌==◌ as str_eq}
use text.Mathlib.TextEquality.{eq_iff}
use iroh_react_native_bridge.Base.{
  append_nil, ℕ, ◌-◌, ◌≡◌, refl, sym, ◌∙◌, ap, Bool, true, false, String, List, [], ◌∷◌, ◌++◌,
  Option, none, some, ◌⊎◌, inl, inr, arith,
}
use iroh_react_native_bridge.Node.Errors.{Result}
use iroh_react_native_bridge.Node.Send
use iroh_react_native_bridge.Node.Send.{Tokio, Outgoing, Connections}
use iroh_react_native_bridge.Node.Send.Laws.{TokioLaws}
use iroh_react_native_bridge.Node.Send.Queue.{
  waiting, IsValid, Sent, accepted, refused, send-Effect,
}
use iroh_react_native_bridge.Facade.Errors.{of_rust, normalize_rust_error}
use iroh_react_native_bridge.Facade.Send.{
  Attempt, sent, retries, rejects, attempt, Sender, settled, sent_to, turn_of, turn,
}
use iroh_react_native_bridge.Facade.Send.Order.{is_sent, failed_attempt-sent}

-- The payload that a turn sends.
abbrev pub first_of : List (List ℕ) → List (List ℕ)
first_of [] = []
first_of (payload ∷ rest) = payload ∷ []

abbrev pub sent_by : Bool → List (List ℕ) → List (List ℕ)
sent_by true pending = first_of pending
sent_by false pending = []

module _ (k : Tokio) (laws : TokioLaws k) (id : String) where
  abbrev pub native : List ℕ → Connections k → Result (Unit {0}) × Connections k
  native = Send.send k id

  -- The stream's waiting frames after a turn, with the payload that it sent.
  abbrev Queued : List (List ℕ) → Outgoing k → Bool × Sender native → Type 0
  Queued pending out x =
      (out' : Outgoing k) × (x.1.state id ≡ some out')
      × IsValid k laws out'
      × (waiting k laws out' ≡ waiting k laws out ++ sent_by x.0 pending)

  settled-Queued :
      (x : Attempt) (started : ℕ) (payload : List ℕ) (rest : List (List ℕ)) (s : Sender native)
      (out out' : Outgoing k)
      → s.state id ≡ some out'
      → IsValid k laws out'
      → waiting k laws out' ≡ waiting k laws out ++ sent_by (is_sent x) (payload ∷ rest)
      → Queued (payload ∷ rest) out (settled native x started rest s)
  settled-Queued sent started payload rest s out out' there valid same = (out', there, valid, same)
  settled-Queued retries started payload rest s out out' there valid same =
      (out', there, valid, same)
  settled-Queued (rejects error) started payload rest s out out' there valid same =
      (out', there, valid, same)

  -- The frames after an answer of the node.
  answered :
      (answer : Result (Unit {0})) (closed : Bool) (elapsed : ℕ) (payload : List ℕ)
      (rest : List (List ℕ)) (out out' : Outgoing k)
      → Sent k laws payload out answer out'
      → waiting k laws out'
        ≡ waiting k laws out ++ sent_by (is_sent (attempt answer closed elapsed)) (payload ∷ rest)
  unfolding attempt
  answered (inr tt) closed elapsed payload rest out out' (accepted e same) = same
  answered (inr tt) closed elapsed payload rest out out' (refused error e same permits) =
      absurd (ground arith)
  answered (inl error) closed elapsed payload rest out out' (accepted e same) =
      absurd (ground arith)
  answered (inl error) closed elapsed payload rest out out' (refused error' e same permits) =
      same
      ∙ sym (append_nil (waiting k laws out))
      ∙ ap (λ b. waiting k laws out ++ sent_by b (payload ∷ rest))
          (sym (failed_attempt-sent (normalize_rust_error (of_rust error)) closed elapsed))

  mine :
      (payload : List ℕ) (out out' : Outgoing k) (r : Result (Unit {0}))
      → ((str_eq id id ≡ true) × Sent k laws payload out r out')
        ⊎ ((str_eq id id ≡ false) × (out' ≡ out))
      → Sent k laws payload out r out'
  mine payload out out' r (inl (same, h)) = h
  mine payload out out' r (inr (other, h)) = absurd (ground (arith, (eq_iff id id).1 refl))

  sent_to-Queued :
      (closed : Bool) (started now : ℕ) (payload : List ℕ) (rest : List (List ℕ))
      (s : Sender native) (out : Outgoing k)
      → s.state id ≡ some out
      → IsValid k laws out
      → Queued
          (payload ∷ rest)
          out
          (sent_to native closed started now rest (native payload s.state) s)
  sent_to-Queued closed started now payload rest s out there valid =
      let (out', there', valid', effect) =
        send-Effect k laws id payload s.state id out there valid in
      settled-Queued (attempt (native payload s.state).0 closed (now - started)) started payload
        rest (record s { state = (native payload s.state).1 }) out out' there' valid'
        (answered (native payload s.state).0 closed (now - started) payload rest out out'
          (mine payload out out' _ effect))

  turn_of-Queued :
      (pending : List (List ℕ)) (started : Option ℕ) (closed : Bool) (now : ℕ) (s : Sender native)
      (out : Outgoing k)
      → s.state id ≡ some out
      → IsValid k laws out
      → Queued pending out (turn_of native pending started closed now s)
  turn_of-Queued [] started closed now s out there valid =
      (out, there, valid, sym (append_nil (waiting k laws out)))
  turn_of-Queued (payload ∷ rest) none true now s out there valid =
      (out, there, valid, sym (append_nil (waiting k laws out)))
  turn_of-Queued (payload ∷ rest) none false now s out there valid =
      sent_to-Queued false now now payload rest s out there valid
  turn_of-Queued (payload ∷ rest) (some started) closed now s out there valid =
      sent_to-Queued closed started now payload rest s out there valid

  -- No frame is queued twice and none is lost by the retries: a turn of a stream's send leaves in
  -- the native queue the frames that waited there, in order, with the turn's payload after them if
  -- its promise is resolved and with nothing more if it is tried again or rejected. The native
  -- stream is in the table and its queue valid, and is valid after.
  pub turn-waiting :
      (closed : Bool) (now : ℕ) (s : Sender native) (out : Outgoing k)
      → s.state id ≡ some out
      → IsValid k laws out
      → (out' : Outgoing k) × ((turn native closed now s).1.state id ≡ some out')
        × IsValid k laws out'
        × (waiting k laws out'
            ≡ waiting k laws out ++ sent_by (turn native closed now s).0 s.pending)
  unfolding turn
  turn-waiting closed now s out there valid =
      turn_of-Queued s.pending s.started_at closed now s out there valid
