-- ===== src/Facade/Send/Order.antt =====
-- Every order of the calls of send and of the turns of their loops.
use mathlib.Core.Path.{subst}
use iroh_react_native_bridge.Base.{
  not, ◌||◌, leb, Bool-cases, ◌-◌, arith, inl, inr, append_assoc, ℕ, ◌≡◌, refl, sym, Bool, true,
  false, List, [], ◌∷◌, ◌++◌, Option, none, some,
}
use iroh_react_native_bridge.Node.Errors.{Result}
use iroh_react_native_bridge.Facade.Errors.{BridgeError, of_rust, includes, normalize_rust_error}
use iroh_react_native_bridge.Facade.Send.{
  failed_attempt, send_timeout_ms, attempt, sent_to, Attempt, sent, retries, rejects, Sender,
  called, settled, turn_of, turn,
}

-- The first list is the second one without some of its elements, in the same order.
pub data InOrder : List (List ℕ) → List (List ℕ) → Type 0 where
  nothing : InOrder [] []
  without : {xs ys : List (List ℕ)} (p : List ℕ) → InOrder xs ys → InOrder xs (p ∷ ys)
  with_it : {xs ys : List (List ℕ)} (p : List ℕ) → InOrder xs ys → InOrder (p ∷ xs) (p ∷ ys)

add_last :
    {xs ys : List (List ℕ)} (p : List ℕ) → InOrder xs ys → InOrder (xs ++ (p ∷ [])) (ys ++ (p ∷ []))
add_last p nothing = with_it p nothing
add_last p (without q h) = without q (add_last p h)
add_last p (with_it q h) = with_it q (add_last p h)

everything : (xs : List (List ℕ)) → InOrder xs xs
everything [] = nothing
everything (x ∷ xs) = with_it x (everything xs)

InOrder-trans : {xs ys zs : List (List ℕ)} → InOrder xs ys → InOrder ys zs → InOrder xs zs
InOrder-trans h nothing = h
InOrder-trans h (without q g) = without q (InOrder-trans h g)
InOrder-trans (without p h) (with_it q g) = without q (InOrder-trans h g)
InOrder-trans (with_it p h) (with_it q g) = with_it q (InOrder-trans h g)

all_but_one :
    (xs : List (List ℕ)) (p : List ℕ) (zs : List (List ℕ)) → InOrder (xs ++ zs) (xs ++ (p ∷ zs))
all_but_one [] p zs = without p (everything zs)
all_but_one (x ∷ xs) p zs = with_it x (all_but_one xs p zs)

abbrev pub is_sent : Attempt → Bool
is_sent sent = true
is_sent retries = false
is_sent (rejects error) = false

pub failed_attempt-sent :
    (error : BridgeError) (closed : Bool) (elapsed : ℕ)
    → is_sent (failed_attempt error closed elapsed) ≡ false
failed_attempt-sent error closed elapsed =
    elim (Bool-cases (
      not (includes error.message "send queue is full")
      || (closed || leb send_timeout_ms elapsed))) [ inl e ↦ rw e refl | inr e ↦ rw e refl ]

-- What the runtime has taken: a send that it answers with success adds its payload.
abbrev pub taken :
    {S : Type 0}
    → List ℕ
    → List (List ℕ)
    → Result (Unit {0}) × S
    → Result (Unit {0}) × (S × List (List ℕ))
taken payload log (inr tt, state) = (inr tt, (state, log ++ (payload ∷ [])))
taken payload log (inl error, state) = (inl error, (state, log))

-- A native send with the list of the payloads that it has taken.
abbrev pub logged :
    {S : Type 0}
    → (List ℕ → S → Result (Unit {0}) × S)
    → List ℕ
    → S × List (List ℕ)
    → Result (Unit {0}) × (S × List (List ℕ))
logged send payload s = taken payload s.1 (send payload s.0)

module _ {S : Type 0} (send : List ℕ → S → Result (Unit {0}) × S) where
  -- A sender over the runtime with its list, and the payloads that send was called with, in order.
  pub record History : Type 0 where
    pub sender : Sender (logged send)
    pub calls : List (List ℕ)

  pub data Step (h : History) : History → Type 0 where
    calls_send :
        (payload : List ℕ)
        → Step h (record {
          sender = called (logged send) payload h.sender;
          calls = h.calls ++ (payload ∷ []);
        })
    turns :
        (closed : Bool) (now : ℕ)
        → Step h (record h { sender = (turn (logged send) closed now h.sender).1 })
    elsewhere :
        (state : S)
        → Step h (record h { sender = record (h.sender) { state = (state, h.sender.state.1) } })

  abbrev pub none_called : S → History
  none_called state = record {
    sender = record { pending = []; started_at = none; reported = []; state = (state, []) };
    calls = [];
  }

  pub data Reach : History → Type 0 where
    here : (state : S) → Reach (none_called state)
    next : {g h : History} → Reach g → Step g h → Reach h

  -- What was taken and what has not ended, in the order of the calls.
  abbrev IsOrdered : List (List ℕ) → Sender (logged send) → Type 0
  IsOrdered calls s = InOrder (s.state.1 ++ s.pending) calls

  failed-IsOrdered :
      (x : Attempt) (started : ℕ) (payload : List ℕ) (rest calls : List (List ℕ))
      (s : Sender (logged send))
      → is_sent x ≡ false
      → s.pending ≡ payload ∷ rest
      → InOrder (s.state.1 ++ (payload ∷ rest)) calls
      → IsOrdered calls (settled (logged send) x started rest s).1
  failed-IsOrdered sent started payload rest calls s e same h = absurd (ground arith)
  failed-IsOrdered retries started payload rest calls s e same h =
      subst (λ l. InOrder (s.state.1 ++ l) calls) (sym same) h
  failed-IsOrdered (rejects error) started payload rest calls s e same h =
      InOrder-trans (all_but_one s.state.1 payload rest) h

  sent_to-IsOrdered :
      (closed : Bool) (started now : ℕ) (payload : List ℕ) (rest calls : List (List ℕ))
      (x : Result (Unit {0}) × S) (s : Sender (logged send))
      → s.pending ≡ payload ∷ rest
      → InOrder (s.state.1 ++ (payload ∷ rest)) calls
      → IsOrdered calls
          (sent_to (logged send) closed started now rest (taken payload s.state.1 x) s).1
  unfolding attempt
  sent_to-IsOrdered closed started now payload rest calls (inr tt, state) s same h =
      subst (λ l. InOrder l calls) (sym (append_assoc s.state.1 (payload ∷ []) rest)) h
  sent_to-IsOrdered closed started now payload rest calls (inl error, state) s same h =
      failed-IsOrdered (attempt (inl error) closed (now - started)) started payload rest calls
        (record s { state = (state, s.state.1) })
        (failed_attempt-sent (normalize_rust_error (of_rust error)) closed (now - started)) same h

  turn_of-IsOrdered :
      (pending : List (List ℕ)) (started : Option ℕ) (closed : Bool) (now : ℕ)
      (calls : List (List ℕ)) (s : Sender (logged send))
      → s.pending ≡ pending
      → InOrder (s.state.1 ++ pending) calls
      → IsOrdered calls (turn_of (logged send) pending started closed now s).1
  turn_of-IsOrdered [] started closed now calls s e h =
      subst (λ l. InOrder (s.state.1 ++ l) calls) (sym e) h
  turn_of-IsOrdered (payload ∷ rest) none true now calls s e h =
      failed-IsOrdered (rejects none) now payload rest calls s refl e h
  turn_of-IsOrdered (payload ∷ rest) none false now calls s e h =
      sent_to-IsOrdered false now now payload rest calls (send payload s.state.0) s e h
  turn_of-IsOrdered (payload ∷ rest) (some started) closed now calls s e h =
      sent_to-IsOrdered closed started now payload rest calls (send payload s.state.0) s e h

  -- The runtime takes the sends of a stream in order, and none twice: whatever turns of their loops
  -- there are, with full queues, errors and a stream that closes, the payloads that the runtime has
  -- answered with success, followed by those of the sends that have not ended, are some of those that
  -- send was called with, each as often and in the same order. That a send begins when the one before
  -- it has ended, by the chain of promises, is part of the model.
  pub Reach-InOrder :
      {h : History} → Reach h → InOrder (h.sender.state.1 ++ h.sender.pending) h.calls
  unfolding called turn
  Reach-InOrder (here state) = nothing
  Reach-InOrder (next {g} r (calls_send payload)) =
      subst (λ l. InOrder l (g.calls ++ (payload ∷ [])))
        (append_assoc g.sender.state.1 g.sender.pending (payload ∷ []))
        (add_last payload (Reach-InOrder r))
  Reach-InOrder (next {g} r (turns closed now)) =
      turn_of-IsOrdered g.sender.pending g.sender.started_at closed now g.calls g.sender refl
        (Reach-InOrder r)
  Reach-InOrder (next r (elsewhere state)) = Reach-InOrder r
