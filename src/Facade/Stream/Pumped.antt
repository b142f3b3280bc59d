-- ===== src/Facade/Stream/Pumped.antt =====
-- Every order of the calls of a stream's methods, of its timer and of what is outside of it.

use mathlib.Core.Path.{subst}
use iroh_react_native_bridge.Base.{
  sym, ℕ, ◌≡◌, refl, ◌∙◌, Bool, true, false, not, ◌&&◌, ◌||◌, String, List, [], ◌∷◌, Option, none,
  some, ◌⊎◌, inl, inr, arith, Bool-cases,
}
use iroh_react_native_bridge.Node.Errors.{Result}
use iroh_react_native_bridge.Facade.Errors.{Thrown, of_rust}
use iroh_react_native_bridge.Facade.Stream.{
  Host, delete, is_empty, Stream, create_stream, emit_close, emit_error, has_pump_observers,
  or_emit_error, deliver, close_native, Round, checked, polled, round, finish, resume, pump,
  on_message, on_close, on_error, close, unless_closed, looped, caught, add, wake, run_first,
  run_microtask, unless_pumped, message_added, close_added, close_unless,
}

module _ (k : Host) where
  -- Each method, the end of the pump's delay, and the functions that the subscriptions return.
  pub data Step (s : Stream k) : Stream k → Type 0 where
    messages : (h : ℕ) → Step s (on_message k h s)
    closes : (h : ℕ) → Step s (on_close k h s)
    reports : (h : ℕ) → Step s (on_error k h s)
    stops_messages : (h : ℕ) → Step s (record s { message_handlers = delete h s.message_handlers })
    stops_closes : (h : ℕ) → Step s (record s { close_handlers = delete h s.close_handlers })
    stops_reports : (h : ℕ) → Step s (record s { error_handlers = delete h s.error_handlers })
    wakes : s.timer ≡ true → Step s (wake k s)
    microtask : Step s (run_microtask k s)
    shuts : Step s (close k s).1

  -- `elsewhere` is what the native tasks and the application do by themselves.
  pub data Reach : Stream k → Type 0 where
    here : (id : String) (state : k.State) → Reach (create_stream k id state)
    next : {s t : Stream k} → Reach s → Step s t → Reach t
    elsewhere : {s : Stream k} → Reach s → (state : k.State) → Reach (record s { state = state })

  -- The pump's flag says whether its timer is under way, and where the stream is open and has a
  -- handler, it is.
  abbrev pub IsPumped : Stream k → Type 0
  IsPumped s =
      (s.pumping ≡ s.timer)
      × ((s.closed ≡ true) ⊎ ((has_pump_observers k s ≡ false) ⊎ (s.timer ≡ true)))

  unless_closed-closed :
      (b : Bool) (s : Stream k) → s.closed ≡ b → (unless_closed k b s).closed ≡ true
  unless_closed-closed true s e = e
  unless_closed-closed false s e = refl

  emit_close-closed : (s : Stream k) → (emit_close k s).closed ≡ true
  unfolding emit_close
  emit_close-closed s = unless_closed-closed s.closed s refl

  close_native-closed : (s : Stream k) → (close_native k s).closed ≡ true
  unfolding close_native
  close_native-closed s = emit_close-closed (record s { state = (k.close s.id s.state).1 })

  unless_closed-timer : (b : Bool) (s : Stream k) → (unless_closed k b s).timer ≡ s.timer
  unless_closed-timer true s = refl
  unless_closed-timer false s = refl

  close_native-timer : (s : Stream k) → (close_native k s).timer ≡ s.timer
  unfolding close_native emit_close
  close_native-timer s =
      unless_closed-timer s.closed (record s { state = (k.close s.id s.state).1 })

  or_emit_error-pumping :
      (o : Option Thrown) (s : Stream k) → (or_emit_error k o s).pumping ≡ s.pumping
  unfolding emit_error
  or_emit_error-pumping none s = refl
  or_emit_error-pumping (some e) s = refl

  deliver-pumping : (bytes hs : List ℕ) (s : Stream k) → (deliver k bytes hs s).pumping ≡ s.pumping
  unfolding deliver
  deliver-pumping bytes [] s = refl
  deliver-pumping bytes (h ∷ hs) s =
      deliver-pumping bytes hs _ ∙ or_emit_error-pumping (k.call_message h bytes s.state).0 _

  -- A round that goes on keeps the pump, and one that does not closes the stream and starts no timer.
  abbrev Kept : Stream k → Round k → Type 0
  Kept s (true, t) = t.pumping ≡ s.pumping
  Kept s (false, t) = (t.closed ≡ true) × (t.timer ≡ s.timer)

  shut-Kept :
      (s t : Stream k)
      → t.timer ≡ s.timer
      → ((close_native k t).closed ≡ true) × ((close_native k t).timer ≡ s.timer)
  shut-Kept s t e = (close_native-closed t, close_native-timer t ∙ e)

  caught-Kept : (error : Thrown) (s t : Stream k) → t.timer ≡ s.timer → Kept s (caught k error t)
  unfolding emit_error
  caught-Kept error s t e = shut-Kept s (emit_error k error t) e

  checked-Kept : (o : Option (Result Bool × k.State)) (s : Stream k) → Kept s (checked k o s)
  checked-Kept none s = refl
  checked-Kept (some (inl e, state)) s = caught-Kept (of_rust e) s (record s { state = state }) refl
  checked-Kept (some (inr true, state)) s = refl
  checked-Kept (some (inr false, state)) s = shut-Kept s (record s { state = state }) refl

  Kept-state :
      (s : Stream k) (state : k.State) (r : Round k)
      → Kept (record s { state = state }) r
      → Kept s r
  Kept-state s state (true, t) h = h
  Kept-state s state (false, t) h = h

  polled-Kept : (x : Result (Option (List ℕ)) × k.State) (s : Stream k) → Kept s (polled k x s)
  polled-Kept (inl e, state) s = caught-Kept (of_rust e) s (record s { state = state }) refl
  polled-Kept (inr (some bytes), state) s = deliver-pumping bytes s.message_handlers _
  polled-Kept (inr none, state) s =
      Kept-state s state _ (checked-Kept _ (record s { state = state }))

  finish-IsPumped :
      (s : Stream k) (r : Round k)
      → s.pumping ≡ true
      → s.timer ≡ false
      → Kept s r
      → IsPumped (finish k r)
  finish-IsPumped s (true, t) on fired kept = (kept ∙ on, inr (inr refl))
  finish-IsPumped s (false, t) on fired kept = (sym (kept.1 ∙ fired), inl kept.0)

  looped-IsPumped :
      (b : Bool) (s : Stream k)
      → s.pumping ≡ true
      → s.timer ≡ false
      → (not s.closed && has_pump_observers k s) ≡ b
      → IsPumped (looped k b s)
  unfolding round
  looped-IsPumped true s on fired e = finish-IsPumped s (round k s) on fired (polled-Kept _ s)
  looped-IsPumped false s on fired e = elim (Bool-cases s.closed) [
    | inl c ↦ (sym fired, inl c)
    | inr c ↦ (sym fired, inr (inl (ground arith)))
  ]

  resume-IsPumped : (s : Stream k) → s.pumping ≡ true → s.timer ≡ false → IsPumped (resume k s)
  unfolding resume
  resume-IsPumped s on fired = looped-IsPumped _ s on fired refl

  unless_pumped-IsPumped :
      (b : Bool) (s : Stream k)
      → s.pumping ≡ s.timer
      → (s.pumping || (s.closed || not (has_pump_observers k s))) ≡ b
      → IsPumped (unless_pumped k b s)
  unless_pumped-IsPumped true s same e = elim (Bool-cases s.pumping) [
    | inl on ↦ (same, inr (inr (sym same ∙ on)))
    | inr off ↦ elim (Bool-cases s.closed) [
      | inl c ↦ (same, inl c)
      | inr c ↦ (same, inr (inl (ground arith)))
    ]
  ]
  unless_pumped-IsPumped false s same e =
      resume-IsPumped (record s { pumping = true; idle_polls = 0 }) refl
        (elim (Bool-cases s.pumping) [ inl on ↦ absurd (ground arith) | inr off ↦ sym same ∙ off ])

  pump-IsPumped : (s : Stream k) → s.pumping ≡ s.timer → IsPumped (pump k s)
  unfolding pump
  pump-IsPumped s same = unless_pumped-IsPumped _ s same refl

  message_added-IsPumped :
      (b : Bool) (h : ℕ) (s : Stream k) → IsPumped s → IsPumped (message_added k b h s)
  message_added-IsPumped true h s v = v
  message_added-IsPumped false h s v =
      pump-IsPumped (record s { message_handlers = add h s.message_handlers }) v.0

  close_added-IsPumped :
      (b : Bool) (h : ℕ) (s : Stream k) → IsPumped s → IsPumped (close_added k b h s)
  close_added-IsPumped true h s v = v
  close_added-IsPumped false h s v =
      pump-IsPumped (record s { close_handlers = add h s.close_handlers }) v.0

  close_unless-IsPumped :
      (b : Bool) (s : Stream k) → s.closed ≡ b → IsPumped s → IsPumped (close_unless k b s).1
  unfolding emit_close
  close_unless-IsPumped true s e v = v
  close_unless-IsPumped false s e v =
      subst (λ b. IsPumped (unless_closed k b (record s { state = (k.close s.id s.state).1 })))
        (sym e) (v.0, inl refl)

  -- Fewer observers need no more pumping.
  fewer-IsPumped :
      (s t : Stream k)
      → t.closed ≡ s.closed
      → t.pumping ≡ s.pumping
      → t.timer ≡ s.timer
      → (has_pump_observers k s ≡ false → has_pump_observers k t ≡ false)
      → IsPumped s
      → IsPumped t
  fewer-IsPumped s t c p w fewer (same, inl e) = (p ∙ same ∙ sym w, inl (c ∙ e))
  fewer-IsPumped s t c p w fewer (same, inr (inl e)) = (p ∙ same ∙ sym w, inr (inl (fewer e)))
  fewer-IsPumped s t c p w fewer (same, inr (inr e)) = (p ∙ same ∙ sym w, inr (inr (w ∙ e)))

  run_first-IsPumped : (hs : List ℕ) (s : Stream k) → IsPumped s → IsPumped (run_first k hs s)
  run_first-IsPumped [] s v = v
  run_first-IsPumped (h ∷ hs) s v = v

  delete-empty : (h : ℕ) (hs : List ℕ) → is_empty hs ≡ true → is_empty (delete h hs) ≡ true
  unfolding delete
  delete-empty h [] e = refl
  delete-empty h (g ∷ hs) e = absurd (ground arith)

  Step-IsPumped : {s t : Stream k} → IsPumped s → Step s t → IsPumped t
  unfolding on_message on_close on_error close wake run_microtask
  Step-IsPumped {s} v (messages h) = message_added-IsPumped s.closed h s v
  Step-IsPumped {s} v (closes h) = close_added-IsPumped s.closed h s v
  Step-IsPumped v (reports h) = v
  Step-IsPumped {s} v (stops_messages h) =
      fewer-IsPumped s (record s { message_handlers = delete h s.message_handlers }) refl refl refl
        (λ e. ground (arith, delete-empty h s.message_handlers)) v
  Step-IsPumped {s} v (stops_closes h) =
      fewer-IsPumped s (record s { close_handlers = delete h s.close_handlers }) refl refl refl
        (λ e. ground (arith, delete-empty h s.close_handlers)) v
  Step-IsPumped v (stops_reports h) = v
  Step-IsPumped {s} v (wakes on) = resume-IsPumped (record s { timer = false }) (v.0 ∙ on) refl
  Step-IsPumped {s} v microtask = run_first-IsPumped s.microtasks s v
  Step-IsPumped {s} v shuts = close_unless-IsPumped s.closed s refl v

  -- A stream that has a message or close handler is pumped until it is closed. In every order of the
  -- calls of onMessage, onClose, onError and close, of the unsubscriptions, of the ends of the pump's
  -- delays, of the late close handlers and of what happens outside of it, it is closed, or it has no
  -- such handler, or a timer of its pump is under way; and the pump's flag is set exactly while one
  -- is, so that a new handler starts a pump that is not there.
  pub Reach-IsPumped : {s : Stream k} → Reach s → IsPumped s
  Reach-IsPumped (here id state) = (refl, inr (inl refl))
  Reach-IsPumped (next r step) = Step-IsPumped (Reach-IsPumped r) step
  Reach-IsPumped (elsewhere r state) = Reach-IsPumped r
