-- ===== src/Node/Receive/Wakeups/Deadlock.antt =====
-- The reader task and next_message never wait for each other.
use mathlib.Core.Path.{subst}
use iroh_react_native_bridge.Base.{
  ℕ, ◌≤◌, ◌≡◌, refl, ◌∙◌, ap, true, false, List, [], ◌∷◌, Option, none, some, ◌⊎◌, inl, inr, length,
  arith,
}
use iroh_react_native_bridge.Node.Frame.{max_frame_bytes}
use iroh_react_native_bridge.Node.Inbox.{InboxState, try_enqueue, pop_frame, pop_front}
use iroh_react_native_bridge.Node.Inbox.Order
use iroh_react_native_bridge.Node.Inbox.Order.{History, enqueue, deliver, refused-deliverable}
use iroh_react_native_bridge.Node.Receive.{
  Notify, NotifyLaws, Receiving, enqueued, enqueue_turn, frame_enqueued, popped, pop_and_notify,
}
use iroh_react_native_bridge.Node.Receive.Wakeups.{
  waiting, awaits, is_notifying, Stream, Step, reads, turns, wakes, notifies, stops, closes,
  closer_notifies, looks, gives_up, checks, sleeps, goes_on, is_woken, times_out, looks_again,
  Reach, here, next, FrameSeen, IsReaderAwake, IsCallerAwake,
}
use iroh_react_native_bridge.Node.Receive.Wakeups.Awake.{Reach-IsAwake}

-- An inbox that frames went into and out of.
abbrev Filled : InboxState → Type 0
Filled inbox = (h : History) × Order.Reach h × (h.inbox ≡ inbox)

enqueued-Filled :
    {k : Notify} (payload : List ℕ) (r : Receiving k) (o : Option InboxState)
    → try_enqueue payload r.inbox ≡ o
    → Filled r.inbox
    → Filled (enqueued k o r).1.inbox
enqueued-Filled payload r none e f = f
enqueued-Filled payload r (some inbox) e (h, reach, same) =
    (_, Order.next reach (enqueue payload (ap (try_enqueue payload) same ∙ e)), refl)

popped-Filled :
    {k : Notify} (r : Receiving k) (o : Option (List ℕ × InboxState))
    → pop_frame r.inbox ≡ o
    → Filled r.inbox
    → Filled (popped k o r).1.inbox
popped-Filled r none e f = f
popped-Filled r (some (payload, inbox)) e (h, reach, same) =
    (_, Order.next reach (deliver payload (ap pop_frame same ∙ e)), refl)

module _ (k : Notify) (laws : NotifyLaws k) where
  Step-Filled : {s t : Stream k} → Filled s.shared.inbox → Step k s t → Filled t.shared.inbox
  unfolding enqueue_turn pop_and_notify frame_enqueued
  Step-Filled {s} f (turns payload at) = enqueued-Filled payload s.shared _ refl f
  Step-Filled {s} f (looks at) = popped-Filled s.shared _ refl f
  Step-Filled {s} f (looks_again at) = popped-Filled s.shared _ refl f
  Step-Filled f (reads payload at) = f
  Step-Filled f (wakes payload left at taken) = f
  Step-Filled f (notifies at) = f
  Step-Filled f (stops not_yet) = f
  Step-Filled f closes = f
  Step-Filled f (closer_notifies left some_left) = f
  Step-Filled f (gives_up at) = f
  Step-Filled f (checks at still) = f
  Step-Filled f (sleeps at none_there) = f
  Step-Filled f (goes_on left at taken) = f
  Step-Filled f (is_woken left at taken) = f
  Step-Filled f (times_out at) = f

  Reach-Filled : {s : Stream k} → Reach k s → Filled s.shared.inbox
  Reach-Filled (here notify capacity) = (Order.opened, Order.here, refl)
  Reach-Filled (next r step) = Step-Filled (Reach-Filled r) step

  pop_front-empty :
      (frames : List (List ℕ)) (bytes : ℕ) (first : List ℕ) (after : InboxState)
      → frames ≡ []
      → pop_front frames bytes ≡ some (first, after)
      → ⊥
  unfolding pop_front
  pop_front-empty [] bytes first after e h = ground arith
  pop_front-empty (f ∷ fs) bytes first after e h = ground arith

  -- A frame that does not fit is behind one that can be received.
  refused-FrameSeen :
      {s : Stream k} (payload : List ℕ)
      → Reach k s
      → length payload ≤ max_frame_bytes
      → try_enqueue payload s.shared.inbox ≡ none
      → is_notifying s.reader ≡ false
      → FrameSeen (laws.has_permit s.shared.notify) s.shared.inbox.frames s.reader
      → laws.has_permit s.shared.notify ≡ true
  unfolding pop_frame
  refused-FrameSeen payload r small full not_yet (inl permit) = permit
  refused-FrameSeen payload r small full not_yet (inr (inl empty)) =
      let (h, reach, same) = Reach-Filled r in
      let (first, after, front) =
        refused-deliverable payload reach small (ap (try_enqueue payload) same ∙ full) in
      absurd (
        pop_front-empty h.inbox.frames h.inbox.bytes first after (ap (λ i. i.frames) same ∙ empty)
          front)
  refused-FrameSeen payload r small full not_yet (inr (inr at)) = absurd (ground arith)

  -- The reader task and next_message never wait for each other: in every order of the steps of a
  -- stream, while next_message waits for a frame and the reader waits for room for one of at most
  -- MAX_FRAME_BYTES bytes, one of the two has the permit that wakes it.
  pub Reach-permit :
      {s : Stream k} (payload : List ℕ)
      → Reach k s
      → length payload ≤ max_frame_bytes
      → s.reader ≡ waiting payload
      → s.caller ≡ awaits
      → (laws.has_permit s.shared.capacity ≡ true) ⊎ (laws.has_permit s.shared.notify ≡ true)
  Reach-permit {s} payload r small at asleep =
      let (reader, caller) = Reach-IsAwake k laws r in
      let mine = subst (λ c. IsCallerAwake k laws c s.reader s.closers s.shared) asleep caller in
      either (subst (λ x. IsReaderAwake k laws x s.shared) at reader) mine.0
    where
      either :
          IsReaderAwake k laws (waiting payload) s.shared
          → FrameSeen (laws.has_permit s.shared.notify) s.shared.inbox.frames s.reader
          → (laws.has_permit s.shared.capacity ≡ true) ⊎ (laws.has_permit s.shared.notify ≡ true)
      either (inl permit) seen = inl permit
      either (inr full) seen =
          inr (refused-FrameSeen payload r small full (ap is_notifying at) seen)
