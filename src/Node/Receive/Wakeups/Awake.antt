-- ===== src/Node/Receive/Wakeups/Awake.antt =====
-- No wake-up is lost between the reader task, next_message and close.
use mathlib.Core.Path.{subst}
use iroh_react_native_bridge.Base.{
  ℕ, suc, ◌≡◌, refl, sym, ap, Bool, true, false, List, [], ◌∷◌, Option, none, some, ◌⊎◌, inl, inr,
  arith,
}
use iroh_react_native_bridge.Node.Inbox.{InboxState, try_enqueue, pop_frame, pop_front}
use iroh_react_native_bridge.Node.Receive.{
  Notify, NotifyLaws, Receiving, enqueued, enqueue_turn, frame_enqueued, popped, pop_and_notify,
}
use iroh_react_native_bridge.Node.Receive.Wakeups.{
  Reader, reading, turning, waiting, notifying, ended, Caller, idle, looked, checked, awaits, woken,
  is_notifying, Stream, after_turn, after_look, Step, reads, turns, wakes, notifies, stops, closes,
  closer_notifies, looks, gives_up, checks, sleeps, goes_on, is_woken, times_out, looks_again,
  Reach, here, next, ReaderAwake, FrameSeen, CloseSeen, CallerAwake, IsReaderAwake, IsCallerAwake,
  IsAwake,
}

reader_permit :
    (reader : Reader) (permit : Bool) (inbox : InboxState)
    → permit ≡ true
    → ReaderAwake reader permit inbox
reader_permit reading permit inbox h = tt
reader_permit (turning payload) permit inbox h = tt
reader_permit (waiting payload) permit inbox h = inl h
reader_permit notifying permit inbox h = tt
reader_permit ended permit inbox h = tt

caller_permit :
    (caller : Caller) (permit : Bool) (frames : List (List ℕ)) (reader : Reader) (is_closed : Bool)
    (closers : ℕ)
    → permit ≡ true
    → CallerAwake caller permit frames reader is_closed closers
caller_permit idle permit frames reader is_closed closers h = tt
caller_permit looked permit frames reader is_closed closers h = inl h
caller_permit checked permit frames reader is_closed closers h = (inl h, inl h)
caller_permit awaits permit frames reader is_closed closers h = (inl h, inl h)
caller_permit woken permit frames reader is_closed closers h = tt

caller_next :
    (caller : Caller) (permit : Bool) (frames frames' : List (List ℕ)) (reader reader' : Reader)
    (is_closed is_closed' : Bool) (closers closers' : ℕ)
    → (FrameSeen permit frames reader → FrameSeen permit frames' reader')
    → (CloseSeen permit is_closed closers → CloseSeen permit is_closed' closers')
    → CallerAwake caller permit frames reader is_closed closers
    → CallerAwake caller permit frames' reader' is_closed' closers'
caller_next idle _ _ _ _ _ _ _ _ _ frame close h = tt
caller_next looked _ _ _ _ _ _ _ _ _ frame close h = frame h
caller_next checked _ _ _ _ _ _ _ _ _ frame close h = (frame h.0, close h.1)
caller_next awaits _ _ _ _ _ _ _ _ _ frame close h = (frame h.0, close h.1)
caller_next woken _ _ _ _ _ _ _ _ _ frame close h = tt

-- A reader that was not about to notify goes elsewhere.
seen_elsewhere :
    (permit : Bool) (frames : List (List ℕ)) (reader reader' : Reader)
    → is_notifying reader ≡ false
    → FrameSeen permit frames reader
    → FrameSeen permit frames reader'
seen_elsewhere permit frames reader reader' not_yet (inl e) = inl e
seen_elsewhere permit frames reader reader' not_yet (inr (inl e)) = inr (inl e)
seen_elsewhere permit frames reader reader' not_yet (inr (inr e)) = absurd (ground arith)

pop_front-none : (frames : List (List ℕ)) (bytes : ℕ) → pop_front frames bytes ≡ none → frames ≡ []
unfolding pop_front
pop_front-none [] bytes h = refl
pop_front-none (f ∷ fs) bytes h = absurd (ground arith)

module _ (k : Notify) (laws : NotifyLaws k) where
  elsewhere :
      (s : Stream k) (reader' : Reader)
      → is_notifying s.reader ≡ false
      → IsCallerAwake k laws s.caller s.reader s.closers s.shared
      → IsCallerAwake k laws s.caller reader' s.closers s.shared
  elsewhere s reader' not_yet h =
      caller_next s.caller _ _ _ s.reader reader' _ _ _ _
        (seen_elsewhere _ _ s.reader reader' not_yet) (λ c. c) h

  closing :
      (s : Stream k) (reader' : Reader)
      → (is_notifying s.reader ≡ false) ⊎ (reader' ≡ s.reader)
      → IsCallerAwake k laws s.caller s.reader s.closers s.shared
      → IsCallerAwake k laws s.caller reader'
          (suc s.closers)
          (record (s.shared) { is_closed = true })
  closing s reader' (inl not_yet) h =
      caller_next s.caller _ _ _ s.reader reader' _ _ _ _
        (seen_elsewhere _ _ s.reader reader' not_yet) (λ c. inr (inr (omega arith))) h
  closing s reader' (inr same) h =
      caller_next s.caller _ _ _ s.reader reader' _ _ _ _
        (subst (FrameSeen (laws.has_permit s.shared.notify) s.shared.inbox.frames) (sym same))
        (λ c. inr (inr (omega arith))) h

  -- A turn of the loop of enqueue_inbox_frame.
  turned :
      (s : Stream k) (payload : List ℕ) (o : Option InboxState)
      → is_notifying s.reader ≡ false
      → try_enqueue payload s.shared.inbox ≡ o
      → IsCallerAwake k laws s.caller s.reader s.closers s.shared
      → IsReaderAwake k laws
          (after_turn k payload (enqueued k o s.shared).0)
          (enqueued k o s.shared).1
        × IsCallerAwake k laws s.caller
            (after_turn k payload (enqueued k o s.shared).0)
            s.closers
            (enqueued k o s.shared).1
  turned s payload none not_yet e h = (inr e, elsewhere s (waiting payload) not_yet h)
  turned s payload (some inbox) not_yet e h =
      (tt, caller_next s.caller _ _ _ s.reader notifying _ _ _ _ (λ f. inr (inr refl)) (λ c. c) h)

  -- A look of next_message at the inbox.
  looked_in :
      (reader : Reader) (closers : ℕ) (r : Receiving k) (o : Option (List ℕ × InboxState))
      → pop_frame r.inbox ≡ o
      → IsReaderAwake k laws reader r
      → IsReaderAwake k laws reader (popped k o r).1
        × IsCallerAwake k laws (after_look k (popped k o r).0) reader closers (popped k o r).1
  unfolding pop_frame
  looked_in reader closers r none e h =
      (h, inr (inl (pop_front-none r.inbox.frames r.inbox.bytes e)))
  looked_in reader closers r (some (payload, inbox)) e h =
      (reader_permit reader _ inbox (laws.has_permit-notify_one r.capacity), tt)

  Step-IsAwake : {s t : Stream k} → IsAwake k laws s → Step k s t → IsAwake k laws t
  unfolding enqueue_turn pop_and_notify frame_enqueued
  Step-IsAwake {s} h (reads payload at) =
      (tt, elsewhere s (turning payload) (ap is_notifying at) h.1)
  Step-IsAwake {s} h (turns payload at) = turned s payload _ (ap is_notifying at) refl h.1
  Step-IsAwake {s} h (wakes payload left at taken) =
      (tt, elsewhere s (turning payload) (ap is_notifying at) h.1)
  Step-IsAwake {s} h (notifies at) =
      (tt, caller_permit s.caller _ _ reading _ _ (laws.has_permit-notify_one s.shared.notify))
  Step-IsAwake {s} h (stops not_yet) = (tt, closing s ended (inl not_yet) h.1)
  Step-IsAwake {s} h closes = (h.0, closing s s.reader (inr refl) h.1)
  Step-IsAwake {s} h (closer_notifies left some_left) =
      (h.0, caller_permit s.caller _ _ s.reader _ _ (laws.has_permit-notify_one s.shared.notify))
  Step-IsAwake {s} h (looks at) = looked_in s.reader s.closers s.shared _ refl h.0
  Step-IsAwake {s} h (gives_up at) = (h.0, tt)
  Step-IsAwake {s} h (checks at still) = (
    h.0,
    (subst (λ c. IsCallerAwake k laws c s.reader s.closers s.shared) at h.1, inr (inl still)),
  )
  Step-IsAwake {s} h (sleeps at none_there) =
      (h.0, subst (λ c. IsCallerAwake k laws c s.reader s.closers s.shared) at h.1)
  Step-IsAwake {s} h (goes_on left at taken) = (h.0, tt)
  Step-IsAwake {s} h (is_woken left at taken) = (h.0, tt)
  Step-IsAwake {s} h (times_out at) = (h.0, tt)
  Step-IsAwake {s} h (looks_again at) = ((looked_in s.reader s.closers s.shared _ refl h.0).0, tt)

  -- No wake-up is lost on a stream with one caller of next_message, in any order of its steps,
  -- those of the reader task, and those of close and the ends of the tasks. While next_message
  -- waits, its notification has a permit, or the inbox is empty or the reader is about to notify;
  -- and it has one, or the stream is open or whoever closed it is about to notify. While the reader
  -- waits for capacity, that has a permit, or the reader's frame still does not fit into the inbox.
  pub Reach-IsAwake : {s : Stream k} → Reach k s → IsAwake k laws s
  Reach-IsAwake (here notify capacity) = (tt, tt)
  Reach-IsAwake (next r step) = Step-IsAwake (Reach-IsAwake r) step
