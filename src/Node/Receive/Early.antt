-- ===== src/Node/Receive/Early.antt =====
-- When next_message returns with no payload.

use iroh_react_native_bridge.Base.{
  ℕ, ◌-◌, ◌<◌, ◌≡◌, refl, sym, ◌∙◌, ap, true, false, List, [], ◌∷◌, ◌++◌, Option, none, some,
  length, arith,
}
use iroh_react_native_bridge.Node.Inbox.{InboxState, try_enqueue, pop_frame, pop_front}
use iroh_react_native_bridge.Node.Inbox.Order.{try_enqueue-some}
use iroh_react_native_bridge.Node.Receive.{
  Notify, NotifyLaws, Receiving, enqueued, enqueue_turn, frame_enqueued, popped, pop_and_notify,
  at_once, after_await, or_await, receive_on,
}

module _ (k : Notify) where
  -- A stream whose inbox is empty, and that is open.
  abbrev pub IsIdle : Receiving k → Type 0
  IsIdle r = (r.inbox.frames ≡ []) × (r.is_closed ≡ false)

  pop_frame-empty : (inbox : InboxState) → inbox.frames ≡ [] → pop_frame inbox ≡ none
  unfolding pop_frame
  pop_frame-empty inbox e = ap (λ f. pop_front f inbox.bytes) e

  pub pop_and_notify-idle : (r : Receiving k) → IsIdle r → pop_and_notify k r ≡ (none, r)
  unfolding pop_and_notify
  pop_and_notify-idle r idle = ap (λ o. popped k o r) (pop_frame-empty r.inbox idle.0)

  pub enqueued-true :
      (o : Option InboxState) (r r1 : Receiving k)
      → enqueued k o r ≡ (true, r1)
      → (inbox : InboxState) × (o ≡ some inbox) × (r1 ≡ record r { inbox = inbox })
  enqueued-true none r r1 h = absurd (ground (arith, ap (λ x. x.0) h))
  enqueued-true (some inbox) r r1 h = (inbox, refl, sym (ap (λ x. x.1) h))

module _ (k : Notify) (laws : NotifyLaws k) where
  -- A permit ends the wait, and then there is nothing.
  receive_on-permit :
      (timeout_ms : ℕ) (meanwhile : Receiving k → Receiving k) (r : Receiving k)
      → IsIdle k r
      → 0 < timeout_ms
      → laws.has_permit r.notify ≡ true
      → (r' : Receiving k) × (receive_on k timeout_ms meanwhile r ≡ ((none, r'), at_once))
        × IsIdle k r'
        × (laws.has_permit r'.notify ≡ false)
  unfolding receive_on
  receive_on-permit timeout_ms meanwhile r idle some_time permit =
      let (y, taken, gone) = laws.poll-permit r.notify permit in
      (
        record r { notify = y },
        ap (or_await k timeout_ms meanwhile) (pop_and_notify-idle k r idle)
            ∙ awaits
            ∙ ap (λ o. after_await k meanwhile o r) taken
            ∙ ap (λ x. (x, at_once)) (pop_and_notify-idle k (record r { notify = y }) idle),
        idle,
        gone,
      )
    where
      awaits :
          or_await k timeout_ms meanwhile (none, r) ≡ after_await k meanwhile (k.poll r.notify) r
      awaits = ground (arith, idle.1)

  -- A frame in an inbox that was empty is what is received, at once, and the notification stays.
  receive_on-frame :
      (payload : List ℕ) (timeout_ms : ℕ) (meanwhile : Receiving k → Receiving k) (r : Receiving k)
      (inbox : InboxState)
      → r.inbox.frames ≡ []
      → r.is_closed ≡ false
      → try_enqueue payload r.inbox ≡ some inbox
      → (r2 : Receiving k) × (receive_on k timeout_ms meanwhile
            (frame_enqueued k (record r { inbox = inbox }))
          ≡ ((some payload, r2), at_once))
        × IsIdle k r2
        × (laws.has_permit r2.notify ≡ true)
  unfolding receive_on pop_and_notify frame_enqueued pop_frame pop_front
  receive_on-frame payload timeout_ms meanwhile r inbox empty open_still e =
      let (made, _, _) = try_enqueue-some payload r.inbox inbox e in
      let frames : inbox.frames ≡ payload ∷ [] =
        ap (λ i. i.frames) made ∙ ap (λ f. f ++ (payload ∷ [])) empty in
      (
        record r {
          inbox = record { frames = []; bytes = inbox.bytes - length payload };
          capacity = k.notify_one r.capacity;
          notify = k.notify_one r.notify;
        },
        ap
            (λ f. or_await k timeout_ms meanwhile (
              popped k (pop_front f inbox.bytes)
                (record r { inbox = inbox; notify = k.notify_one r.notify })))
            frames,
        (refl, open_still),
        laws.has_permit-notify_one r.notify,
      )

  -- next_message returns no payload although the stream is open and its timeout has not run: a
  -- frame arrives on an idle stream, a first call receives it at once, and a second call, with any
  -- timeout above 0, ends at once with nothing. The notification of the frame is still there for
  -- it.
  pub receive_on-receive_on :
      (payload : List ℕ) (first_ms second_ms : ℕ) (first second : Receiving k → Receiving k)
      (r r1 : Receiving k)
      → IsIdle k r
      → enqueue_turn k payload r ≡ (true, r1)
      → 0 < second_ms
      → (r2 : Receiving k) × (receive_on k first_ms first (frame_enqueued k r1)
          ≡ ((some payload, r2), at_once))
        × (r2.is_closed ≡ false)
        × (r3 : Receiving k) × (receive_on k second_ms second r2 ≡ ((none, r3), at_once))
        × (r3.is_closed ≡ false)
  unfolding enqueue_turn
  receive_on-receive_on payload first_ms second_ms first second r r1 idle put some_time =
      let (inbox, fits, left) = enqueued-true k (try_enqueue payload r.inbox) r r1 put in
      let (r2, got, still, permit) =
        receive_on-frame payload first_ms first r inbox idle.0 idle.1 fits in
      let (r3, nothing, open_still, _) =
        receive_on-permit second_ms second r2 still some_time permit in
      (
        r2,
        ap (λ x. receive_on k first_ms first (frame_enqueued k x)) left ∙ got,
        still.1,
        r3,
        nothing,
        open_still.1,
      )
