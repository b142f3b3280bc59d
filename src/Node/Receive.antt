-- ===== src/Node/Receive.antt =====
-- Receiving on a stream: the whole of next_message and of enqueue_inbox_frame, with their waiting
-- on tokio's Notify, of rust/iroh_mobile_bridge/src/lib.rs. Notify is a parameter.
pub mod Wakeups
pub mod Early
use text.Mathlib.Text.{◌==◌ as str_eq}
use iroh_react_native_bridge.Base.{
  ℕ, ◌≡◌, Bool, true, false, String, List, [], ◌∷◌, Option, none, some, ◌⊎◌, inl, inr,
  if◌then◌else◌, ◌==◌,
}
use iroh_react_native_bridge.Node.Errors.{IrohBridgeError, Result, not_connected}
use iroh_react_native_bridge.Node.Inbox.{InboxState, try_enqueue, pop_frame}

-- tokio::sync::Notify, for one task that waits. `poll` is `notified().await` where it ends at once,
-- and none where the task has to wait.
pub record Notify : Type 1 where
  pub Permits : Type 0
  pub notify_one : Permits → Permits
  pub poll : Permits → Option Permits

-- What the documentation of tokio says: `notify_one` with no task waiting leaves a permit, and only
-- one, which the next `notified().await` consumes.
pub record NotifyLaws (k : Notify) : Type 0 where
  pub has_permit : k.Permits → Bool
  pub has_permit-notify_one : (x : k.Permits) → has_permit (k.notify_one x) ≡ true
  pub poll-permit :
      (x : k.Permits)
      → has_permit x ≡ true
      → (y : k.Permits) × (k.poll x ≡ some y) × (has_permit y ≡ false)
  pub poll-waits : (x : k.Permits) → has_permit x ≡ false → k.poll x ≡ none

module _ (k : Notify) where
  -- The receiving half of a ManagedConnection.
  pub record Receiving : Type 0 where
    pub inbox : InboxState
    pub notify : k.Permits
    pub capacity : k.Permits
    pub is_closed : Bool

  -- A turn of the loop of enqueue_inbox_frame: whether the payload was put in the inbox.
  abbrev pub enqueued : Option InboxState → Receiving → Bool × Receiving
  enqueued none r = (false, r)
  enqueued (some inbox) r = (true, record r { inbox = inbox })

  unfoldable pub enqueue_turn : List ℕ → Receiving → Bool × Receiving
  unfolding try_enqueue
  enqueue_turn payload r = enqueued (try_enqueue payload r.inbox) r

  -- The reader task, once enqueue_inbox_frame has returned true.
  unfoldable pub frame_enqueued : Receiving → Receiving
  frame_enqueued r = record r { notify = k.notify_one r.notify }

  abbrev pub popped : Option (List ℕ × InboxState) → Receiving → Option (List ℕ) × Receiving
  popped none r = (none, r)
  popped (some (payload, inbox)) r =
      (some payload, record r { inbox = inbox; capacity = k.notify_one r.capacity })

  -- The part of next_message that holds the inbox's lock, which it has twice.
  unfoldable pub pop_and_notify : Receiving → Option (List ℕ) × Receiving
  unfolding pop_frame
  pop_and_notify r = popped (pop_frame r.inbox) r

  -- How next_message ended: at once, or after it waited.
  pub data Waited : Type 0 where
    at_once : Waited
    waited : Waited

  -- The end of next_message. `meanwhile` is what happens to the stream until the notification or
  -- the timeout, where it has to wait.
  abbrev pub after_await :
      (Receiving → Receiving)
      → Option k.Permits
      → Receiving
      → (Option (List ℕ) × Receiving) × Waited
  after_await meanwhile (some notify) r = (pop_and_notify (record r { notify = notify }), at_once)
  after_await meanwhile none r = (pop_and_notify (meanwhile r), waited)

  abbrev pub or_await :
      ℕ
      → (Receiving → Receiving)
      → Option (List ℕ) × Receiving
      → (Option (List ℕ) × Receiving) × Waited
  or_await timeout_ms meanwhile (some payload, r) = ((some payload, r), at_once)
  or_await timeout_ms meanwhile (none, r) =
      if r.is_closed
      then ((none, r), at_once)
      else if timeout_ms == 0
      then ((none, r), at_once)
      else after_await meanwhile (k.poll r.notify) r

  -- next_message, once the stream is found.
  unfoldable pub receive_on :
      ℕ → (Receiving → Receiving) → Receiving → (Option (List ℕ) × Receiving) × Waited
  unfolding pop_and_notify
  receive_on timeout_ms meanwhile r = or_await timeout_ms meanwhile (pop_and_notify r)

  abbrev pub Streams : Type 0
  Streams = String → Option Receiving

  abbrev pub store_received :
      String
      → Streams
      → (Option (List ℕ) × Receiving) × Waited
      → (Result (Option (List ℕ)) × Streams) × Waited
  store_received id streams ((payload, r), w) =
      ((inr payload, λ j. if str_eq id j then some r else streams j), w)

  abbrev pub receive_from :
      ℕ
      → (Receiving → Receiving)
      → String
      → Option Receiving
      → Streams
      → (Result (Option (List ℕ)) × Streams) × Waited
  receive_from timeout_ms meanwhile id none streams = ((inl not_connected, streams), at_once)
  receive_from timeout_ms meanwhile id (some r) streams =
      store_received id streams (receive_on timeout_ms meanwhile r)

  unfoldable pub next_message :
      String → ℕ → (Receiving → Receiving) → Streams → (Result (Option (List ℕ)) × Streams) × Waited
  unfolding receive_on
  next_message connection_id timeout_ms meanwhile streams =
      receive_from timeout_ms meanwhile connection_id (streams connection_id) streams
