-- ===== src/Node/Send.antt =====
-- Sending on a stream: the send queue of a ManagedConnection, `send`, and a turn of the writer task
-- of connect_endpoint_addr, of rust/iroh_mobile_bridge/src/lib.rs. The channel and the semaphore
-- are tokio's, a parameter.
pub mod Laws
pub mod Queue
use text.Mathlib.Text.{◌==◌ as str_eq}
use iroh_react_native_bridge.Base.{
  ℕ, ◌%◌, ◌^◌, String, Bool, false, List, [], ◌∷◌, Option, none, some, ◌⊎◌, inl, inr, if◌then◌else◌,
  ◌==◌, ltb, ◌||◌, length,
}
use iroh_react_native_bridge.Node.Errors.{
  IrohBridgeError, Result, invalid_frame, not_connected, operation_failed,
}
use iroh_react_native_bridge.Node.Frame.{max_frame_bytes}

-- SEND_QUEUE_FRAMES and MAX_SEND_QUEUE_BYTES
abbrev pub send_queue_frames : ℕ
send_queue_frames = 64

abbrev pub max_send_queue_bytes : ℕ
max_send_queue_bytes = 16777216

-- mpsc::Sender::try_send
pub data TrySend (C : Type 0) : Type 0 where
  queued : C → TrySend C
  full : TrySend C
  closed : TrySend C

-- tokio::sync: a bounded channel of payloads with both its ends, and a semaphore.
pub record Tokio : Type 1 where
  pub Channel : Type 0
  pub Semaphore : Type 0
  pub channel : ℕ → Channel
  pub semaphore : ℕ → Semaphore
  pub try_send : List ℕ → Channel → TrySend Channel
  pub recv : Channel → Option (List ℕ × Channel)
  pub try_acquire_many : ℕ → Semaphore → Option Semaphore
  -- what dropping an OwnedSemaphorePermit of this many permits does
  pub release : ℕ → Semaphore → Semaphore

module _ (k : Tokio) where
  -- The sending half of a ManagedConnection.
  pub record Outgoing : Type 0 where
    pub tx : k.Channel
    pub send_capacity : k.Semaphore
    pub is_closed : Bool

  -- As connect_endpoint_addr makes it.
  unfoldable pub open_outgoing : Outgoing
  open_outgoing = record {
    tx = k.channel send_queue_frames;
    send_capacity = k.semaphore max_send_queue_bytes;
    is_closed = false;
  }

  -- What `send` does with the answer of `try_send`. A frame that is not queued is dropped, with its
  -- permits.
  unfoldable pub finish_send :
      ℕ → k.Semaphore → TrySend k.Channel → Outgoing → Result (Unit {0}) × Outgoing
  finish_send size permits (queued tx) out =
      (inr tt, record out { tx = tx; send_capacity = permits })
  finish_send size permits full out = (
    inl (operation_failed "Iroh send queue is full"),
    record out { send_capacity = k.release size permits },
  )
  finish_send size permits closed out =
      (inl not_connected, record out { send_capacity = k.release size permits })

  -- `send` with what `try_acquire_many_owned` answers; the length goes in as a u32.
  unfoldable pub queue_frame : List ℕ → Option k.Semaphore → Outgoing → Result (Unit {0}) × Outgoing
  unfolding finish_send
  queue_frame payload none out = (inl (operation_failed "Iroh send queue is full"), out)
  queue_frame payload (some permits) out =
      finish_send (length payload % 2 ^ 32) permits (k.try_send payload out.tx) out

  -- `send` once the stream is found.
  unfoldable pub send_on : List ℕ → Outgoing → Result (Unit {0}) × Outgoing
  unfolding queue_frame
  send_on payload out =
      if out.is_closed
      then (inl not_connected, out)
      else queue_frame payload (k.try_acquire_many (length payload % 2 ^ 32) out.send_capacity) out

  abbrev pub Connections : Type 0
  Connections = String → Option Outgoing

  abbrev pub store :
      String → Result (Unit {0}) × Outgoing → Connections → Result (Unit {0}) × Connections
  store id (r, out) connections = (r, λ j. if str_eq id j then some out else connections j)

  abbrev pub send_to :
      String → List ℕ → Option Outgoing → Connections → Result (Unit {0}) × Connections
  send_to id payload none connections = (inl not_connected, connections)
  send_to id payload (some out) connections = store id (send_on payload out) connections

  unfoldable pub send : String → List ℕ → Connections → Result (Unit {0}) × Connections
  unfolding send_on
  send id payload connections =
      if length payload == 0 || ltb max_frame_bytes (length payload)
      then (inl invalid_frame, connections)
      else send_to id payload (connections id) connections

  -- The writer task takes a frame, and drops it once it is written.
  unfoldable pub frame_written : List ℕ → k.Channel → Outgoing → Outgoing
  frame_written payload rx out = record out {
    tx = rx;
    send_capacity = k.release (length payload % 2 ^ 32) out.send_capacity;
  }
