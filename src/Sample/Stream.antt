-- ===== src/Sample/Stream.antt =====
-- The theorems on the send queue and on streams, applied to a channel that is a list, a semaphore
-- that is a number, and one frame that goes from one node to the other.
use Prim.Native.Nat.{◌-◌, ◌*◌}
use iroh_react_native_bridge.Base.{
  Bool, ℕ, ◌+◌, ◌≤◌, ◌<◌, ◌≡◌, refl, ap, false, List, [], ◌∷◌, ◌++◌, Option, none, some, inl, inr,
  if◌then◌else◌, ltb, leb, length, All, arith, Bool-cases,
}
use iroh_react_native_bridge.Node.Frame.{write_frame, read_frame}
use iroh_react_native_bridge.Node.Frame.ReadAll.{
  put, closes, takes, ended, read_all, encode, puts, payloads_of, read_all-Ended, read_all-encode,
}
use iroh_react_native_bridge.Node.Inbox.{InboxState, empty_inbox, try_enqueue, pop_frame}
use iroh_react_native_bridge.Node.Inbox.Order.{total}
use iroh_react_native_bridge.Node.Send.{
  Tokio, TrySend, queued, full, Outgoing, open_outgoing, send_on, send, Connections, frame_written,
}
use iroh_react_native_bridge.Node.Send.Laws.{TokioLaws, IsFrame}
use iroh_react_native_bridge.Node.Send.Queue.{
  IsValid, Effect, waiting, open_outgoing-IsValid, send-Effect,
}
use iroh_react_native_bridge.Node.Stream.{
  sent, received, Stream, Run, opens, sends, writes, reads, delivers, Fifo,
}
use iroh_react_native_bridge.Node.Stream.Refinement.{Run-Fifo}
use iroh_react_native_bridge.Sample.Node.{streams, stream_laws}

pub record Queue : Type 0 where
  payloads : List (List ℕ)
  slots : ℕ

abbrev try_send : List ℕ → Queue → TrySend Queue
try_send x c =
    if ltb (length c.payloads) c.slots
    then queued (record c { payloads = c.payloads ++ (x ∷ []) })
    else full

abbrev recv_from : List (List ℕ) → ℕ → Option (List ℕ × Queue)
recv_from [] n = none
recv_from (x ∷ xs) n = some (x, record { payloads = xs; slots = n })

abbrev try_acquire_many : ℕ → ℕ → Option ℕ
try_acquire_many n s = if leb n s then some (s - n) else none

abbrev pub tokio : Tokio
tokio = record {
  Channel = Queue;
  Semaphore = ℕ;
  channel = λ n. record { payloads = []; slots = n };
  semaphore = λ n. n;
  try_send = try_send;
  recv = λ c. recv_from c.payloads c.slots;
  try_acquire_many = try_acquire_many;
  release = λ n s. s + n;
}

pub try_send-queued :
    (x : List ℕ) (c c' : Queue)
    → try_send x c ≡ queued c'
    → (length c.payloads < c.slots) × (c' ≡ record c { payloads = c.payloads ++ (x ∷ []) })
try_send-queued x c c' h = elim (Bool-cases (ltb (length c.payloads) c.slots)) [
  | inl e ↦ (ground arith, ground arith)
  | inr e ↦ absurd (ground arith)
]

pub recv_from-some :
    (xs : List (List ℕ)) (n : ℕ) (x : List ℕ) (c : Queue)
    → recv_from xs n ≡ some (x, c)
    → (xs ≡ x ∷ c.payloads) × (c.slots ≡ n)
recv_from-some [] n x c h = absurd (ground arith)
recv_from-some (y ∷ xs) n x c h = (ground arith, ground arith)

pub try_acquire_many-some : (n s s' : ℕ) → try_acquire_many n s ≡ some s' → s ≡ s' + n
try_acquire_many-some n s s' h = ground arith

abbrev pub tokio_laws : TokioLaws tokio
tokio_laws = record {
  frames = λ c. c.payloads;
  slots = λ c. c.slots;
  available = λ s. s;
  frames-channel = λ n. refl;
  slots-channel = λ n. refl;
  available-semaphore = λ n. refl;
  frames-try_send = λ x c c' h. ap (λ q. q.payloads) (try_send-queued x c c' h).1;
  slots-try_send =
      λ x c c' h. ((try_send-queued x c c' h).0, ap (λ q. q.slots) (try_send-queued x c c' h).1);
  frames-recv = λ x c c' h. recv_from-some c.payloads c.slots x c' h;
  available-try_acquire_many = try_acquire_many-some;
  available-release = λ n s. refl;
}

abbrev pub one_stream : Connections tokio
one_stream = λ id. some (open_outgoing tokio)

abbrev pub payload : List ℕ
payload = 7 ∷ 8 ∷ []

payload-IsFrame : IsFrame payload
payload-IsFrame = (omega arith, omega arith)

send-Effect_example :
    Effect tokio tokio_laws "iroh-1" payload "iroh-1"
      (open_outgoing tokio)
      (send tokio "iroh-1" payload one_stream)
send-Effect_example =
    send-Effect tokio tokio_laws "iroh-1" payload one_stream "iroh-1" (open_outgoing tokio) refl
      (open_outgoing-IsValid tokio tokio_laws)

abbrev queue_of_one : Queue
queue_of_one = record { payloads = payload ∷ []; slots = 64 }

abbrev one_waits : Outgoing tokio
one_waits = record { tx = queue_of_one; send_capacity = 16777214; is_closed = false }

one_waits-IsValid : IsValid tokio tokio_laws one_waits
one_waits-IsValid = record {
  bound = refl;
  few = omega arith;
  accounted = omega arith;
  good = (payload-IsFrame, tt);
}

send_on_test : send_on tokio payload (open_outgoing tokio) ≡ (inr tt, one_waits)
unfolding send_on open_outgoing
send_on_test = refl

abbrev empty_queue : Queue
empty_queue = record { payloads = []; slots = 64 }

abbrev bytes : List ℕ
bytes = 0 ∷ 0 ∷ 0 ∷ 2 ∷ 7 ∷ 8 ∷ []

bytes_written : write_frame streams payload [] ≡ inr bytes
unfolding write_frame
bytes_written = refl

bytes_read : read_frame streams bytes ≡ inr (some payload, [])
unfolding read_frame
bytes_read = refl

abbrev inbox_of_one : InboxState
inbox_of_one = record { frames = payload ∷ []; bytes = 2 }

enqueued : try_enqueue payload empty_inbox ≡ some inbox_of_one
unfolding try_enqueue
enqueued = refl

popped : pop_frame inbox_of_one ≡ some (payload, empty_inbox)
unfolding pop_frame
popped = refl

abbrev written : Outgoing tokio
written = record { tx = empty_queue; send_capacity = 16777216; is_closed = false }

frame_written_test : frame_written tokio payload empty_queue one_waits ≡ written
unfolding frame_written
frame_written_test = refl

-- A payload is sent, written, read and received, and then another is sent.
one_delivered :
    (t : Stream streams stream_laws tokio) × Run streams stream_laws tokio
      (sent payload ∷ received payload ∷ sent payload ∷ [])
      t
unfolding send_on open_outgoing write_frame read_frame try_enqueue pop_frame frame_written
one_delivered = (
  _,
  sends payload
      (delivers payload empty_inbox
        (reads payload bytes [] inbox_of_one
          (writes payload bytes empty_queue bytes (sends payload (opens []) payload-IsFrame refl)
            refl refl refl)
          refl refl refl)
        refl)
      payload-IsFrame refl,
)

read_all_test : read_all streams (takes put ∷ takes put ∷ []) bytes ≡ ended (payload ∷ []) false
unfolding read_all read_frame
read_all_test = refl

read_all-Ended_example :
    (payloads : List (List ℕ)) × (cancelled : Bool) × (read_all streams
        (puts streams stream_laws 7)
        bytes
      ≡ ended payloads cancelled)
    × All IsFrame payloads
    × (4 * length payloads + total payloads ≤ 6)
read_all-Ended_example =
    read_all-Ended streams stream_laws (puts streams stream_laws 7) bytes (omega arith)

-- The stream is closed after one frame.
read_all-encode_example :
    ((rest : List (List ℕ)) × (payload ∷ []
        ≡ payloads_of streams stream_laws (read_all streams (takes put ∷ closes ∷ []) bytes)
          ++ rest))
    × (read_all streams (puts streams stream_laws 2) bytes ≡ ended (payload ∷ []) false)
read_all-encode_example =
    read_all-encode streams stream_laws (takes put ∷ closes ∷ []) (payload ∷ []) bytes
      (payload-IsFrame, tt) refl

Run-Fifo_example :
    (flying : List (List ℕ)) × (one_delivered.0.in_flight ≡ encode streams stream_laws flying)
    × Fifo (sent payload ∷ received payload ∷ sent payload ∷ []) (
        one_delivered.0.inbox.frames
        ++ (flying ++ waiting tokio tokio_laws one_delivered.0.outgoing))
Run-Fifo_example = Run-Fifo streams stream_laws tokio tokio_laws one_delivered.1
