-- ===== src/Node/Inbox.antt =====
-- The inbox of a stream: InboxState of rust/iroh_mobile_bridge/src/lib.rs, what enqueue_inbox_frame
-- does under its lock, and what next_message does under it.
pub mod Order
use iroh_react_native_bridge.Base.{
  ℕ, ◌+◌, ◌-◌, ◌^◌, Bool, List, [], ◌∷◌, ◌++◌, Option, none, some, if◌then◌else◌, ltb, leb, ◌&&◌,
  length,
}

-- MAX_INBOX_FRAMES and MAX_INBOX_BYTES
abbrev pub max_inbox_frames : ℕ
max_inbox_frames = 256

abbrev pub max_inbox_bytes : ℕ
max_inbox_bytes = 16777216

pub record InboxState : Type 0 where
  pub frames : List (List ℕ)
  pub bytes : ℕ

-- InboxState::default
abbrev pub empty_inbox : InboxState
empty_inbox = record { frames = []; bytes = 0 }

-- usize::saturating_add on a 64-bit target
abbrev pub saturating_add : ℕ → ℕ → ℕ
saturating_add a b = if ltb (2 ^ 64 - 1) (a + b) then 2 ^ 64 - 1 else a + b

abbrev pub has_room : List ℕ → InboxState → Bool
has_room payload inbox =
    ltb (length inbox.frames) max_inbox_frames
    && leb (saturating_add inbox.bytes (length payload)) max_inbox_bytes

-- One turn of the loop of `enqueue_inbox_frame`, while the stream is open: the inbox with the
-- payload, or none where the loop goes on to wait.
unfoldable pub try_enqueue : List ℕ → InboxState → Option InboxState
try_enqueue payload inbox =
    if has_room payload inbox
    then some
        (record { frames = inbox.frames ++ (payload ∷ []); bytes = inbox.bytes + length payload })
    else none

-- `pop_front` and its accounting. Subtraction on ℕ stops at 0, as saturating_sub does.
unfoldable pub pop_front : List (List ℕ) → ℕ → Option (List ℕ × InboxState)
pop_front [] bytes = none
pop_front (payload ∷ rest) bytes =
    some (payload, record { frames = rest; bytes = bytes - length payload })

-- What `next_message` does under the lock.
unfoldable pub pop_frame : InboxState → Option (List ℕ × InboxState)
unfolding pop_front
pop_frame inbox = pop_front inbox.frames inbox.bytes
