-- ===== src/Sample/Receive.antt =====
-- The theorems on receiving, applied to a Notify that is whether there is a permit.
use mathlib.Core.Path.{subst}
use iroh_react_native_bridge.Base.{
  ℕ, zero, suc, ◌<◌, ◌≡◌, refl, ap, Bool, true, false, List, [], ◌∷◌, ◌++◌, Option, none, some, ◌⊎◌,
  length, arith,
}
use iroh_react_native_bridge.Node.Inbox.{InboxState, empty_inbox, try_enqueue, pop_frame, pop_front}
use iroh_react_native_bridge.Node.Receive.{
  Notify, NotifyLaws, Receiving, enqueued, enqueue_turn, frame_enqueued, pop_and_notify, at_once,
  receive_on,
}
use iroh_react_native_bridge.Node.Receive.Early.{receive_on-receive_on}
use iroh_react_native_bridge.Node.Receive.Wakeups.{
  IsAwake, reading, waiting, awaits, Stream, after_turn, Reach, here, next, reads, turns, notifies,
  looks, checks, sleeps,
}
use iroh_react_native_bridge.Node.Receive.Wakeups.Awake.{Reach-IsAwake}
use iroh_react_native_bridge.Node.Receive.Wakeups.Deadlock.{Reach-permit}

abbrev pub poll_permit : Bool → Option Bool
poll_permit true = some false
poll_permit false = none

abbrev pub permits : Notify
permits = record { Permits = Bool; notify_one = λ x. true; poll = poll_permit }

permit_taken : (x : Bool) → x ≡ true → (y : Bool) × (poll_permit x ≡ some y) × (y ≡ false)
permit_taken true h = (false, refl, refl)
permit_taken false h = absurd (ground arith)

permit_missing : (x : Bool) → x ≡ false → poll_permit x ≡ none
permit_missing true h = absurd (ground arith)
permit_missing false h = refl

abbrev permits_laws : NotifyLaws permits
permits_laws = record {
  has_permit = λ x. x;
  has_permit-notify_one = λ x. refl;
  poll-permit = permit_taken;
  poll-waits = permit_missing;
}

abbrev pub new_stream : Receiving permits
new_stream = record { inbox = empty_inbox; notify = false; capacity = false; is_closed = false }

abbrev pub one_frame : Receiving permits
one_frame = record new_stream { inbox = record { frames = (7 ∷ []) ∷ []; bytes = 1 } }

pub one_frame_test : enqueue_turn permits (7 ∷ []) new_stream ≡ (true, one_frame)
unfolding enqueue_turn try_enqueue
one_frame_test = refl

receive_on-receive_on_example :
    (r2 : Receiving permits) × (receive_on permits 5000 (λ r. r) (frame_enqueued permits one_frame)
      ≡ ((some (7 ∷ []), r2), at_once))
    × (r2.is_closed ≡ false)
    × (r3 : Receiving permits) × (receive_on permits 5000 (λ r. r) r2 ≡ ((none, r3), at_once))
    × (r3.is_closed ≡ false)
receive_on-receive_on_example =
    receive_on-receive_on permits permits_laws (7 ∷ []) 5000 5000 (λ r. r) (λ r. r) new_stream
      one_frame (refl, refl) one_frame_test (omega arith)

abbrev copies : ℕ → List (List ℕ)
copies zero = []
copies (suc n) = (7 ∷ []) ∷ copies n

length-copies : (n : ℕ) → length (copies n) ≡ n
length-copies zero = refl
length-copies (suc n) = omega (arith, length-copies n)

copies_one_more : (n : ℕ) → copies n ++ ((7 ∷ []) ∷ []) ≡ copies (suc n)
copies_one_more zero = refl
copies_one_more (suc n) = ap (λ l. (7 ∷ []) ∷ l) (copies_one_more n)

abbrev filled : ℕ → InboxState
filled n = record { frames = copies n; bytes = n }

try_enqueue-filled : (n : ℕ) → n < 256 → try_enqueue (7 ∷ []) (filled n) ≡ some (filled (suc n))
unfolding try_enqueue
try_enqueue-filled n h = ground (arith, length-copies n, copies_one_more n)

try_enqueue-full : try_enqueue (7 ∷ []) (filled 256) ≡ none
unfolding try_enqueue
try_enqueue-full = refl

-- next_message waits, and the reader has put `n` frames in the inbox.
abbrev asleep : ℕ → Bool → Stream permits
asleep n notify = record {
  shared = record { inbox = filled n; notify = notify; capacity = false; is_closed = false };
  reader = reading;
  caller = awaits;
  closers = 0;
}

asleep-Reach : Reach permits (asleep 0 false)
unfolding pop_and_notify pop_frame pop_front
asleep-Reach =
    next (next (next (here false false) (looks refl)) (checks refl refl)) (sleeps refl refl)

one_more-Reach :
    (n : ℕ) (notify : Bool)
    → n < 256
    → Reach permits (asleep n notify)
    → Reach permits (asleep (suc n) true)
unfolding enqueue_turn frame_enqueued
one_more-Reach n notify few r =
    let turned = next (next r (reads (7 ∷ []) refl)) (turns (7 ∷ []) refl) in
    next
      (subst
        (λ o. Reach permits (record (asleep n notify) {
          shared = (enqueued permits o (asleep n notify).shared).1;
          reader = after_turn permits (7 ∷ []) (enqueued permits o (asleep n notify).shared).0;
        }))
        (try_enqueue-filled n few) turned)
      (notifies refl)

filled-Reach : (n : ℕ) → n < 256 → Reach permits (asleep (suc n) true)
filled-Reach zero few = one_more-Reach 0 false few asleep-Reach
filled-Reach (suc n) few = one_more-Reach (suc n) true few (filled-Reach n (omega arith))

abbrev stuck : Stream permits
stuck = record (asleep 256 true) { reader = waiting (7 ∷ []) }

stuck-Reach : Reach permits stuck
unfolding enqueue_turn
stuck-Reach =
    subst
      (λ o. Reach permits (record (asleep 256 true) {
        shared = (enqueued permits o (asleep 256 true).shared).1;
        reader = after_turn permits (7 ∷ []) (enqueued permits o (asleep 256 true).shared).0;
      }))
      try_enqueue-full
      (next (next (filled-Reach 255 (omega arith)) (reads (7 ∷ []) refl)) (turns (7 ∷ []) refl))

Reach-permit_example :
    (permits_laws.has_permit stuck.shared.capacity ≡ true)
    ⊎ (permits_laws.has_permit stuck.shared.notify ≡ true)
Reach-permit_example =
    Reach-permit permits permits_laws (7 ∷ []) stuck-Reach (omega arith) refl refl

Reach-IsAwake_example : IsAwake permits permits_laws stuck
Reach-IsAwake_example = Reach-IsAwake permits permits_laws stuck-Reach
