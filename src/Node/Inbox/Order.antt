-- ===== src/Node/Inbox/Order.antt =====
-- Every interleaving of the reader task, which fills an inbox, and of next_message, which empties
-- it.
use iroh_react_native_bridge.Base.{
  append_assoc, ℕ, ◌+◌, ◌-◌, ◌≤◌, ◌<◌, ◌≡◌, refl, sym, ◌∙◌, ap, List, [], ◌∷◌, ◌++◌, none, some,
  length, length-append, arith,
}
use iroh_react_native_bridge.Node.Frame.{max_frame_bytes}
use iroh_react_native_bridge.Node.Inbox.{
  InboxState, empty_inbox, try_enqueue, pop_front, pop_frame, max_inbox_frames, max_inbox_bytes,
}

abbrev pub total : List (List ℕ) → ℕ
total [] = 0
total (f ∷ fs) = length f + total fs

pub record IsValid (inbox : InboxState) : Type 0 where
  pub counted : inbox.bytes ≡ total inbox.frames
  pub few_frames : length inbox.frames ≤ max_inbox_frames
  pub few_bytes : inbox.bytes ≤ max_inbox_bytes

-- An inbox with what went in and what came out, each in its order.
pub record History : Type 0 where
  pub inbox : InboxState
  pub accepted : List (List ℕ)
  pub delivered : List (List ℕ)

pub data Step (h : History) : History → Type 0 where
  enqueue :
      (payload : List ℕ) {after : InboxState}
      → try_enqueue payload h.inbox ≡ some after
      → Step h (record h { inbox = after; accepted = h.accepted ++ (payload ∷ []) })
  deliver :
      (payload : List ℕ) {after : InboxState}
      → pop_frame h.inbox ≡ some (payload, after)
      → Step h (record h { inbox = after; delivered = h.delivered ++ (payload ∷ []) })

abbrev pub opened : History
opened = record { inbox = empty_inbox; accepted = []; delivered = [] }

pub data Reach : History → Type 0 where
  here : Reach opened
  next : {h k : History} → Reach h → Step h k → Reach k

pub total-append : (fs : List (List ℕ)) (f : List ℕ) → total (fs ++ (f ∷ [])) ≡ total fs + length f
total-append [] f = omega arith
total-append (g ∷ fs) f = omega (arith, total-append fs f)

pub try_enqueue-some :
    (payload : List ℕ) (inbox after : InboxState)
    → try_enqueue payload inbox ≡ some after
    → (after
        ≡ record { frames = inbox.frames ++ (payload ∷ []); bytes = inbox.bytes + length payload })
      × (length inbox.frames < max_inbox_frames)
      × (inbox.bytes + length payload ≤ max_inbox_bytes)
unfolding try_enqueue
try_enqueue-some payload inbox after h = (ground arith, ground arith, ground arith)

pop_front-some :
    (frames : List (List ℕ)) (bytes : ℕ) (payload : List ℕ) (after : InboxState)
    → pop_front frames bytes ≡ some (payload, after)
    → (frames ≡ payload ∷ after.frames) × (after.bytes ≡ bytes - length payload)
unfolding pop_front
pop_front-some [] bytes payload after h = absurd (ground arith)
pop_front-some (f ∷ frames) bytes payload after h = (ground arith, ground arith)

pub pop_frame-some :
    (inbox : InboxState) (payload : List ℕ) (after : InboxState)
    → pop_frame inbox ≡ some (payload, after)
    → (inbox.frames ≡ payload ∷ after.frames) × (after.bytes ≡ inbox.bytes - length payload)
unfolding pop_frame
pop_frame-some inbox payload after h = pop_front-some inbox.frames inbox.bytes payload after h

pop_front-total :
    (frames : List (List ℕ)) (bytes : ℕ)
    → 0 < length frames
    → (first : List ℕ) × (after : InboxState) × (pop_front frames bytes ≡ some (first, after))
unfolding pop_front
pop_front-total [] bytes h = absurd (omega arith)
pop_front-total (f ∷ frames) bytes h = (f, _, refl)

try_enqueue-IsValid :
    (payload : List ℕ) (inbox after : InboxState)
    → IsValid inbox
    → try_enqueue payload inbox ≡ some after
    → IsValid after
try_enqueue-IsValid payload inbox after v h =
    let (e, few, small) = try_enqueue-some payload inbox after h in
    rw e (record {
      counted = omega (arith, v.counted, total-append inbox.frames payload);
      few_frames = omega (arith, length-append inbox.frames (payload ∷ []));
      few_bytes = small;
    })

pop_frame-IsValid :
    (inbox : InboxState) (payload : List ℕ) (after : InboxState)
    → IsValid inbox
    → pop_frame inbox ≡ some (payload, after)
    → IsValid after
pop_frame-IsValid inbox payload after v h =
    let (e, left) = pop_frame-some inbox payload after h in
    let size : total inbox.frames ≡ length payload + total after.frames = ap total e in
    let count : length inbox.frames ≡ length (payload ∷ after.frames) = ap length e in
    record {
      counted = omega (arith, v.counted);
      few_frames = omega (arith, v.few_frames);
      few_bytes = omega (arith, v.few_bytes);
    }

-- Whatever the reader task and next_message do, in whatever order, a stream's inbox holds at most
-- 256 frames and 16 MiB, its byte count is the sum of its frames' lengths,
-- and the frames delivered followed by those in the inbox are exactly those
-- accepted, in order.
pub Reach-IsValid :
    {h : History} → Reach h → IsValid h.inbox × (h.delivered ++ h.inbox.frames ≡ h.accepted)
Reach-IsValid here =
    (record { counted = refl; few_frames = omega arith; few_bytes = omega arith }, refl)
Reach-IsValid (next {h} r (enqueue payload {after} e)) =
    let (v, order) = Reach-IsValid r in
    let (same, _, _) = try_enqueue-some payload h.inbox after e in
    (
      try_enqueue-IsValid payload h.inbox after v e,
      ap (λ i. h.delivered ++ i.frames) same
          ∙ sym (append_assoc h.delivered h.inbox.frames (payload ∷ []))
          ∙ ap (λ t. t ++ (payload ∷ [])) order,
    )
Reach-IsValid (next {h} r (deliver payload {after} e)) =
    let (v, order) = Reach-IsValid r in
    let (front, _) = pop_frame-some h.inbox payload after e in
    (
      pop_frame-IsValid h.inbox payload after v e,
      append_assoc h.delivered (payload ∷ []) after.frames
          ∙ ap (λ t. h.delivered ++ t) (sym front)
          ∙ order,
    )

nonempty_of_total : (frames : List (List ℕ)) → 0 < total frames → 0 < length frames
nonempty_of_total [] h = absurd (omega arith)
nonempty_of_total (f ∷ frames) h = omega arith

-- A refusal has a reason, and both reasons need a frame.
nonempty :
    (payload : List ℕ) (inbox : InboxState)
    → IsValid inbox
    → length payload ≤ max_frame_bytes
    → try_enqueue payload inbox ≡ none
    → 0 < length inbox.frames
unfolding try_enqueue
nonempty payload inbox v small full = ground (arith, v.counted, nonempty_of_total inbox.frames)

-- The reader task never waits on an empty inbox: where an inbox that can
-- be reached has no room for a payload of at most MAX_FRAME_BYTES bytes, it has a frame for
-- `next_message` to deliver.
pub refused-deliverable :
    {h : History} (payload : List ℕ)
    → Reach h
    → length payload ≤ max_frame_bytes
    → try_enqueue payload h.inbox ≡ none
    → (first : List ℕ) × (after : InboxState) × (pop_frame h.inbox ≡ some (first, after))
unfolding pop_frame
refused-deliverable {h} payload r small full =
    pop_front-total h.inbox.frames h.inbox.bytes
      (nonempty payload h.inbox (Reach-IsValid r).0 small full)
