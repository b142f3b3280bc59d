-- ===== src/Node/Frame/ReadAll.antt =====
-- The loop of the reader task of connect_endpoint_addr (rust/iroh_mobile_bridge/src/lib.rs), round by
-- round. What enqueue_inbox_frame does until it answers is in Node/Receive.
use Prim.Native.Nat.{◌*◌}
use mathlib.Core.Path.{subst}
use iroh_react_native_bridge.Base.{
  ℕ, zero, suc, ◌+◌, ◌≤◌, ◌<◌, ◌≡◌, refl, sym, ◌∙◌, ap, Bool, true, false, List, [], ◌∷◌, ◌++◌,
  Option, none, some, inl, inr, length, All, arith,
}
use iroh_react_native_bridge.Node.Errors.{Result}
use iroh_react_native_bridge.Node.Frame.{Streams, read_frame}
use iroh_react_native_bridge.Node.Frame.RoundTrip.{
  StreamLaws, frame, left, left-read_frame, read_frame_bounds, read_frame_of_frame, read_frame_ends,
}
use iroh_react_native_bridge.Node.Inbox.Order.{total}
use iroh_react_native_bridge.Node.Send.Laws.{IsFrame}

-- What enqueue_inbox_frame answers, once it does: true, or false, and then the close flag.
pub data Answer : Type 0 where
  put : Answer
  refused : Bool → Answer

-- What ends the select of a round: the close flag, which is only ever set, so that the loop's
-- `continue` is not reached; or a frame, with what enqueue_inbox_frame answers.
pub data Event : Type 0 where
  closes : Event
  takes : Answer → Event

module _ (s : Streams) where
  abbrev pub Read : Type 0
  Read = Result (Option (List ℕ) × s.Reader)

  -- The payloads that were put in the inbox, with the loop still going on, or ended, and then whether
  -- it was cancelled.
  pub data Loop : Type 0 where
    going : List (List ℕ) → s.Reader → Loop
    ended : List (List ℕ) → Bool → Loop

  abbrev pub cons_payload : List ℕ → Loop → Loop
  cons_payload payload (going payloads reader) = going (payload ∷ payloads) reader
  cons_payload payload (ended payloads cancelled) = ended (payload ∷ payloads) cancelled

  -- A round, with what read_frame gives.
  abbrev pub round : Answer → Read → (s.Reader → Loop) → Loop
  round put (inr (some payload, reader)) next = cons_payload payload (next reader)
  round (refused cancelled) (inr (some payload, reader)) next = ended [] cancelled
  round answer (inr (none, reader)) next = ended [] false
  round answer (inl e) next = ended [] false

  -- The loop of the reader task, over what ends its rounds.
  unfoldable pub read_all : List Event → s.Reader → Loop
  read_all [] reader = going [] reader
  read_all (closes ∷ events) reader = ended [] true
  read_all (takes answer ∷ events) reader =
      round answer (read_frame s reader) (λ r. read_all events r)

module _ (s : Streams) (laws : StreamLaws s) where
  -- All frames, and what they took off the stream.
  abbrev Ended : Loop s → s.Reader → Type 0
  Ended result r =
      (payloads : List (List ℕ)) × (cancelled : Bool) × (result ≡ ended payloads cancelled)
      × All IsFrame payloads
      × (4 * length payloads + total payloads ≤ left s laws r)

  ends_here : (cancelled : Bool) (r : s.Reader) → Ended (ended [] cancelled) r
  ends_here cancelled r = ([], cancelled, refl, tt, omega arith)

  round-Ended :
      (answer : Answer) (x : Read s) (r : s.Reader) (next : s.Reader → Loop s)
      → ((payload : List ℕ) (r' : s.Reader)
          → x ≡ inr (some payload, r')
          → IsFrame payload
            × (left s laws r ≡ 4 + length payload + left s laws r')
            × Ended (next r') r')
      → Ended (round s answer x next) r
  round-Ended put (inl e) r next more = ends_here false r
  round-Ended (refused cancelled) (inl e) r next more = ends_here false r
  round-Ended put (inr (none, r1)) r next more = ends_here false r
  round-Ended (refused cancelled) (inr (none, r1)) r next more = ends_here false r
  round-Ended (refused cancelled) (inr (some payload, r1)) r next more = ends_here cancelled r
  round-Ended put (inr (some payload, r1)) r next more =
      let (good, gone, rest) = more payload r1 refl in
      let (payloads, cancelled, e, all, few) = rest in
      (payload ∷ payloads, cancelled, ap (cons_payload s payload) e, (good, all), omega arith)

  -- A peer cannot keep the reader task's loop busy for ever: on a stream with `n` bytes left it breaks
  -- within `n + 1` rounds, whatever the peer sends, whether enqueue_inbox_frame puts each frame or
  -- not, and whenever the stream is closed. A round ends when a frame was read and
  -- enqueue_inbox_frame has answered, or at the close flag; how long it waits for either is not said.
  -- Each payload that was put in the inbox has between 1 and MAX_FRAME_BYTES bytes, and those
  -- payloads with four bytes for each header are no longer than what was left.
  pub read_all-Ended :
      (events : List Event) (r : s.Reader)
      → left s laws r < length events
      → (payloads : List (List ℕ)) × (cancelled : Bool) × (read_all s events r
          ≡ ended payloads cancelled)
        × All IsFrame payloads
        × (4 * length payloads + total payloads ≤ left s laws r)
  unfolding read_all
  read_all-Ended [] r h = absurd (omega arith)
  read_all-Ended (closes ∷ events) r h = ends_here true r
  read_all-Ended (takes answer ∷ events) r h =
      round-Ended answer (read_frame s r) r _ (λ payload r' e.
        let gone = left-read_frame s laws payload r r' e in
        (read_frame_bounds s laws payload r r' e, gone, read_all-Ended events r' (omega arith)))

  -- The bytes of frames, one after the other.
  abbrev pub encode : List (List ℕ) → List ℕ
  encode [] = []
  encode (f ∷ fs) = frame s laws f ++ encode fs

  -- Rounds in which every frame is put.
  abbrev pub puts : ℕ → List Event
  puts zero = []
  puts (suc n) = takes put ∷ puts n

  abbrev pub payloads_of : Loop s → List (List ℕ)
  payloads_of (going payloads reader) = payloads
  payloads_of (ended payloads cancelled) = payloads

  payloads_of-cons_payload :
      (f : List ℕ) (l : Loop s) → payloads_of (cons_payload s f l) ≡ f ∷ payloads_of l
  payloads_of-cons_payload f (going payloads reader) = refl
  payloads_of-cons_payload f (ended payloads cancelled) = refl

  -- The payloads of a loop are the first of the frames.
  abbrev Prefix : List (List ℕ) → Loop s → Type 0
  Prefix frames l = (rest : List (List ℕ)) × (frames ≡ payloads_of l ++ rest)

  round-none :
      (answer : Answer) (r' : s.Reader) (next : s.Reader → Loop s)
      → Prefix [] (round s answer (inr (none, r')) next)
  round-none put r' next = ([], refl)
  round-none (refused cancelled) r' next = ([], refl)

  round-some :
      (answer : Answer) (f : List ℕ) (fs : List (List ℕ)) (r' : s.Reader) (next : s.Reader → Loop s)
      → Prefix fs (next r')
      → Prefix (f ∷ fs) (round s answer (inr (some f, r')) next)
  round-some put f fs r' next (rest, e) =
      (rest, ap (λ l. f ∷ l) e ∙ ap (λ l. l ++ rest) (sym (payloads_of-cons_payload f (next r'))))
  round-some (refused cancelled) f fs r' next first = (f ∷ fs, refl)

  read_all-Prefix :
      (events : List Event) (frames : List (List ℕ)) (r : s.Reader)
      → All IsFrame frames
      → laws.remaining r ≡ encode frames
      → Prefix frames (read_all s events r)
  unfolding read_all
  read_all-Prefix [] frames r good e = (frames, refl)
  read_all-Prefix (closes ∷ events) frames r good e = (frames, refl)
  read_all-Prefix (takes answer ∷ events) [] r good e =
      let (r', over) = read_frame_ends s laws r (rw e (omega arith)) in
      subst (λ x. Prefix [] (round s answer x (λ r. read_all s events r))) (sym over)
        (round-none answer r' (λ r. read_all s events r))
  read_all-Prefix (takes answer ∷ events) (f ∷ fs) r good e =
      let (r', got, rest) = read_frame_of_frame s laws f (encode fs) r good.0.0 good.0.1 e in
      subst (λ x. Prefix (f ∷ fs) (round s answer x (λ r. read_all s events r))) (sym got)
        (round-some answer f fs r' (λ r. read_all s events r)
          (read_all-Prefix events fs r' good.1 rest))

  read_all-puts :
      (frames : List (List ℕ)) (r : s.Reader)
      → All IsFrame frames
      → laws.remaining r ≡ encode frames
      → read_all s (puts (suc (length frames))) r ≡ ended frames false
  unfolding read_all
  read_all-puts [] r good e =
      let (r', over) = read_frame_ends s laws r (rw e (omega arith)) in
      ap (λ x. round s put x (λ r. read_all s [] r)) over
  read_all-puts (f ∷ fs) r good e =
      let (r', got, rest) = read_frame_of_frame s laws f (encode fs) r good.0.0 good.0.1 e in
      ap (λ x. round s put x (λ r. read_all s (puts (suc (length fs))) r)) got
      ∙ ap (cons_payload s f) (read_all-puts fs r' good.1 rest)

  -- The reader task reads what was written. Where the bytes left on a stream are those of frames,
  -- each of 1 to MAX_FRAME_BYTES bytes, the payloads that its loop puts in the inbox are the first of
  -- them, in order, whatever ends its rounds; and where enqueue_inbox_frame puts each one, the loop
  -- breaks after one more round than there are frames, with exactly their payloads and not cancelled.
  pub read_all-encode :
      (events : List Event) (frames : List (List ℕ)) (r : s.Reader)
      → All IsFrame frames
      → laws.remaining r ≡ encode frames
      → ((rest : List (List ℕ)) × (frames ≡ payloads_of (read_all s events r) ++ rest))
        × (read_all s (puts (suc (length frames))) r ≡ ended frames false)
  read_all-encode events frames r good e =
      (read_all-Prefix events frames r good e, read_all-puts frames r good e)
