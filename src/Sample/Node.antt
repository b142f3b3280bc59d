-- ===== src/Sample/Node.antt =====
-- The theorems on the Rust node, applied to streams that are lists of bytes and to a small cache.
use iroh_react_native_bridge.Base.{
  ℕ, zero, suc, ap, length-append, ◌≤◌, ◌<◌, ◌≡◌, refl, sym, ◌∙◌, List, [], ◌∷◌, ◌++◌, Option, none,
  some, inr, length, arith,
}
use iroh_react_native_bridge.Node.Frame.{
  Streams, ReadExact, filled, unexpected_eof, write_frame, read_frame,
}
use iroh_react_native_bridge.Node.Frame.RoundTrip.{StreamLaws}
use iroh_react_native_bridge.Node.Inbox.{InboxState, empty_inbox, try_enqueue}
use iroh_react_native_bridge.Node.Inbox.Order.{
  IsValid, History, enqueue, Reach, here, next, Reach-IsValid,
}
use iroh_react_native_bridge.Node.Sessions.{Cache, find, cache_session, max_cached_sessions}
use iroh_react_native_bridge.Node.Sessions.Newest
use iroh_react_native_bridge.Node.Sessions.Newest.{cache_session-bound}

abbrev cons_first : ℕ → Option (List ℕ × List ℕ) → Option (List ℕ × List ℕ)
cons_first b none = none
cons_first b (some (bytes, rest)) = some (b ∷ bytes, rest)

-- The first `n` bytes and the rest.
abbrev take_exact : ℕ → List ℕ → Option (List ℕ × List ℕ)
take_exact zero xs = some ([], xs)
take_exact (suc n) [] = none
take_exact (suc n) (b ∷ xs) = cons_first b (take_exact n xs)

pub take_exact-append :
    (bytes rest : List ℕ) → take_exact (length bytes) (bytes ++ rest) ≡ some (bytes, rest)
take_exact-append [] rest = refl
take_exact-append (b ∷ bytes) rest = ap (cons_first b) (take_exact-append bytes rest)

pub take_exact-none : (n : ℕ) (xs : List ℕ) → length xs < n → take_exact n xs ≡ none
take_exact-none zero xs h = absurd (omega arith)
take_exact-none (suc n) [] h = refl
take_exact-none (suc n) (b ∷ xs) h = ap (cons_first b) (take_exact-none n xs (omega arith))

cons_first-some :
    (b : ℕ) (o : Option (List ℕ × List ℕ)) (bytes rest : List ℕ)
    → cons_first b o ≡ some (bytes, rest)
    → (tail : List ℕ) × (o ≡ some (tail, rest)) × (bytes ≡ b ∷ tail)
cons_first-some b none bytes rest h = absurd (ground arith)
cons_first-some b (some (tail, r)) bytes rest h = (tail, ground arith, ground arith)

pub take_exact-some :
    (n : ℕ) (xs bytes rest : List ℕ)
    → take_exact n xs ≡ some (bytes, rest)
    → (length bytes ≡ n) × (xs ≡ bytes ++ rest)
take_exact-some zero xs bytes rest h = (ground arith, ground arith)
take_exact-some (suc n) [] bytes rest h = absurd (ground arith)
take_exact-some (suc n) (b ∷ xs) bytes rest h =
    let (tail, e, same) = cons_first-some b (take_exact n xs) bytes rest h in
    let (size, split) = take_exact-some n xs tail rest e in
    (omega (arith, ap length same), ap (λ t. b ∷ t) split ∙ ap (λ t. t ++ rest) (sym same))

abbrev to_read : Option (List ℕ × List ℕ) → ReadExact (List ℕ)
to_read none = unexpected_eof "early eof" []
to_read (some (bytes, rest)) = filled bytes rest

pub to_read-filled :
    (o : Option (List ℕ × List ℕ)) (bytes rest : List ℕ)
    → to_read o ≡ filled bytes rest
    → o ≡ some (bytes, rest)
to_read-filled none bytes rest h = absurd (ground arith)
to_read-filled (some (b, r)) bytes rest h = ground arith

abbrev pub streams : Streams
streams = record {
  Writer = List ℕ;
  Reader = List ℕ;
  write_all = λ bytes w. inr (w ++ bytes);
  flush = λ w. inr w;
  read_exact = λ n r. to_read (take_exact n r);
}

pub inr_inj : (v w : List ℕ) → streams.flush v ≡ inr w → w ≡ v
inr_inj v w h = ground arith

abbrev pub stream_laws : StreamLaws streams
stream_laws = record {
  written = λ w. w;
  remaining = λ r. r;
  written-write_all = λ bytes w w' h. inr_inj (w ++ bytes) w' h;
  written-flush = inr_inj;
  remaining-read_exact =
      λ r bytes rest h. (rest, rw h (ap to_read (take_exact-append bytes rest)), refl);
  read_exact-filled =
      λ n r r' bytes h. take_exact-some n r bytes r' (to_read-filled (take_exact n r) bytes r' h);
  read_exact_short = λ n r h. ("early eof", [], ap to_read (take_exact-none n r h));
}

write_frame_test : write_frame streams (7 ∷ 8 ∷ []) (1 ∷ []) ≡ inr (1 ∷ 0 ∷ 0 ∷ 0 ∷ 2 ∷ 7 ∷ 8 ∷ [])
unfolding write_frame
write_frame_test = refl

read_frame_test : read_frame streams (0 ∷ 0 ∷ 0 ∷ 1 ∷ 7 ∷ []) ≡ inr (some (7 ∷ []), [])
unfolding read_frame
read_frame_test = refl

-- One frame is in the inbox.
abbrev one_frame : InboxState
one_frame = record { frames = (7 ∷ 8 ∷ []) ∷ []; bytes = 2 }

abbrev filled_once : History
filled_once = record { inbox = one_frame; accepted = (7 ∷ 8 ∷ []) ∷ []; delivered = [] }

enqueue_test : try_enqueue (7 ∷ 8 ∷ []) empty_inbox ≡ some one_frame
unfolding try_enqueue
enqueue_test = refl

filled_once-Reach : Reach filled_once
filled_once-Reach = next here (enqueue (7 ∷ 8 ∷ []) enqueue_test)

Reach-IsValid_example : IsValid one_frame × ([] ++ one_frame.frames ≡ (7 ∷ 8 ∷ []) ∷ [])
Reach-IsValid_example = Reach-IsValid filled_once-Reach

abbrev cache : Cache (Unit {0})
cache = record {
  sessions = ("a", record { connection = tt; last_used = 3 }) ∷ [];
  next_session_use = 5;
}

cache_session-bound_example :
    (length (cache_session "b" tt cache).sessions ≤ max_cached_sessions)
    × (find "b" (cache_session "b" tt cache).sessions
        ≡ some (record { connection = tt; last_used = 5 }))
    × Newest.IsValid (cache_session "b" tt cache)
cache_session-bound_example = cache_session-bound "b" tt cache (omega arith, tt) (omega arith)

-- An inbox with `n` frames of one byte.
abbrev ones : ℕ → List (List ℕ)
ones zero = []
ones (suc n) = ones n ++ ((7 ∷ []) ∷ [])

abbrev inbox_of : ℕ → InboxState
inbox_of n = record { frames = ones n; bytes = n }

abbrev history_of : ℕ → History
history_of n = record { inbox = inbox_of n; accepted = ones n; delivered = [] }

length-ones : (n : ℕ) → length (ones n) ≡ n
length-ones zero = refl
length-ones (suc n) = omega (arith, length-append (ones n) ((7 ∷ []) ∷ []), length-ones n)

try_enqueue-inbox_of :
    (n : ℕ) → n < 256 → try_enqueue (7 ∷ []) (inbox_of n) ≡ some (inbox_of (suc n))
unfolding try_enqueue
try_enqueue-inbox_of n h = ground (arith, length-ones n)

history_of-Reach : (n : ℕ) → n ≤ 256 → Reach (history_of n)
history_of-Reach zero h = here
history_of-Reach (suc n) h =
    next (history_of-Reach n (omega arith))
      (enqueue (7 ∷ []) (try_enqueue-inbox_of n (omega arith)))

full_test : try_enqueue (7 ∷ 8 ∷ []) (inbox_of 256) ≡ none
unfolding try_enqueue
full_test = refl
