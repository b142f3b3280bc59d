-- ===== src/Node/Frame/RoundTrip.antt =====
-- What is read from a stream is what was written to it.
use iroh_react_native_bridge.Base.{
  append_assoc, ℕ, ◌+◌, ◌%◌, ◌^◌, ◌≤◌, ◌<◌, ◌≡◌, refl, ◌∙◌, ap, List, [], ◌∷◌, ◌++◌, String, inl,
  inr, none, some, ◌==◌, ltb, ◌||◌, length, length-append, arith, Bool-cases,
}
use iroh_react_native_bridge.Node.Errors.{
  operation_failed, or_operation_failed, or_operation_failed-eq-inr,
}
use iroh_react_native_bridge.Node.Frame.{
  Streams, ReadExact, filled, unexpected_eof, failed, max_frame_bytes, to_be_bytes, from_be_bytes,
  write_frame, read_frame, read_payload, payload_of, frame_of,
}

-- `written` is all that a writer was given, `remaining` all that a reader has still to give.
pub record StreamLaws (s : Streams) : Type 0 where
  pub written : s.Writer → List ℕ
  pub remaining : s.Reader → List ℕ
  pub written-write_all :
      (bytes : List ℕ) (w w' : s.Writer)
      → s.write_all bytes w ≡ inr w'
      → written w' ≡ written w ++ bytes
  pub written-flush : (w w' : s.Writer) → s.flush w ≡ inr w' → written w' ≡ written w
  pub remaining-read_exact :
      (r : s.Reader) (bytes rest : List ℕ)
      → remaining r ≡ bytes ++ rest
      → (r' : s.Reader) × (s.read_exact (length bytes) r ≡ filled bytes r') × (remaining r' ≡ rest)
  pub read_exact-filled :
      (n : ℕ) (r r' : s.Reader) (bytes : List ℕ)
      → s.read_exact n r ≡ filled bytes r'
      → (length bytes ≡ n) × (remaining r ≡ bytes ++ remaining r')
  pub read_exact_short :
      (n : ℕ) (r : s.Reader)
      → length (remaining r) < n
      → (message : String) × (r' : s.Reader) × (s.read_exact n r ≡ unexpected_eof message r')

from_be_bytes-to_be_bytes : (n : ℕ) → n < 2 ^ 32 → from_be_bytes (to_be_bytes n) ≡ n
from_be_bytes-to_be_bytes n h = omega arith

pub append_cancel : (xs ys zs : List ℕ) → xs ++ ys ≡ xs ++ zs → ys ≡ zs
append_cancel [] ys zs h = h
append_cancel (x ∷ xs) ys zs h = append_cancel xs ys zs (cc)

module _ (s : Streams) where
  payload_of-some :
      (x : ReadExact s.Reader) (payload : List ℕ) (r' : s.Reader)
      → payload_of s x ≡ inr (some payload, r')
      → x ≡ filled payload r'
  payload_of-some (filled bytes r) payload r' h = ground arith
  payload_of-some (unexpected_eof message r) payload r' h = absurd (ground arith)
  payload_of-some (failed message r) payload r' h = absurd (ground arith)

module _ (s : Streams) (laws : StreamLaws s) where
  abbrev pub frame : List ℕ → List ℕ
  frame payload = to_be_bytes (length payload % 2 ^ 32) ++ payload

  pub accepted :
      (payload : List ℕ) (w w' : s.Writer)
      → write_frame s payload w ≡ inr w'
      → (0 < length payload)
        × (length payload ≤ max_frame_bytes)
        × (or_operation_failed (s.write_all (to_be_bytes (length payload % 2 ^ 32)) w) (λ w1.
              or_operation_failed
                (s.write_all payload w1)
                (λ w2. or_operation_failed (s.flush w2) inr))
            ≡ inr w')
  unfolding write_frame
  accepted payload w w' h =
      elim (Bool-cases (length payload == 0 || ltb max_frame_bytes (length payload))) [
        | inl e ↦ absurd (ground arith)
        | inr e ↦ (ground arith, ground arith, rw e at h)
      ]

  -- A frame that was accepted adds its header and its payload.
  pub written-write_frame :
      (payload : List ℕ) (w w' : s.Writer)
      → write_frame s payload w ≡ inr w'
      → laws.written w' ≡ laws.written w ++ frame payload
  written-write_frame payload w w' h =
      let (w1, e1, h1) = or_operation_failed-eq-inr _ _ (accepted payload w w' h).2 in
      let (w2, e2, h2) = or_operation_failed-eq-inr _ _ h1 in
      let (w3, e3, h3) = or_operation_failed-eq-inr _ _ h2 in
      let same : laws.written w' ≡ laws.written w3 = ap laws.written (ground arith) in
      same
      ∙ laws.written-flush w2 w3 e3
      ∙ laws.written-write_all payload w1 w2 e2
      ∙ ap (λ t. t ++ payload) (laws.written-write_all _ w w1 e1)
      ∙ append_assoc (laws.written w) _ payload

  read_frame_of_reads :
      (r r1 r2 : s.Reader) (header payload : List ℕ)
      → s.read_exact 4 r ≡ filled header r1
      → from_be_bytes header ≡ length payload
      → 0 < length payload
      → length payload ≤ max_frame_bytes
      → s.read_exact (length payload) r1 ≡ filled payload r2
      → read_frame s r ≡ inr (some payload, r2)
  unfolding read_frame
  read_frame_of_reads r r1 r2 header payload e1 len pos small e2 = ground arith

  pub read_frame_of_frame :
      (payload rest : List ℕ) (r : s.Reader)
      → 0 < length payload
      → length payload ≤ max_frame_bytes
      → laws.remaining r ≡ frame payload ++ rest
      → (r' : s.Reader) × (read_frame s r ≡ inr (some payload, r')) × (laws.remaining r' ≡ rest)
  unfolding read_frame
  read_frame_of_frame payload rest r pos small h =
      let (r1, e1, h1) =
        laws.remaining-read_exact r (to_be_bytes (length payload % 2 ^ 32)) (payload ++ rest) h in
      let (r2, e2, h2) = laws.remaining-read_exact r1 payload rest h1 in
      let len : from_be_bytes (to_be_bytes (length payload % 2 ^ 32)) ≡ length payload =
        from_be_bytes-to_be_bytes (length payload % 2 ^ 32) (omega arith) ∙ omega arith in
      (r2, read_frame_of_reads r r1 r2 _ payload e1 len pos small e2, h2)

  -- Two ends of one stream: where a reader has still to give what `write_frame` has just added, and
  -- then `rest`, `read_frame` gives the payload and has `rest` left.
  pub read_frame-write_frame :
      (payload rest : List ℕ) (w w' : s.Writer) (r : s.Reader)
      → write_frame s payload w ≡ inr w'
      → laws.written w ++ laws.remaining r ≡ laws.written w' ++ rest
      → (r' : s.Reader) × (read_frame s r ≡ inr (some payload, r')) × (laws.remaining r' ≡ rest)
  read_frame-write_frame payload rest w w' r h both =
      let (pos, small, _) = accepted payload w w' h in
      read_frame_of_frame payload rest r pos small (
        append_cancel (laws.written w) (laws.remaining r) (frame payload ++ rest) (
          both
          ∙ ap (λ t. t ++ rest) (written-write_frame payload w w' h)
          ∙ append_assoc (laws.written w) (frame payload) rest))

  abbrev pub left : s.Reader → ℕ
  left r = length (laws.remaining r)

  left-read_exact :
      (n : ℕ) (r r' : s.Reader) (bytes : List ℕ)
      → s.read_exact n r ≡ filled bytes r'
      → (length bytes ≡ n) × (left r ≡ n + left r')
  left-read_exact n r r' bytes h =
      let (size, split) = laws.read_exact-filled n r r' bytes h in
      (size, ap length split ∙ length-append bytes (laws.remaining r') ∙ ap (λ x. x + left r') size)

  -- A payload is in bounds, and was taken off the stream.
  abbrev Taken : List ℕ → s.Reader → s.Reader → Type 0
  Taken payload r r' =
      (0 < length payload)
      × (length payload ≤ max_frame_bytes)
      × (left r ≡ length payload + left r')

  read_payload-Taken :
      (len : ℕ) (payload : List ℕ) (r r' : s.Reader)
      → read_payload s len r ≡ inr (some payload, r')
      → Taken payload r r'
  unfolding read_payload
  read_payload-Taken len payload r r' h = elim (Bool-cases (len == 0 || ltb max_frame_bytes len)) [
    | inl e ↦ absurd (ground arith)
    | inr e ↦
        let read = payload_of-some s (s.read_exact len r) payload r' (rw e at h) in
        let (same, gone) = left-read_exact len r r' payload read in
        (ground arith, ground arith, omega arith)
  ]

  frame_of-Taken :
      (x : ReadExact s.Reader) (payload : List ℕ) (r r' : s.Reader)
      → s.read_exact 4 r ≡ x
      → frame_of s x ≡ inr (some payload, r')
      → (r1 : s.Reader) × (left r ≡ 4 + left r1) × Taken payload r1 r'
  unfolding frame_of
  frame_of-Taken (filled bytes r1) payload r r' e h = (
    r1,
    (left-read_exact 4 r r1 bytes e).1,
    read_payload-Taken (from_be_bytes bytes) payload r1 r' h,
  )
  frame_of-Taken (unexpected_eof message r1) payload r r' e h = absurd (ground arith)
  frame_of-Taken (failed message r1) payload r r' e h = absurd (ground arith)

  -- Whatever the peer sent, a payload that `read_frame` gives has between 1 and MAX_FRAME_BYTES
  -- bytes.
  pub read_frame_bounds :
      (payload : List ℕ) (r r' : s.Reader)
      → read_frame s r ≡ inr (some payload, r')
      → (0 < length payload) × (length payload ≤ max_frame_bytes)
  unfolding read_frame
  read_frame_bounds payload r r' h =
      let (_, _, taken) = frame_of-Taken (s.read_exact 4 r) payload r r' refl h in
      (taken.0, taken.1)

  pub left-read_frame :
      (payload : List ℕ) (r r' : s.Reader)
      → read_frame s r ≡ inr (some payload, r')
      → left r ≡ 4 + length payload + left r'
  unfolding read_frame
  left-read_frame payload r r' h =
      let (r1, header, taken) = frame_of-Taken (s.read_exact 4 r) payload r r' refl h in
      omega (arith, taken.2)

  frame_of_reads_short :
      (r r1 r2 : s.Reader) (header : List ℕ) (n : ℕ) (message : String)
      → s.read_exact 4 r ≡ filled header r1
      → from_be_bytes header ≡ n
      → 0 < n
      → n ≤ max_frame_bytes
      → s.read_exact n r1 ≡ unexpected_eof message r2
      → read_frame s r ≡ inl (operation_failed message)
  unfolding read_frame
  frame_of_reads_short r r1 r2 header n message e1 len pos small e2 = ground arith

  -- A stream that ends inside a payload is an error: where a reader has only a header for `n` bytes
  -- and fewer than `n` bytes left, `read_frame` fails with OperationFailed. The header is one that
  -- is in bounds.
  pub read_frame_truncated :
      (n : ℕ) (part : List ℕ) (r : s.Reader)
      → 0 < n
      → n ≤ max_frame_bytes
      → laws.remaining r ≡ to_be_bytes n ++ part
      → length part < n
      → (message : String) × (read_frame s r ≡ inl (operation_failed message))
  read_frame_truncated n part r pos small h short =
      let (r1, e1, h1) = laws.remaining-read_exact r (to_be_bytes n) part h in
      let (message, r2, e2) = laws.read_exact_short n r1 (rw h1 short) in
      (
        message,
        frame_of_reads_short r r1 r2 _ n message e1 (from_be_bytes-to_be_bytes n (omega arith)) pos
            small e2,
      )

  -- A stream that ends before or inside a header is the end of the frames, and no error: where a
  -- reader has fewer than four bytes left, `read_frame` gives no payload.
  pub read_frame_ends :
      (r : s.Reader)
      → length (laws.remaining r) < 4
      → (r' : s.Reader) × (read_frame s r ≡ inr (none, r'))
  unfolding read_frame
  read_frame_ends r short =
      let (message, r', e) = laws.read_exact_short 4 r short in (r', ground arith)
