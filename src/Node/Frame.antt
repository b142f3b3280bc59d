-- ===== src/Node/Frame.antt =====
-- Frames on a stream: write_frame and read_frame of rust/iroh_mobile_bridge/src/lib.rs. The streams
-- are tokio's, a parameter.
pub mod ReadAll
pub mod RoundTrip
use Prim.Native.Nat.{◌/◌, ◌*◌}
use iroh_react_native_bridge.Base.{
  ℕ, ◌+◌, ◌%◌, ◌^◌, List, [], ◌∷◌, String, ◌⊎◌, inl, inr, Option, none, some, if◌then◌else◌, ◌==◌,
  ltb, ◌||◌, length,
}
use iroh_react_native_bridge.Node.Errors.{
  Result, invalid_frame, operation_failed, or_operation_failed,
}

-- What `read_exact` answers: the bytes, the end of the stream, or another error.
pub data ReadExact (R : Type 0) : Type 0 where
  filled : List ℕ → R → ReadExact R
  unexpected_eof failed : String → R → ReadExact R

-- AsyncWriteExt and AsyncReadExt, awaited.
pub record Streams : Type 1 where
  pub Writer : Type 0
  pub Reader : Type 0
  pub write_all : List ℕ → Writer → String ⊎ Writer
  pub flush : Writer → String ⊎ Writer
  pub read_exact : ℕ → Reader → ReadExact Reader

-- MAX_FRAME_BYTES
abbrev pub max_frame_bytes : ℕ
max_frame_bytes = 2097152

-- u32::to_be_bytes and u32::from_be_bytes
abbrev pub to_be_bytes : ℕ → List ℕ
to_be_bytes n = n / 2 ^ 24 % 2 ^ 8 ∷ n / 2 ^ 16 % 2 ^ 8 ∷ n / 2 ^ 8 % 2 ^ 8 ∷ n % 2 ^ 8 ∷ []

abbrev pub from_be_bytes : List ℕ → ℕ
from_be_bytes (a ∷ b ∷ c ∷ d ∷ _) = ((a * 2 ^ 8 + b) * 2 ^ 8 + c) * 2 ^ 8 + d
from_be_bytes _ = 0

module _ (s : Streams) where
  open s use {Writer, Reader}

  unfoldable pub write_frame : List ℕ → Writer → Result Writer
  write_frame payload writer =
      if length payload == 0 || ltb max_frame_bytes (length payload)
      then inl invalid_frame
      else or_operation_failed (s.write_all (to_be_bytes (length payload % 2 ^ 32)) writer) (λ w1.
        or_operation_failed (s.write_all payload w1) (λ w2. or_operation_failed (s.flush w2) inr))

  -- The end of the stream inside the payload is an error like any other.
  abbrev pub payload_of : ReadExact Reader → Result (Option (List ℕ) × Reader)
  payload_of (filled payload reader) = inr (some payload, reader)
  payload_of (unexpected_eof message reader) = inl (operation_failed message)
  payload_of (failed message reader) = inl (operation_failed message)

  unfoldable pub read_payload : ℕ → Reader → Result (Option (List ℕ) × Reader)
  read_payload len reader =
      if len == 0 || ltb max_frame_bytes len
      then inl invalid_frame
      else payload_of (s.read_exact len reader)

  -- The end of the stream before a header is the end of the frames.
  unfoldable pub frame_of : ReadExact Reader → Result (Option (List ℕ) × Reader)
  unfolding read_payload
  frame_of (filled len_buf reader) = read_payload (from_be_bytes len_buf) reader
  frame_of (unexpected_eof message reader) = inr (none, reader)
  frame_of (failed message reader) = inl (operation_failed message)

  unfoldable pub read_frame : Reader → Result (Option (List ℕ) × Reader)
  unfolding frame_of
  read_frame reader = frame_of (s.read_exact 4 reader)
