-- ===== src/Node/TcpForward/Throughput.antt =====
-- What active_down_ms and bytes_down say of the chunks that arrived.
use Prim.Native.Nat.{◌*◌}
use iroh_react_native_bridge.Base.{
  ℕ, ◌+◌, ◌%◌, ◌^◌, ◌≤◌, ◌<◌, ◌≡◌, refl, ◌∙◌, ap, List, [], ◌∷◌, some, arith,
}
use iroh_react_native_bridge.Node.TcpForward.{StatsState, default_state, record_down, burst_ms}

-- A chunk: its length, and when it was recorded.
abbrev pub Chunk : Type 0
Chunk = ℕ × ℕ

abbrev pub record_all : List Chunk → StatsState → StatsState
record_all [] st = st
record_all ((bytes, now) ∷ rest) st = record_all rest (record_down bytes now st)

abbrev pub sum_bytes : List Chunk → ℕ
sum_bytes [] = 0
sum_bytes ((bytes, now) ∷ rest) = bytes + sum_bytes rest

-- Chunks in the order of their times, from `start` on, up to `end`.
abbrev pub Ascends : ℕ → List Chunk → ℕ → Type 0
Ascends start [] end = start ≤ end
Ascends start ((bytes, now) ∷ rest) end = (start ≤ now) × Ascends now rest end

-- Each less than a millisecond after the one before.
abbrev pub IsFast : ℕ → List Chunk → Type 0
IsFast start [] = Unit
IsFast start ((bytes, now) ∷ rest) = (now < start + 1000000) × IsFast now rest

burst_ms-bound :
    (previous now : ℕ) → previous ≤ now → previous + burst_ms (some previous) now * 1000000 ≤ now
unfolding burst_ms
burst_ms-bound previous now h = ground arith

burst_ms-fast : (previous now : ℕ) → now < previous + 1000000 → burst_ms (some previous) now ≡ 0
unfolding burst_ms
burst_ms-fast previous now h = ground arith

record_all-bytes :
    (chunks : List Chunk) (st : StatsState)
    → st.stats.bytes_down < 2 ^ 64
    → (record_all chunks st).stats.bytes_down ≡ (st.stats.bytes_down + sum_bytes chunks) % 2 ^ 64
unfolding record_down
record_all-bytes [] st small = omega arith
record_all-bytes ((bytes, now) ∷ rest) st small =
    omega (arith, record_all-bytes rest (record_down bytes now st) (omega arith))

record_all-elapsed :
    (start end : ℕ) (chunks : List Chunk) (st : StatsState)
    → st.last_down_at ≡ some start
    → Ascends start chunks end
    → (record_all chunks st).stats.active_down_ms * 1000000 + start
      ≤ st.stats.active_down_ms * 1000000 + end
unfolding record_down
record_all-elapsed start end [] st e h = omega arith
record_all-elapsed start end ((bytes, now) ∷ rest) st e h =
    let more = record_all-elapsed now end rest (record_down bytes now st) refl h.1 in
    let same : burst_ms st.last_down_at now ≡ burst_ms (some start) now =
      ap (λ o. burst_ms o now) e in
    omega (arith, burst_ms-bound start now h.0)

record_all-fast :
    (start : ℕ) (chunks : List Chunk) (st : StatsState)
    → st.last_down_at ≡ some start
    → st.stats.active_down_ms < 2 ^ 64
    → IsFast start chunks
    → (record_all chunks st).stats.active_down_ms ≡ st.stats.active_down_ms
unfolding record_down
record_all-fast start [] st e small h = refl
record_all-fast start ((bytes, now) ∷ rest) st e small h =
    let none_added : burst_ms st.last_down_at now ≡ 0 =
      ap (λ o. burst_ms o now) e ∙ burst_ms-fast start now h.0 in
    record_all-fast now rest (record_down bytes now st) refl (omega arith) h.1 ∙ omega arith

-- The counters of a forwarder that has just started, after chunks in the order of their times:
-- bytes_down is the number of bytes, as a u64, and active_down_ms is no longer than the time from
-- the first chunk to the last.
pub record_all-bounds :
    (bytes start end : ℕ) (chunks : List Chunk)
    → Ascends start chunks end
    → ((record_all ((bytes, start) ∷ chunks) default_state).stats.bytes_down
        ≡ (bytes + sum_bytes chunks) % 2 ^ 64)
      × ((record_all ((bytes, start) ∷ chunks) default_state).stats.active_down_ms * 1000000 + start
          ≤ end)
unfolding record_down burst_ms
record_all-bounds bytes start end chunks h =
    let counted = record_all-bytes ((bytes, start) ∷ chunks) default_state (omega arith) in
    let passed =
      record_all-elapsed start end chunks (record_down bytes start default_state) refl h in
    (omega (arith, counted), omega arith)

-- Where each chunk comes less than a millisecond after the one before, active_down_ms stays 0,
-- however many chunks come and however long it takes, while bytes_down counts their bytes.
pub record_all-truncates :
    (bytes start : ℕ) (chunks : List Chunk)
    → IsFast start chunks
    → ((record_all ((bytes, start) ∷ chunks) default_state).stats.active_down_ms ≡ 0)
      × ((record_all ((bytes, start) ∷ chunks) default_state).stats.bytes_down
          ≡ (bytes + sum_bytes chunks) % 2 ^ 64)
unfolding record_down burst_ms
record_all-truncates bytes start chunks h = (
  record_all-fast start chunks (record_down bytes start default_state) refl (omega arith) h,
  omega (arith, record_all-bytes ((bytes, start) ∷ chunks) default_state (omega arith)),
)
