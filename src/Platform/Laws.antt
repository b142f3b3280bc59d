-- ===== src/Platform/Laws.antt =====
-- What the C++ bridge relies on of the code around it. `live s p` is the capacity of the Rust
-- allocation at address `p`, if there is one: it is what the documentation of the functions speaks
-- of, and no code reads it.
use text.Mathlib.Text.{◌==◌ as str_eq}
use iroh_react_native_bridge.Base.{
  ℕ, ◌≤◌, ◌<◌, ◌^◌, List, ◌≡◌, ◌≢◌, true, false, String, Option, none, some, inr, if◌then◌else◌,
  ◌==◌,
}
use iroh_react_native_bridge.Platform.{Platform}
use iroh_react_native_bridge.Platform.Types.{Value, number, object, RustBuffer, ForeignBytes}

pub record Laws (p : Platform) : Type 0 where
  -- Property reads see the last write of that name on that object.
  pub get-set :
      (s : p.State) (o : p.Object) (k j : String) (v : Value p.Object p.Double)
      → p.get_property (p.set_property s o k v) o j
        ≡ (if str_eq k j then v else p.get_property s o j)
  pub has-set :
      (s : p.State) (o : p.Object) (k j : String) (v : Value p.Object p.Double)
      → p.has_property (p.set_property s o k v) o j
        ≡ (if str_eq k j then true else p.has_property s o j)
  -- A new view describes its payload, and has no property of another name.
  pub view_length :
      (s : p.State) (a n : ℕ)
      → p.get_property (p.uint8_array s a n).1 (p.uint8_array s a n).0 "byteLength"
        ≡ number (p.of_ℕ n)
  pub view_offset :
      (s : p.State) (a n : ℕ)
      → p.get_property (p.uint8_array s a n).1 (p.uint8_array s a n).0 "byteOffset"
        ≡ number (p.of_ℕ 0)
  pub view_hint :
      (s : p.State) (a n : ℕ)
      → p.has_property (p.uint8_array s a n).1 (p.uint8_array s a n).0 "__ubrnRustCapacity" ≡ false
  pub view_data :
      (s : p.State) (a n : ℕ)
      → p.buffer_data (p.uint8_array s a n).1 (p.uint8_array s a n).0 ≡ inr a
  pub view_bytes :
      (s : p.State) (a n : ℕ)
      → p.value_to_arraybuffer (p.uint8_array s a n).1 (object (p.uint8_array s a n).0) ≡ inr (a, n)
  -- A property write leaves the memory under every buffer where it is.
  pub set-data :
      (s : p.State) (o x : p.Object) (k : String) (v : Value p.Object p.Double)
      → p.buffer_data (p.set_property s o k v) x ≡ p.buffer_data s x
  pub bytes-set :
      (s : p.State) (o : p.Object) (k : String) (v x : Value p.Object p.Double)
      → p.value_to_arraybuffer (p.set_property s o k v) x ≡ p.value_to_arraybuffer s x
  -- Rust touches no JavaScript object.
  pub get-free :
      (s : p.State) (b : RustBuffer) (o : p.Object) (k : String)
      → p.get_property (p.ffi_rustbuffer_free b s) o k ≡ p.get_property s o k
  pub bytes-free :
      (s : p.State) (b : RustBuffer) (x : Value p.Object p.Double)
      → p.value_to_arraybuffer (p.ffi_rustbuffer_free b s) x ≡ p.value_to_arraybuffer s x
  -- A double holds the integers up to 2^53.
  pub to-of : (n : ℕ) → n ≤ 2 ^ 53 → p.to_ℕ (p.of_ℕ n) ≡ n
  pub live : p.State → ℕ → Option ℕ
  pub live-set :
      (s : p.State) (o : p.Object) (k : String) (v : Value p.Object p.Double)
      → live (p.set_property s o k v) ≡ live s
  pub live-view : (s : p.State) (a n : ℕ) → live (p.uint8_array s a n).1 ≡ live s
  pub live-copy : (s : p.State) (a n : ℕ) → live (p.new_copy s a n).1 ≡ live s
  -- A buffer is freed under the capacity that it was allocated with.
  pub live-free :
      (s : p.State) (b : RustBuffer)
      → live s b.data_ptr ≡ some b.capacity
      → (a : ℕ) → live (p.ffi_rustbuffer_free b s) a ≡ (if b.data_ptr == a then none else live s a)
  -- An allocation that succeeds is at an address where none was. A buffer of capacity 0 has none:
  -- its address is not null, and nothing is live there.
  pub alloc_fresh :
      (s : p.State) (n : ℕ)
      → (p.ffi_rustbuffer_alloc n s).0.data_ptr ≢ 0
      → 0 < (p.ffi_rustbuffer_alloc n s).0.capacity
      → live s (p.ffi_rustbuffer_alloc n s).0.data_ptr ≡ none
  pub live-alloc :
      (s : p.State) (n : ℕ)
      → (p.ffi_rustbuffer_alloc n s).0.data_ptr ≢ 0
      → 0 < (p.ffi_rustbuffer_alloc n s).0.capacity
      → (a : ℕ)
      → live (p.ffi_rustbuffer_alloc n s).1 a ≡ (
          if (p.ffi_rustbuffer_alloc n s).0.data_ptr == a
          then some (p.ffi_rustbuffer_alloc n s).0.capacity
          else live s a)
  -- A copy of at least one byte at an address that is not null, whose length is an int32_t that is not negative.
  pub from_bytes_fresh :
      (s : p.State) (b : ForeignBytes)
      → b.data_ptr ≢ 0
      → 0 < b.len
      → b.len < 2 ^ 31
      → live s (p.ffi_rustbuffer_from_bytes b s).0.data_ptr ≡ none
  pub live-from_bytes :
      (s : p.State) (b : ForeignBytes)
      → b.data_ptr ≢ 0
      → 0 < b.len
      → b.len < 2 ^ 31
      → (a : ℕ)
      → live (p.ffi_rustbuffer_from_bytes b s).1 a ≡ (
          if (p.ffi_rustbuffer_from_bytes b s).0.data_ptr == a
          then some (p.ffi_rustbuffer_from_bytes b s).0.capacity
          else live s a)
  -- `memory s a n` is the bytes at an address, and `array s a` those of the array made with `new` that
  -- is there. An array holds what it was copied from; nothing else here writes to one, and freeing a
  -- Rust buffer does not touch it.
  pub memory : p.State → ℕ → ℕ → List ℕ
  pub array : p.State → ℕ → Option (List ℕ)
  pub array-copy :
      (s : p.State) (a n : ℕ)
      → array (p.new_copy s a n).1 (p.new_copy s a n).0 ≡ some (memory s a n)
  pub array-set :
      (s : p.State) (o : p.Object) (k : String) (v : Value p.Object p.Double)
      → array (p.set_property s o k v) ≡ array s
  pub array-view : (s : p.State) (a n : ℕ) → array (p.uint8_array s a n).1 ≡ array s
  pub array-free : (s : p.State) (b : RustBuffer) → array (p.ffi_rustbuffer_free b s) ≡ array s
