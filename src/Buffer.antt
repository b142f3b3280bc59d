-- ===== src/Buffer.antt =====
-- Bridging<RustBuffer> and the two host functions `rustbuffer_alloc` and `rustbuffer_free`
-- (react-native/cpp/generated/iroh_mobile_bridge.cpp).
pub mod Handoff
pub mod Allocate
use text.Mathlib.Text.{◌==◌ as str_eq}
use iroh_react_native_bridge.Base.{
  ℕ, suc, ◌+◌, ◌%◌, ◌^◌, String, Bool, true, false, not, ◌||◌, List, [], ◌∷◌, if◌then◌else◌, ◌==◌,
  ltb, length, ◌>>=◌, ◌>>◌, pure, throw, undefined_behaviour, gets, get_elem?, some, none, ◌⊎◌, inl,
  inr,
}
use iroh_react_native_bridge.Platform.{
  Platform, Value, undefined, number, object, RustBuffer, ForeignBytes,
}
use iroh_react_native_bridge.World.{World, Js, M, run, ask, arg, as_object, as_number}

-- static_cast<int32_t> of a size, as a bit pattern
abbrev pub to_int32 : ℕ → ℕ
to_int32 n = n % 2 ^ 32

abbrev pub int32_max : ℕ
int32_max = 2147483647

-- uniffi_jsi::kUbrnRustCapacity
abbrev pub capacity_hint : String
capacity_hint = "__ubrnRustCapacity"

module _ (p : Platform) where
  open p use {State, Object, Double}

  -- The status that these pass to Rust is never read.
  unfoldable pub rustbuffer_alloc : ℕ → M p RustBuffer
  rustbuffer_alloc size = run p (p.ffi_rustbuffer_alloc size)

  unfoldable pub rustbuffer_free : RustBuffer → M p (Unit {0})
  rustbuffer_free buf = run p (λ s. (tt, p.ffi_rustbuffer_free buf s))

  unfoldable pub rustbuffer_from_bytes : ForeignBytes → M p RustBuffer
  rustbuffer_from_bytes bytes = run p (p.ffi_rustbuffer_from_bytes bytes)

  -- The handler throws the message of the logic_error that it catches.
  unfoldable pub from_js : Js p → M p RustBuffer
  unfolding rustbuffer_from_bytes
  from_js value = do
    (address, size) ← ask p (λ s. p.value_to_arraybuffer s value)
    rustbuffer_from_bytes (record { len = to_int32 size; data_ptr = address })

  -- `view.setProperty(rt, kUbrnRustCapacity, ...)`, only where the view's length does not say it.
  unfoldable pub set_hint : Object → RustBuffer → M p (Unit {0})
  set_hint view buf =
      if buf.capacity == buf.len
      then pure tt
      else run p (λ s. (tt, p.set_property s view capacity_hint (number (p.of_ℕ buf.capacity))))

  unfoldable pub to_js : RustBuffer → M p (Js p)
  unfolding set_hint
  to_js buf = do
    view ← run p (λ s. p.uint8_array s buf.data_ptr buf.len)
    set_hint view buf
    pure (object view)

  -- The guards of the host function `rustbuffer_alloc`, and the cast to int32_t behind them, which
  -- is undefined for a NaN. That is neither below nor above another number.
  unfoldable pub check_size : Double → M p (Unit {0})
  check_size size =
      if p.is_less size (p.of_ℕ 0)
      then throw "rustbuffer_alloc: size must be non-negative"
      else if p.is_less (p.of_ℕ int32_max) size
      then throw "rustbuffer_alloc: size exceeds INT32_MAX"
      else if p.is_nan size
      then undefined_behaviour
      else pure tt

  unfoldable pub check_data : RustBuffer → M p (Unit {0})
  check_data rb =
      if rb.data_ptr == 0 then throw "rustbuffer_alloc failed: alloc returned null" else pure tt

  -- props["rustbuffer_alloc"]
  unfoldable pub js_rustbuffer_alloc : List (Js p) → M p (Js p)
  unfolding rustbuffer_alloc check_size check_data
  js_rustbuffer_alloc (number size ∷ _) = do
    check_size size
    rb ← rustbuffer_alloc (p.to_ℕ size)
    check_data rb
    view ← run p (λ s. p.uint8_array s rb.data_ptr rb.capacity)
    pure (object view)
  js_rustbuffer_alloc _ = throw "rustbuffer_alloc expected a number argument"

  -- `view.getProperty(rt, key).asNumber()`, cast to size_t
  unfoldable pub size_property : Object → String → M p ℕ
  size_property view key = do
    value ← gets (λ w. p.get_property w.state view key)
    n ← as_number p value
    pure (p.to_ℕ n)

  -- The hint if there is one, else the view's length.
  unfoldable pub capacity_of : Object → ℕ → M p ℕ
  unfolding size_property
  capacity_of view byte_length = do
    hinted ← gets (λ w. p.has_property w.state view capacity_hint)
    if hinted then size_property view capacity_hint else pure byte_length

  -- The part of `rustbuffer_free` behind its early return.
  unfoldable pub free_view : Object → ℕ → M p (Js p)
  unfolding rustbuffer_free capacity_of size_property
  free_view view byte_length = do
    capacity ← capacity_of view byte_length
    address ← ask p (λ s. p.buffer_data s view)
    byte_offset ← size_property view "byteOffset"
    rustbuffer_free (record { capacity = capacity; len = 0; data_ptr = address + byte_offset })
    pure undefined

  -- props["rustbuffer_free"]
  unfoldable pub js_rustbuffer_free : List (Js p) → M p (Js p)
  unfolding size_property free_view
  js_rustbuffer_free (object view ∷ _) = do
    byte_length ← size_property view "byteLength"
    if byte_length == 0 then pure undefined else free_view view byte_length
  js_rustbuffer_free _ = throw "rustbuffer_free expected a Uint8Array argument"
