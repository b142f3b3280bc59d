-- ===== src/ForeignFuture/Instances.antt =====
-- The specialisations of Bridging<UniffiForeignFutureResult…> and
-- Bridging<UniffiForeignFutureComplete…>, one for each result type
-- (react-native/cpp/generated/iroh_mobile_bridge.cpp, lines 945 to 1824).
use iroh_react_native_bridge.Base.{ℕ, ◌≡◌, refl}
use iroh_react_native_bridge.Platform.{
  Platform, FfiType, u8, i8, u16, i16, u32, i32, u64, i64, f32, f64, rust_buffer, void,
  RustCallStatus,
}
use iroh_react_native_bridge.World.{Js, M}
use iroh_react_native_bridge.ForeignFuture.{
  ForeignFutureResult, HostFunction, result_from_js, complete_to_js,
}

module _ (p : Platform) (indeterminate : RustCallStatus) (rt : ℕ) where
  unfoldable pub result_from_js_u8 : Js p → M p ForeignFutureResult
  result_from_js_u8 = result_from_js p indeterminate rt u8

  unfoldable pub result_from_js_i8 : Js p → M p ForeignFutureResult
  result_from_js_i8 = result_from_js p indeterminate rt i8

  unfoldable pub result_from_js_u16 : Js p → M p ForeignFutureResult
  result_from_js_u16 = result_from_js p indeterminate rt u16

  unfoldable pub result_from_js_i16 : Js p → M p ForeignFutureResult
  result_from_js_i16 = result_from_js p indeterminate rt i16

  unfoldable pub result_from_js_u32 : Js p → M p ForeignFutureResult
  result_from_js_u32 = result_from_js p indeterminate rt u32

  unfoldable pub result_from_js_i32 : Js p → M p ForeignFutureResult
  result_from_js_i32 = result_from_js p indeterminate rt i32

  unfoldable pub result_from_js_u64 : Js p → M p ForeignFutureResult
  result_from_js_u64 = result_from_js p indeterminate rt u64

  unfoldable pub result_from_js_i64 : Js p → M p ForeignFutureResult
  result_from_js_i64 = result_from_js p indeterminate rt i64

  unfoldable pub result_from_js_f32 : Js p → M p ForeignFutureResult
  result_from_js_f32 = result_from_js p indeterminate rt f32

  unfoldable pub result_from_js_f64 : Js p → M p ForeignFutureResult
  result_from_js_f64 = result_from_js p indeterminate rt f64

  unfoldable pub result_from_js_rust_buffer : Js p → M p ForeignFutureResult
  result_from_js_rust_buffer = result_from_js p indeterminate rt rust_buffer

  unfoldable pub result_from_js_void : Js p → M p ForeignFutureResult
  result_from_js_void = result_from_js p indeterminate rt void

  unfoldable pub complete_to_js_u8 : ℕ → HostFunction p
  complete_to_js_u8 = complete_to_js p indeterminate rt u8

  unfoldable pub complete_to_js_i8 : ℕ → HostFunction p
  complete_to_js_i8 = complete_to_js p indeterminate rt i8

  unfoldable pub complete_to_js_u16 : ℕ → HostFunction p
  complete_to_js_u16 = complete_to_js p indeterminate rt u16

  unfoldable pub complete_to_js_i16 : ℕ → HostFunction p
  complete_to_js_i16 = complete_to_js p indeterminate rt i16

  unfoldable pub complete_to_js_u32 : ℕ → HostFunction p
  complete_to_js_u32 = complete_to_js p indeterminate rt u32

  unfoldable pub complete_to_js_i32 : ℕ → HostFunction p
  complete_to_js_i32 = complete_to_js p indeterminate rt i32

  unfoldable pub complete_to_js_u64 : ℕ → HostFunction p
  complete_to_js_u64 = complete_to_js p indeterminate rt u64

  unfoldable pub complete_to_js_i64 : ℕ → HostFunction p
  complete_to_js_i64 = complete_to_js p indeterminate rt i64

  unfoldable pub complete_to_js_f32 : ℕ → HostFunction p
  complete_to_js_f32 = complete_to_js p indeterminate rt f32

  unfoldable pub complete_to_js_f64 : ℕ → HostFunction p
  complete_to_js_f64 = complete_to_js p indeterminate rt f64

  unfoldable pub complete_to_js_rust_buffer : ℕ → HostFunction p
  complete_to_js_rust_buffer = complete_to_js p indeterminate rt rust_buffer

  unfoldable pub complete_to_js_void : ℕ → HostFunction p
  complete_to_js_void = complete_to_js p indeterminate rt void

  -- The function that JavaScript gets for a completion pointer of a type.
  unfoldable pub complete_function : FfiType → ℕ → HostFunction p
  complete_function u8 = complete_to_js_u8
  complete_function i8 = complete_to_js_i8
  complete_function u16 = complete_to_js_u16
  complete_function i16 = complete_to_js_i16
  complete_function u32 = complete_to_js_u32
  complete_function i32 = complete_to_js_i32
  complete_function u64 = complete_to_js_u64
  complete_function i64 = complete_to_js_i64
  complete_function f32 = complete_to_js_f32
  complete_function f64 = complete_to_js_f64
  complete_function rust_buffer = complete_to_js_rust_buffer
  complete_function void = complete_to_js_void

  -- The specialisations follow one template.
  pub complete_function-complete_to_js :
      (t : FfiType) → complete_function t ≡ complete_to_js p indeterminate rt t
  unfolding complete_function complete_to_js_u8 complete_to_js_i8 complete_to_js_u16
      complete_to_js_i16 complete_to_js_u32 complete_to_js_i32 complete_to_js_u64 complete_to_js_i64
      complete_to_js_f32 complete_to_js_f64 complete_to_js_rust_buffer complete_to_js_void
  complete_function-complete_to_js u8 = refl
  complete_function-complete_to_js _ = refl
