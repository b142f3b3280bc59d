-- ===== src/ForeignFuture.antt =====
-- Futures that JavaScript completes for Rust: Bridging<UniffiForeignFutureResult…> and
-- Bridging<UniffiForeignFutureComplete…>, generated once for each result type, and
-- Bridging<UniffiForeignFutureDroppedCallbackStruct>
-- (react-native/cpp/generated/iroh_mobile_bridge.cpp, lines 907 to 1824).
pub mod Instances
pub mod Completion
use Prim.Native.String
use iroh_react_native_bridge.Base.{
  ℕ, String, List, Bool, if◌then◌else◌, ◌>>=◌, ◌>>◌, pure, throw, gets, returned, throws,
}
use iroh_react_native_bridge.Platform.{
  Platform, Value, undefined, object, FfiType, u8, i8, u16, i16, u32, i32, u64, i64, f32, f64,
  rust_buffer, void, FfiValue, nothing, scalar, RustCallStatus, CallbackPointer,
  foreign_future_dropped_callback,
}
use iroh_react_native_bridge.World.{World, Js, M, run, ask, arg}
use iroh_react_native_bridge.Status
use iroh_react_native_bridge.Callback.{make_callback_function}
use iroh_react_native_bridge.Call.{value, lower}

-- The part of the struct's name that tells its type.
abbrev pub struct_suffix : FfiType → String
struct_suffix u8 = "U8"
struct_suffix i8 = "I8"
struct_suffix u16 = "U16"
struct_suffix i16 = "I16"
struct_suffix u32 = "U32"
struct_suffix i32 = "I32"
struct_suffix u64 = "U64"
struct_suffix i64 = "I64"
struct_suffix f32 = "F32"
struct_suffix f64 = "F64"
struct_suffix rust_buffer = "RustBuffer"
struct_suffix void = "Void"

-- UniffiForeignFutureResult…; that of type void has no return value.
pub record ForeignFutureResult : Type 0 where
  pub return_value : FfiValue
  pub call_status : RustCallStatus

pub record DroppedCallbackStruct : Type 0 where
  pub handle : ℕ
  pub free : CallbackPointer

module _ (p : Platform) where
  open p use {State, Object, Double}

  -- `jsObject.getProperty(rt, key)`, converted.
  unfoldable pub return_value_from_js : ℕ → FfiType → Object → M p FfiValue
  return_value_from_js rt void o = pure nothing
  return_value_from_js rt t o = do
    v ← gets (λ w. p.get_property w.state o "return_value")
    lower p rt (value t) v

  -- `indeterminate` is what the struct's call status holds before it is read.
  unfoldable pub result_from_js : RustCallStatus → ℕ → FfiType → Js p → M p ForeignFutureResult
  unfolding return_value_from_js
  result_from_js indeterminate rt t (object o) = do
    return_value ← return_value_from_js rt t o
    status ← gets (λ w. p.get_property w.state o "call_status")
    call_status ← Status.from_js p indeterminate status
    pure (record { return_value = return_value; call_status = call_status })
  result_from_js indeterminate rt t _ =
      throw (String.◌++◌ "Expected an object for UniffiForeignFutureResult" (struct_suffix t))

  -- `intoRust` for the function pointer at `complete`.
  unfoldable pub into_rust : RustCallStatus → ℕ → FfiType → ℕ → List (Js p) → M p (Js p)
  into_rust indeterminate rt t complete args = do
    callback_data ← arg p args 0
    n ← ask p (λ _. p.scalar_from_js u64 callback_data)
    js_result ← arg p args 1
    result ← result_from_js indeterminate rt t js_result
    run p (λ s. (tt, p.ffi_complete t complete n result.return_value result.call_status s))
    pure undefined

  -- A function made by createFromHostFunction: its name, its parameter count, and its lambda.
  pub record HostFunction : Type 0 where
    pub name : String
    pub param_count : ℕ
    pub lambda : List (Js p) → M p (Js p)

  -- `toJs` of the function pointer at `complete`.
  unfoldable pub complete_to_js : RustCallStatus → ℕ → FfiType → ℕ → HostFunction
  complete_to_js indeterminate rt t complete = record {
    name = String.◌++◌ "--ForeignFutureComplete" (struct_suffix t);
    param_count = 2;
    lambda = into_rust indeterminate rt t complete;
  }

  unfoldable pub dropped_from_js : ℕ → Js p → M p DroppedCallbackStruct
  dropped_from_js rt (object o) = do
    handle_value ← gets (λ w. p.get_property w.state o "handle")
    handle ← ask p (λ _. p.scalar_from_js u64 handle_value)
    free_value ← gets (λ w. p.get_property w.state o "free")
    free ← make_callback_function p foreign_future_dropped_callback rt free_value
    pure (record { handle = handle; free = free })
  dropped_from_js rt _ = throw "Expected an object for UniffiForeignFutureDroppedCallbackStruct"
