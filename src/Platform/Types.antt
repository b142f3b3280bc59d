-- ===== src/Platform/Types.antt =====
-- The data that crosses the bridge: jsi::Value, the FFI structs, and the names of the crate's
-- extern "C" functions (react-native/cpp/generated/iroh_mobile_bridge.cpp, its first 430 lines).
use iroh_react_native_bridge.Base.{ℕ, Bool, String}

-- jsi::Value, by its kinds.
pub data Value (Object Double : Type 0) : Type 0 where
  undefined : Value Object Double
  null : Value Object Double
  bool : Bool → Value Object Double
  number : Double → Value Object Double
  text : String → Value Object Double
  object : Object → Value Object Double

-- `data` is an address; 0 is `nullptr`.
pub record RustBuffer : Type 0 where
  pub capacity : ℕ
  pub len : ℕ
  pub data_ptr : ℕ

-- `len` is an int32_t, as its bit pattern.
pub record ForeignBytes : Type 0 where
  pub len : ℕ
  pub data_ptr : ℕ

-- `code` is an int8_t, as its bit pattern.
pub record RustCallStatus : Type 0 where
  pub code : ℕ
  pub error_buf : RustBuffer

-- The result types of a Rust future, and the other types that cross the bridge.
pub data FfiType : Type 0 where
  u8 i8 u16 i16 u32 i32 u64 i64 f32 f64 rust_buffer void : FfiType

-- The functions that the crate exports.
pub data Func : Type 0 where
  bridge_version close connect connect_target dial_diagnostics echo_roundtrip is_running : Func
  is_stream_open next_message node_id send start stop start_tcp_forwarder : Func
  stop_tcp_forwarder tcp_forwarder_stats : Func

-- The extern "C" functions that the generated methods call.
pub data Symbol : Type 0 where
  fn_func : Func → Symbol
  rust_future_poll : FfiType → Symbol
  rust_future_cancel : FfiType → Symbol
  rust_future_free : FfiType → Symbol
  rust_future_complete : FfiType → Symbol
  checksum_func : Func → Symbol
  uniffi_contract_version : Symbol

-- The two function pointers that JavaScript callbacks are given to Rust as.
pub data CallbackPointer : Type 0 where
  rust_future_continuation_callback : CallbackPointer
  foreign_future_dropped_callback : CallbackPointer

-- An argument or a result of an extern "C" function.
pub data FfiValue : Type 0 where
  nothing : FfiValue
  scalar : ℕ → FfiValue
  buffer : RustBuffer → FfiValue
  callback : CallbackPointer → FfiValue
