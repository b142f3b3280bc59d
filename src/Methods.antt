-- ===== src/Methods.antt =====
-- The methods of NativeIrohMobileBridge, one for each function that the Rust crate exports to
-- JavaScript (react-native/cpp/generated/iroh_mobile_bridge.cpp, lines 2658 to 3319). The future
-- and the checksum methods are generated from one template for each type or function; the future
-- methods of each result type are in the child modules, and those here choose among them.
pub mod Declarations
pub mod SmallFutures
pub mod WideFutures
pub mod OtherFutures
use iroh_react_native_bridge.Base.{ℕ, List, [], ◌∷◌, ◌>>=◌}
use iroh_react_native_bridge.Platform.{
  Platform, FfiType, u8, i8, u16, i16, u32, i32, u64, i64, f32, f64, rust_buffer, void, fn_func,
  rust_future_poll, rust_future_cancel, rust_future_free, rust_future_complete, checksum_func,
  uniffi_contract_version, Func, bridge_version, close, connect, connect_target, dial_diagnostics,
  echo_roundtrip, is_running, is_stream_open, next_message, node_id, send, start, stop,
  start_tcp_forwarder, stop_tcp_forwarder, tcp_forwarder_stats,
}
use iroh_react_native_bridge.World.{Js, M, run, ask, arg}
use iroh_react_native_bridge.Call.{Param, value, continuation, rust_call, plain_call}

abbrev buf : Param
buf = value rust_buffer

module _ (p : Platform) (rt : ℕ) where
  unfoldable pub string_to_byte_length : List (Js p) → M p (Js p)
  string_to_byte_length args = do v ← arg p args 0; ask p (λ s. p.string_to_bytelength s v)

  unfoldable pub string_to_buffer : List (Js p) → M p (Js p)
  string_to_buffer args = do
    v ← arg p args 0
    r ← run p (λ s. p.string_to_buffer s v)
    ask p (λ _. r)

  unfoldable pub string_from_buffer : List (Js p) → M p (Js p)
  string_from_buffer args = do v ← arg p args 0; ask p (λ s. p.string_from_buffer s v)

  unfoldable pub read_string_from_buffer : List (Js p) → M p (Js p)
  read_string_from_buffer args = do
    v ← arg p args 0
    offset ← arg p args 1
    length ← arg p args 2
    ask p (λ s. p.read_string_from_buffer s v offset length)

  unfoldable pub fn_func_bridge_version : List (Js p) → M p (Js p)
  fn_func_bridge_version = rust_call p (fn_func bridge_version) [] rust_buffer rt

  unfoldable pub fn_func_close : List (Js p) → M p (Js p)
  fn_func_close = rust_call p (fn_func close) (buf ∷ []) void rt

  unfoldable pub fn_func_connect : List (Js p) → M p (Js p)
  fn_func_connect = rust_call p (fn_func connect) (buf ∷ buf ∷ buf ∷ buf ∷ []) rust_buffer rt

  unfoldable pub fn_func_connect_target : List (Js p) → M p (Js p)
  fn_func_connect_target =
      rust_call p (fn_func connect_target) (buf ∷ buf ∷ buf ∷ buf ∷ buf ∷ buf ∷ buf ∷ [])
        rust_buffer rt

  unfoldable pub fn_func_dial_diagnostics : List (Js p) → M p (Js p)
  fn_func_dial_diagnostics = plain_call p (fn_func dial_diagnostics) (buf ∷ buf ∷ []) u64 rt

  unfoldable pub fn_func_echo_roundtrip : List (Js p) → M p (Js p)
  fn_func_echo_roundtrip = rust_call p (fn_func echo_roundtrip) (buf ∷ []) rust_buffer rt

  unfoldable pub fn_func_is_running : List (Js p) → M p (Js p)
  fn_func_is_running = rust_call p (fn_func is_running) [] i8 rt

  unfoldable pub fn_func_is_stream_open : List (Js p) → M p (Js p)
  fn_func_is_stream_open = rust_call p (fn_func is_stream_open) (buf ∷ []) i8 rt

  unfoldable pub fn_func_next_message : List (Js p) → M p (Js p)
  fn_func_next_message = rust_call p (fn_func next_message) (buf ∷ value u64 ∷ []) rust_buffer rt

  unfoldable pub fn_func_node_id : List (Js p) → M p (Js p)
  fn_func_node_id = rust_call p (fn_func node_id) [] rust_buffer rt

  unfoldable pub fn_func_send : List (Js p) → M p (Js p)
  fn_func_send = rust_call p (fn_func send) (buf ∷ buf ∷ []) void rt

  unfoldable pub fn_func_start : List (Js p) → M p (Js p)
  fn_func_start = rust_call p (fn_func start) (buf ∷ []) void rt

  unfoldable pub fn_func_stop : List (Js p) → M p (Js p)
  fn_func_stop = rust_call p (fn_func stop) [] void rt

  unfoldable pub fn_func_start_tcp_forwarder : List (Js p) → M p (Js p)
  fn_func_start_tcp_forwarder = rust_call p (fn_func start_tcp_forwarder) (buf ∷ []) rust_buffer rt

  unfoldable pub fn_func_stop_tcp_forwarder : List (Js p) → M p (Js p)
  fn_func_stop_tcp_forwarder = rust_call p (fn_func stop_tcp_forwarder) (buf ∷ []) void rt

  unfoldable pub fn_func_tcp_forwarder_stats : List (Js p) → M p (Js p)
  fn_func_tcp_forwarder_stats = rust_call p (fn_func tcp_forwarder_stats) (buf ∷ []) rust_buffer rt

  -- The future methods, by the type of the result.
  unfoldable pub future_poll : FfiType → List (Js p) → M p (Js p)
  future_poll u8 = SmallFutures.rust_future_poll_u8 p rt
  future_poll i8 = SmallFutures.rust_future_poll_i8 p rt
  future_poll u16 = SmallFutures.rust_future_poll_u16 p rt
  future_poll i16 = SmallFutures.rust_future_poll_i16 p rt
  future_poll u32 = WideFutures.rust_future_poll_u32 p rt
  future_poll i32 = WideFutures.rust_future_poll_i32 p rt
  future_poll u64 = WideFutures.rust_future_poll_u64 p rt
  future_poll i64 = WideFutures.rust_future_poll_i64 p rt
  future_poll f32 = OtherFutures.rust_future_poll_f32 p rt
  future_poll f64 = OtherFutures.rust_future_poll_f64 p rt
  future_poll rust_buffer = OtherFutures.rust_future_poll_rust_buffer p rt
  future_poll void = OtherFutures.rust_future_poll_void p rt

  unfoldable pub future_cancel : FfiType → List (Js p) → M p (Js p)
  future_cancel u8 = SmallFutures.rust_future_cancel_u8 p rt
  future_cancel i8 = SmallFutures.rust_future_cancel_i8 p rt
  future_cancel u16 = SmallFutures.rust_future_cancel_u16 p rt
  future_cancel i16 = SmallFutures.rust_future_cancel_i16 p rt
  future_cancel u32 = WideFutures.rust_future_cancel_u32 p rt
  future_cancel i32 = WideFutures.rust_future_cancel_i32 p rt
  future_cancel u64 = WideFutures.rust_future_cancel_u64 p rt
  future_cancel i64 = WideFutures.rust_future_cancel_i64 p rt
  future_cancel f32 = OtherFutures.rust_future_cancel_f32 p rt
  future_cancel f64 = OtherFutures.rust_future_cancel_f64 p rt
  future_cancel rust_buffer = OtherFutures.rust_future_cancel_rust_buffer p rt
  future_cancel void = OtherFutures.rust_future_cancel_void p rt

  unfoldable pub future_free : FfiType → List (Js p) → M p (Js p)
  future_free u8 = SmallFutures.rust_future_free_u8 p rt
  future_free i8 = SmallFutures.rust_future_free_i8 p rt
  future_free u16 = SmallFutures.rust_future_free_u16 p rt
  future_free i16 = SmallFutures.rust_future_free_i16 p rt
  future_free u32 = WideFutures.rust_future_free_u32 p rt
  future_free i32 = WideFutures.rust_future_free_i32 p rt
  future_free u64 = WideFutures.rust_future_free_u64 p rt
  future_free i64 = WideFutures.rust_future_free_i64 p rt
  future_free f32 = OtherFutures.rust_future_free_f32 p rt
  future_free f64 = OtherFutures.rust_future_free_f64 p rt
  future_free rust_buffer = OtherFutures.rust_future_free_rust_buffer p rt
  future_free void = OtherFutures.rust_future_free_void p rt

  unfoldable pub future_complete : FfiType → List (Js p) → M p (Js p)
  future_complete u8 = SmallFutures.rust_future_complete_u8 p rt
  future_complete i8 = SmallFutures.rust_future_complete_i8 p rt
  future_complete u16 = SmallFutures.rust_future_complete_u16 p rt
  future_complete i16 = SmallFutures.rust_future_complete_i16 p rt
  future_complete u32 = WideFutures.rust_future_complete_u32 p rt
  future_complete i32 = WideFutures.rust_future_complete_i32 p rt
  future_complete u64 = WideFutures.rust_future_complete_u64 p rt
  future_complete i64 = WideFutures.rust_future_complete_i64 p rt
  future_complete f32 = OtherFutures.rust_future_complete_f32 p rt
  future_complete f64 = OtherFutures.rust_future_complete_f64 p rt
  future_complete rust_buffer = OtherFutures.rust_future_complete_rust_buffer p rt
  future_complete void = OtherFutures.rust_future_complete_void p rt

  unfoldable pub checksum : Func → List (Js p) → M p (Js p)
  checksum f = plain_call p (checksum_func f) [] u16 rt

  unfoldable pub contract_version : List (Js p) → M p (Js p)
  contract_version = plain_call p uniffi_contract_version [] u32 rt
