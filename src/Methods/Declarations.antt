-- ===== src/Methods/Declarations.antt =====
-- The declarations of the crate's C functions, as the extern "C" block of
-- react-native/cpp/generated/iroh_mobile_bridge.cpp has them, and the call that each asks for.
use iroh_react_native_bridge.Base.{ℕ, zero, suc, Bool, true, false, List, [], ◌∷◌}
use iroh_react_native_bridge.Platform.{
  Platform, FfiType, i8, u16, u32, u64, rust_buffer, void, Func, bridge_version, close, connect,
  connect_target, dial_diagnostics, echo_roundtrip, is_running, is_stream_open, next_message,
  node_id, send, start, stop, start_tcp_forwarder, stop_tcp_forwarder, tcp_forwarder_stats, Symbol,
  fn_func, rust_future_poll, rust_future_cancel, rust_future_free, rust_future_complete,
  checksum_func, uniffi_contract_version,
}
use iroh_react_native_bridge.World.{Js, M}
use iroh_react_native_bridge.Call.{Param, value, continuation, rust_call, plain_call}

-- The parameters, the last `RustCallStatus *uniffi_out_err` aside, whether there is one, and the
-- result.
pub record Declaration : Type 0 where
  pub params : List Param
  pub has_status : Bool
  pub returns : FfiType

abbrev buffers : ℕ → List Param
buffers zero = []
buffers (suc n) = value rust_buffer ∷ buffers n

abbrev with_status : List Param → FfiType → Declaration
with_status params returns = record { params = params; has_status = true; returns = returns }

abbrev without_status : List Param → FfiType → Declaration
without_status params returns = record { params = params; has_status = false; returns = returns }

unfoldable pub func_declaration : Func → Declaration
func_declaration bridge_version = with_status [] rust_buffer
func_declaration close = with_status (buffers 1) void
func_declaration connect = with_status (buffers 4) rust_buffer
func_declaration connect_target = with_status (buffers 7) rust_buffer
func_declaration dial_diagnostics = without_status (buffers 2) u64
func_declaration echo_roundtrip = with_status (buffers 1) rust_buffer
func_declaration is_running = with_status [] i8
func_declaration is_stream_open = with_status (buffers 1) i8
func_declaration next_message = with_status (value rust_buffer ∷ value u64 ∷ []) rust_buffer
func_declaration node_id = with_status [] rust_buffer
func_declaration send = with_status (buffers 2) void
func_declaration start = with_status (buffers 1) void
func_declaration stop = with_status [] void
func_declaration start_tcp_forwarder = with_status (buffers 1) rust_buffer
func_declaration stop_tcp_forwarder = with_status (buffers 1) void
func_declaration tcp_forwarder_stats = with_status (buffers 1) rust_buffer

-- A handle is a uint64_t.
unfoldable pub declaration : Symbol → Declaration
unfolding func_declaration
declaration (fn_func f) = func_declaration f
declaration (rust_future_poll t) = without_status (value u64 ∷ continuation ∷ value u64 ∷ []) void
declaration (rust_future_cancel t) = without_status (value u64 ∷ []) void
declaration (rust_future_free t) = without_status (value u64 ∷ []) void
declaration (rust_future_complete t) = with_status (value u64 ∷ []) t
declaration (checksum_func f) = without_status [] u16
declaration uniffi_contract_version = without_status [] u32

-- A call with a status, and one without.
abbrev pub call_shape : (p : Platform) → Bool → Symbol → Declaration → ℕ → List (Js p) → M p (Js p)
call_shape p true symbol d rt = rust_call p symbol d.params d.returns rt
call_shape p false symbol d rt = plain_call p symbol d.params d.returns rt

-- The call that a declaration asks for.
abbrev pub declared_call : (p : Platform) → Symbol → Declaration → ℕ → List (Js p) → M p (Js p)
declared_call p symbol d rt = call_shape p d.has_status symbol d rt
