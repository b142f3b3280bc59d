-- ===== src/HostObject/Names.antt =====
-- The names and the parameter counts that the UniFFI scheme gives the methods.
use Prim.Native.String
use iroh_react_native_bridge.Base.{ℕ, String}
use iroh_react_native_bridge.Platform.{
  FfiType, u8, i8, u16, i16, u32, i32, u64, i64, f32, f64, rust_buffer, void, Func, bridge_version,
  close, connect, connect_target, dial_diagnostics, echo_roundtrip, is_running, is_stream_open,
  next_message, node_id, send, start, stop, start_tcp_forwarder, stop_tcp_forwarder,
  tcp_forwarder_stats,
}
use iroh_react_native_bridge.HostObject.Table.{
  Method, internal_string_to_byte_length, internal_string_to_buffer, internal_string_from_buffer,
  internal_read_string_from_buffer, exported, poll, cancel, free, complete, checksum_of, contract,
  alloc_buffer, free_buffer,
}

-- The names by which the crate and the types are known in symbols.
abbrev pub func_name : Func → String
func_name bridge_version = "bridge_version"
func_name close = "close"
func_name connect = "connect"
func_name connect_target = "connect_target"
func_name dial_diagnostics = "dial_diagnostics"
func_name echo_roundtrip = "echo_roundtrip"
func_name is_running = "is_running"
func_name is_stream_open = "is_stream_open"
func_name next_message = "next_message"
func_name node_id = "node_id"
func_name send = "send"
func_name start = "start"
func_name stop = "stop"
func_name start_tcp_forwarder = "start_tcp_forwarder"
func_name stop_tcp_forwarder = "stop_tcp_forwarder"
func_name tcp_forwarder_stats = "tcp_forwarder_stats"

abbrev pub type_name : FfiType → String
type_name u8 = "u8"
type_name i8 = "i8"
type_name u16 = "u16"
type_name i16 = "i16"
type_name u32 = "u32"
type_name i32 = "i32"
type_name u64 = "u64"
type_name i64 = "i64"
type_name f32 = "f32"
type_name f64 = "f64"
type_name rust_buffer = "rust_buffer"
type_name void = "void"

-- The JavaScript name of a method, built from the UniFFI naming scheme.
abbrev pub js_name : Method → String
js_name internal_string_to_byte_length = "ubrn_uniffi_internal_fn_func_ffi__string_to_byte_length"
js_name internal_string_to_buffer = "ubrn_uniffi_internal_fn_func_ffi__string_to_buffer"
js_name internal_string_from_buffer = "ubrn_uniffi_internal_fn_func_ffi__string_from_buffer"
js_name internal_read_string_from_buffer =
    "ubrn_uniffi_internal_fn_func_ffi__read_string_from_buffer"
js_name (exported f) = String.◌++◌ "ubrn_uniffi_iroh_mobile_bridge_fn_func_" (func_name f)
js_name (poll t) = String.◌++◌ "ubrn_ffi_iroh_mobile_bridge_rust_future_poll_" (type_name t)
js_name (cancel t) = String.◌++◌ "ubrn_ffi_iroh_mobile_bridge_rust_future_cancel_" (type_name t)
js_name (free t) = String.◌++◌ "ubrn_ffi_iroh_mobile_bridge_rust_future_free_" (type_name t)
js_name (complete t) = String.◌++◌ "ubrn_ffi_iroh_mobile_bridge_rust_future_complete_" (type_name t)
js_name (checksum_of f) = String.◌++◌ "ubrn_uniffi_iroh_mobile_bridge_checksum_func_" (func_name f)
js_name contract = "ubrn_ffi_iroh_mobile_bridge_uniffi_contract_version"
js_name alloc_buffer = "rustbuffer_alloc"
js_name free_buffer = "rustbuffer_free"

-- How many arguments, the status aside, each function of the crate takes.
abbrev pub func_arity : Func → ℕ
func_arity bridge_version = 0
func_arity close = 1
func_arity connect = 4
func_arity connect_target = 7
func_arity dial_diagnostics = 2
func_arity echo_roundtrip = 1
func_arity is_running = 0
func_arity is_stream_open = 1
func_arity next_message = 2
func_arity node_id = 0
func_arity send = 2
func_arity start = 1
func_arity stop = 0
func_arity start_tcp_forwarder = 1
func_arity stop_tcp_forwarder = 1
func_arity tcp_forwarder_stats = 1

abbrev pub arity : Method → ℕ
arity internal_string_to_byte_length = 1
arity internal_string_to_buffer = 1
arity internal_string_from_buffer = 1
arity internal_read_string_from_buffer = 3
arity (exported f) = func_arity f
arity (poll t) = 3
arity (cancel t) = 1
arity (free t) = 1
arity (complete t) = 1
arity (checksum_of f) = 0
arity contract = 0
arity alloc_buffer = 1
arity free_buffer = 1
