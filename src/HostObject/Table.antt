-- ===== src/HostObject/Table.antt =====
-- The entries that the constructor of NativeIrohMobileBridge assigns, in its order: the name, the
-- parameter count, and the method that the entry's lambda calls.
use iroh_react_native_bridge.Base.{ℕ, String, List, [], ◌∷◌}
use iroh_react_native_bridge.Platform.{
  FfiType, u8, i8, u16, i16, u32, i32, u64, i64, f32, f64, rust_buffer, void, Func, bridge_version,
  close, connect, connect_target, dial_diagnostics, echo_roundtrip, is_running, is_stream_open,
  next_message, node_id, send, start, stop, start_tcp_forwarder, stop_tcp_forwarder,
  tcp_forwarder_stats,
}

-- The methods of the class, and the two lambdas at the end of the constructor.
pub data Method : Type 0 where
  internal_string_to_byte_length internal_string_to_buffer : Method
  internal_string_from_buffer internal_read_string_from_buffer : Method
  exported : Func → Method
  poll cancel free complete : FfiType → Method
  checksum_of : Func → Method
  contract alloc_buffer free_buffer : Method

abbrev pub Entry : Type 0
Entry = String × ℕ × Method

-- The string utilities.
abbrev pub string_props : List Entry
string_props =
    ("ubrn_uniffi_internal_fn_func_ffi__string_to_byte_length", 1, internal_string_to_byte_length)
    ∷ ("ubrn_uniffi_internal_fn_func_ffi__string_to_buffer", 1, internal_string_to_buffer)
    ∷ ("ubrn_uniffi_internal_fn_func_ffi__string_from_buffer", 1, internal_string_from_buffer)
    ∷ (
      "ubrn_uniffi_internal_fn_func_ffi__read_string_from_buffer", 3,
      internal_read_string_from_buffer,
    )
    ∷ []

-- The functions of the crate.
abbrev pub function_props : List Entry
function_props =
    ("ubrn_uniffi_iroh_mobile_bridge_fn_func_bridge_version", 0, exported bridge_version)
    ∷ ("ubrn_uniffi_iroh_mobile_bridge_fn_func_close", 1, exported close)
    ∷ ("ubrn_uniffi_iroh_mobile_bridge_fn_func_connect", 4, exported connect)
    ∷ ("ubrn_uniffi_iroh_mobile_bridge_fn_func_connect_target", 7, exported connect_target)
    ∷ ("ubrn_uniffi_iroh_mobile_bridge_fn_func_dial_diagnostics", 2, exported dial_diagnostics)
    ∷ ("ubrn_uniffi_iroh_mobile_bridge_fn_func_echo_roundtrip", 1, exported echo_roundtrip)
    ∷ ("ubrn_uniffi_iroh_mobile_bridge_fn_func_is_running", 0, exported is_running)
    ∷ ("ubrn_uniffi_iroh_mobile_bridge_fn_func_is_stream_open", 1, exported is_stream_open)
    ∷ ("ubrn_uniffi_iroh_mobile_bridge_fn_func_next_message", 2, exported next_message)
    ∷ ("ubrn_uniffi_iroh_mobile_bridge_fn_func_node_id", 0, exported node_id)
    ∷ ("ubrn_uniffi_iroh_mobile_bridge_fn_func_send", 2, exported send)
    ∷ ("ubrn_uniffi_iroh_mobile_bridge_fn_func_start", 1, exported start)
    ∷ ("ubrn_uniffi_iroh_mobile_bridge_fn_func_stop", 0, exported stop)
    ∷ (
      "ubrn_uniffi_iroh_mobile_bridge_fn_func_start_tcp_forwarder",
      1,
      exported start_tcp_forwarder,
    )
    ∷ ("ubrn_uniffi_iroh_mobile_bridge_fn_func_stop_tcp_forwarder", 1, exported stop_tcp_forwarder)
    ∷ (
      "ubrn_uniffi_iroh_mobile_bridge_fn_func_tcp_forwarder_stats",
      1,
      exported tcp_forwarder_stats,
    )
    ∷ []

-- Futures of 8 and 16 bits.
abbrev pub small_future_props : List Entry
small_future_props =
    ("ubrn_ffi_iroh_mobile_bridge_rust_future_poll_u8", 3, poll u8)
    ∷ ("ubrn_ffi_iroh_mobile_bridge_rust_future_cancel_u8", 1, cancel u8)
    ∷ ("ubrn_ffi_iroh_mobile_bridge_rust_future_free_u8", 1, free u8)
    ∷ ("ubrn_ffi_iroh_mobile_bridge_rust_future_complete_u8", 1, complete u8)
    ∷ ("ubrn_ffi_iroh_mobile_bridge_rust_future_poll_i8", 3, poll i8)
    ∷ ("ubrn_ffi_iroh_mobile_bridge_rust_future_cancel_i8", 1, cancel i8)
    ∷ ("ubrn_ffi_iroh_mobile_bridge_rust_future_free_i8", 1, free i8)
    ∷ ("ubrn_ffi_iroh_mobile_bridge_rust_future_complete_i8", 1, complete i8)
    ∷ ("ubrn_ffi_iroh_mobile_bridge_rust_future_poll_u16", 3, poll u16)
    ∷ ("ubrn_ffi_iroh_mobile_bridge_rust_future_cancel_u16", 1, cancel u16)
    ∷ ("ubrn_ffi_iroh_mobile_bridge_rust_future_free_u16", 1, free u16)
    ∷ ("ubrn_ffi_iroh_mobile_bridge_rust_future_complete_u16", 1, complete u16)
    ∷ ("ubrn_ffi_iroh_mobile_bridge_rust_future_poll_i16", 3, poll i16)
    ∷ ("ubrn_ffi_iroh_mobile_bridge_rust_future_cancel_i16", 1, cancel i16)
    ∷ ("ubrn_ffi_iroh_mobile_bridge_rust_future_free_i16", 1, free i16)
    ∷ ("ubrn_ffi_iroh_mobile_bridge_rust_future_complete_i16", 1, complete i16)
    ∷ []

-- Futures of 32 and 64 bits.
abbrev pub wide_future_props : List Entry
wide_future_props =
    ("ubrn_ffi_iroh_mobile_bridge_rust_future_poll_u32", 3, poll u32)
    ∷ ("ubrn_ffi_iroh_mobile_bridge_rust_future_cancel_u32", 1, cancel u32)
    ∷ ("ubrn_ffi_iroh_mobile_bridge_rust_future_free_u32", 1, free u32)
    ∷ ("ubrn_ffi_iroh_mobile_bridge_rust_future_complete_u32", 1, complete u32)
    ∷ ("ubrn_ffi_iroh_mobile_bridge_rust_future_poll_i32", 3, poll i32)
    ∷ ("ubrn_ffi_iroh_mobile_bridge_rust_future_cancel_i32", 1, cancel i32)
    ∷ ("ubrn_ffi_iroh_mobile_bridge_rust_future_free_i32", 1, free i32)
    ∷ ("ubrn_ffi_iroh_mobile_bridge_rust_future_complete_i32", 1, complete i32)
    ∷ ("ubrn_ffi_iroh_mobile_bridge_rust_future_poll_u64", 3, poll u64)
    ∷ ("ubrn_ffi_iroh_mobile_bridge_rust_future_cancel_u64", 1, cancel u64)
    ∷ ("ubrn_ffi_iroh_mobile_bridge_rust_future_free_u64", 1, free u64)
    ∷ ("ubrn_ffi_iroh_mobile_bridge_rust_future_complete_u64", 1, complete u64)
    ∷ ("ubrn_ffi_iroh_mobile_bridge_rust_future_poll_i64", 3, poll i64)
    ∷ ("ubrn_ffi_iroh_mobile_bridge_rust_future_cancel_i64", 1, cancel i64)
    ∷ ("ubrn_ffi_iroh_mobile_bridge_rust_future_free_i64", 1, free i64)
    ∷ ("ubrn_ffi_iroh_mobile_bridge_rust_future_complete_i64", 1, complete i64)
    ∷ []

-- Futures of floats, buffers and nothing.
abbrev pub other_future_props : List Entry
other_future_props =
    ("ubrn_ffi_iroh_mobile_bridge_rust_future_poll_f32", 3, poll f32)
    ∷ ("ubrn_ffi_iroh_mobile_bridge_rust_future_cancel_f32", 1, cancel f32)
    ∷ ("ubrn_ffi_iroh_mobile_bridge_rust_future_free_f32", 1, free f32)
    ∷ ("ubrn_ffi_iroh_mobile_bridge_rust_future_complete_f32", 1, complete f32)
    ∷ ("ubrn_ffi_iroh_mobile_bridge_rust_future_poll_f64", 3, poll f64)
    ∷ ("ubrn_ffi_iroh_mobile_bridge_rust_future_cancel_f64", 1, cancel f64)
    ∷ ("ubrn_ffi_iroh_mobile_bridge_rust_future_free_f64", 1, free f64)
    ∷ ("ubrn_ffi_iroh_mobile_bridge_rust_future_complete_f64", 1, complete f64)
    ∷ ("ubrn_ffi_iroh_mobile_bridge_rust_future_poll_rust_buffer", 3, poll rust_buffer)
    ∷ ("ubrn_ffi_iroh_mobile_bridge_rust_future_cancel_rust_buffer", 1, cancel rust_buffer)
    ∷ ("ubrn_ffi_iroh_mobile_bridge_rust_future_free_rust_buffer", 1, free rust_buffer)
    ∷ ("ubrn_ffi_iroh_mobile_bridge_rust_future_complete_rust_buffer", 1, complete rust_buffer)
    ∷ ("ubrn_ffi_iroh_mobile_bridge_rust_future_poll_void", 3, poll void)
    ∷ ("ubrn_ffi_iroh_mobile_bridge_rust_future_cancel_void", 1, cancel void)
    ∷ ("ubrn_ffi_iroh_mobile_bridge_rust_future_free_void", 1, free void)
    ∷ ("ubrn_ffi_iroh_mobile_bridge_rust_future_complete_void", 1, complete void)
    ∷ []

-- Checksums and the contract version.
abbrev pub checksum_props : List Entry
checksum_props =
    ("ubrn_uniffi_iroh_mobile_bridge_checksum_func_bridge_version", 0, checksum_of bridge_version)
    ∷ ("ubrn_uniffi_iroh_mobile_bridge_checksum_func_close", 0, checksum_of close)
    ∷ ("ubrn_uniffi_iroh_mobile_bridge_checksum_func_connect", 0, checksum_of connect)
    ∷ ("ubrn_uniffi_iroh_mobile_bridge_checksum_func_connect_target", 0, checksum_of connect_target)
    ∷ (
      "ubrn_uniffi_iroh_mobile_bridge_checksum_func_dial_diagnostics",
      0,
      checksum_of dial_diagnostics,
    )
    ∷ ("ubrn_uniffi_iroh_mobile_bridge_checksum_func_echo_roundtrip", 0, checksum_of echo_roundtrip)
    ∷ ("ubrn_uniffi_iroh_mobile_bridge_checksum_func_is_running", 0, checksum_of is_running)
    ∷ ("ubrn_uniffi_iroh_mobile_bridge_checksum_func_is_stream_open", 0, checksum_of is_stream_open)
    ∷ ("ubrn_uniffi_iroh_mobile_bridge_checksum_func_next_message", 0, checksum_of next_message)
    ∷ ("ubrn_uniffi_iroh_mobile_bridge_checksum_func_node_id", 0, checksum_of node_id)
    ∷ ("ubrn_uniffi_iroh_mobile_bridge_checksum_func_send", 0, checksum_of send)
    ∷ ("ubrn_uniffi_iroh_mobile_bridge_checksum_func_start", 0, checksum_of start)
    ∷ ("ubrn_uniffi_iroh_mobile_bridge_checksum_func_stop", 0, checksum_of stop)
    ∷ (
      "ubrn_uniffi_iroh_mobile_bridge_checksum_func_start_tcp_forwarder",
      0,
      checksum_of start_tcp_forwarder,
    )
    ∷ (
      "ubrn_uniffi_iroh_mobile_bridge_checksum_func_stop_tcp_forwarder",
      0,
      checksum_of stop_tcp_forwarder,
    )
    ∷ (
      "ubrn_uniffi_iroh_mobile_bridge_checksum_func_tcp_forwarder_stats",
      0,
      checksum_of tcp_forwarder_stats,
    )
    ∷ ("ubrn_ffi_iroh_mobile_bridge_uniffi_contract_version", 0, contract)
    ∷ []

-- The two functions that are written as lambdas in the constructor.
abbrev pub buffer_props : List Entry
buffer_props = ("rustbuffer_alloc", 1, alloc_buffer) ∷ ("rustbuffer_free", 1, free_buffer) ∷ []
