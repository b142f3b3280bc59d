-- ===== src/HostObject.antt =====
-- NativeIrohMobileBridge as a jsi::HostObject: the table of properties that its constructor fills,
-- and `get`, `set` and `getPropertyNames` (react-native/cpp/generated/iroh_mobile_bridge.cpp, lines
-- 1851 to 2656, and iroh_mobile_bridge.hpp).
pub mod Table
pub mod Map
pub mod Names
pub mod Laws
pub mod Arity
pub mod Symbols
pub mod Declared
pub use Table.{Method}
unfoldable pub use Map.{StringMap, lookup, insert_or_assign, assign_all}
use iroh_react_native_bridge.Base.{
  ℕ, String, List, [], ◌∷◌, ◌++◌, map, Option, none, some, ◌>>=◌, returned,
}
use iroh_react_native_bridge.Platform.{
  Platform, Value, undefined, Func, bridge_version, close, connect, connect_target,
  dial_diagnostics, echo_roundtrip, is_running, is_stream_open, next_message, node_id, send, start,
  stop, start_tcp_forwarder, stop_tcp_forwarder, tcp_forwarder_stats,
}
use iroh_react_native_bridge.World.{World, Js, M}
use iroh_react_native_bridge.Buffer.{js_rustbuffer_alloc, js_rustbuffer_free}
use iroh_react_native_bridge.Methods
use Table.{
  Entry, string_props, function_props, small_future_props, wide_future_props, other_future_props,
  checksum_props, buffer_props, internal_string_to_byte_length, internal_string_to_buffer,
  internal_string_from_buffer, internal_read_string_from_buffer, exported, poll, cancel, free,
  complete, checksum_of, contract, alloc_buffer, free_buffer,
}

-- What a property holds: a function made by createFromHostFunction, with its parameter count, or a
-- value that JavaScript stored.
pub data Property (Stored : Type 0) : Type 0 where
  function : ℕ → Method → Property Stored
  stored : Stored → Property Stored

-- All assignments of the constructor, in order.
abbrev pub entries : List Entry
entries =
    string_props ++ function_props ++ small_future_props ++ wide_future_props ++ other_future_props
    ++ checksum_props ++ buffer_props

module _ (p : Platform) where
  abbrev pub Props : Type 0
  Props = StringMap (Property (Js p))

  abbrev pub to_property : Entry → String × Property (Js p)
  to_property (name, count, m) = (name, function count m)

  -- The constructor.
  unfoldable pub construct : Props
  construct = assign_all (map to_property entries) []

  -- `get`: what `props.at` finds, or `undefined` where it throws out_of_range.
  unfoldable pub get : Props → String → Property (Js p)
  get props name = elim (lookup name props) [ none ↦ stored undefined | some property ↦ property ]

  unfoldable pub get_property_names : Props → List String
  get_property_names props = map (λ e. e.0) props

  -- `props.insert_or_assign(name, &value)` converts the address of the value.
  unfoldable pub set : Props → String → Js p → Props
  set props name value = insert_or_assign name (stored p.of_pointer) props

module _ (p : Platform) (rt : ℕ) where
  abbrev pub invoke_func : Func → List (Js p) → M p (Js p)
  invoke_func bridge_version = Methods.fn_func_bridge_version p rt
  invoke_func close = Methods.fn_func_close p rt
  invoke_func connect = Methods.fn_func_connect p rt
  invoke_func connect_target = Methods.fn_func_connect_target p rt
  invoke_func dial_diagnostics = Methods.fn_func_dial_diagnostics p rt
  invoke_func echo_roundtrip = Methods.fn_func_echo_roundtrip p rt
  invoke_func is_running = Methods.fn_func_is_running p rt
  invoke_func is_stream_open = Methods.fn_func_is_stream_open p rt
  invoke_func next_message = Methods.fn_func_next_message p rt
  invoke_func node_id = Methods.fn_func_node_id p rt
  invoke_func send = Methods.fn_func_send p rt
  invoke_func start = Methods.fn_func_start p rt
  invoke_func stop = Methods.fn_func_stop p rt
  invoke_func start_tcp_forwarder = Methods.fn_func_start_tcp_forwarder p rt
  invoke_func stop_tcp_forwarder = Methods.fn_func_stop_tcp_forwarder p rt
  invoke_func tcp_forwarder_stats = Methods.fn_func_tcp_forwarder_stats p rt

  -- The lambda of each entry calls the method of its name.
  abbrev pub invoke : Method → List (Js p) → M p (Js p)
  invoke internal_string_to_byte_length = Methods.string_to_byte_length p rt
  invoke internal_string_to_buffer = Methods.string_to_buffer p rt
  invoke internal_string_from_buffer = Methods.string_from_buffer p rt
  invoke internal_read_string_from_buffer = Methods.read_string_from_buffer p rt
  invoke (exported f) = invoke_func f
  invoke (poll t) = Methods.future_poll p rt t
  invoke (cancel t) = Methods.future_cancel p rt t
  invoke (free t) = Methods.future_free p rt t
  invoke (complete t) = Methods.future_complete p rt t
  invoke (checksum_of f) = Methods.checksum p rt f
  invoke contract = Methods.contract_version p rt
  invoke alloc_buffer = js_rustbuffer_alloc p
  invoke free_buffer = js_rustbuffer_free p
