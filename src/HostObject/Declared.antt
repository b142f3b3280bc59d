-- ===== src/HostObject/Declared.antt =====
-- From a name on the host object to the C function of that name.
use iroh_react_native_bridge.Base.{ℕ, ◌≡◌, refl, ◌∙◌, ap, length}
use iroh_react_native_bridge.Platform.{
  Platform, FfiType, u8, Func, bridge_version, Symbol, fn_func, rust_future_poll,
  rust_future_cancel, rust_future_free, rust_future_complete, checksum_func,
  uniffi_contract_version,
}
use iroh_react_native_bridge.Methods.{
  future_poll, future_cancel, future_free, future_complete, checksum, contract_version,
}
use iroh_react_native_bridge.Methods.{
  fn_func_bridge_version, fn_func_close, fn_func_connect, fn_func_connect_target,
  fn_func_dial_diagnostics, fn_func_echo_roundtrip, fn_func_is_running, fn_func_is_stream_open,
  fn_func_next_message, fn_func_node_id, fn_func_send, fn_func_start, fn_func_stop,
  fn_func_start_tcp_forwarder, fn_func_stop_tcp_forwarder, fn_func_tcp_forwarder_stats,
}
use iroh_react_native_bridge.Methods.SmallFutures.{
  rust_future_poll_u8, rust_future_poll_i8, rust_future_poll_u16, rust_future_poll_i16,
  rust_future_cancel_u8, rust_future_cancel_i8, rust_future_cancel_u16, rust_future_cancel_i16,
  rust_future_free_u8, rust_future_free_i8, rust_future_free_u16, rust_future_free_i16,
  rust_future_complete_u8, rust_future_complete_i8, rust_future_complete_u16,
  rust_future_complete_i16,
}
use iroh_react_native_bridge.Methods.WideFutures.{
  rust_future_poll_u32, rust_future_poll_i32, rust_future_poll_u64, rust_future_poll_i64,
  rust_future_cancel_u32, rust_future_cancel_i32, rust_future_cancel_u64, rust_future_cancel_i64,
  rust_future_free_u32, rust_future_free_i32, rust_future_free_u64, rust_future_free_i64,
  rust_future_complete_u32, rust_future_complete_i32, rust_future_complete_u64,
  rust_future_complete_i64,
}
use iroh_react_native_bridge.Methods.OtherFutures.{
  rust_future_poll_f32, rust_future_poll_f64, rust_future_poll_rust_buffer, rust_future_poll_void,
  rust_future_cancel_f32, rust_future_cancel_f64, rust_future_cancel_rust_buffer,
  rust_future_cancel_void, rust_future_free_f32, rust_future_free_f64, rust_future_free_rust_buffer,
  rust_future_free_void, rust_future_complete_f32, rust_future_complete_f64,
  rust_future_complete_rust_buffer, rust_future_complete_void,
}
use iroh_react_native_bridge.Methods.Declarations.{func_declaration, declaration, declared_call}
use iroh_react_native_bridge.HostObject.{Method, function, construct, get, invoke, invoke_func}
use iroh_react_native_bridge.HostObject.Symbols.{
  property_name, method_of, property_name-method_of, arity-method_of,
}
use iroh_react_native_bridge.HostObject.Laws.{get-js_name}

module _ (p : Platform) (rt : ℕ) where
  invoke_func-declared :
      (f : Func) → invoke_func p rt f ≡ declared_call p (fn_func f) (func_declaration f) rt
  unfolding func_declaration fn_func_bridge_version fn_func_close fn_func_connect
      fn_func_connect_target fn_func_dial_diagnostics fn_func_echo_roundtrip fn_func_is_running
      fn_func_is_stream_open fn_func_next_message fn_func_node_id fn_func_send fn_func_start
      fn_func_stop fn_func_start_tcp_forwarder fn_func_stop_tcp_forwarder
      fn_func_tcp_forwarder_stats
  invoke_func-declared bridge_version = refl
  invoke_func-declared _ = refl

  future_poll-declared :
      (t : FfiType)
      → future_poll p rt t
        ≡ declared_call p (rust_future_poll t) (declaration (rust_future_poll t)) rt
  unfolding declaration future_poll rust_future_poll_u8 rust_future_poll_i8 rust_future_poll_u16
      rust_future_poll_i16 rust_future_poll_u32 rust_future_poll_i32 rust_future_poll_u64
      rust_future_poll_i64 rust_future_poll_f32 rust_future_poll_f64 rust_future_poll_rust_buffer
      rust_future_poll_void
  future_poll-declared u8 = refl
  future_poll-declared _ = refl

  future_cancel-declared :
      (t : FfiType)
      → future_cancel p rt t
        ≡ declared_call p (rust_future_cancel t) (declaration (rust_future_cancel t)) rt
  unfolding declaration future_cancel rust_future_cancel_u8 rust_future_cancel_i8
      rust_future_cancel_u16 rust_future_cancel_i16 rust_future_cancel_u32 rust_future_cancel_i32
      rust_future_cancel_u64 rust_future_cancel_i64 rust_future_cancel_f32 rust_future_cancel_f64
      rust_future_cancel_rust_buffer rust_future_cancel_void
  future_cancel-declared u8 = refl
  future_cancel-declared _ = refl

  future_free-declared :
      (t : FfiType)
      → future_free p rt t
        ≡ declared_call p (rust_future_free t) (declaration (rust_future_free t)) rt
  unfolding declaration future_free rust_future_free_u8 rust_future_free_i8 rust_future_free_u16
      rust_future_free_i16 rust_future_free_u32 rust_future_free_i32 rust_future_free_u64
      rust_future_free_i64 rust_future_free_f32 rust_future_free_f64 rust_future_free_rust_buffer
      rust_future_free_void
  future_free-declared u8 = refl
  future_free-declared _ = refl

  future_complete-declared :
      (t : FfiType)
      → future_complete p rt t
        ≡ declared_call p (rust_future_complete t) (declaration (rust_future_complete t)) rt
  unfolding declaration future_complete rust_future_complete_u8 rust_future_complete_i8
      rust_future_complete_u16 rust_future_complete_i16 rust_future_complete_u32
      rust_future_complete_i32 rust_future_complete_u64 rust_future_complete_i64
      rust_future_complete_f32 rust_future_complete_f64 rust_future_complete_rust_buffer
      rust_future_complete_void
  future_complete-declared u8 = refl
  future_complete-declared _ = refl

  -- Each method makes the call that the declaration of its C function asks for.
  pub invoke-declared :
      (s : Symbol) → invoke p rt (method_of s) ≡ declared_call p s (declaration s) rt
  unfolding declaration checksum contract_version
  invoke-declared (fn_func f) = invoke_func-declared f
  invoke-declared (rust_future_poll t) = future_poll-declared t
  invoke-declared (rust_future_cancel t) = future_cancel-declared t
  invoke-declared (rust_future_free t) = future_free-declared t
  invoke-declared (rust_future_complete t) = future_complete-declared t
  invoke-declared (checksum_func f) = refl
  invoke-declared uniffi_contract_version = refl

  -- For every C function that the crate exports to JavaScript, the host object has a function under
  -- the C name prefixed with `ubrn_`, whose parameter count is the number of the C function's
  -- parameters, the status aside, and calling it makes the call that the C declaration asks for:
  -- that C function, with each argument lowered at its declared type, a status if it is declared
  -- with one, and the result lifted from its declared type.
  pub get-declared :
      (s : Symbol)
      → (m : Method) × (get p (construct p) (property_name s)
          ≡ function (length (declaration s).params) m)
        × (invoke p rt m ≡ declared_call p s (declaration s) rt)
  get-declared s = (
    method_of s,
    ap (get p (construct p)) (property_name-method_of s)
        ∙ get-js_name p (method_of s)
        ∙ ap (λ n. function n (method_of s)) (arity-method_of s),
    invoke-declared s,
  )
