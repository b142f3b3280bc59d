-- ===== src/Status.antt =====
-- Bridging<RustCallStatus> (react-native/cpp/generated/iroh_mobile_bridge.cpp): the status that
-- each call into Rust fills in, and its JavaScript twin.
pub mod Errors
use iroh_react_native_bridge.Base.{
  ℕ, ◌-◌, String, Bool, true, false, not, List, [], ◌∷◌, if◌then◌else◌, ◌==◌, length, ◌>>=◌, ◌>>◌,
  pure, gets,
}
use iroh_react_native_bridge.Platform.{
  Platform, Value, object, RustBuffer, RustCallStatus, FfiType, u8,
}
use iroh_react_native_bridge.World.{World, Js, M, run, ask, as_object}
use iroh_react_native_bridge.Buffer
use iroh_react_native_bridge.Buffer.{rustbuffer_free}

-- UNIFFI_CALL_STATUS_OK
abbrev pub call_status_ok : ℕ
call_status_ok = 0

-- `{UNIFFI_CALL_STATUS_OK}`: the members not named are zero.
abbrev pub rust_success : RustCallStatus
rust_success = record {
  code = call_status_ok;
  error_buf = record { capacity = 0; len = 0; data_ptr = 0 };
}

module _ (p : Platform) where
  open p use {State, Object, Double}

  unfoldable pub set_property : Object → String → Js p → M p (Unit {0})
  set_property o key v = run p (λ s. (tt, p.set_property s o key v))

  unfoldable pub js_success : M p (Js p)
  unfolding set_property
  js_success = do
    status_object ← run p p.new_object
    set_property status_object "code" (p.scalar_to_js u8 call_status_ok)
    pure (object status_object)

  -- The error's bytes are copied into an array made with `new`, and the Rust buffer is freed.
  unfoldable pub copy_error : Object → RustBuffer → M p (Unit {0})
  unfolding set_property rustbuffer_free
  copy_error status_object error_buf = if error_buf.data_ptr == 0 then pure tt else do
    bytes ← run p (λ s. p.new_copy s error_buf.data_ptr error_buf.len)
    view ← run p (λ s. p.uint8_array s bytes error_buf.len)
    set_property status_object "errorBuf" (object view)
    rustbuffer_free p error_buf

  unfoldable pub copy_code : Object → ℕ → M p (Unit {0})
  unfolding set_property
  copy_code status_object code =
      if code == call_status_ok
      then pure tt
      else set_property status_object "code" (p.scalar_to_js u8 code)

  unfoldable pub copy_into_js : RustCallStatus → Js p → M p (Unit {0})
  unfolding copy_error copy_code
  copy_into_js status js_status = do
    status_object ← as_object p js_status
    copy_error status_object status.error_buf
    copy_code status_object status.code

  -- The two members that a status object may have; one that it lacks leaves the status's own.
  unfoldable pub read_error : Object → RustBuffer → M p RustBuffer
  read_error status_object old = do
    present ← gets (λ w. p.has_property w.state status_object "errorBuf")
    rbuf ← gets (λ w. p.get_property w.state status_object "errorBuf")
    if present then Buffer.from_js p rbuf else pure old

  unfoldable pub read_code : Object → ℕ → M p ℕ
  read_code status_object old = do
    present ← gets (λ w. p.has_property w.state status_object "code")
    code ← gets (λ w. p.get_property w.state status_object "code")
    if present then ask p (λ s. p.scalar_from_js u8 code) else pure old

  -- `*status` after the call.
  unfoldable pub copy_from_js : Js p → RustCallStatus → M p RustCallStatus
  unfolding read_error read_code
  copy_from_js js_status status = do
    status_object ← as_object p js_status
    error_buf ← read_error status_object status.error_buf
    code ← read_code status_object status.code
    pure (record { code = code; error_buf = error_buf })

  -- `RustCallStatus status;` has indeterminate members until they are assigned: they are an
  -- argument.
  unfoldable pub from_js : RustCallStatus → Js p → M p RustCallStatus
  unfolding read_error read_code
  from_js indeterminate js_status = do
    status_object ← as_object p js_status
    error_buf ← read_error status_object indeterminate.error_buf
    code ← read_code status_object indeterminate.code
    pure (record { code = code; error_buf = error_buf })
