-- ===== src/Status/Errors.antt =====
-- What JavaScript sees of a Rust call's status, and what reading a status object back gives.
use iroh_react_native_bridge.Base.{
  ℕ, ◌≡◌, refl, ◌≢◌, ◌∙◌, ap, true, false, if◌then◌else◌, ◌==◌, returned, some, none, inr, arith,
  Sum-cases, inl,
}
use iroh_react_native_bridge.Platform.{Platform, object, RustCallStatus, ForeignBytes, u8}
use iroh_react_native_bridge.Buffer
use iroh_react_native_bridge.Buffer.{to_int32}
use iroh_react_native_bridge.Platform.Laws.{Laws}
use iroh_react_native_bridge.World.{World}
use iroh_react_native_bridge.Status.{call_status_ok, rust_success, copy_into_js, from_js}

module _ (p : Platform) (o : p.Object) (w : World p) where
  -- A successful status leaves the JavaScript status object, and everything else, as it was.
  pub copy_into_js-rust_success : copy_into_js p rust_success (object o) w ≡ returned tt w
  unfolding copy_into_js
  copy_into_js-rust_success = refl

module _ (p : Platform) (laws : Laws p) (o : p.Object) (w : World p) where
  module _ (status : RustCallStatus) where
    abbrev copy : ℕ × p.State
    copy = p.new_copy w.state status.error_buf.data_ptr status.error_buf.len

    abbrev view : p.Object × p.State
    view = p.uint8_array copy.1 copy.0 status.error_buf.len

    abbrev told : p.State
    told =
        p.ffi_rustbuffer_free status.error_buf (p.set_property view.1 o "errorBuf" (object view.0))

    abbrev reported : p.State
    reported = p.set_property told o "code" (p.scalar_to_js u8 status.code)

    copy_into_js_returns :
        status.code ≢ call_status_ok
        → status.error_buf.data_ptr ≢ 0
        → copy_into_js p status (object o) w ≡ returned tt (record w { state = reported })
    unfolding copy_into_js
    copy_into_js_returns failed here = ground arith

    live-view : laws.live (p.set_property view.1 o "errorBuf" (object view.0)) ≡ laws.live w.state
    live-view = laws.live-set _ _ _ _ ∙ laws.live-view _ _ _ ∙ laws.live-copy _ _ _

    array-view :
        laws.array (p.set_property view.1 o "errorBuf" (object view.0)) copy.0
        ≡ some (laws.memory w.state status.error_buf.data_ptr status.error_buf.len)
    array-view =
        ap (λ f. f copy.0) (laws.array-set _ _ _ _ ∙ laws.array-view _ _ _) ∙ laws.array-copy _ _ _

    -- A failed call with an error buffer leaves its code and its error's bytes on the JavaScript
    -- status object: `code` is the code, `errorBuf` a view of an array with the buffer's bytes, and
    -- the Rust error buffer, live before, is freed and no other allocation changes.
    pub copy_into_js_failed :
        status.code ≢ call_status_ok
        → status.error_buf.data_ptr ≢ 0
        → laws.live w.state status.error_buf.data_ptr ≡ some status.error_buf.capacity
        → (w' : World p) × (copy_into_js p status (object o) w ≡ returned tt w')
          × (p.get_property w'.state o "code" ≡ p.scalar_to_js u8 status.code)
          × (p.value_to_arraybuffer w'.state (p.get_property w'.state o "errorBuf")
              ≡ inr (copy.0, status.error_buf.len))
          × (laws.array w'.state copy.0
              ≡ some (laws.memory w.state status.error_buf.data_ptr status.error_buf.len))
          × ((a : ℕ)
              → laws.live w'.state a
                ≡ (if status.error_buf.data_ptr == a then none else laws.live w.state a))
    copy_into_js_failed failed here owned = (
      record w { state = reported },
      copy_into_js_returns failed here,
      laws.get-set _ _ _ _ _,
      ap (p.value_to_arraybuffer reported) seen
          ∙ laws.bytes-set _ _ _ _ _
          ∙ laws.bytes-free _ _ _
          ∙ laws.bytes-set _ _ _ _ _
          ∙ laws.view_bytes _ _ _,
      ap (λ f. f copy.0) (laws.array-set _ _ _ _ ∙ laws.array-free _ _) ∙ array-view,
      λ a.
          ap (λ f. f a) (laws.live-set _ _ _ _)
          ∙ laws.live-free _ status.error_buf
              (ap (λ f. f status.error_buf.data_ptr) live-view ∙ owned) a
          ∙ rw live-view refl,
    )
      where
        seen : p.get_property reported o "errorBuf" ≡ object view.0
        seen = laws.get-set _ _ _ _ _ ∙ laws.get-free _ _ _ _ ∙ laws.get-set _ _ _ _ _

module _ (p : Platform) (o : p.Object) (w : World p) where
  -- A status object with neither member gives whatever the uninitialised struct held: any status at
  -- all is a possible result of `fromJs`.
  pub from_js_indeterminate :
      (status : RustCallStatus)
      → p.has_property w.state o "errorBuf" ≡ false
      → p.has_property w.state o "code" ≡ false
      → from_js p status (object o) w ≡ returned status w
  unfolding from_js
  from_js_indeterminate status no_buf no_code = ground arith

  -- A status object with both members is read the same whatever the uninitialised struct held, if
  -- lowering its error buffer does not take the `code` member away.
  pub from_js_determined :
      (one other : RustCallStatus)
      → p.has_property w.state o "errorBuf" ≡ true
      → ((b : ForeignBytes)
          → p.has_property (p.ffi_rustbuffer_from_bytes b w.state).1 o "code" ≡ true)
      → from_js p one (object o) w ≡ from_js p other (object o) w
  unfolding from_js Buffer.from_js
  from_js_determined one other buf code =
      elim (Sum-cases (p.value_to_arraybuffer w.state (p.get_property w.state o "errorBuf"))) [
        | inl (e, h) ↦ ground arith
        | inr (b, h) ↦ ground (arith, code (record { len = to_int32 b.1; data_ptr = b.0 }))
      ]
