-- ===== src/Call/Outcomes.antt =====
-- What JavaScript sees of a call into Rust: a failure, and a call that throws before Rust is reached.
use iroh_react_native_bridge.Base.{
  ℕ, ◌≡◌, ◌≢◌, ◌∙◌, ap, String, List, [], ◌∷◌, length, returned, throws, if◌then◌else◌, ◌==◌, some,
  none, inl, inr, arith, get_elem?, ◌-◌, ◌<◌, ◌^◌,
}
use iroh_react_native_bridge.Platform.{
  Platform, object, FfiType, u8, rust_buffer, FfiValue, Symbol, RustCallStatus, RustBuffer,
  ForeignBytes,
}
use iroh_react_native_bridge.Platform.Laws.{Laws}
use iroh_react_native_bridge.World.{World, Js, arg-returned}
use iroh_react_native_bridge.Buffer
use iroh_react_native_bridge.Buffer.{to_int32}
use iroh_react_native_bridge.Status.{call_status_ok, rust_success, copy_into_js}
use iroh_react_native_bridge.Status.Errors.{copy_into_js_failed}
use iroh_react_native_bridge.Call.{Param, value, lower, lower_args, rust_call, last_arg, lift}

module _ (p : Platform) where
  last_arg-returned :
      (args : List (Js p)) (w : World p) {v : Js p}
      → get_elem? args (length args - 1) ≡ some v
      → last_arg p args w ≡ returned v w
  unfolding last_arg
  last_arg-returned [] w h = absurd (ground arith)
  last_arg-returned (a ∷ args) w h =
      arg-returned p (a ∷ args) (length args) w (ap (get_elem? (a ∷ args)) (omega arith) ∙ h)

module _ (p : Platform) (symbol : Symbol) (params : List Param) (rt : ℕ) (args : List (Js p))
    (o : p.Object) (w w1 : World p) (values : List FfiValue) (result : FfiValue)
    (status : RustCallStatus) (s : p.State)
    (lowered : lower_args p rt params args 0 w ≡ returned values w1)
    (called : p.ffi_call symbol values rust_success w1.state ≡ (result, status, s))
    (last : get_elem? args (length args - 1) ≡ some (object o)) where
  abbrev after : World p
  after = record w1 { state = s }

  rust_call-copy :
      (ret : FfiType) {w2 : World p}
      → copy_into_js p status (object o) after ≡ returned tt w2
      → rust_call p symbol params ret rt args w ≡ lift p ret result w2
  unfolding rust_call
  rust_call-copy ret copied = ground (arith, last_arg-returned p args after last)

  -- A call that Rust reports as failed, with a live error buffer, puts the code and the error's
  -- bytes on the JavaScript status object and frees that buffer and no other, and then has the
  -- outcome of lifting Rust's result.
  pub rust_call_fails :
      (laws : Laws p) (ret : FfiType)
      → status.code ≢ call_status_ok
      → status.error_buf.data_ptr ≢ 0
      → laws.live s status.error_buf.data_ptr ≡ some status.error_buf.capacity
      → (w2 : World p) × (rust_call p symbol params ret rt args w ≡ lift p ret result w2)
        × (p.get_property w2.state o "code" ≡ p.scalar_to_js u8 status.code)
        × ((copied : ℕ) × (p.value_to_arraybuffer w2.state (p.get_property w2.state o "errorBuf")
              ≡ inr (copied, status.error_buf.len))
            × (laws.array w2.state copied
                ≡ some (laws.memory s status.error_buf.data_ptr status.error_buf.len)))
        × ((a : ℕ)
            → laws.live w2.state a
              ≡ (if status.error_buf.data_ptr == a then none else laws.live s a))
  rust_call_fails laws ret failed here owned =
      let (w2, e, code, error, bytes, freed) =
        copy_into_js_failed p laws o after status failed here owned in
      (w2, rust_call-copy ret e, code, (_, error, bytes), freed)

module _ (p : Platform) (laws : Laws p) (symbol : Symbol) (rt : ℕ) where
  -- Arguments are lowered from left to right. Where the first one's buffer has been copied for Rust
  -- and the second one does not convert, the method throws and Rust is never called: the copy of
  -- the first argument, which was not allocated before, still is then. It is so for every method
  -- whose first two parameters are buffers. The first argument has at least one byte and less than
  -- 2^31, and its bytes are not at null.
  pub rust_call_leaks :
      (view : p.Object) (second : Js p) (rest : List (Js p)) (params : List Param) (ret : FfiType)
      (w : World p) (address n : ℕ) (e : String)
      → address ≢ 0
      → 0 < n
      → n < 2 ^ 31
      → p.value_to_arraybuffer w.state (object view) ≡ inr (address, n)
      → ((s : p.State) → p.value_to_arraybuffer s second ≡ inl e)
      → (leaked : RustBuffer) × (w' : World p) × (rust_call p symbol
            (value rust_buffer ∷ value rust_buffer ∷ params)
            ret
            rt
            (object view ∷ second ∷ rest)
            w
          ≡ throws e w')
        × (laws.live w.state leaked.data_ptr ≡ none)
        × (laws.live w'.state leaked.data_ptr ≡ some leaked.capacity)
  unfolding rust_call lower_args lower Buffer.from_js
  rust_call_leaks view second rest params ret w address n e here some_bytes small seen bad = (
    made.0,
    record w { state = made.1 },
    ground (arith, bad made.1),
    laws.from_bytes_fresh w.state bytes here some_copied small_copied,
    ground
        (arith, laws.live-from_bytes w.state bytes here some_copied small_copied made.0.data_ptr),
  )
    where
      bytes : ForeignBytes
      bytes = record { len = to_int32 n; data_ptr = address }

      some_copied : 0 < to_int32 n
      some_copied = omega arith

      small_copied : to_int32 n < 2 ^ 31
      small_copied = omega arith

      made : RustBuffer × p.State
      made = p.ffi_rustbuffer_from_bytes bytes w.state
