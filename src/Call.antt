-- ===== src/Call.antt =====
-- The shape of the generated methods of NativeIrohMobileBridge that call into Rust
-- (react-native/cpp/generated/iroh_mobile_bridge.cpp, from line 2675 on): arguments are lowered in
-- order, Rust is called, its status is copied to the last argument, and the result is lifted.
pub mod Arguments
pub mod Outcomes
use iroh_react_native_bridge.Base.{
  ℕ, ◌+◌, ◌-◌, String, List, [], ◌∷◌, length, ◌>>=◌, ◌>>◌, pure, undefined_behaviour,
}
use iroh_react_native_bridge.Platform.{
  Platform, Value, undefined, FfiType, u8, i8, u16, i16, u32, i32, u64, i64, f32, f64, rust_buffer,
  void, FfiValue, nothing, scalar, buffer, callback, Symbol, RustCallStatus,
  rust_future_continuation_callback,
}
use iroh_react_native_bridge.World.{World, Js, M, run, ask, arg}
use iroh_react_native_bridge.Buffer
use iroh_react_native_bridge.Status.{rust_success, copy_into_js}
use iroh_react_native_bridge.Callback.{make_callback_function}

-- How a method converts an argument: Bridging<T>::fromJs at a value type, or at
-- UniffiRustFutureContinuationCallback.
pub data Param : Type 0 where
  value : FfiType → Param
  continuation : Param

module _ (p : Platform) where
  -- `rt` is the runtime that the method runs in. No method takes an argument of type void.
  unfoldable pub lower : ℕ → Param → Js p → M p FfiValue
  lower rt continuation v = do
    cb ← make_callback_function p rust_future_continuation_callback rt v
    pure (callback cb)
  lower rt (value rust_buffer) v = do buf ← Buffer.from_js p v; pure (buffer buf)
  lower rt (value void) v = undefined_behaviour
  lower rt (value t) v = do n ← ask p (λ s. p.scalar_from_js t v); pure (scalar n)

  -- The C++ compilers in use evaluate the arguments from left to right.
  unfoldable pub lower_args : ℕ → List Param → List (Js p) → ℕ → M p (List FfiValue)
  lower_args rt [] args i = pure []
  lower_args rt (t ∷ ts) args i = do
    v ← arg p args i
    x ← lower rt t v
    xs ← lower_args rt ts args (i + 1)
    pure (x ∷ xs)

  -- A value of another C type than the declared one cannot occur.
  unfoldable pub lift : FfiType → FfiValue → M p (Js p)
  lift void x = pure undefined
  lift rust_buffer (buffer buf) = Buffer.to_js p buf
  lift rust_buffer _ = undefined_behaviour
  lift t (scalar n) = pure (p.scalar_to_js t n)
  lift t _ = undefined_behaviour

  -- `args[count - 1]`; with no argument that is a read far past the array.
  unfoldable pub last_arg : List (Js p) → M p (Js p)
  last_arg [] = undefined_behaviour
  last_arg (v ∷ args) = arg p (v ∷ args) (length args)

  -- A method whose C function has a status parameter.
  unfoldable pub rust_call : Symbol → List Param → FfiType → ℕ → List (Js p) → M p (Js p)
  rust_call symbol params ret rt args = do
    values ← lower_args rt params args 0
    (result, status) ←
        run p (λ s. let (r, st, s') = p.ffi_call symbol values rust_success s in ((r, st), s'))
    js_status ← last_arg args
    copy_into_js p status js_status
    lift ret result

  -- A method whose C function has none.
  unfoldable pub plain_call : Symbol → List Param → FfiType → ℕ → List (Js p) → M p (Js p)
  plain_call symbol params ret rt args = do
    values ← lower_args rt params args 0
    result ← run p (λ s. let (r, st, s') = p.ffi_call symbol values rust_success s in (r, s'))
    lift ret result
