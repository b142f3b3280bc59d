-- ===== src/Callback.antt =====
-- The two callbacks from Rust into JavaScript: the namespaces cb::rustfuturecontinuationcallback
-- and cb::foreignfuturedroppedcallback of react-native/cpp/generated/iroh_mobile_bridge.cpp. They
-- differ in the arguments alone, so each function here takes the callback that it belongs to.
pub mod Lifecycle
pub mod Registration
pub mod Dropped
use iroh_react_native_bridge.Base.{
  ℕ, String, Bool, List, [], ◌∷◌, ◌++◌, if◌then◌else◌, ◌>>=◌, ◌>>◌, pure, gets, modify, Option,
  none, some, returned, throws, ◌⊎◌, inl, inr,
}
use iroh_react_native_bridge.Platform.{
  Platform, Value, object, FfiType, u64, i8, CallbackPointer, rust_future_continuation_callback,
  foreign_future_dropped_callback,
}
use iroh_react_native_bridge.World.{World, Lambda, Job, Js, M, as_object, as_function}

module _ (p : Platform) where
  -- `rsLambda` of each namespace
  abbrev pub rs_lambda : CallbackPointer → World p → Option (Lambda p)
  rs_lambda rust_future_continuation_callback w = w.continuation
  rs_lambda foreign_future_dropped_callback w = w.dropped

  abbrev pub set_rs_lambda : CallbackPointer → Option (Lambda p) → World p → World p
  set_rs_lambda rust_future_continuation_callback l w = record w { continuation = l }
  set_rs_lambda foreign_future_dropped_callback l w = record w { dropped = l }

  -- The types of the arguments that Rust passes.
  abbrev pub argument_types : CallbackPointer → List FfiType
  argument_types rust_future_continuation_callback = u64 ∷ i8 ∷ []
  argument_types foreign_future_dropped_callback = u64 ∷ []

  abbrev pub to_js_arguments : List FfiType → List ℕ → List (Js p)
  to_js_arguments [] _ = []
  to_js_arguments (t ∷ ts) [] = []
  to_js_arguments (t ∷ ts) (n ∷ ns) = p.scalar_to_js t n ∷ to_js_arguments ts ns

  -- jsi::Function::call
  abbrev pub call : p.Object → List (Js p) → M p (Js p)
  call f arguments w =
      let (r, s) = p.call_function w.state f arguments in
      elim r [
        | inl e ↦ throws e (record w { state = s })
        | inr v ↦ returned v (record w { state = s })
      ]

  -- `body`, which the CallInvoker runs on the JavaScript thread. The handler prints a JSError and
  -- throws it again.
  unfoldable pub body : CallbackPointer → Js p → List ℕ → M p (Unit {0})
  body cb callback_value arguments = do
    o ← as_object p callback_value
    f ← as_function p o
    _ ← call f (to_js_arguments (argument_types cb) arguments)
    pure tt

  -- `callback`, whose address Rust holds.
  unfoldable pub callback : CallbackPointer → List ℕ → World p → World p
  callback cb arguments w = elim (rs_lambda cb w) [
    | none ↦ w
    | some l ↦ record w {
      jobs =
          w.jobs
          ++ record { runtime = l.runtime; function = l.function; arguments = arguments } ∷ [];
    }
  ]

  -- The part of `makeCallbackFunction` that runs where `rsLambda` is null.
  unfoldable pub install : CallbackPointer → ℕ → Js p → M p CallbackPointer
  install cb rt value = do
    o ← as_object p value
    f ← as_function p o
    modify (set_rs_lambda cb (some (record { runtime = rt; function = object f })))
    pure cb

  unfoldable pub make_callback_function : CallbackPointer → ℕ → Js p → M p CallbackPointer
  unfolding install
  make_callback_function cb rt value w = elim (rs_lambda cb w) [
    | some l ↦ returned cb w
    | none ↦ install cb rt value w
  ]

  unfoldable pub cleanup : CallbackPointer → World p → World p
  cleanup cb w = set_rs_lambda cb none w

  -- ~NativeIrohMobileBridge
  unfoldable pub destroy_module : World p → World p
  unfolding cleanup
  destroy_module w =
      cleanup foreign_future_dropped_callback (cleanup rust_future_continuation_callback w)
