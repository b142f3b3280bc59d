-- ===== src/Callback/Registration.antt =====
-- What a registered callback does, and what a second registration does not.
use iroh_react_native_bridge.Base.{
  ℕ, ◌≡◌, refl, true, List, [], ◌∷◌, ◌++◌, none, some, returned, arith,
}
use iroh_react_native_bridge.Platform.{
  Platform, object, CallbackPointer, rust_future_continuation_callback,
  foreign_future_dropped_callback,
}
use iroh_react_native_bridge.World.{World, Lambda, Js}
use iroh_react_native_bridge.Callback.{
  rs_lambda, make_callback_function, install, callback, destroy_module,
}

module _ (p : Platform) where
  -- With nothing registered, a function that runtime `rt` passes is what Rust's next call reaches:
  -- exactly one job, on that runtime, with that function and the arguments of the call, is handed
  -- to the CallInvoker.
  pub make_callback_function-callback :
      (cb : CallbackPointer) (rt : ℕ) (f : p.Object) (arguments : List ℕ) (w : World p)
      → rs_lambda p cb w ≡ none
      → p.is_function w.state f ≡ true
      → (w' : World p) × (make_callback_function p cb rt (object f) w ≡ returned cb w')
        × ((callback p cb arguments w').jobs
            ≡ w.jobs ++ record { runtime = rt; function = object f; arguments = arguments } ∷ [])
  unfolding make_callback_function install callback
  make_callback_function-callback rust_future_continuation_callback rt f arguments w unset fn = (
    record w { continuation = some (record { runtime = rt; function = object f }) },
    ground arith,
    ground arith,
  )
  make_callback_function-callback foreign_future_dropped_callback rt f arguments w unset fn = (
    record w { dropped = some (record { runtime = rt; function = object f }) },
    ground arith,
    ground arith,
  )

  -- While a callback is registered, `makeCallbackFunction` accepts any value from any runtime
  -- without looking at it, and Rust's calls go on to the registered function on its own runtime.
  pub make_callback_function_first :
      (cb : CallbackPointer) (rt : ℕ) (value : Js p) (arguments : List ℕ) (l : Lambda p)
      (w : World p)
      → rs_lambda p cb w ≡ some l
      → (make_callback_function p cb rt value w ≡ returned cb w)
        × ((callback p cb arguments w).jobs
            ≡ w.jobs
              ++ record { runtime = l.runtime; function = l.function; arguments = arguments } ∷ [])
  unfolding make_callback_function callback
  make_callback_function_first cb rt value arguments l w h = (ground arith, ground arith)

  -- Two runtimes that overlap: `new` registers its continuation while `old` is registered, and then
  -- the module of `old` is destroyed. The registration of `new` is accepted, but from then on a
  -- call back from Rust reaches nobody.
  pub overlap_loses_calls :
      (cb : CallbackPointer) (old new : ℕ) (f g : p.Object) (arguments : List ℕ) (w : World p)
      → rs_lambda p cb w ≡ none
      → p.is_function w.state f ≡ true
      → (w' : World p) × (make_callback_function p cb old (object f) w ≡ returned cb w')
        × (make_callback_function p cb new (object g) w' ≡ returned cb w')
        × (callback p cb arguments (destroy_module p w') ≡ destroy_module p w')
        × ((destroy_module p w').jobs ≡ w.jobs)
  unfolding make_callback_function install callback destroy_module
  overlap_loses_calls rust_future_continuation_callback old new f g arguments w unset fn = (
    record w { continuation = some (record { runtime = old; function = object f }) },
    ground arith,
    refl,
    refl,
    refl,
  )
  overlap_loses_calls foreign_future_dropped_callback old new f g arguments w unset fn = (
    record w { dropped = some (record { runtime = old; function = object f }) },
    ground arith,
    refl,
    refl,
    refl,
  )
