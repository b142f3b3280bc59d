-- ===== src/Callback/Dropped.antt =====
-- The namespace cb::foreignfuturedroppedcallback
-- (react-native/cpp/generated/iroh_mobile_bridge.cpp, lines 803 to 904), an instance of the
-- template of Callback.
use iroh_react_native_bridge.Base.{ℕ, [], ◌∷◌}
use iroh_react_native_bridge.Platform.{Platform, CallbackPointer, foreign_future_dropped_callback}
use iroh_react_native_bridge.World.{World, Js, M}
use iroh_react_native_bridge.Callback.{body, callback, make_callback_function, cleanup}

module _ (p : Platform) where
  unfoldable pub dropped_body : Js p → ℕ → M p (Unit {0})
  dropped_body callback_value rs_handle =
      body p foreign_future_dropped_callback callback_value (rs_handle ∷ [])

  unfoldable pub dropped_callback : ℕ → World p → World p
  dropped_callback rs_handle = callback p foreign_future_dropped_callback (rs_handle ∷ [])

  unfoldable pub make_dropped_callback_function : ℕ → Js p → M p CallbackPointer
  make_dropped_callback_function = make_callback_function p foreign_future_dropped_callback

  unfoldable pub dropped_cleanup : World p → World p
  dropped_cleanup = cleanup p foreign_future_dropped_callback
