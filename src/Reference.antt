-- ===== src/Reference.antt =====
-- Bridging<ReferenceHolder<T>> (react-native/cpp/generated/iroh_mobile_bridge.cpp, lines 442 to
-- 456): an out-parameter as a JavaScript object.
use iroh_react_native_bridge.Base.{if◌then◌else◌, ◌>>=◌, pure, throw, gets}
use iroh_react_native_bridge.Platform.{Platform, object}
use iroh_react_native_bridge.World.{Js, M, run, as_object}

module _ (p : Platform) where
  unfoldable pub js_new : M p (Js p)
  js_new = do holder ← run p p.new_object; pure (object holder)

  -- `fromJs`, for the `fromJs` of the type held.
  unfoldable pub pointee_from_js : {A : Type 0} → (Js p → M p A) → Js p → M p A
  pointee_from_js convert value = do
    obj ← as_object p value
    present ← gets (λ w. p.has_property w.state obj "pointee")
    pointee ← gets (λ w. p.get_property w.state obj "pointee")
    if present
        then convert pointee
        else throw
            "Expected ReferenceHolder to have a pointee property. This is likely a bug in uniffi-bindgen-react-native"
