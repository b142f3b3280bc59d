-- ===== src/ForeignFuture/Completion.antt =====
-- What Rust is told when JavaScript drops a future.
use iroh_react_native_bridge.Base.{
  ℕ, ◌≡◌, refl, List, [], ◌∷◌, ◌++◌, returned, some, none, inr, true, arith,
}
use iroh_react_native_bridge.Platform.{Platform, object, u64, foreign_future_dropped_callback}
use iroh_react_native_bridge.World.{World}
use iroh_react_native_bridge.Callback.{callback, make_callback_function, install}
use iroh_react_native_bridge.ForeignFuture.{dropped_from_js}

module _ (p : Platform) (rt : ℕ) where
  -- The first dropped-callback struct of a runtime fixes the `free` function: Rust's later call for
  -- any handle, also that of a second struct with a `free` of its own, is one job for the first
  -- struct's function on the runtime of the first struct.
  pub dropped_from_js_first_free :
      (first second f : p.Object) (later : ℕ) (a b : ℕ) (arguments : List ℕ) (w : World p)
      → w.dropped ≡ none
      → p.scalar_from_js u64 (p.get_property w.state first "handle") ≡ inr a
      → p.scalar_from_js u64 (p.get_property w.state second "handle") ≡ inr b
      → p.get_property w.state first "free" ≡ object f
      → p.is_function w.state f ≡ true
      → (w' : World p) × (dropped_from_js p rt (object first) w
          ≡ returned (record { handle = a; free = foreign_future_dropped_callback }) w')
        × (dropped_from_js p later (object second) w'
            ≡ returned (record { handle = b; free = foreign_future_dropped_callback }) w')
        × ((callback p foreign_future_dropped_callback arguments w').jobs
            ≡ w.jobs ++ record { runtime = rt; function = object f; arguments = arguments } ∷ [])
  unfolding dropped_from_js make_callback_function install callback
  dropped_from_js_first_free first second f later a b arguments w unset ha hb hf fn = (
    record w { dropped = some (record { runtime = rt; function = object f }) },
    ground arith,
    ground arith,
    refl,
  )
