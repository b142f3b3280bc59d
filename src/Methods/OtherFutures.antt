-- ===== src/Methods/OtherFutures.antt =====
-- The methods of NativeIrohMobileBridge for Rust futures of the types f32, f64, rust_buffer, void
-- (react-native/cpp/generated/iroh_mobile_bridge.cpp, lines 3077 to 3200).
use iroh_react_native_bridge.Base.{ℕ, List, [], ◌∷◌}
use iroh_react_native_bridge.Platform.{
  Platform, f32, f64, rust_buffer, u64, void, rust_future_poll, rust_future_cancel,
  rust_future_free, rust_future_complete,
}
use iroh_react_native_bridge.World.{Js, M}
use iroh_react_native_bridge.Call.{value, continuation, rust_call, plain_call}

module _ (p : Platform) (rt : ℕ) where
  unfoldable pub rust_future_poll_f32 : List (Js p) → M p (Js p)
  rust_future_poll_f32 =
      plain_call p (rust_future_poll f32) (value u64 ∷ continuation ∷ value u64 ∷ []) void rt

  unfoldable pub rust_future_cancel_f32 : List (Js p) → M p (Js p)
  rust_future_cancel_f32 = plain_call p (rust_future_cancel f32) (value u64 ∷ []) void rt

  unfoldable pub rust_future_free_f32 : List (Js p) → M p (Js p)
  rust_future_free_f32 = plain_call p (rust_future_free f32) (value u64 ∷ []) void rt

  unfoldable pub rust_future_complete_f32 : List (Js p) → M p (Js p)
  rust_future_complete_f32 = rust_call p (rust_future_complete f32) (value u64 ∷ []) f32 rt

  unfoldable pub rust_future_poll_f64 : List (Js p) → M p (Js p)
  rust_future_poll_f64 =
      plain_call p (rust_future_poll f64) (value u64 ∷ continuation ∷ value u64 ∷ []) void rt

  unfoldable pub rust_future_cancel_f64 : List (Js p) → M p (Js p)
  rust_future_cancel_f64 = plain_call p (rust_future_cancel f64) (value u64 ∷ []) void rt

  unfoldable pub rust_future_free_f64 : List (Js p) → M p (Js p)
  rust_future_free_f64 = plain_call p (rust_future_free f64) (value u64 ∷ []) void rt

  unfoldable pub rust_future_complete_f64 : List (Js p) → M p (Js p)
  rust_future_complete_f64 = rust_call p (rust_future_complete f64) (value u64 ∷ []) f64 rt

  unfoldable pub rust_future_poll_rust_buffer : List (Js p) → M p (Js p)
  rust_future_poll_rust_buffer =
      plain_call p (rust_future_poll rust_buffer) (value u64 ∷ continuation ∷ value u64 ∷ []) void
        rt

  unfoldable pub rust_future_cancel_rust_buffer : List (Js p) → M p (Js p)
  rust_future_cancel_rust_buffer =
      plain_call p (rust_future_cancel rust_buffer) (value u64 ∷ []) void rt

  unfoldable pub rust_future_free_rust_buffer : List (Js p) → M p (Js p)
  rust_future_free_rust_buffer =
      plain_call p (rust_future_free rust_buffer) (value u64 ∷ []) void rt

  unfoldable pub rust_future_complete_rust_buffer : List (Js p) → M p (Js p)
  rust_future_complete_rust_buffer =
      rust_call p (rust_future_complete rust_buffer) (value u64 ∷ []) rust_buffer rt

  unfoldable pub rust_future_poll_void : List (Js p) → M p (Js p)
  rust_future_poll_void =
      plain_call p (rust_future_poll void) (value u64 ∷ continuation ∷ value u64 ∷ []) void rt

  unfoldable pub rust_future_cancel_void : List (Js p) → M p (Js p)
  rust_future_cancel_void = plain_call p (rust_future_cancel void) (value u64 ∷ []) void rt

  unfoldable pub rust_future_free_void : List (Js p) → M p (Js p)
  rust_future_free_void = plain_call p (rust_future_free void) (value u64 ∷ []) void rt

  unfoldable pub rust_future_complete_void : List (Js p) → M p (Js p)
  rust_future_complete_void = rust_call p (rust_future_complete void) (value u64 ∷ []) void rt
