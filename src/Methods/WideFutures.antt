-- ===== src/Methods/WideFutures.antt =====
-- The methods of NativeIrohMobileBridge for Rust futures of the types u32, i32, u64, i64
-- (react-native/cpp/generated/iroh_mobile_bridge.cpp, lines 2953 to 3076).
use iroh_react_native_bridge.Base.{ℕ, List, [], ◌∷◌}
use iroh_react_native_bridge.Platform.{
  Platform, i32, i64, u32, u64, void, rust_future_poll, rust_future_cancel, rust_future_free,
  rust_future_complete,
}
use iroh_react_native_bridge.World.{Js, M}
use iroh_react_native_bridge.Call.{value, continuation, rust_call, plain_call}

module _ (p : Platform) (rt : ℕ) where
  unfoldable pub rust_future_poll_u32 : List (Js p) → M p (Js p)
  rust_future_poll_u32 =
      plain_call p (rust_future_poll u32) (value u64 ∷ continuation ∷ value u64 ∷ []) void rt

  unfoldable pub rust_future_cancel_u32 : List (Js p) → M p (Js p)
  rust_future_cancel_u32 = plain_call p (rust_future_cancel u32) (value u64 ∷ []) void rt

  unfoldable pub rust_future_free_u32 : List (Js p) → M p (Js p)
  rust_future_free_u32 = plain_call p (rust_future_free u32) (value u64 ∷ []) void rt

  unfoldable pub rust_future_complete_u32 : List (Js p) → M p (Js p)
  rust_future_complete_u32 = rust_call p (rust_future_complete u32) (value u64 ∷ []) u32 rt

  unfoldable pub rust_future_poll_i32 : List (Js p) → M p (Js p)
  rust_future_poll_i32 =
      plain_call p (rust_future_poll i32) (value u64 ∷ continuation ∷ value u64 ∷ []) void rt

  unfoldable pub rust_future_cancel_i32 : List (Js p) → M p (Js p)
  rust_future_cancel_i32 = plain_call p (rust_future_cancel i32) (value u64 ∷ []) void rt

  unfoldable pub rust_future_free_i32 : List (Js p) → M p (Js p)
  rust_future_free_i32 = plain_call p (rust_future_free i32) (value u64 ∷ []) void rt

  unfoldable pub rust_future_complete_i32 : List (Js p) → M p (Js p)
  rust_future_complete_i32 = rust_call p (rust_future_complete i32) (value u64 ∷ []) i32 rt

  unfoldable pub rust_future_poll_u64 : List (Js p) → M p (Js p)
  rust_future_poll_u64 =
      plain_call p (rust_future_poll u64) (value u64 ∷ continuation ∷ value u64 ∷ []) void rt

  unfoldable pub rust_future_cancel_u64 : List (Js p) → M p (Js p)
  rust_future_cancel_u64 = plain_call p (rust_future_cancel u64) (value u64 ∷ []) void rt

  unfoldable pub rust_future_free_u64 : List (Js p) → M p (Js p)
  rust_future_free_u64 = plain_call p (rust_future_free u64) (value u64 ∷ []) void rt

  unfoldable pub rust_future_complete_u64 : List (Js p) → M p (Js p)
  rust_future_complete_u64 = rust_call p (rust_future_complete u64) (value u64 ∷ []) u64 rt

  unfoldable pub rust_future_poll_i64 : List (Js p) → M p (Js p)
  rust_future_poll_i64 =
      plain_call p (rust_future_poll i64) (value u64 ∷ continuation ∷ value u64 ∷ []) void rt

  unfoldable pub rust_future_cancel_i64 : List (Js p) → M p (Js p)
  rust_future_cancel_i64 = plain_call p (rust_future_cancel i64) (value u64 ∷ []) void rt

  unfoldable pub rust_future_free_i64 : List (Js p) → M p (Js p)
  rust_future_free_i64 = plain_call p (rust_future_free i64) (value u64 ∷ []) void rt

  unfoldable pub rust_future_complete_i64 : List (Js p) → M p (Js p)
  rust_future_complete_i64 = rust_call p (rust_future_complete i64) (value u64 ∷ []) i64 rt
