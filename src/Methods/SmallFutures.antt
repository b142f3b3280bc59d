-- ===== src/Methods/SmallFutures.antt =====
-- The methods of NativeIrohMobileBridge for Rust futures of the types u8, i8, u16, i16
-- (react-native/cpp/generated/iroh_mobile_bridge.cpp, lines 2829 to 2952).
use iroh_react_native_bridge.Base.{ℕ, List, [], ◌∷◌}
use iroh_react_native_bridge.Platform.{
  Platform, i16, i8, u16, u64, u8, void, rust_future_poll, rust_future_cancel, rust_future_free,
  rust_future_complete,
}
use iroh_react_native_bridge.World.{Js, M}
use iroh_react_native_bridge.Call.{value, continuation, rust_call, plain_call}

module _ (p : Platform) (rt : ℕ) where
  unfoldable pub rust_future_poll_u8 : List (Js p) → M p (Js p)
  rust_future_poll_u8 =
      plain_call p (rust_future_poll u8) (value u64 ∷ continuation ∷ value u64 ∷ []) void rt

  unfoldable pub rust_future_cancel_u8 : List (Js p) → M p (Js p)
  rust_future_cancel_u8 = plain_call p (rust_future_cancel u8) (value u64 ∷ []) void rt

  unfoldable pub rust_future_free_u8 : List (Js p) → M p (Js p)
  rust_future_free_u8 = plain_call p (rust_future_free u8) (value u64 ∷ []) void rt

  unfoldable pub rust_future_complete_u8 : List (Js p) → M p (Js p)
  rust_future_complete_u8 = rust_call p (rust_future_complete u8) (value u64 ∷ []) u8 rt

  unfoldable pub rust_future_poll_i8 : List (Js p) → M p (Js p)
  rust_future_poll_i8 =
      plain_call p (rust_future_poll i8) (value u64 ∷ continuation ∷ value u64 ∷ []) void rt

  unfoldable pub rust_future_cancel_i8 : List (Js p) → M p (Js p)
  rust_future_cancel_i8 = plain_call p (rust_future_cancel i8) (value u64 ∷ []) void rt

  unfoldable pub rust_future_free_i8 : List (Js p) → M p (Js p)
  rust_future_free_i8 = plain_call p (rust_future_free i8) (value u64 ∷ []) void rt

  unfoldable pub rust_future_complete_i8 : List (Js p) → M p (Js p)
  rust_future_complete_i8 = rust_call p (rust_future_complete i8) (value u64 ∷ []) i8 rt

  unfoldable pub rust_future_poll_u16 : List (Js p) → M p (Js p)
  rust_future_poll_u16 =
      plain_call p (rust_future_poll u16) (value u64 ∷ continuation ∷ value u64 ∷ []) void rt

  unfoldable pub rust_future_cancel_u16 : List (Js p) → M p (Js p)
  rust_future_cancel_u16 = plain_call p (rust_future_cancel u16) (value u64 ∷ []) void rt

  unfoldable pub rust_future_free_u16 : List (Js p) → M p (Js p)
  rust_future_free_u16 = plain_call p (rust_future_free u16) (value u64 ∷ []) void rt

  unfoldable pub rust_future_complete_u16 : List (Js p) → M p (Js p)
  rust_future_complete_u16 = rust_call p (rust_future_complete u16) (value u64 ∷ []) u16 rt

  unfoldable pub rust_future_poll_i16 : List (Js p) → M p (Js p)
  rust_future_poll_i16 =
      plain_call p (rust_future_poll i16) (value u64 ∷ continuation ∷ value u64 ∷ []) void rt

  unfoldable pub rust_future_cancel_i16 : List (Js p) → M p (Js p)
  rust_future_cancel_i16 = plain_call p (rust_future_cancel i16) (value u64 ∷ []) void rt

  unfoldable pub rust_future_free_i16 : List (Js p) → M p (Js p)
  rust_future_free_i16 = plain_call p (rust_future_free i16) (value u64 ∷ []) void rt

  unfoldable pub rust_future_complete_i16 : List (Js p) → M p (Js p)
  rust_future_complete_i16 = rust_call p (rust_future_complete i16) (value u64 ∷ []) i16 rt
