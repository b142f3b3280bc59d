-- ===== src/Install/Exports.antt =====
-- The functions of react-native/android/cpp-adapter.cpp that Kotlin calls. What is looked up in
-- Java objects, the runtime of a pointer and the CallInvoker of a holder, is not modelled.
use iroh_react_native_bridge.Base.{ℕ, Bool}
use iroh_react_native_bridge.Platform.{Platform}
use iroh_react_native_bridge.Install.Runtime.{Globals, install_rust_crate, cleanup_rust_crate}
use iroh_react_native_bridge.Install.Android.{Jni, Device, init_android_context}

module _ (j : Jni) where
  unfoldable pub native_init_android_context : ℕ → Device j → Bool × Device j
  native_init_android_context application_context = init_android_context j application_context

module _ (p : Platform) where
  -- installRustCrate of the adapter
  unfoldable pub adapter_install_rust_crate : ℕ → Globals p → ℕ × Globals p
  adapter_install_rust_crate rt = install_rust_crate p rt

  unfoldable pub adapter_cleanup_rust_crate : ℕ → Globals p → ℕ × Globals p
  adapter_cleanup_rust_crate rt = cleanup_rust_crate p rt

  unfoldable pub native_install_rust_crate : ℕ → Globals p → ℕ × Globals p
  native_install_rust_crate rt = adapter_install_rust_crate rt

  unfoldable pub native_cleanup_rust_crate : ℕ → Globals p → ℕ × Globals p
  native_cleanup_rust_crate rt = adapter_cleanup_rust_crate rt
