-- ===== src/Install/Runtime.antt =====
-- The host object on the global object of each runtime.
use iroh_react_native_bridge.Base.{ℕ, Option, some, if◌then◌else◌, ◌==◌}
use iroh_react_native_bridge.Platform.{Platform}
use iroh_react_native_bridge.HostObject.{Props, construct}

module _ (p : Platform) where
  -- The value of `NativeIrohMobileBridge` on each runtime's global object.
  abbrev pub Globals : Type 0
  Globals = ℕ → Option (Props p)

  unfoldable pub register_module : ℕ → Globals → Globals
  register_module rt globals r = if r == rt then some (construct p) else globals r

  -- `return true` of a uint8_t function
  unfoldable pub install_rust_crate : ℕ → Globals → ℕ × Globals
  unfolding register_module
  install_rust_crate rt globals = (1, register_module rt globals)

  -- `return false`; nothing is unregistered.
  unfoldable pub cleanup_rust_crate : ℕ → Globals → ℕ × Globals
  cleanup_rust_crate rt globals = (0, globals)
