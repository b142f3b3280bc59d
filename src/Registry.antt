-- ===== src/Registry.antt =====
-- uniffi::iroh_mobile_bridge::registry (react-native/cpp/generated/iroh_mobile_bridge.cpp, lines
-- 616 to 665): the vtables that Rust holds raw pointers to.
use iroh_react_native_bridge.Base.{ℕ, String, []}
use iroh_react_native_bridge.HostObject.{StringMap, insert_or_assign}

-- `vtableRegistry`: a holder is its address.
pub record Registry : Type 0 where
  pub table : StringMap ℕ

abbrev pub empty_registry : Registry
empty_registry = record { table = [] }

-- The raw pointer and the registry after. The first argument is the address that `make_shared` gives
-- the new holder. A holder that is replaced has no other owner and is freed, so that a later holder
-- may have its address.
unfoldable pub put_table : ℕ → String → Registry → ℕ × Registry
put_table holder identifier r =
    (holder, record r { table = insert_or_assign identifier holder r.table })

unfoldable pub clear_registry : Registry → Registry
clear_registry r = record r { table = [] }

-- NativeIrohMobileBridge::unregisterModule
unfoldable pub unregister_module : Registry → Registry
unfolding clear_registry
unregister_module r = clear_registry r
