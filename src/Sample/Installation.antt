-- ===== src/Sample/Installation.antt =====
-- Runs of the registry and of the installation of the bridge on the sample platform, and the theorem
-- on the Android context applied to a sample Java VM.

use iroh_react_native_bridge.Base.{
  ◌+◌, ◌≡◌, refl, true, false, [], ◌∷◌, some, none, if◌then◌else◌, ◌||◌,
}
use iroh_react_native_bridge.HostObject.{lookup, insert_or_assign}
use iroh_react_native_bridge.Registry.{empty_registry, put_table, unregister_module}
use iroh_react_native_bridge.Install.Runtime.{install_rust_crate, cleanup_rust_crate}
use iroh_react_native_bridge.Install.Android.{
  Device, init_android_context, init_android_context_refs,
}
use iroh_react_native_bridge.Sample.{engine}
use iroh_react_native_bridge.Sample.JavaVm.{jni, jni_laws}

tables_test : lookup "vtable" (put_table 1000 "vtable" empty_registry).1.table ≡ some 1000
unfolding put_table lookup insert_or_assign
tables_test = refl

unregister_test : (unregister_module (put_table 1000 "vtable" empty_registry).1).table ≡ []
unfolding put_table unregister_module
unregister_test = refl

install_test : (install_rust_crate engine 1 (λ r. none)).0 ≡ 1
unfolding install_rust_crate
install_test = refl

cleanup_test : (cleanup_rust_crate engine 1 (install_rust_crate engine 1 (λ r. none)).1).0 ≡ 0
unfolding install_rust_crate cleanup_rust_crate
cleanup_test = refl

abbrev device : Device jni
device = record { vm = record { held = []; next = 20 }; initialized = false }

init_android_context_refs_example :
    (jni_laws.global_refs (init_android_context jni 3 device).1.vm
      ≡ jni_laws.global_refs device.vm + (if (init_android_context jni 3 device).0 then 1 else 0))
    × ((init_android_context jni 3 device).1.initialized
        ≡ (device.initialized || (init_android_context jni 3 device).0))
init_android_context_refs_example = init_android_context_refs jni jni_laws 3 device

abbrev initialized_device : Device jni
initialized_device = record { vm = record { held = 21 ∷ []; next = 21 }; initialized = true }
