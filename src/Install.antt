-- ===== src/Install.antt =====
-- Installing the bridge in a JavaScript runtime (react-native/cpp/react-native-iroh.cpp and
-- registerModule of react-native/cpp/generated/iroh_mobile_bridge.cpp), and giving Rust the Android
-- context (react-native/android/cpp-adapter.cpp, with react_native_iroh_init_android_context of
-- rust/iroh_mobile_bridge/src/lib.rs).
pub mod Runtime
pub mod Android
pub mod Exports
