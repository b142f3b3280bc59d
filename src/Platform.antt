-- ===== src/Platform.antt =====
-- What the C++ bridge (react-native/cpp) is compiled against and does not define itself: the
-- JavaScript engine behind JSI, the conversions of UniffiJsiTypes.h, and the C API of the Rust
-- crate that the UniFFI scaffolding exports. It is a parameter of the model; `Platform.Laws` states
-- what the code relies on.
mod Types
pub mod Laws
pub use Types.*
use iroh_react_native_bridge.Base.{ℕ, Bool, String, List, Option, ◌⊎◌}

-- One state stands for the engine's heap, the Rust crate's memory and the C++ heap.
pub record Platform : Type 1 where
  pub State : Type 0
  pub Object : Type 0
  -- C++ `double`
  pub Double : Type 0
  pub is_less : Double → Double → Bool
  pub is_nan : Double → Bool
  pub of_ℕ : ℕ → Double
  -- the cast of a non-negative double to an integer type
  pub to_ℕ : Double → ℕ
  -- jsi::Object
  pub get_property : State → Object → String → Value Object Double
  pub has_property : State → Object → String → Bool
  pub set_property : State → Object → String → Value Object Double → State
  pub new_object : State → Object × State
  pub is_function : State → Object → Bool
  -- the message of the error that asObject, asNumber or asFunction throws at a value of another
  -- kind
  pub conversion_error : Value Object Double → String → String
  -- jsi::Function::call: the message of the JSError, or the result
  pub call_function :
      State → Object → List (Value Object Double) → (String ⊎ Value Object Double) × State
  -- the conversion of a non-null `const jsi::Value *` to a jsi::Value
  pub of_pointer : Value Object Double
  -- arraybufferToUint8Array over an ArrayBuffer whose CMutableBuffer has this address and size
  pub uint8_array : State → ℕ → ℕ → Object × State
  -- view.getPropertyAsObject(rt, "buffer").getArrayBuffer(rt).data(rt)
  pub buffer_data : State → Object → String ⊎ ℕ
  -- uniffi_jsi::Bridging<jsi::ArrayBuffer>::value_to_arraybuffer: address and length
  pub value_to_arraybuffer : State → Value Object Double → String ⊎ (ℕ × ℕ)
  -- uniffi_jsi::Bridging<T>, a scalar being its bit pattern
  pub scalar_to_js : FfiType → ℕ → Value Object Double
  pub scalar_from_js : FfiType → Value Object Double → String ⊎ ℕ
  -- uniffi_jsi::Bridging<std::string>
  pub string_to_bytelength : State → Value Object Double → String ⊎ Value Object Double
  pub string_to_buffer : State → Value Object Double → (String ⊎ Value Object Double) × State
  pub string_from_buffer : State → Value Object Double → String ⊎ Value Object Double
  pub read_string_from_buffer :
      State
      → Value Object Double
      → Value Object Double
      → Value Object Double
      → String ⊎ Value Object Double
  -- `new uint8_t[n]`, filled by memcpy from an address
  pub new_copy : State → ℕ → ℕ → ℕ × State
  -- the extern "C" functions of the crate
  pub ffi_rustbuffer_alloc : ℕ → State → RustBuffer × State
  pub ffi_rustbuffer_from_bytes : ForeignBytes → State → RustBuffer × State
  pub ffi_rustbuffer_free : RustBuffer → State → State
  pub ffi_call : Symbol → List FfiValue → RustCallStatus → State → FfiValue × RustCallStatus × State
  -- a UniffiForeignFutureComplete function pointer: its address, the callback data, the result
  pub ffi_complete : FfiType → ℕ → ℕ → FfiValue → RustCallStatus → State → State
