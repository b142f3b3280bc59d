-- ===== src/HostObject/Symbols.antt =====
-- The C functions behind the methods, and the names by which JavaScript reaches them.
use Prim.Native.String
use iroh_react_native_bridge.Base.{◌≡◌, refl, String, length}
use iroh_react_native_bridge.Platform.{
  FfiType, u8, Func, bridge_version, Symbol, fn_func, rust_future_poll, rust_future_cancel,
  rust_future_free, rust_future_complete, checksum_func, uniffi_contract_version,
}
use iroh_react_native_bridge.Methods.Declarations.{func_declaration, declaration}
use iroh_react_native_bridge.HostObject.{Method}
use iroh_react_native_bridge.HostObject.Table.{
  exported, poll, cancel, free, complete, checksum_of, contract,
}
use iroh_react_native_bridge.HostObject.Names.{js_name, arity, func_name, type_name}

-- The linker's name of a function.
abbrev pub c_name : Symbol → String
c_name (fn_func f) = String.◌++◌ "uniffi_iroh_mobile_bridge_fn_func_" (func_name f)
c_name (rust_future_poll t) = String.◌++◌ "ffi_iroh_mobile_bridge_rust_future_poll_" (type_name t)
c_name (rust_future_cancel t) =
    String.◌++◌ "ffi_iroh_mobile_bridge_rust_future_cancel_" (type_name t)
c_name (rust_future_free t) = String.◌++◌ "ffi_iroh_mobile_bridge_rust_future_free_" (type_name t)
c_name (rust_future_complete t) =
    String.◌++◌ "ffi_iroh_mobile_bridge_rust_future_complete_" (type_name t)
c_name (checksum_func f) = String.◌++◌ "uniffi_iroh_mobile_bridge_checksum_func_" (func_name f)
c_name uniffi_contract_version = "ffi_iroh_mobile_bridge_uniffi_contract_version"

abbrev pub property_name : Symbol → String
property_name s = String.◌++◌ "ubrn_" (c_name s)

abbrev pub method_of : Symbol → Method
method_of (fn_func f) = exported f
method_of (rust_future_poll t) = poll t
method_of (rust_future_cancel t) = cancel t
method_of (rust_future_free t) = free t
method_of (rust_future_complete t) = complete t
method_of (checksum_func f) = checksum_of f
method_of uniffi_contract_version = contract

func_property_name : (f : Func) → property_name (fn_func f) ≡ js_name (exported f)
func_property_name bridge_version = refl
func_property_name _ = refl

checksum_property_name : (f : Func) → property_name (checksum_func f) ≡ js_name (checksum_of f)
checksum_property_name bridge_version = refl
checksum_property_name _ = refl

poll_property_name : (t : FfiType) → property_name (rust_future_poll t) ≡ js_name (poll t)
poll_property_name u8 = refl
poll_property_name _ = refl

cancel_property_name : (t : FfiType) → property_name (rust_future_cancel t) ≡ js_name (cancel t)
cancel_property_name u8 = refl
cancel_property_name _ = refl

free_property_name : (t : FfiType) → property_name (rust_future_free t) ≡ js_name (free t)
free_property_name u8 = refl
free_property_name _ = refl

complete_property_name :
    (t : FfiType) → property_name (rust_future_complete t) ≡ js_name (complete t)
complete_property_name u8 = refl
complete_property_name _ = refl

pub property_name-method_of : (s : Symbol) → property_name s ≡ js_name (method_of s)
property_name-method_of (fn_func f) = func_property_name f
property_name-method_of (rust_future_poll t) = poll_property_name t
property_name-method_of (rust_future_cancel t) = cancel_property_name t
property_name-method_of (rust_future_free t) = free_property_name t
property_name-method_of (rust_future_complete t) = complete_property_name t
property_name-method_of (checksum_func f) = checksum_property_name f
property_name-method_of uniffi_contract_version = refl

func_arity-declaration : (f : Func) → arity (exported f) ≡ length (func_declaration f).params
unfolding func_declaration
func_arity-declaration bridge_version = refl
func_arity-declaration _ = refl

pub arity-method_of : (s : Symbol) → arity (method_of s) ≡ length (declaration s).params
unfolding declaration
arity-method_of (fn_func f) = func_arity-declaration f
arity-method_of _ = refl
