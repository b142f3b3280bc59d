-- ===== src/Node/Errors.antt =====
-- IrohBridgeError of rust/iroh_mobile_bridge/src/lib.rs, and code that may fail with it.
use iroh_react_native_bridge.Base.{String, ◌≡◌, refl, ◌⊎◌, inl, inr, arith}

pub data IrohBridgeError : Type 0 where
  already_started not_started not_connected invalid_node_id : IrohBridgeError
  invalid_address invalid_ticket invalid_dial_target : String → IrohBridgeError
  invalid_frame : IrohBridgeError
  operation_failed : String → IrohBridgeError
  internal_error : IrohBridgeError

abbrev pub Result : Type 0 → Type 0
Result A = IrohBridgeError ⊎ A

-- `.map_err(err)?`
abbrev pub or_operation_failed : {A B : Type 0} → String ⊎ A → (A → Result B) → Result B
or_operation_failed (inl message) f = inl (operation_failed message)
or_operation_failed (inr a) f = f a

-- Inversion of a step that succeeded.
pub or_operation_failed-eq-inr :
    {A B : Type 0} (r : String ⊎ A) (f : A → Result B) {b : B}
    → or_operation_failed r f ≡ inr b
    → (a : A) × (r ≡ inr a) × (f a ≡ inr b)
or_operation_failed-eq-inr (inl message) f h = absurd (ground arith)
or_operation_failed-eq-inr (inr a) f h = (a, refl, h)
