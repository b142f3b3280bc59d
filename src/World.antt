-- ===== src/World.antt =====
-- The state that the bridge's C++ code works on: the platform's, and the statics of
-- react-native/cpp/generated/iroh_mobile_bridge.cpp (the two `rsLambda` and what was handed to the
-- CallInvoker).
use iroh_react_native_bridge.Base.{
  ℕ, String, List, Option, none, get_elem?, Outcome, ◌⊎◌, inl, inr, some, throws, returned, fault,
  ◌≡◌, if◌then◌else◌,
}
use iroh_react_native_bridge.Platform.{Platform, Value, number, object}

module _ (p : Platform) where
  open p use {State, Object, Double}

  -- What an `rsLambda` captures: the runtime by reference, the CallInvoker of that runtime, and the
  -- JavaScript function.
  pub record Lambda : Type 0 where
    pub runtime : ℕ
    pub function : Value Object Double

  -- A call that `invokeNonBlocking` was asked to make on the thread of a runtime.
  pub record Job : Type 0 where
    pub runtime : ℕ
    pub function : Value Object Double
    pub arguments : List ℕ

  pub record World : Type 0 where
    pub state : State
    -- rustfuturecontinuationcallback::rsLambda
    pub continuation : Option Lambda
    -- foreignfuturedroppedcallback::rsLambda
    pub dropped : Option Lambda
    pub jobs : List Job

  -- A JSI value, and C++ code that may throw.
  abbrev pub Js : Type 0
  Js = Value Object Double

  abbrev pub M : Type 0 → Type 0
  M A = World → Outcome World A

  -- A platform call that changes the state.
  abbrev pub run : {A : Type 0} → (State → A × State) → M A
  run f w = let (a, s) = f w.state in returned a (record w { state = s })

  -- A platform call that may throw and changes nothing.
  abbrev pub ask : {A : Type 0} → (State → String ⊎ A) → M A
  ask f w = elim (f w.state) [ inl e ↦ throws e w | inr a ↦ returned a w ]

  -- `args[i]`: a read past the arguments has undefined behaviour.
  abbrev pub arg : List Js → ℕ → M Js
  arg args i w = elim (get_elem? args i) [ none ↦ fault | some v ↦ returned v w ]

  -- jsi::Value::asObject and asNumber, jsi::Object::asFunction
  abbrev pub as_object : Js → M Object
  as_object (object o) w = returned o w
  as_object v w = throws (p.conversion_error v "object") w

  abbrev pub as_number : Js → M Double
  as_number (number d) w = returned d w
  as_number v w = throws (p.conversion_error v "number") w

  abbrev pub as_function : Object → M Object
  as_function o w =
      if p.is_function w.state o
      then returned o w
      else throws (p.conversion_error (object o) "function") w

  -- A platform call that succeeds, and an argument that is there.
  pub ask-returned :
      {A : Type 0} (f : State → String ⊎ A) (w : World) {a : A}
      → f w.state ≡ inr a
      → ask f w ≡ returned a w
  ask-returned f w h = rw (h, ask)

  pub arg-returned :
      (args : List Js) (i : ℕ) (w : World) {v : Js}
      → get_elem? args i ≡ some v
      → arg args i w ≡ returned v w
  arg-returned args i w h = rw (h, arg)
