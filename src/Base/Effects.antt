-- ===== src/Base/Effects.antt =====
-- C++ code over a state `W`: it returns, throws (a `jsi::JSError` with its message), or has
-- undefined behaviour. What was done before a throw stays done.
use Prim.Native.String.{String}
use mathlib.Core.Path.{◌≡◌, refl, ap, ◌∙◌}
use native.Mathlib.Omega.{arith}

pub data Outcome (W A : Type 0) : Type 0 where
  returned : A → W → Outcome W A
  throws : String → W → Outcome W A
  fault : Outcome W A

abbrev pub pure : {W A : Type 0} → A → W → Outcome W A
pure a w = returned a w

-- What runs after an outcome.
abbrev pub continue : {W A B : Type 0} → Outcome W A → (A → W → Outcome W B) → Outcome W B
continue (returned a w) f = f a w
continue (throws e w) f = throws e w
continue fault f = fault

infixl 5 ◌>>=◌ ◌>>◌
abbrev pub ◌>>=◌ : {W A B : Type 0} → (W → Outcome W A) → (A → W → Outcome W B) → W → Outcome W B
◌>>=◌ m f w = continue (m w) f

abbrev pub ◌>>◌ : {W B : Type 0} → (W → Outcome W (Unit {0})) → (W → Outcome W B) → W → Outcome W B
◌>>◌ m k w = continue (m w) (λ _. k)

abbrev pub throw : {W A : Type 0} → String → W → Outcome W A
throw e w = throws e w

abbrev pub undefined_behaviour : {W A : Type 0} → W → Outcome W A
undefined_behaviour w = fault

abbrev pub gets : {W A : Type 0} → (W → A) → W → Outcome W A
gets f w = returned (f w) w

abbrev pub modify : {W : Type 0} → (W → W) → W → Outcome W (Unit {0})
modify f w = returned tt (f w)

-- Inversion of a sequence that returned.
pub continue-eq-returned :
    {W A B : Type 0} (m : Outcome W A) (f : A → W → Outcome W B) {b : B} {w' : W}
    → continue m f ≡ returned b w'
    → (a : A) × (w : W) × (m ≡ returned a w) × (f a w ≡ returned b w')
continue-eq-returned (returned a w) f h = (a, w, refl, h)
continue-eq-returned (throws e w) f h = ground arith
continue-eq-returned fault f h = ground arith

-- A sequence goes on from what its first part returned.
pub continue-returned :
    {W A B : Type 0} (f : A → W → Outcome W B) {m : Outcome W A} {a : A} {w : W} {r : Outcome W B}
    → m ≡ returned a w
    → f a w ≡ r
    → continue m f ≡ r
continue-returned f e h = ap (λ m. continue m f) e ∙ h

-- It stops where its first part throws.
pub continue-throws :
    {W A B : Type 0} (f : A → W → Outcome W B) {m : Outcome W A} {e : String} {w : W}
    → m ≡ throws e w
    → continue m f ≡ throws e w
continue-throws f h = ap (λ m. continue m f) h
