-- ===== src/HostObject/Laws.antt =====
-- What JavaScript finds on the host object.
use text.Mathlib.Text.{◌==◌ as str_eq}
use mathlib.Core.Logic.{◌↔◌}
use text.Mathlib.TextEquality.{eq_iff}
use iroh_react_native_bridge.Base.{
  ℕ, String, ◌≡◌, refl, ◌∙◌, List, [], ◌∷◌, map, Option, none, some, Bool, true, false, ◌||◌,
  if◌then◌else◌, arith, All, sym, ◌&&◌, ◌==◌,
}
use iroh_react_native_bridge.Platform.{Platform, FfiType, u8, Func, bridge_version}
use iroh_react_native_bridge.World.{Js}
use iroh_react_native_bridge.HostObject.Table.{
  Method, exported, poll, cancel, free, complete, checksum_of,
}
use iroh_react_native_bridge.HostObject.Names.{js_name, func_arity, arity}
use iroh_react_native_bridge.HostObject.Map.{
  lookup, last_assigned, last_assigned_all, lookup-assign_all, lookup-insert_or_assign,
}
use iroh_react_native_bridge.HostObject.{
  Property, function, stored, Props, entries, to_property, construct, get, set, get_property_names,
}

module _ (p : Platform) where
  abbrev assigned : List (String × Property (Js p))
  assigned = map (to_property p) entries

  abbrev found : String → Option (Property (Js p))
  found k = last_assigned k assigned none

  lookup-construct : (k : String) → lookup k (construct p) ≡ found k
  unfolding construct lookup
  lookup-construct k = lookup-assign_all k assigned []

  found-exported :
      (f : Func) → found (js_name (exported f)) ≡ some (function (func_arity f) (exported f))
  found-exported bridge_version = refl
  found-exported _ = refl

  found-poll : (t : FfiType) → found (js_name (poll t)) ≡ some (function 3 (poll t))
  found-poll u8 = refl
  found-poll _ = refl

  found-cancel : (t : FfiType) → found (js_name (cancel t)) ≡ some (function 1 (cancel t))
  found-cancel u8 = refl
  found-cancel _ = refl

  found-free : (t : FfiType) → found (js_name (free t)) ≡ some (function 1 (free t))
  found-free u8 = refl
  found-free _ = refl

  found-complete : (t : FfiType) → found (js_name (complete t)) ≡ some (function 1 (complete t))
  found-complete u8 = refl
  found-complete _ = refl

  found-checksum_of :
      (f : Func) → found (js_name (checksum_of f)) ≡ some (function 0 (checksum_of f))
  found-checksum_of bridge_version = refl
  found-checksum_of _ = refl

  found-js_name : (m : Method) → found (js_name m) ≡ some (function (arity m) m)
  found-js_name (exported f) = found-exported f
  found-js_name (poll t) = found-poll t
  found-js_name (cancel t) = found-cancel t
  found-js_name (free t) = found-free t
  found-js_name (complete t) = found-complete t
  found-js_name (checksum_of f) = found-checksum_of f
  found-js_name _ = refl

  -- A name stands for a method where it is the method's and comes with its parameter count.
  abbrev Names : String → Property (Js p) → Type 0
  Names k (function c m) = (k ≡ js_name m) × (c ≡ arity m)
  Names k (stored v) = Unit {0}

  check : List (String × Property (Js p)) → Bool
  check [] = true
  check ((k, function c m) ∷ es) = (str_eq k (js_name m) && c == arity m) && check es
  check ((k, stored v) ∷ es) = check es

  check-Names :
      (es : List (String × Property (Js p))) → check es ≡ true → All (λ e. Names e.0 e.1) es
  unfolding check
  check-Names [] h = tt
  check-Names ((k, function c m) ∷ es) h =
      ((ground (arith, eq_iff k (js_name m)), ground arith), check-Names es (ground arith))
  check-Names ((k, stored v) ∷ es) h = (tt, check-Names es h)

  assigned-Names : All (λ e. Names e.0 e.1) assigned
  unfolding check
  assigned-Names = check-Names assigned refl

  get_of_lookup :
      (props : Props p) (k : String) {e : Property (Js p)}
      → lookup k props ≡ some e
      → get p props k ≡ e
  unfolding get
  get_of_lookup props k h = ground arith

  lookup_of_get :
      (props : Props p) (k : String) (c : ℕ) (m : Method)
      → get p props k ≡ function c m
      → lookup k props ≡ some (function c m)
  unfolding get
  lookup_of_get props k c m h = ground arith

  pub get-js_name : (m : Method) → get p (construct p) (js_name m) ≡ function (arity m) m
  get-js_name m =
      get_of_lookup (construct p) (js_name m) (lookup-construct (js_name m) ∙ found-js_name m)

  none-ne-some : (k : String) (u : Property (Js p)) → none ≡ some u → Names k u
  none-ne-some k u h = absurd (ground arith)

  -- After construction the host object answers a name with the function of method `m`, and a
  -- parameter count, exactly when the name is the one that the UniFFI scheme gives `m` and the
  -- count is the number of arguments that `m` takes beside the status. So every method of the class
  -- is reached, no two share a name, and no name reaches the wrong method.
  pub get-construct :
      (k : String) (c : ℕ) (m : Method)
      → (get p (construct p) k ≡ function c m) ↔ ((k ≡ js_name m) × (c ≡ arity m))
  get-construct k c m = (
    λ e.
        last_assigned_all Names assigned k none {v = function c m} assigned-Names (none-ne-some k)
          (sym (lookup-construct k) ∙ lookup_of_get (construct p) k c m e),
    λ h. rw (h.0, h.1) (get-js_name m),
  )

  -- A name that JavaScript sets reads back as the conversion of a pointer, whichever value was set;
  -- every other name reads as before.
  pub get-set :
      (props : Props p) (name k : String) (v : Js p)
      → get p (set p props name v) k
        ≡ (if str_eq name k then stored p.of_pointer else get p props k)
  unfolding get set
  get-set props name k v =
      ground (arith, lookup-insert_or_assign name k (stored p.of_pointer) props)

  abbrev pub contains : String → List String → Bool
  contains k [] = false
  contains k (j ∷ js) = str_eq j k || contains k js

  abbrev pub is_present : Option (Property (Js p)) → Bool
  is_present none = false
  is_present (some _) = true

  -- `getPropertyNames` lists a name exactly when the table has it, whatever was assigned.
  pub get_property_names-lookup :
      (props : Props p) (k : String)
      → contains k (get_property_names p props) ≡ is_present (lookup k props)
  unfolding get_property_names lookup
  get_property_names-lookup [] k = refl
  get_property_names-lookup ((j, v) ∷ m) k = ground (arith, get_property_names-lookup m k)
