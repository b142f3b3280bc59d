-- ===== src/Call/Arguments.antt =====
-- How many arguments a method reads.
use iroh_react_native_bridge.Base.{
  ℕ, ◌+◌, ◌≤◌, ◌<◌, ◌≡◌, List, [], ◌∷◌, length, get_elem?, lt-length_of_get_elem?, returned,
  continue-eq-returned, Option-cases, inl, inr, arith,
}
use iroh_react_native_bridge.Platform.{Platform, FfiType, FfiValue, Symbol}
use iroh_react_native_bridge.World.{World, Js, arg}
use iroh_react_native_bridge.Call.{Param, lower, lower_args, rust_call, plain_call}

module _ (p : Platform) where
  -- A read that returned was in range.
  pub arg-in_range :
      (args : List (Js p)) (i : ℕ) (w : World p) {v : Js p} {w' : World p}
      → arg p args i w ≡ returned v w'
      → i < length args
  arg-in_range args i w h = elim (Option-cases (get_elem? args i)) [
    | inl e ↦ absurd (ground arith)
    | inr (v, e) ↦ lt-length_of_get_elem? args i e
  ]

  -- So was every argument that was lowered.
  pub lower_args-in_range :
      (rt : ℕ) (params : List Param) (args : List (Js p)) (i : ℕ) (w : World p)
      {values : List FfiValue} {w' : World p}
      → i ≤ length args
      → lower_args p rt params args i w ≡ returned values w'
      → i + length params ≤ length args
  unfolding lower_args
  lower_args-in_range rt [] args i w le h = omega arith
  lower_args-in_range rt (t ∷ ts) args i w le h =
      let (v, w1, e1, h1) = continue-eq-returned (arg p args i w) _ h in
      let (x, w2, e2, h2) = continue-eq-returned (lower p rt t v w1) _ h1 in
      let (xs, w3, e3, h3) = continue-eq-returned (lower_args p rt ts args (i + 1) w2) _ h2 in
      let here = arg-in_range args i w e1 in
      omega (arith, lower_args-in_range rt ts args (i + 1) w2 (omega arith) e3)

  pub rust_call-in_range :
      (symbol : Symbol) (params : List Param) (ret : FfiType) (rt : ℕ) (args : List (Js p))
      (w : World p) {v : Js p} {w' : World p}
      → rust_call p symbol params ret rt args w ≡ returned v w'
      → length params ≤ length args
  unfolding rust_call
  rust_call-in_range symbol params ret rt args w h =
      let (xs, w1, e1, h1) = continue-eq-returned (lower_args p rt params args 0 w) _ h in
      omega (arith, lower_args-in_range rt params args 0 w (omega arith) e1)

  pub plain_call-in_range :
      (symbol : Symbol) (params : List Param) (ret : FfiType) (rt : ℕ) (args : List (Js p))
      (w : World p) {v : Js p} {w' : World p}
      → plain_call p symbol params ret rt args w ≡ returned v w'
      → length params ≤ length args
  unfolding plain_call
  plain_call-in_range symbol params ret rt args w h =
      let (xs, w1, e1, h1) = continue-eq-returned (lower_args p rt params args 0 w) _ h in
      omega (arith, lower_args-in_range rt params args 0 w (omega arith) e1)
