-- ===== src/HostObject/Arity.antt =====
-- The parameter counts of the table against what the methods read.
use iroh_react_native_bridge.Platform.{
  Symbol, fn_func, rust_future_poll, rust_future_cancel, rust_future_free, rust_future_complete,
}
use iroh_react_native_bridge.Base.{
  Bool, true, false, sym, ◌∙◌, ap, ℕ, ◌≤◌, ◌≡◌, List, [], ◌∷◌, length, returned,
  continue-eq-returned, arith,
}
use iroh_react_native_bridge.Methods.Declarations.{Declaration, declaration, call_shape}
use iroh_react_native_bridge.HostObject.Symbols.{method_of, arity-method_of}
use iroh_react_native_bridge.HostObject.Declared.{invoke-declared}
use iroh_react_native_bridge.Platform.{Platform}
use iroh_react_native_bridge.World.{World, Js, arg}
use iroh_react_native_bridge.Call.Arguments.{arg-in_range, rust_call-in_range, plain_call-in_range}
use iroh_react_native_bridge.Buffer.{js_rustbuffer_alloc, js_rustbuffer_free}
use iroh_react_native_bridge.Methods.{
  string_to_byte_length, string_to_buffer, string_from_buffer, read_string_from_buffer,
}
use iroh_react_native_bridge.HostObject.Table.{
  internal_string_to_byte_length, internal_string_to_buffer, internal_string_from_buffer,
  internal_read_string_from_buffer, exported, poll, cancel, free, complete, checksum_of, contract,
  alloc_buffer, free_buffer,
}
use iroh_react_native_bridge.HostObject.{Method, invoke}
use iroh_react_native_bridge.HostObject.Names.{arity}

module _ (p : Platform) (rt : ℕ) where
  call_shape-in_range :
      (b : Bool) (s : Symbol) (d : Declaration) (args : List (Js p)) (w : World p) {v : Js p}
      {w' : World p}
      → call_shape p b s d rt args w ≡ returned v w'
      → length d.params ≤ length args
  call_shape-in_range true s d args w h = rust_call-in_range p s d.params d.returns rt args w h
  call_shape-in_range false s d args w h = plain_call-in_range p s d.params d.returns rt args w h

  -- A method that calls a C function reads all of that function's parameters.
  symbol-arity :
      (s : Symbol) (args : List (Js p)) (w : World p) {v : Js p} {w' : World p}
      → invoke p rt (method_of s) args w ≡ returned v w'
      → arity (method_of s) ≤ length args
  symbol-arity s args w h = omega (
    arith,
    arity-method_of s,
    call_shape-in_range (declaration s).has_status s (declaration s) args w
        (sym (ap (λ f. f args w) (invoke-declared p rt s)) ∙ h),
  )

  js_rustbuffer_alloc-arity :
      (args : List (Js p)) (w : World p) {v : Js p} {w' : World p}
      → js_rustbuffer_alloc p args w ≡ returned v w'
      → 1 ≤ length args
  unfolding js_rustbuffer_alloc
  js_rustbuffer_alloc-arity [] w h = absurd (ground arith)
  js_rustbuffer_alloc-arity (a ∷ args) w h = omega arith

  js_rustbuffer_free-arity :
      (args : List (Js p)) (w : World p) {v : Js p} {w' : World p}
      → js_rustbuffer_free p args w ≡ returned v w'
      → 1 ≤ length args
  unfolding js_rustbuffer_free
  js_rustbuffer_free-arity [] w h = absurd (ground arith)
  js_rustbuffer_free-arity (a ∷ args) w h = omega arith

  -- A method that returns was given at least as many arguments as the table registers for it: with
  -- fewer it throws or reads past its arguments.
  pub invoke-arity :
      (m : Method) (args : List (Js p)) (w : World p) {v : Js p} {w' : World p}
      → invoke p rt m args w ≡ returned v w'
      → arity m ≤ length args
  unfolding string_to_byte_length string_to_buffer string_from_buffer read_string_from_buffer
  invoke-arity internal_string_to_byte_length args w h =
      let (v, w1, e, _) = continue-eq-returned (arg p args 0 w) _ h in arg-in_range p args 0 w e
  invoke-arity internal_string_to_buffer args w h =
      let (v, w1, e, _) = continue-eq-returned (arg p args 0 w) _ h in arg-in_range p args 0 w e
  invoke-arity internal_string_from_buffer args w h =
      let (v, w1, e, _) = continue-eq-returned (arg p args 0 w) _ h in arg-in_range p args 0 w e
  invoke-arity internal_read_string_from_buffer args w h =
      let (v, w1, e1, h1) = continue-eq-returned (arg p args 0 w) _ h in
      let (offset, w2, e2, h2) = continue-eq-returned (arg p args 1 w1) _ h1 in
      let (size, w3, e3, _) = continue-eq-returned (arg p args 2 w2) _ h2 in
      arg-in_range p args 2 w2 e3
  invoke-arity (exported f) args w h = symbol-arity (fn_func f) args w h
  invoke-arity (poll t) args w h = symbol-arity (rust_future_poll t) args w h
  invoke-arity (cancel t) args w h = symbol-arity (rust_future_cancel t) args w h
  invoke-arity (free t) args w h = symbol-arity (rust_future_free t) args w h
  invoke-arity (complete t) args w h = symbol-arity (rust_future_complete t) args w h
  invoke-arity (checksum_of f) args w h = omega arith
  invoke-arity contract args w h = omega arith
  invoke-arity alloc_buffer args w h = js_rustbuffer_alloc-arity args w h
  invoke-arity free_buffer args w h = js_rustbuffer_free-arity args w h
