-- ===== src/Sample/Tests.antt =====
-- The theorems applied on the sample platform, and runs of the code on it.
use iroh_react_native_bridge.Base.{
  ℕ, ◌≡◌, refl, List, [], ◌∷◌, some, none, inr, if◌then◌else◌, ◌==◌, arith, returned, throws,
}
use iroh_react_native_bridge.Platform.{
  undefined, number, object, RustBuffer, RustCallStatus, FfiValue, rust_buffer, void, fn_func, send,
  close, nothing, buffer,
}
use iroh_react_native_bridge.World.{World}
use iroh_react_native_bridge.Buffer
use iroh_react_native_bridge.Buffer.{int32_max, rustbuffer_from_bytes, js_rustbuffer_alloc}
use iroh_react_native_bridge.Buffer.Handoff.{hand_back, to_js-js_rustbuffer_free}
use iroh_react_native_bridge.Buffer.Allocate.{
  allocate_and_free, js_rustbuffer_alloc-js_rustbuffer_free,
}
use iroh_react_native_bridge.Call.{value, lower, lower_args, rust_call, lift}
use iroh_react_native_bridge.Call.Outcomes.{rust_call_fails, rust_call_leaks}
use iroh_react_native_bridge.Sample.{Engine, engine, engine_laws, state, world}

-- Five bytes in an allocation of sixteen.
abbrev payload : RustBuffer
payload = record { capacity = 16; len = 5; data_ptr = 100 }

to_js-js_rustbuffer_free_example :
    (w' : World engine) × (hand_back engine engine_laws payload world ≡ returned undefined w')
    × ((a : ℕ)
        → engine_laws.live w'.state a
          ≡ (if payload.data_ptr == a then none else engine_laws.live world.state a))
to_js-js_rustbuffer_free_example =
    to_js-js_rustbuffer_free engine engine_laws payload world refl (omega arith) (omega arith)
      (omega arith)

abbrev empty_payload : RustBuffer
empty_payload = record { capacity = 16; len = 0; data_ptr = 100 }

js_rustbuffer_alloc-js_rustbuffer_free_example :
    (w' : World engine) × (allocate_and_free engine engine_laws 64 world ≡ returned undefined w')
    × ((a : ℕ) → engine_laws.live w'.state a ≡ engine_laws.live world.state a)
js_rustbuffer_alloc-js_rustbuffer_free_example =
    js_rustbuffer_alloc-js_rustbuffer_free engine engine_laws 64 world refl refl refl (omega arith)
      (omega arith) (omega arith)

-- A failed call with its error in the second allocation.
abbrev failure : RustCallStatus
failure = record { code = 1; error_buf = record { capacity = 8; len = 4; data_ptr = 200 } }

-- Object 3 with an error buffer and a code.
abbrev reported : World engine
reported = record world {
  state =
      engine.set_property (engine.set_property state 3 "errorBuf" (object 1)) 3 "code" (number 1);
}

-- The buffers that `send` lowers its two views to.
abbrev lowered : World engine
lowered = record world {
  state = record state { allocations = (203, 5) ∷ (202, 5) ∷ (100, 16) ∷ (200, 8) ∷ [] };
}

abbrev sent : List FfiValue
sent =
    buffer (record { capacity = 5; len = 5; data_ptr = 202 })
    ∷ buffer (record { capacity = 5; len = 5; data_ptr = 203 })
    ∷ []

lower_args_test :
    lower_args engine 0
      (value rust_buffer ∷ value rust_buffer ∷ [])
      (object 1 ∷ object 1 ∷ object 3 ∷ [])
      0
      world
    ≡ returned sent lowered
unfolding lower_args lower Buffer.from_js rustbuffer_from_bytes
lower_args_test = refl

-- `close` fails, with its error in a new allocation.
abbrev closing : World engine
closing = record world {
  state = record state { allocations = (202, 5) ∷ (100, 16) ∷ (200, 8) ∷ [] };
}

abbrev closed : List FfiValue
closed = buffer (record { capacity = 5; len = 5; data_ptr = 202 }) ∷ []

abbrev refused : RustCallStatus
refused = record { code = 1; error_buf = record { capacity = 4; len = 4; data_ptr = 203 } }

abbrev refused_state : Engine
refused_state = record state { allocations = (203, 4) ∷ (202, 5) ∷ (100, 16) ∷ (200, 8) ∷ [] }

lower_close_test :
    lower_args engine 0 (value rust_buffer ∷ []) (object 1 ∷ object 3 ∷ []) 0 world
    ≡ returned closed closing
unfolding lower_args lower Buffer.from_js rustbuffer_from_bytes
lower_close_test = refl

rust_call_fails_example :
    (w2 : World engine) × (rust_call engine
        (fn_func close)
        (value rust_buffer ∷ [])
        void
        0
        (object 1 ∷ object 3 ∷ [])
        world
      ≡ lift engine void nothing w2)
    × (engine.get_property w2.state 3 "code" ≡ number 1)
    × ((copied : ℕ) × (engine.value_to_arraybuffer w2.state
            (engine.get_property w2.state 3 "errorBuf")
          ≡ inr (copied, 4))
        × (engine_laws.array w2.state copied ≡ some (203 ∷ 203 ∷ 203 ∷ 203 ∷ [])))
    × ((a : ℕ)
        → engine_laws.live w2.state a
          ≡ (if 203 == a then none else engine_laws.live refused_state a))
rust_call_fails_example =
    rust_call_fails engine (fn_func close) (value rust_buffer ∷ []) 0 (object 1 ∷ object 3 ∷ []) 3
      world closing closed nothing refused refused_state lower_close_test refl refl engine_laws void
      (omega arith) (omega arith) refl

rust_call_leaks_example :
    (leaked : RustBuffer) × (w' : World engine) × (rust_call engine
        (fn_func send)
        (value rust_buffer ∷ value rust_buffer ∷ [])
        void
        0
        (object 1 ∷ undefined ∷ object 3 ∷ [])
        world
      ≡ throws "Expected an ArrayBuffer" w')
    × (engine_laws.live world.state leaked.data_ptr ≡ none)
    × (engine_laws.live w'.state leaked.data_ptr ≡ some leaked.capacity)
rust_call_leaks_example =
    rust_call_leaks engine engine_laws (fn_func send) 0 1 undefined (object 3 ∷ []) [] void world
      100 5 "Expected an ArrayBuffer" (omega arith) (omega arith) (omega arith) refl (λ s. refl)
