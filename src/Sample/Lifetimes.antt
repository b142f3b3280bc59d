-- ===== src/Sample/Lifetimes.antt =====
-- The theorems on callbacks, futures and the host object, applied
-- on the sample platform.
use mathlib.Core.Logic.{◌↔◌}
use iroh_react_native_bridge.ForeignFuture.Instances.{complete_function, complete_to_js_u32}
use iroh_react_native_bridge.Platform.{fn_func, send}
use iroh_react_native_bridge.Methods.Declarations.{declaration, declared_call}
use iroh_react_native_bridge.HostObject.{Method}
use iroh_react_native_bridge.HostObject.Symbols.{property_name}
use iroh_react_native_bridge.HostObject.Declared.{get-declared}
use iroh_react_native_bridge.Methods.SmallFutures.{rust_future_poll_u8}
use iroh_react_native_bridge.Base.{
  ◌≤◌, ◌≡◌, refl, true, false, [], ◌∷◌, ◌++◌, some, ◌⊎◌, if◌then◌else◌, ◌==◌, returned, length,
}
use iroh_react_native_bridge.Platform.{
  undefined, number, object, u8, u32, scalar, connect, rust_future_continuation_callback,
}
use iroh_react_native_bridge.World.{World, Js, Job}
use iroh_react_native_bridge.Status
use iroh_react_native_bridge.Status.{rust_success}
use iroh_react_native_bridge.Methods.{future_poll}
use iroh_react_native_bridge.Call.{plain_call, lower_args, lower, lift}
use iroh_react_native_bridge.Callback.{make_callback_function, callback, destroy_module, install}
use iroh_react_native_bridge.Callback.Lifecycle.{
  System, start, make, Reach, here, next, IsInitial, callback_alive,
}
use iroh_react_native_bridge.Callback.Registration.{overlap_loses_calls}
use iroh_react_native_bridge.HostObject.{function, construct, get, invoke}
use iroh_react_native_bridge.HostObject.Table.{exported, poll}
use iroh_react_native_bridge.HostObject.Names.{js_name, arity}
use iroh_react_native_bridge.HostObject.Laws.{get-construct}
use iroh_react_native_bridge.HostObject.Arity.{invoke-arity}
use iroh_react_native_bridge.ForeignFuture.{
  return_value_from_js, complete_to_js, into_rust, result_from_js,
}
use iroh_react_native_bridge.Sample.{engine, world}

-- Runtime 4 registers function 5.
abbrev registered : World engine
registered = record world { continuation = some (record { runtime = 4; function = object 5 }) }

abbrev initial : System engine
initial = record { world = world; alive = λ r. false }

abbrev up : System engine
up = record { world = world; alive = λ r. if r == 4 then true else false }

abbrev polled : System engine
polled = record up { world = registered }

make_test :
    make_callback_function engine rust_future_continuation_callback 4 (object 5) world
    ≡ returned rust_future_continuation_callback registered
unfolding make_callback_function install
make_test = refl

reached : Reach engine initial polled
reached =
    next (next here (start 4)) (make rust_future_continuation_callback 4 (object 5) refl make_test)

nothing_registered : IsInitial engine initial
nothing_registered = record { no_continuation = refl; no_dropped = refl }

callback_alive_example :
    ((callback engine rust_future_continuation_callback (7 ∷ 0 ∷ []) polled.world).jobs
      ≡ polled.world.jobs)
    ⊎ ((job : Job engine) × ((callback engine rust_future_continuation_callback
            (7 ∷ 0 ∷ [])
            polled.world).jobs
          ≡ polled.world.jobs ++ job ∷ [])
        × (polled.alive job.runtime ≡ true))
callback_alive_example =
    callback_alive engine rust_future_continuation_callback (7 ∷ 0 ∷ []) nothing_registered reached

overlap_loses_calls_example :
    (w' : World engine) × (make_callback_function engine rust_future_continuation_callback 4
        (object 5)
        world
      ≡ returned rust_future_continuation_callback w')
    × (make_callback_function engine rust_future_continuation_callback 9 (object 5) w'
        ≡ returned rust_future_continuation_callback w')
    × (callback engine rust_future_continuation_callback (7 ∷ 0 ∷ []) (destroy_module engine w')
        ≡ destroy_module engine w')
    × ((destroy_module engine w').jobs ≡ [])
overlap_loses_calls_example =
    overlap_loses_calls engine rust_future_continuation_callback 4 9 5 5 (7 ∷ 0 ∷ []) world refl
      refl

get-construct_example :
    (get engine (construct engine) "rustbuffer_alloc" ≡ function 4 (exported connect))
    ↔ (("rustbuffer_alloc" ≡ js_name (exported connect)) × (4 ≡ arity (exported connect)))
get-construct_example = get-construct engine "rustbuffer_alloc" 4 (exported connect)

-- Polling a future registers the continuation.
poll_test :
    invoke engine 4 (poll u8) (number 1 ∷ object 5 ∷ number 2 ∷ []) world
    ≡ returned undefined registered
unfolding future_poll rust_future_poll_u8 plain_call lower_args lower make_callback_function install
    lift
poll_test = refl

invoke-arity_example :
    arity (poll u8) ≤ length {A = Js engine} (number 1 ∷ object 5 ∷ number 2 ∷ [])
invoke-arity_example =
    invoke-arity engine 4 (poll u8) (number 1 ∷ object 5 ∷ number 2 ∷ []) world poll_test

return_value_test : return_value_from_js engine 4 u32 6 world ≡ returned (scalar 41) world
unfolding return_value_from_js lower
return_value_test = refl

call_status_test :
    Status.from_js engine rust_success (engine.get_property world.state 6 "call_status") world
    ≡ returned rust_success world
unfolding Status.from_js
call_status_test = refl

completed_test :
    (complete_function engine rust_success 4 u32 77).lambda (number 9 ∷ object 6 ∷ []) world
    ≡ returned undefined
        (record world { state = engine.ffi_complete u32 77 9 (scalar 41) rust_success world.state })
unfolding complete_function complete_to_js_u32 complete_to_js into_rust result_from_js
    return_value_from_js Status.from_js lower
completed_test = refl

get-declared_example :
    (m : Method) × (get engine (construct engine) (property_name (fn_func send))
      ≡ function (length (declaration (fn_func send)).params) m)
    × (invoke engine 4 m ≡ declared_call engine (fn_func send) (declaration (fn_func send)) 4)
get-declared_example = get-declared engine 4 (fn_func send)
