-- ===== src/Callback/Lifecycle.antt =====
-- Runtimes come and go while Rust futures are polled: every order of the events, and what
-- `rsLambda` holds after each.
use iroh_react_native_bridge.Base.{
  ℕ, ◌≡◌, refl, Bool, true, false, List, [], ◌∷◌, ◌++◌, if◌then◌else◌, ◌==◌, Option, none, some,
  returned, arith, Option-cases, inl, inr, ◌⊎◌,
}
use iroh_react_native_bridge.Platform.{
  Platform, object, CallbackPointer, rust_future_continuation_callback,
  foreign_future_dropped_callback,
}
use iroh_react_native_bridge.World.{World, Lambda, Job, Js}
use iroh_react_native_bridge.Callback.{
  rs_lambda, set_rs_lambda, make_callback_function, install, callback, destroy_module,
}

module _ (p : Platform) where
  -- The bridge and which runtimes are up.
  pub record System : Type 0 where
    pub world : World p
    pub alive : ℕ → Bool

  -- One event: a runtime starts; a live one polls a future or passes a dropped-callback; Rust calls
  -- back; a module is destroyed (another took its place) under a live runtime; a runtime shuts
  -- down, which destroys its module first.
  pub data Step (s : System) : System → Type 0 where
    start : (rt : ℕ) → Step s (record s { alive = λ r. if r == rt then true else s.alive r })
    make :
        (cb : CallbackPointer) (rt : ℕ) (value : Js p) {w : World p}
        → s.alive rt ≡ true
        → make_callback_function p cb rt value s.world ≡ returned cb w
        → Step s (record s { world = w })
    call_back :
        (cb : CallbackPointer) (arguments : List ℕ)
        → Step s (record s { world = callback p cb arguments s.world })
    collect : Step s (record s { world = destroy_module p s.world })
    shut_down :
        (rt : ℕ)
        → Step s (record {
          world = destroy_module p s.world;
          alive = λ r. if r == rt then false else s.alive r;
        })

  pub data Reach (s : System) : System → Type 0 where
    here : Reach s s
    next : {t u : System} → Reach s t → Step t u → Reach s u

  -- Nothing registered yet, and no runtime up.
  pub record IsInitial (s : System) : Type 0 where
    pub no_continuation : s.world.continuation ≡ none
    pub no_dropped : s.world.dropped ≡ none

  -- What `rsLambda` captures by reference is alive.
  abbrev pub IsAlive : System → Option (Lambda p) → Type 0
  IsAlive s none = Unit {0}
  IsAlive s (some l) = s.alive l.runtime ≡ true

  pub record IsSafe (s : System) : Type 0 where
    pub continuation : IsAlive s s.world.continuation
    pub dropped : IsAlive s s.world.dropped

  -- `makeCallbackFunction` keeps what is registered, or registers a function of its own runtime.
  install_cases :
      (cb : CallbackPointer) (rt : ℕ) (value : Js p) (w w' : World p)
      → install p cb rt value w ≡ returned cb w'
      → (f : p.Object) × (value ≡ object f)
        × (w' ≡ set_rs_lambda p cb (some (record { runtime = rt; function = object f })) w)
  unfolding install
  install_cases cb rt (object f) w w' e = (f, refl, ground arith)
  install_cases cb rt _ w w' e = ground arith

  make_cases :
      (cb : CallbackPointer) (rt : ℕ) (value : Js p) (w w' : World p)
      → make_callback_function p cb rt value w ≡ returned cb w'
      → (w' ≡ w)
        ⊎ ((f : p.Object) × (value ≡ object f)
            × (w' ≡ set_rs_lambda p cb (some (record { runtime = rt; function = object f })) w))
  unfolding make_callback_function
  make_cases cb rt value w w' e = elim (Option-cases (rs_lambda p cb w)) [
    | inl h ↦ inr (install_cases cb rt value w w' (ground arith))
    | inr (l, h) ↦ inl (ground arith)
  ]

  set_rs_lambda-IsSafe :
      (s : System) (cb : CallbackPointer) (l : Lambda p)
      → s.alive l.runtime ≡ true
      → IsSafe s
      → IsSafe (record s { world = set_rs_lambda p cb (some l) s.world })
  set_rs_lambda-IsSafe s rust_future_continuation_callback l up safe = record {
    continuation = up;
    dropped = safe.dropped;
  }
  set_rs_lambda-IsSafe s foreign_future_dropped_callback l up safe = record {
    continuation = safe.continuation;
    dropped = up;
  }

  make-IsSafe :
      (s : System) (cb : CallbackPointer) (rt : ℕ) (value : Js p) (w : World p)
      → s.alive rt ≡ true
      → make_callback_function p cb rt value s.world ≡ returned cb w
      → IsSafe s
      → IsSafe (record s { world = w })
  make-IsSafe s cb rt value w up e safe = elim (make_cases cb rt value s.world w e) [
    | inl same ↦ rw same safe
    | inr (f, _, changed) ↦ rw changed (set_rs_lambda-IsSafe s cb _ up safe)
  ]

  start-IsAlive :
      (s : System) (rt : ℕ) (l : Option (Lambda p))
      → IsAlive s l
      → IsAlive (record s { alive = λ r. if r == rt then true else s.alive r }) l
  start-IsAlive s rt none h = tt
  start-IsAlive s rt (some l) h = ground arith

  callback_keeps :
      (cb : CallbackPointer) (arguments : List ℕ) (w : World p)
      → ((callback p cb arguments w).continuation ≡ w.continuation)
        × ((callback p cb arguments w).dropped ≡ w.dropped)
  unfolding callback
  callback_keeps cb arguments w = elim (Option-cases (rs_lambda p cb w)) [
    | inl h ↦ (ground arith, ground arith)
    | inr (l, h) ↦ (ground arith, ground arith)
  ]

  Step-IsSafe : {s t : System} → Step s t → IsSafe s → IsSafe t
  unfolding destroy_module
  Step-IsSafe {s} (start rt) safe = record {
    continuation = start-IsAlive s rt s.world.continuation safe.continuation;
    dropped = start-IsAlive s rt s.world.dropped safe.dropped;
  }
  Step-IsSafe {s} (make cb rt value {w} up e) safe = make-IsSafe s cb rt value w up e safe
  Step-IsSafe {s} (call_back cb arguments) safe = record {
    continuation = rw (callback_keeps cb arguments s.world).0 safe.continuation;
    dropped = rw (callback_keeps cb arguments s.world).1 safe.dropped;
  }
  Step-IsSafe collect safe = record { continuation = tt; dropped = tt }
  Step-IsSafe (shut_down rt) safe = record { continuation = tt; dropped = tt }

  IsInitial-IsSafe : (s : System) → IsInitial s → IsSafe s
  IsInitial-IsSafe s i = record {
    continuation = rw i.no_continuation tt;
    dropped = rw i.no_dropped tt;
  }

  -- Whatever runtimes start, poll, are called back, lose their module and shut down, and in
  -- whatever order, the runtime that a registered `rsLambda` captured by reference is alive, for
  -- both callbacks, if nothing is registered at first.
  pub Reach-IsSafe : {s t : System} → IsInitial s → Reach s t → IsSafe t
  Reach-IsSafe {s} i here = IsInitial-IsSafe s i
  Reach-IsSafe i (next r st) = Step-IsSafe st (Reach-IsSafe i r)

  IsAlive_of_registered :
      (s : System) (cb : CallbackPointer) (l : Lambda p)
      → IsSafe s
      → rs_lambda p cb s.world ≡ some l
      → s.alive l.runtime ≡ true
  IsAlive_of_registered s rust_future_continuation_callback l safe h = rw h at safe.continuation
  IsAlive_of_registered s foreign_future_dropped_callback l safe h = rw h at safe.dropped

  -- Every job that a call from Rust hands to the CallInvoker, in a state that can be reached, is
  -- for a runtime that is alive: the jobs grow by nothing or by one job on a live runtime.
  pub callback_alive :
      {s t : System} (cb : CallbackPointer) (arguments : List ℕ)
      → IsInitial s
      → Reach s t
      → ((callback p cb arguments t.world).jobs ≡ t.world.jobs)
        ⊎ ((job : Job p) × ((callback p cb arguments t.world).jobs ≡ t.world.jobs ++ job ∷ [])
            × (t.alive job.runtime ≡ true))
  unfolding callback
  callback_alive {s} {t} cb arguments i r = elim (Option-cases (rs_lambda p cb t.world)) [
    | inl h ↦ inl (ground arith)
    | inr (l, h) ↦ inr (
      record { runtime = l.runtime; function = l.function; arguments = arguments },
      ground arith,
      IsAlive_of_registered t cb l (Reach-IsSafe i r) h,
    )
  ]
