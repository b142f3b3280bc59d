-- ===== src/Install/Android.antt =====
-- The Android context on its way from Kotlin through JNI and C++ to Rust.
use iroh_react_native_bridge.Base.{
  ℕ, ◌+◌, ◌≡◌, ◌≢◌, Bool, true, false, not, ◌||◌, if◌then◌else◌, ◌==◌, Bool-cases, inl, inr, arith,
}

-- JNI, and the Rust crate's calls into iroh_dns. `State` is the Java VM's.
pub record Jni : Type 1 where
  pub State : Type 0
  -- GetJavaVM: its code and the VM's address
  pub get_java_vm : State → ℕ × ℕ
  pub new_global_ref : ℕ → State → ℕ × State
  pub delete_global_ref : ℕ → State → State
  -- iroh_dns::install_android_jni_context under catch_unwind: whether it came back without a panic
  pub install_android_jni_context : ℕ → ℕ → State → Bool × State

-- `global_refs` counts the global references; no code reads it.
pub record JniLaws (j : Jni) : Type 0 where
  pub global_refs : j.State → ℕ
  pub global_refs-new :
      (o : ℕ) (s : j.State)
      → (j.new_global_ref o s).0 ≢ 0
      → global_refs (j.new_global_ref o s).1 ≡ global_refs s + 1
  pub global_refs-new_failed :
      (o : ℕ) (s : j.State)
      → (j.new_global_ref o s).0 ≡ 0
      → global_refs (j.new_global_ref o s).1 ≡ global_refs s
  -- Rust keeps or drops the raw pointers that it is given, and neither makes nor deletes
  -- references.
  pub global_refs-install :
      (vm o : ℕ) (s : j.State)
      → global_refs (j.install_android_jni_context vm o s).1 ≡ global_refs s
  -- A reference that was just made can be deleted, also after Rust has been given it.
  pub global_refs-delete :
      (vm o : ℕ) (s : j.State)
      → (j.new_global_ref o s).0 ≢ 0
      → global_refs (
          j.delete_global_ref
            (j.new_global_ref o s).0
            (j.install_android_jni_context vm (j.new_global_ref o s).0 (j.new_global_ref o s).1).1)
        ≡ global_refs s

abbrev jni_ok : ℕ
jni_ok = 0

module _ (j : Jni) where
  -- `ANDROID_CONTEXT_INITIALIZED`, beside the VM's state.
  pub record Device : Type 0 where
    pub vm : j.State
    pub initialized : Bool

  -- react_native_iroh_init_android_context of lib.rs, on Android
  unfoldable pub rust_init_android_context : ℕ → ℕ → Device → ℕ × Device
  rust_init_android_context java_vm application_context d =
      if d.initialized
      then (1, d)
      else if java_vm == 0 || application_context == 0
      then (0, d)
      else (let (done, s) = j.install_android_jni_context java_vm application_context d.vm in
          if done
          then (1, record { vm = s; initialized = true })
          else (0, record { vm = s; initialized = false }))

  -- reactnativeiroh::initAndroidContext; `android` says whether __ANDROID__ is defined.
  unfoldable pub cpp_init_android_context : Bool → ℕ → ℕ → Device → ℕ × Device
  unfolding rust_init_android_context
  cpp_init_android_context android java_vm application_context d =
      if android then rust_init_android_context java_vm application_context d else (1, d)

  -- The part of the adapter's initAndroidContext that has the new global reference.
  unfoldable pub with_global_context : ℕ → ℕ → Device → Bool × Device
  unfolding cpp_init_android_context
  with_global_context java_vm global_context d =
      let (initialized, d') = cpp_init_android_context true java_vm global_context d in
      (
        not (initialized == 0),
        if initialized == 0
            then record d' { vm = j.delete_global_ref global_context d'.vm }
            else d',
      )

  -- initAndroidContext of cpp-adapter.cpp
  unfoldable pub init_android_context : ℕ → Device → Bool × Device
  init_android_context application_context d =
      let (code, java_vm) = j.get_java_vm d.vm in
      if not (code == jni_ok) || java_vm == 0 || application_context == 0
      then (false, d)
      else (let (global_context, s) = j.new_global_ref application_context d.vm in
          if global_context == 0
          then (false, record d { vm = s })
          else with_global_context java_vm global_context (record d { vm = s }))

module _ (j : Jni) (laws : JniLaws j) where
  abbrev pub made : ℕ → Device j → ℕ × j.State
  made o d = j.new_global_ref o d.vm

  -- The reference made for `o` is kept exactly where Rust takes the context.
  with_global_context_refs :
      (java_vm o : ℕ) (d : Device j)
      → java_vm ≢ 0
      → (made o d).0 ≢ 0
      → let (kept, d') =
          with_global_context j java_vm (made o d).0 (record d { vm = (made o d).1 }) in
        (laws.global_refs d'.vm ≡ laws.global_refs d.vm + (if kept then 1 else 0))
        × (d'.initialized ≡ (d.initialized || kept))
  unfolding with_global_context
  with_global_context_refs java_vm o d some_vm some_ref = ground (
    arith,
    laws.global_refs-new o d.vm some_ref,
    laws.global_refs-install java_vm (made o d).0 (made o d).1,
    laws.global_refs-delete java_vm o d.vm some_ref,
  )

  -- Whatever JNI and Rust answer, `initAndroidContext` keeps exactly one new global reference where
  -- it reports success, and then Rust's context is initialised; where it reports failure it leaves
  -- no reference behind, and Rust is as initialised as before.
  pub init_android_context_refs :
      (application_context : ℕ) (d : Device j)
      → let (kept, d') = init_android_context j application_context d in
        (laws.global_refs d'.vm ≡ laws.global_refs d.vm + (if kept then 1 else 0))
        × (d'.initialized ≡ (d.initialized || kept))
  unfolding init_android_context
  init_android_context_refs o d =
      elim (Bool-cases (not (code == jni_ok) || java_vm == 0 || o == 0)) [
        | inl bad ↦ ground arith
        | inr good ↦ elim (Bool-cases ((made o d).0 == 0)) [
          | inl null ↦ ground (arith, laws.global_refs-new_failed o d.vm)
          | inr ref ↦
              ground (arith, with_global_context_refs java_vm o d (ground arith) (ground arith))
        ]
      ]
    where
      code : ℕ
      code = (j.get_java_vm d.vm).0

      java_vm : ℕ
      java_vm = (j.get_java_vm d.vm).1

  -- On a device whose Rust context is initialised already, each further `initAndroidContext` whose
  -- JNI calls work reports success, hands Rust nothing, and leaves one more global reference
  -- behind.
  pub init_android_context_again :
      (application_context : ℕ) (d : Device j)
      → d.initialized ≡ true
      → (j.get_java_vm d.vm).0 ≡ jni_ok
      → (j.get_java_vm d.vm).1 ≢ 0
      → application_context ≢ 0
      → (made application_context d).0 ≢ 0
      → (init_android_context j application_context d
          ≡ (true, record d { vm = (made application_context d).1 }))
        × (laws.global_refs (made application_context d).1 ≡ laws.global_refs d.vm + 1)
  unfolding init_android_context with_global_context
  init_android_context_again o d up okay vm ctx ref =
      (ground arith, laws.global_refs-new o d.vm ref)
