-- ===== src/Sample/JavaVm.antt =====
-- A Java VM that meets the laws of JNI.
use iroh_react_native_bridge.Base.{
  ℕ, ◌+◌, refl, List, [], ◌∷◌, if◌then◌else◌, ◌==◌, arith, not, length,
}
use iroh_react_native_bridge.Install.Android.{Jni, JniLaws}
use iroh_react_native_bridge.Sample.{==-self}

-- A Java VM at address 7 with numbered references; Rust takes every context but 13.
pub record JavaVm : Type 0 where
  pub held : List ℕ
  pub next : ℕ

abbrev remove : ℕ → List ℕ → List ℕ
remove a [] = []
remove a (b ∷ bs) = let rest = remove a bs in if b == a then bs else b ∷ rest

abbrev pub jni : Jni
jni = record {
  State = JavaVm;
  get_java_vm = λ s. (0, 7);
  new_global_ref = λ o s. (s.next + 1, record { held = (s.next + 1) ∷ s.held; next = s.next + 1 });
  delete_global_ref = λ r s. record s { held = remove r s.held };
  install_android_jni_context = λ vm o s. (not (o == 13), s);
}

abbrev pub jni_laws : JniLaws jni
jni_laws = record {
  global_refs = λ s. length s.held;
  global_refs-new = λ o s h. omega arith;
  global_refs-new_failed = λ o s h. absurd (omega arith);
  global_refs-install = λ vm o s. refl;
  global_refs-delete = λ vm o s h. rw (==-self (s.next + 1));
}
