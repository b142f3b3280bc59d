-- ===== src/Node/Sessions/Reuse.antt =====
-- What holds of every session in the cache, whoever uses it.
use text.Mathlib.Text.{◌==◌ as str_eq}
use text.Mathlib.TextEquality.{eq_iff}
use mathlib.Core.Path.{subst}
use iroh_react_native_bridge.Base.{
  ℕ, ◌≡◌, refl, String, Bool, [], ◌∷◌, Option, none, some, All, arith, Bool-cases, inl, inr, length,
}
use iroh_react_native_bridge.Node.Sessions.{
  ManagedSession, Sessions, Cache, find, insert, set_last_used, used, use_session, without_missing,
  take_session, cache_session,
}
use iroh_react_native_bridge.Node.Sessions.Newest.{All-remove}
use iroh_react_native_bridge.Node.Sessions.Eviction.{All-evict}

-- A property of a session's key and connection.
module _ {κ} {C : Type 0} (P : String → C → Type κ) where
  abbrev pub AllSessions : Sessions C → Type κ
  AllSessions m = All (λ e. P e.0 e.1.connection) m

  AllSessions-find :
      (key : String) (m : Sessions C) (s : ManagedSession C)
      → AllSessions m
      → find key m ≡ some s
      → P key s.connection
  unfolding find
  AllSessions-find key [] s h e = absurd (ground arith)
  AllSessions-find key ((j, u) ∷ m) s h e = elim (Bool-cases (str_eq j key)) [
    | inl same ↦
        let found : u ≡ s = ground arith in
        subst (λ x. P key x.connection) found
          (subst (λ k. P k u.connection) ((eq_iff j key).0 same) h.0)
    | inr other ↦ AllSessions-find key m s h.1 (rw other at e)
  ]

  AllSessions-set_last_used :
      (key : String) (n : ℕ) (m : Sessions C) → AllSessions m → AllSessions (set_last_used key n m)
  unfolding set_last_used
  AllSessions-set_last_used key n [] h = tt
  AllSessions-set_last_used key n ((j, s) ∷ m) h = elim (Bool-cases (str_eq j key)) [
    | inl same ↦ rw same (h.0, h.1)
    | inr other ↦ rw other (h.0, AllSessions-set_last_used key n m h.1)
  ]

  -- What was taken, and what is left.
  abbrev pub Taken : String → Option C × Cache C → Type κ
  Taken key (o, cache) = ((c : C) → o ≡ some c → P key c) × AllSessions cache.sessions

  used-Taken :
      (is_closed : C → Bool) (key : String) (o : Option (ManagedSession C)) (cache : Cache C)
      → find key cache.sessions ≡ o
      → AllSessions cache.sessions
      → Taken key (used is_closed key o cache)
  used-Taken is_closed key none cache e h = (λ c x. absurd (ground arith), h)
  used-Taken is_closed key (some s) cache e h = elim (Bool-cases (is_closed s.connection)) [
    | inl shut ↦ rw shut (λ c x. absurd (ground arith), h)
    | inr live ↦ rw live (
      λ c x. subst (P key) (ground arith) (AllSessions-find key cache.sessions s h e),
      AllSessions-set_last_used key _ cache.sessions h,
    )
  ]

  pub use_session-Taken :
      (is_closed : C → Bool) (key : String) (cache : Cache C)
      → AllSessions cache.sessions
      → Taken key (use_session is_closed key cache)
  unfolding use_session
  use_session-Taken is_closed key cache h = used-Taken is_closed key _ cache refl h

  without_missing-Taken :
      (key : String) (x : Option C × Cache C) → Taken key x → Taken key (without_missing key x)
  without_missing-Taken key (none, cache) h =
      (λ c e. absurd (ground arith), All-remove _ key cache.sessions h.1)
  without_missing-Taken key (some c, cache) h = h

  pub take_session-Taken :
      (is_closed : C → Bool) (key : String) (cache : Cache C)
      → AllSessions cache.sessions
      → Taken key (take_session is_closed key cache)
  unfolding take_session
  take_session-Taken is_closed key cache h =
      without_missing-Taken key _ (use_session-Taken is_closed key cache h)

  pub AllSessions-cache_session :
      (key : String) (c : C) (cache : Cache C)
      → P key c
      → AllSessions cache.sessions
      → AllSessions (cache_session key c cache).sessions
  unfolding cache_session insert
  AllSessions-cache_session key c cache new h =
      let session : ManagedSession C = record {
        connection = c;
        last_used = cache.next_session_use;
      } in
      let m = insert key session cache.sessions in
      All-evict (λ e. P e.0 e.1.connection) (length m) m (new, All-remove _ key cache.sessions h)
