-- ===== src/Node/Sessions/Newest.antt =====
-- The bound of the cache, and which session survives.
use text.Mathlib.Text.{◌==◌ as str_eq}
use mathlib.Core.Path.{subst}
use text.Mathlib.TextEquality.{eq_iff}
use iroh_react_native_bridge.Base.{
  ℕ, zero, suc, ◌+◌, ◌≤◌, ◌<◌, ◌≡◌, refl, sym, ◌∙◌, ap, String, Bool, true, false, [], ◌∷◌, some,
  length, All, arith, Bool-cases, inl, inr, ◌||◌, leb, ltb, ◌^◌, ◌%◌,
}
use iroh_react_native_bridge.Node.Sessions.{
  ManagedSession, Sessions, Cache, find, remove, oldest, evict, insert, cache_session,
  max_cached_sessions,
}

module _ {C : Type 0} where
  abbrev has : String → Sessions C → Bool
  has k [] = false
  has k ((j, s) ∷ m) = str_eq j k || has k m

  length-remove_le : (k : String) (m : Sessions C) → length (remove k m) ≤ length m
  unfolding remove
  length-remove_le k [] = omega arith
  length-remove_le k ((j, s) ∷ m) = ground (arith, length-remove_le k m)

  length-remove : (k : String) (m : Sessions C) → has k m ≡ true → length (remove k m) < length m
  unfolding remove
  length-remove k [] h = absurd (ground arith)
  length-remove k ((j, s) ∷ m) h = ground (arith, length-remove k m, length-remove_le k m)

  has-oldest : (e : String × ManagedSession C) (m : Sessions C) → has (oldest e m).0 (e ∷ m) ≡ true
  unfolding oldest
  has-oldest e [] = ground (arith, eq_iff e.0 e.0)
  has-oldest e (f ∷ m) = ground (arith, has-oldest e m, has-oldest f m)

  -- With fuel for its entries the loop ends below the bound.
  length-evict : (n : ℕ) (m : Sessions C) → length m ≤ n → length (evict n m) ≤ max_cached_sessions
  unfolding evict
  length-evict zero m h = omega arith
  length-evict (suc n) [] h = omega arith
  length-evict (suc n) (e ∷ m) h =
      let smaller = length-remove (oldest e m).0 (e ∷ m) (has-oldest e m) in
      ground (arith, length-evict n (remove (oldest e m).0 (e ∷ m)) (omega arith))

  -- What holds of every session holds of the ones that are kept, and of the oldest.
  pub All-remove {κ} :
      (P : String × ManagedSession C → Type κ) (k : String) (m : Sessions C)
      → All P m
      → All P (remove k m)
  unfolding remove
  All-remove P k [] h = h
  All-remove P k ((j, s) ∷ m) h = elim (Bool-cases (str_eq j k)) [
    | inl e ↦ rw e (All-remove P k m h.1)
    | inr e ↦ rw e (h.0, All-remove P k m h.1)
  ]

  pub oldest_all {κ} :
      (P : String × ManagedSession C → Type κ) (e : String × ManagedSession C) (m : Sessions C)
      → P e
      → All P m
      → P (oldest e m)
  unfolding oldest
  oldest_all P e [] pe h = pe
  oldest_all P e (f ∷ m) pe h = elim (Bool-cases (leb e.1.last_used f.1.last_used)) [
    | inl eq ↦ rw eq (oldest_all P e m pe h.1)
    | inr eq ↦ rw eq (oldest_all P f m h.0 h.1)
  ]

  -- The oldest is not a session that was used after all others.
  oldest_other {κ} :
      (P : String × ManagedSession C → Type κ) (e : String × ManagedSession C) (m : Sessions C)
      → 0 < length m
      → All (λ f. f.1.last_used < e.1.last_used) m
      → All P m
      → P (oldest e m)
  unfolding oldest
  oldest_other P e [] pos later h = absurd (omega arith)
  oldest_other P e (f ∷ m) pos later h =
      let older : f.1.last_used < e.1.last_used = later.0 in
      let test : leb e.1.last_used f.1.last_used ≡ false = ground arith in
      rw test (oldest_all P f m h.0 h.1)

  -- The loop keeps a session at the head that was used after all others and whose key is its alone.
  evict_head {κ} :
      (P : String × ManagedSession C → Type κ) (n : ℕ) (e : String × ManagedSession C)
      (m : Sessions C)
      → All (λ f. f.1.last_used < e.1.last_used) m
      → All (λ f. str_eq e.0 f.0 ≡ false) m
      → All P m
      → (rest : Sessions C) × (evict n (e ∷ m) ≡ e ∷ rest) × All P rest
  unfolding evict remove
  evict_head P zero e m later other h = (m, refl, h)
  evict_head P (suc n) e m later other h =
      elim (Bool-cases (ltb max_cached_sessions (length (e ∷ m)))) [
        | inr fits ↦ (m, ground arith, h)
        | inl full ↦
            let k = (oldest e m).0 in
            let kept : str_eq e.0 k ≡ false =
              oldest_other (λ f. str_eq e.0 f.0 ≡ false) e m (ground arith) later other in
            let (rest, eq, hs) =
              evict_head P n e (remove k m) (All-remove _ k m later) (All-remove _ k m other)
                (All-remove P k m h) in
            (rest, ground arith, hs)
      ]

  -- The key is gone from what is left.
  pub remove_other : (k : String) (m : Sessions C) → All (λ f. str_eq k f.0 ≡ false) (remove k m)
  unfolding remove
  remove_other k [] = tt
  remove_other k ((j, s) ∷ m) = elim (Bool-cases (str_eq j k)) [
    | inl e ↦ rw e (remove_other k m)
    | inr e ↦ rw e (ground (arith, eq_iff j k, eq_iff k j), remove_other k m)
  ]

  -- Every session was used before the counter's value.
  abbrev pub IsValid : Cache C → Type 0
  IsValid cache = All (λ e. e.1.last_used < cache.next_session_use) cache.sessions

  pub weaken :
      (n k : ℕ) (m : Sessions C)
      → n ≤ k
      → All (λ e. e.1.last_used < n) m
      → All (λ e. e.1.last_used < k) m
  weaken n k [] le h = tt
  weaken n k (e ∷ m) le h = (omega (arith, h.0), weaken n k m le h.1)

  find_head :
      (key : String) (s : ManagedSession C) (rest : Sessions C)
      → find key ((key, s) ∷ rest) ≡ some s
  unfolding find
  find_head key s rest = ground (arith, eq_iff key key)

  -- Whatever the cache holds, `cache_session` ends with at most 32 sessions. Where every session in
  -- the cache was used before the counter's value, the new session is in the cache afterwards, with
  -- the counter's value as its last use, and, if the counter does not wrap, every session was again
  -- used before the counter's value.
  pub cache_session-bound :
      (key : String) (connection : C) (cache : Cache C)
      → IsValid cache
      → cache.next_session_use + 1 < 2 ^ 64
      → (length (cache_session key connection cache).sessions ≤ max_cached_sessions)
        × (find key (cache_session key connection cache).sessions
            ≡ some (record { connection = connection; last_used = cache.next_session_use }))
        × IsValid (cache_session key connection cache)
  unfolding cache_session insert
  cache_session-bound key connection cache v small =
      let (rest, eq, hs) =
        evict_head (λ e. e.1.last_used < n) (suc (length left)) entry left (All-remove _ key _ v)
          (remove_other key _) (All-remove _ key _ v) in
      (
        length-evict (suc (length left)) (entry ∷ left) (omega arith),
        ap (find key) eq ∙ find_head key entry.1 rest,
        subst (All (λ e. e.1.last_used < (n + 1) % 2 ^ 64)) (sym eq)
            (omega arith, weaken n ((n + 1) % 2 ^ 64) rest (omega arith) hs),
      )
    where
      n : ℕ
      n = cache.next_session_use

      entry : String × ManagedSession C
      entry = (key, record { connection = connection; last_used = n })

      left : Sessions C
      left = remove key cache.sessions
