-- ===== src/Node/Sessions/Eviction.antt =====
-- Which sessions the cache gives up.
use mathlib.Core.Path.{subst}
use text.Mathlib.Text.{◌==◌ as str_eq}
use text.Mathlib.TextEquality.{eq_iff}
use iroh_react_native_bridge.Base.{
  ℕ, zero, suc, ◌≤◌, ◌≡◌, ◌≢◌, refl, sym, ◌∙◌, ap, String, true, false, [], ◌∷◌, none, some, length,
  All, arith, Bool-cases, inl, inr, leb, ltb,
}
use iroh_react_native_bridge.Node.Sessions.{
  ManagedSession, Sessions, Cache, find, remove, oldest, evict, insert, cache_session,
  max_cached_sessions,
}
use iroh_react_native_bridge.Node.Sessions.Newest.{All-remove, oldest_all, remove_other}

module _ {C : Type 0} where
  -- No key stands twice.
  abbrev pub IsDistinct : Sessions C → Type 0
  IsDistinct [] = Unit {0}
  IsDistinct (e ∷ m) = All (λ f. str_eq e.0 f.0 ≡ false) m × IsDistinct m

  oldest_keeps :
      (e f : String × ManagedSession C) (m : Sessions C)
      → leb e.1.last_used f.1.last_used ≡ true
      → oldest e (f ∷ m) ≡ oldest e m
  unfolding oldest
  oldest_keeps e f m h = rw h

  oldest_moves :
      (e f : String × ManagedSession C) (m : Sessions C)
      → leb e.1.last_used f.1.last_used ≡ false
      → oldest e (f ∷ m) ≡ oldest f m
  unfolding oldest
  oldest_moves e f m h = rw h

  abbrev Least : String × ManagedSession C → Sessions C → Type 0
  Least o m = All (λ f. o.1.last_used ≤ f.1.last_used) m

  oldest-Least : (e : String × ManagedSession C) (m : Sessions C) → Least (oldest e m) (e ∷ m)
  unfolding oldest
  oldest-Least e [] = (omega arith, tt)
  oldest-Least e (f ∷ m) = elim (Bool-cases (leb e.1.last_used f.1.last_used)) [
    | inl le ↦
        let (first, rest) = oldest-Least e m in
        subst (λ o. Least o (e ∷ f ∷ m)) (sym (oldest_keeps e f m le)) (first, (ground arith, rest))
    | inr gt ↦
        let (first, rest) = oldest-Least f m in
        subst (λ o. Least o (e ∷ f ∷ m)) (sym (oldest_moves e f m gt)) (ground arith, (first, rest))
  ]

  evict_full :
      (n : ℕ) (e : String × ManagedSession C) (m : Sessions C)
      → ltb max_cached_sessions (length (e ∷ m)) ≡ true
      → evict (suc n) (e ∷ m) ≡ evict n (remove (oldest e m).0 (e ∷ m))
  unfolding evict
  evict_full n e m h = rw h

  evict_fits :
      (n : ℕ) (e : String × ManagedSession C) (m : Sessions C)
      → ltb max_cached_sessions (length (e ∷ m)) ≡ false
      → evict (suc n) (e ∷ m) ≡ e ∷ m
  unfolding evict
  evict_fits n e m h = rw h

  pub All-evict {κ} :
      (P : String × ManagedSession C → Type κ) (n : ℕ) (m : Sessions C)
      → All P m
      → All P (evict n m)
  unfolding evict
  All-evict P zero m h = h
  All-evict P (suc n) [] h = h
  All-evict P (suc n) (e ∷ m) h = elim (Bool-cases (ltb max_cached_sessions (length (e ∷ m)))) [
    | inl full ↦ rw full (All-evict P n _ (All-remove P (oldest e m).0 (e ∷ m) h))
    | inr fits ↦ rw fits h
  ]

  find-remove :
      (k j : String) (m : Sessions C) → str_eq k j ≡ false → find j (remove k m) ≡ find j m
  unfolding find remove
  find-remove k j [] h = refl
  find-remove k j ((i, s) ∷ m) h =
      ground (arith, find-remove k j m h, eq_iff i k, eq_iff i j, eq_iff k j)

  -- Every entry under a key that stands once is the one that is found.
  abbrev Once : String → ℕ → Sessions C → Type 0
  Once j x m = All (λ f. str_eq f.0 j ≡ true → f.1.last_used ≡ x) m

  tail-Once :
      (j i : String) (x : ℕ) (m : Sessions C)
      → str_eq i j ≡ true
      → All (λ f. str_eq i f.0 ≡ false) m
      → Once j x m
  tail-Once j i x [] same h = tt
  tail-Once j i x ((k, s) ∷ m) same h = (
    λ e. absurd (ground (arith, h.0, eq_iff i j, eq_iff k j, eq_iff i k)),
    tail-Once j i x m same h.1,
  )

  find-Once :
      (j : String) (m : Sessions C) (u : ManagedSession C)
      → IsDistinct m
      → find j m ≡ some u
      → Once j u.last_used m
  unfolding find
  find-Once j [] u d h = tt
  find-Once j ((i, s) ∷ m) u d h = elim (Bool-cases (str_eq i j)) [
    | inl same ↦
        let eq : s ≡ u = ground arith in
        (λ _. ap (λ t. t.last_used) eq, tail-Once j i u.last_used m same d.0)
    | inr other ↦ (λ e. absurd (ground arith), find-Once j m u d.1 (rw other at h))
  ]

  none-ne-find :
      (m rest : Sessions C) (j : String) {u : ManagedSession C}
      → find j m ≡ some u
      → rest ≡ m
      → find j rest ≢ none
  none-ne-find m rest j there same gone = absurd (ground (arith, ap (find j) same))

  -- What is kept is not older than what was found and is gone.
  evict_older :
      (n : ℕ) (m : Sessions C) (j : String) (u : ManagedSession C)
      → Once j u.last_used m
      → find j m ≡ some u
      → find j (evict n m) ≡ none
      → All (λ f. u.last_used ≤ f.1.last_used) (evict n m)
  unfolding evict
  evict_older zero m j u once there gone = absurd (none-ne-find m m j there refl gone)
  evict_older (suc n) [] j u once there gone = absurd (none-ne-find [] [] j there refl gone)
  evict_older (suc n) (e ∷ m) j u once there gone =
      elim (Bool-cases (ltb max_cached_sessions (length (e ∷ m)))) [
        | inr fits ↦ absurd (none-ne-find (e ∷ m) _ j there (evict_fits n e m fits) gone)
        | inl full ↦
            subst (All (λ f. u.last_used ≤ f.1.last_used)) (sym (evict_full n e m full))
              (elim (Bool-cases (str_eq (oldest e m).0 j)) [
                | inl same ↦
                    let age : (oldest e m).1.last_used ≡ u.last_used =
                      oldest_all (λ f. str_eq f.0 j ≡ true → f.1.last_used ≡ u.last_used) e m once.0
                        once.1 same in
                    let least : All (λ f. u.last_used ≤ f.1.last_used) (e ∷ m) =
                      subst (λ x. All (λ f. x ≤ f.1.last_used) (e ∷ m)) age (oldest-Least e m) in
                    All-evict _ n _ (All-remove _ (oldest e m).0 (e ∷ m) least)
                | inr other ↦
                    evict_older n (remove (oldest e m).0 (e ∷ m)) j u
                      (All-remove _ (oldest e m).0 (e ∷ m) once)
                      (find-remove (oldest e m).0 j (e ∷ m) other ∙ there)
                      (ap (find j) (sym (evict_full n e m full)) ∙ gone)
              ])
      ]

  find_all {κ} :
      (Q : ManagedSession C → Type κ) (m : Sessions C) (k : String) {s : ManagedSession C}
      → All (λ e. Q e.1) m
      → find k m ≡ some s
      → Q s
  unfolding find
  find_all Q [] k h there = absurd (ground arith)
  find_all Q ((j, t) ∷ m) k h there = elim (Bool-cases (str_eq j k)) [
    | inl same ↦ let eq : t ≡ _ = ground arith in subst Q eq h.0
    | inr other ↦ find_all Q m k h.1 (rw other at there)
  ]

  remove-IsDistinct : (k : String) (m : Sessions C) → IsDistinct m → IsDistinct (remove k m)
  unfolding remove
  remove-IsDistinct k [] d = tt
  remove-IsDistinct k ((j, s) ∷ m) d = elim (Bool-cases (str_eq j k)) [
    | inl e ↦ rw e (remove-IsDistinct k m d.1)
    | inr e ↦ rw e (All-remove _ k m d.0, remove-IsDistinct k m d.1)
  ]

  find-insert :
      (key j : String) (s : ManagedSession C) (m : Sessions C)
      → str_eq key j ≡ false
      → find j ((key, s) ∷ remove key m) ≡ find j m
  unfolding find
  find-insert key j s m other = rw other (find-remove key j m other)

  -- `cache_session` gives up the least recently used: a session that was in the cache under another
  -- key and is not there afterwards was last used no later than any session that is. No key stands
  -- twice in the cache.
  pub cache_session-evicts :
      (key : String) (connection : C) (cache : Cache C) (j i : String) (u v : ManagedSession C)
      → IsDistinct cache.sessions
      → str_eq key j ≡ false
      → find j cache.sessions ≡ some u
      → find j (cache_session key connection cache).sessions ≡ none
      → find i (cache_session key connection cache).sessions ≡ some v
      → u.last_used ≤ v.last_used
  unfolding cache_session insert
  cache_session-evicts key connection cache j i u v d other there gone kept =
      find_all (λ s. u.last_used ≤ s.last_used) _ i
        (evict_older (suc (length left)) (entry ∷ left) j u
          (find-Once j (entry ∷ left) u
            (remove_other key cache.sessions, remove-IsDistinct key cache.sessions d) still)
          still gone)
        kept
    where
      left : Sessions C
      left = remove key cache.sessions

      entry : String × ManagedSession C
      entry = (key, record { connection = connection; last_used = cache.next_session_use })

      still : find j (entry ∷ left) ≡ some u
      still = find-insert key j entry.1 cache.sessions other ∙ there
