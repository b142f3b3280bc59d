-- ===== src/Sample/Sessions.antt =====
-- The eviction of sessions, applied to a full cache.
use package.text.Mathlib.Text.{◌==◌ as str_eq}
use iroh_react_native_bridge.Base.{
  ℕ, ◌≤◌, ◌≡◌, refl, String, Bool, true, false, not, ◌&&◌, [], ◌∷◌, none, some, All, arith,
}
use iroh_react_native_bridge.Node.Sessions.{
  Cache, ManagedSession, Sessions, find, cache_session, insert, evict, oldest, remove,
}
use iroh_react_native_bridge.Node.Sessions.Eviction.{IsDistinct, cache_session-evicts}

-- A full cache, in which "a0" is the oldest.
abbrev used : ℕ → ManagedSession (Unit {0})
used n = record { connection = tt; last_used = n }

abbrev full_cache : Cache (Unit {0})
full_cache = record {
  sessions =
      ("a0", used 1)
      ∷ ("a1", used 2)
      ∷ ("a2", used 3)
      ∷ ("a3", used 4)
      ∷ ("a4", used 5)
      ∷ ("a5", used 6)
      ∷ ("a6", used 7)
      ∷ ("a7", used 8)
      ∷ ("a8", used 9)
      ∷ ("a9", used 10)
      ∷ ("b0", used 11)
      ∷ ("b1", used 12)
      ∷ ("b2", used 13)
      ∷ ("b3", used 14)
      ∷ ("b4", used 15)
      ∷ ("b5", used 16)
      ∷ ("b6", used 17)
      ∷ ("b7", used 18)
      ∷ ("b8", used 19)
      ∷ ("b9", used 20)
      ∷ ("c0", used 21)
      ∷ ("c1", used 22)
      ∷ ("c2", used 23)
      ∷ ("c3", used 24)
      ∷ ("c4", used 25)
      ∷ ("c5", used 26)
      ∷ ("c6", used 27)
      ∷ ("c7", used 28)
      ∷ ("c8", used 29)
      ∷ ("c9", used 30)
      ∷ ("d0", used 31)
      ∷ ("d1", used 32)
      ∷ [];
  next_session_use = 33;
}

abbrev differs : String → Sessions (Unit {0}) → Bool
differs k [] = true
differs k ((j, s) ∷ m) = not (str_eq k j) && differs k m

abbrev all_differ : Sessions (Unit {0}) → Bool
all_differ [] = true
all_differ ((j, s) ∷ m) = differs j m && all_differ m

differs_sound :
    (k : String) (m : Sessions (Unit {0})) → differs k m ≡ true → All (λ f. str_eq k f.0 ≡ false) m
differs_sound k [] h = tt
differs_sound k ((j, s) ∷ m) h = (ground arith, differs_sound k m (ground arith))

all_differ-IsDistinct : (m : Sessions (Unit {0})) → all_differ m ≡ true → IsDistinct m
all_differ-IsDistinct [] h = tt
all_differ-IsDistinct ((j, s) ∷ m) h =
    (differs_sound j m (ground arith), all_differ-IsDistinct m (ground arith))

found_test : find "a0" full_cache.sessions ≡ some (used 1)
unfolding find
found_test = refl

gone_test : find "a0" (cache_session "new" tt full_cache).sessions ≡ none
unfolding find cache_session insert evict oldest remove
gone_test = refl

kept_test : find "a1" (cache_session "new" tt full_cache).sessions ≡ some (used 2)
unfolding find cache_session insert evict oldest remove
kept_test = refl

cache_session-evicts_example : 1 ≤ 2
cache_session-evicts_example =
    cache_session-evicts "new" tt full_cache "a0" "a1" (used 1) (used 2)
      (all_differ-IsDistinct full_cache.sessions refl) refl found_test gone_test kept_test
