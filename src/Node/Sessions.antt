-- ===== src/Node/Sessions.antt =====
-- The cache of sessions: cache_session of rust/iroh_mobile_bridge/src/lib.rs, and how
-- connect_endpoint_addr and the TCP forwarder take a session out of it. The HashMap is a list of
-- its entries, the latest first. Only `min_by_key` meets the order, and only where two entries were
-- last used at the same count.
pub mod Newest
pub mod Eviction
pub mod Reuse
use text.Mathlib.Text.{◌==◌ as str_eq}
use iroh_react_native_bridge.Base.{
  ℕ, zero, suc, Bool, ◌+◌, ◌%◌, ◌^◌, String, List, [], ◌∷◌, Option, none, some, if◌then◌else◌, ltb,
  leb, length,
}

-- MAX_CACHED_SESSIONS
abbrev pub max_cached_sessions : ℕ
max_cached_sessions = 32

-- `C` is iroh's Connection.
module _ (C : Type 0) where
  pub record ManagedSession : Type 0 where
    pub connection : C
    pub last_used : ℕ

  abbrev pub Sessions : Type 0
  Sessions = List (String × ManagedSession)

  -- The sessions with the counter NEXT_SESSION_USE, a u64.
  pub record Cache : Type 0 where
    pub sessions : Sessions
    pub next_session_use : ℕ

module _ {C : Type 0} where
  unfoldable pub find : String → Sessions C → Option (ManagedSession C)
  find k [] = none
  find k ((j, s) ∷ m) = if str_eq j k then some s else find k m

  unfoldable pub remove : String → Sessions C → Sessions C
  remove k [] = []
  remove k ((j, s) ∷ m) = let rest = remove k m in if str_eq j k then rest else (j, s) ∷ rest

  -- `min_by_key`: the first of the least recently used.
  unfoldable pub oldest : String × ManagedSession C → Sessions C → String × ManagedSession C
  oldest e [] = e
  oldest e (f ∷ m) = oldest (if leb e.1.last_used f.1.last_used then e else f) m

  -- The loop of `cache_session`, with fuel.
  unfoldable pub evict : ℕ → Sessions C → Sessions C
  unfolding oldest remove
  evict zero m = m
  evict (suc n) [] = []
  evict (suc n) (e ∷ m) =
      let rest = evict n (remove (oldest e m).0 (e ∷ m)) in
      if ltb max_cached_sessions (length (e ∷ m)) then rest else e ∷ m

  -- `HashMap::insert`
  unfoldable pub insert : String → ManagedSession C → Sessions C → Sessions C
  unfolding remove
  insert key session m = (key, session) ∷ remove key m

  unfoldable pub cache_session : String → C → Cache C → Cache C
  unfolding insert evict
  cache_session key connection cache =
      let session : ManagedSession C = record {
        connection = connection;
        last_used = cache.next_session_use;
      } in
      let sessions = insert key session cache.sessions in
      record {
        sessions = evict (length sessions) sessions;
        next_session_use = (cache.next_session_use + 1) % 2 ^ 64;
      }

  -- `session.last_used = n` for the session of a key, in its place.
  unfoldable pub set_last_used : String → ℕ → Sessions C → Sessions C
  set_last_used k n [] = []
  set_last_used k n ((j, s) ∷ m) =
      let rest = set_last_used k n m in
      if str_eq j k then (j, record s { last_used = n }) ∷ m else (j, s) ∷ rest

  abbrev pub used : (C → Bool) → String → Option (ManagedSession C) → Cache C → Option C × Cache C
  used is_closed key none cache = (none, cache)
  used is_closed key (some session) cache =
      if is_closed session.connection then (none, cache) else (
        some session.connection,
        record {
          sessions = set_last_used key cache.next_session_use cache.sessions;
          next_session_use = (cache.next_session_use + 1) % 2 ^ 64;
        },
      )

  -- The session of a key, where there is one that is open; `is_closed` is
  -- `close_reason().is_some()`.
  unfoldable pub use_session : (C → Bool) → String → Cache C → Option C × Cache C
  unfolding find set_last_used
  use_session is_closed key cache = used is_closed key (find key cache.sessions) cache

  abbrev pub without_missing : String → Option C × Cache C → Option C × Cache C
  without_missing key (some connection, cache) = (some connection, cache)
  without_missing key (none, cache) = (none, record cache { sessions = remove key cache.sessions })

  -- connect_endpoint_addr also removes the session that it cannot use.
  unfoldable pub take_session : (C → Bool) → String → Cache C → Option C × Cache C
  unfolding use_session remove
  take_session is_closed key cache = without_missing key (use_session is_closed key cache)
