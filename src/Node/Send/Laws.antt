-- ===== src/Node/Send/Laws.antt =====
-- What `send` relies on in tokio's channel and semaphore.
use iroh_react_native_bridge.Base.{ℕ, ◌+◌, ◌≤◌, ◌<◌, ◌≡◌, List, [], ◌∷◌, ◌++◌, some, length}
use iroh_react_native_bridge.Node.Frame.{max_frame_bytes}
use iroh_react_native_bridge.Node.Send.{Tokio, queued}

-- What the documentation of tokio says. `frames` are the payloads in a channel, `slots` the bound
-- it was made with, `available` the permits of a semaphore.
pub record TokioLaws (k : Tokio) : Type 0 where
  pub frames : k.Channel → List (List ℕ)
  pub slots : k.Channel → ℕ
  pub available : k.Semaphore → ℕ
  pub frames-channel : (n : ℕ) → frames (k.channel n) ≡ []
  pub slots-channel : (n : ℕ) → slots (k.channel n) ≡ n
  pub available-semaphore : (n : ℕ) → available (k.semaphore n) ≡ n
  pub frames-try_send :
      (x : List ℕ) (c c' : k.Channel)
      → k.try_send x c ≡ queued c'
      → frames c' ≡ frames c ++ (x ∷ [])
  pub slots-try_send :
      (x : List ℕ) (c c' : k.Channel)
      → k.try_send x c ≡ queued c'
      → (length (frames c) < slots c) × (slots c' ≡ slots c)
  pub frames-recv :
      (x : List ℕ) (c c' : k.Channel)
      → k.recv c ≡ some (x, c')
      → (frames c ≡ x ∷ frames c') × (slots c' ≡ slots c)
  pub available-try_acquire_many :
      (n : ℕ) (s s' : k.Semaphore)
      → k.try_acquire_many n s ≡ some s'
      → available s ≡ available s' + n
  pub available-release : (n : ℕ) (s : k.Semaphore) → available (k.release n s) ≡ available s + n

-- A payload that `send` lets pass.
abbrev pub IsFrame : List ℕ → Type 0
IsFrame payload = (0 < length payload) × (length payload ≤ max_frame_bytes)
