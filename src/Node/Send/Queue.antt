-- ===== src/Node/Send/Queue.antt =====
-- The bounds of the send queue, and what `send` does to it on every path.
use mathlib.Core.Path.{subst}
use text.Mathlib.Text.{◌==◌ as str_eq}
use text.Mathlib.TextEquality.{eq_iff}
use iroh_react_native_bridge.Base.{
  ℕ, ◌+◌, ◌≤◌, ◌%◌, ◌^◌, ◌≡◌, refl, sym, ◌∙◌, ap, Bool, true, false, String, List, [], ◌∷◌, ◌++◌,
  Option, none, some, ◌⊎◌, inl, inr, if◌then◌else◌, ◌==◌, ltb, ◌||◌, length, length-append, All,
  All-snoc, arith, Bool-cases,
}
use iroh_react_native_bridge.Node.Errors.{IrohBridgeError, Result, invalid_frame, not_connected}
use iroh_react_native_bridge.Node.Frame.{max_frame_bytes}
use iroh_react_native_bridge.Node.Inbox.Order.{total, total-append}
use iroh_react_native_bridge.Node.Send.Laws.{TokioLaws, IsFrame}
use iroh_react_native_bridge.Node.Send.{
  Tokio, TrySend, queued, full, closed, Outgoing, open_outgoing, finish_send, queue_frame, send_on,
  send, send_to, store, Connections, frame_written, send_queue_frames, max_send_queue_bytes,
}

module _ (k : Tokio) (laws : TokioLaws k) where
  abbrev pub waiting : Outgoing k → List (List ℕ)
  waiting out = laws.frames out.tx

  abbrev pub permits : Outgoing k → ℕ
  permits out = laws.available out.send_capacity

  pub record IsValid (out : Outgoing k) : Type 0 where
    pub bound : laws.slots out.tx ≡ send_queue_frames
    pub few : length (waiting out) ≤ send_queue_frames
    pub accounted : permits out + total (waiting out) ≡ max_send_queue_bytes
    pub good : All IsFrame (waiting out)

  -- Either the payload was queued, or nothing changed.
  pub data Sent (payload : List ℕ) (out : Outgoing k) (r : Result (Unit {0})) (out' : Outgoing k)
      : Type 0 where
    accepted : r ≡ inr tt → waiting out' ≡ waiting out ++ (payload ∷ []) → Sent payload out r out'
    refused :
        (e : IrohBridgeError)
        → r ≡ inl e
        → waiting out' ≡ waiting out
        → permits out' ≡ permits out
        → Sent payload out r out'

  module _ (payload : List ℕ) (frame : IsFrame payload) (out : Outgoing k)
      (valid : IsValid out) where
    abbrev Good : Result (Unit {0}) × Outgoing k → Type 0
    Good x = IsValid x.1 × Sent payload out x.0 x.1

    finish_send-Good :
        (s : k.Semaphore) (t : TrySend k.Channel)
        → k.try_send payload out.tx ≡ t
        → k.try_acquire_many (length payload % 2 ^ 32) out.send_capacity ≡ some s
        → Good (finish_send k (length payload % 2 ^ 32) s t out)
    unfolding finish_send
    finish_send-Good s (queued tx) e a =
        let fs = laws.frames-try_send payload out.tx tx e in
        let (room, same) = laws.slots-try_send payload out.tx tx e in
        let taken = laws.available-try_acquire_many _ _ _ a in
        (
          record {
            bound = same ∙ valid.bound;
            few =
                omega
                  (arith, ap length fs, length-append (waiting out) (payload ∷ []), valid.bound);
            accounted =
                omega (
                  arith,
                  ap total fs,
                  total-append (waiting out) payload,
                  valid.accounted,
                  frame.1,
                );
            good =
                subst (All IsFrame) (sym fs)
                  (All-snoc IsFrame (waiting out) payload valid.good frame);
          },
          accepted refl fs,
        )
    finish_send-Good s full e a =
        let taken = laws.available-try_acquire_many _ _ _ a in
        let back = laws.available-release (length payload % 2 ^ 32) s in
        (
          record {
            bound = valid.bound;
            few = valid.few;
            accounted = omega (arith, valid.accounted);
            good = valid.good;
          },
          refused _ refl refl (omega arith),
        )
    finish_send-Good s closed e a =
        let taken = laws.available-try_acquire_many _ _ _ a in
        let back = laws.available-release (length payload % 2 ^ 32) s in
        (
          record {
            bound = valid.bound;
            few = valid.few;
            accounted = omega (arith, valid.accounted);
            good = valid.good;
          },
          refused _ refl refl (omega arith),
        )

    queue_frame-Good :
        (o : Option k.Semaphore)
        → k.try_acquire_many (length payload % 2 ^ 32) out.send_capacity ≡ o
        → Good (queue_frame k payload o out)
    unfolding queue_frame
    queue_frame-Good none a = (valid, refused _ refl refl refl)
    queue_frame-Good (some s) a = finish_send-Good s (k.try_send payload out.tx) refl a

    open_or_closed-Good :
        (b : Bool)
        → Good (
            if b
            then (inl not_connected, out)
            else queue_frame k payload
                (k.try_acquire_many (length payload % 2 ^ 32) out.send_capacity)
                out)
    open_or_closed-Good true = (valid, refused _ refl refl refl)
    open_or_closed-Good false = queue_frame-Good _ refl

    pub send_on-Good : Good (send_on k payload out)
    unfolding send_on
    send_on-Good = open_or_closed-Good out.is_closed

  -- What `send` does to the stream `j`, which was `out`.
  abbrev pub Effect :
      String → List ℕ → String → Outgoing k → Result (Unit {0}) × Connections k → Type 0
  Effect id payload j out x =
      (out' : Outgoing k) × (x.1 j ≡ some out')
      × IsValid out'
      × (((str_eq id j ≡ true) × Sent payload out x.0 out')
          ⊎ ((str_eq id j ≡ false) × (out' ≡ out)))

  unchanged :
      (id : String) (payload : List ℕ) (j : String) (out : Outgoing k) (c : Connections k)
      (e : IrohBridgeError)
      → c j ≡ some out
      → IsValid out
      → Effect id payload j out (inl e, c)
  unchanged id payload j out c e there valid = elim (Bool-cases (str_eq id j)) [
    | inl same ↦ (out, there, valid, inl (same, refused e refl refl refl))
    | inr other ↦ (out, there, valid, inr (other, refl))
  ]

  stored :
      (id : String) (payload : List ℕ) (j : String) (mine out : Outgoing k) (c : Connections k)
      → IsFrame payload
      → c id ≡ some mine
      → c j ≡ some out
      → IsValid out
      → Effect id payload j out (store k id (send_on k payload mine) c)
  stored id payload j mine out c frame found there valid = elim (Bool-cases (str_eq id j)) [
    | inr other ↦ (out, rw other there, valid, inr (other, refl))
    | inl same ↦
        let e : mine ≡ out = ground (arith, ap c ((eq_iff id j).0 same)) in
        let (ok, sent) = send_on-Good payload frame out valid in
        (
          (send_on k payload out).1,
          ap (λ x. if str_eq id j then some (send_on k payload x).1 else c j) e ∙ rw same refl,
          ok,
          inl (
            same,
            subst (λ x. Sent payload out (send_on k payload x).0 (send_on k payload out).1) (sym e)
                sent,
          ),
        )
  ]

  send_refuses :
      (id : String) (payload : List ℕ) (c : Connections k)
      → (length payload == 0 || ltb max_frame_bytes (length payload)) ≡ true
      → send k id payload c ≡ (inl invalid_frame, c)
  unfolding send
  send_refuses id payload c h = rw h refl

  send_passes :
      (id : String) (payload : List ℕ) (c : Connections k)
      → (length payload == 0 || ltb max_frame_bytes (length payload)) ≡ false
      → send k id payload c ≡ send_to k id payload (c id) c
  unfolding send
  send_passes id payload c h = rw h refl

  send_to-Effect :
      (id : String) (payload : List ℕ) (j : String) (out : Outgoing k) (c : Connections k)
      (found : Option (Outgoing k))
      → IsFrame payload
      → c id ≡ found
      → c j ≡ some out
      → IsValid out
      → Effect id payload j out (send_to k id payload found c)
  send_to-Effect id payload j out c none frame e there valid =
      unchanged id payload j out c not_connected there valid
  send_to-Effect id payload j out c (some mine) frame e there valid =
      stored id payload j mine out c frame e there valid

  -- `send` on every path. A stream of another identifier is as it was. The stream of the identifier
  -- stays valid: at most 64 frames, each of 1 to MAX_FRAME_BYTES bytes, and permits that with the
  -- waiting bytes add up to MAX_SEND_QUEUE_BYTES. Either `send` succeeds and the payload is the
  -- last of the waiting frames, or it fails and the waiting frames and the permits are as they
  -- were, so that no failed `send` takes a permit.
  pub send-Effect :
      (id : String) (payload : List ℕ) (c : Connections k) (j : String) (out : Outgoing k)
      → c j ≡ some out
      → IsValid out
      → Effect id payload j out (send k id payload c)
  send-Effect id payload c j out there valid =
      elim (Bool-cases (length payload == 0 || ltb max_frame_bytes (length payload))) [
        | inl bad ↦
            subst (Effect id payload j out) (sym (send_refuses id payload c bad))
              (unchanged id payload j out c invalid_frame there valid)
        | inr fine ↦
            subst (Effect id payload j out) (sym (send_passes id payload c fine)) (
              send_to-Effect id payload j out c (c id) (ground arith, ground arith) refl there
                valid)
      ]

  pub open_outgoing-IsValid : IsValid (open_outgoing k)
  unfolding open_outgoing
  open_outgoing-IsValid = record {
    bound = laws.slots-channel send_queue_frames;
    few = omega (arith, ap length (laws.frames-channel send_queue_frames));
    accounted = omega (
      arith,
      ap total (laws.frames-channel send_queue_frames),
      laws.available-semaphore max_send_queue_bytes,
    );
    good = subst (All IsFrame) (sym (laws.frames-channel send_queue_frames)) tt;
  }

  -- The writer task takes the first frame that waits, which is one that `send` lets pass, and the
  -- stream is valid again once the task has dropped it.
  pub frame_written-IsValid :
      (out : Outgoing k) (payload : List ℕ) (rx : k.Channel)
      → IsValid out
      → k.recv out.tx ≡ some (payload, rx)
      → IsValid (frame_written k payload rx out)
        × (waiting out ≡ payload ∷ waiting (frame_written k payload rx out))
        × IsFrame payload
  unfolding frame_written
  frame_written-IsValid out payload rx valid taken =
      let (front, same) = laws.frames-recv payload out.tx rx taken in
      let good : All IsFrame (payload ∷ laws.frames rx) = subst (All IsFrame) front valid.good in
      (
        record {
          bound = same ∙ valid.bound;
          few = omega (arith, ap length front, valid.few);
          accounted = omega (
            arith,
            ap total front,
            valid.accounted,
            good.0.1,
            laws.available-release (length payload % 2 ^ 32) out.send_capacity,
          );
          good = good.1;
        },
        front,
        good.0,
      )
