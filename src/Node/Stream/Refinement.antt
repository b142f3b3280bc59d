-- ===== src/Node/Stream/Refinement.antt =====
-- A stream is a queue: whatever its tasks do, what is received is what was sent, in order.
use mathlib.Core.Path.{subst}
use iroh_react_native_bridge.Base.{
  ℕ, ◌≡◌, refl, sym, ◌∙◌, ap, Bool, List, [], ◌∷◌, ◌++◌, some, inl, inr, All, arith, append_assoc,
  append_nil, All-snoc,
}
use iroh_react_native_bridge.Node.Errors.{IrohBridgeError, Result}
use iroh_react_native_bridge.Node.Frame.{Streams, write_frame, read_frame}
use iroh_react_native_bridge.Node.Frame.RoundTrip.{
  StreamLaws, frame, written-write_frame, read_frame_of_frame, read_frame_ends, append_cancel,
}
use iroh_react_native_bridge.Node.Frame.ReadAll.{encode}
use iroh_react_native_bridge.Node.Inbox.{InboxState, try_enqueue, pop_frame}
use iroh_react_native_bridge.Node.Inbox.Order.{try_enqueue-some, pop_frame-some}
use iroh_react_native_bridge.Node.Send.{
  Tokio, Outgoing, open_outgoing, frame_written, send_queue_frames,
}
use iroh_react_native_bridge.Node.Send.Laws.{TokioLaws, IsFrame}
use iroh_react_native_bridge.Node.Send.Queue.{
  waiting, IsValid, Sent, send_on-Good, frame_written-IsValid, open_outgoing-IsValid,
  accepted as queued_last, refused,
}
use iroh_react_native_bridge.Node.Stream.{
  Event, sent, received, Stream, opened_with, Run, opens, sends, fails, writes, reads, delivers,
  closes, Fifo, empty, put, take,
}

module _ (s : Streams) (laws : StreamLaws s) (k : Tokio) (tokio : TokioLaws k) where
  encode-append :
      (fs : List (List ℕ)) (f : List ℕ)
      → encode s laws (fs ++ (f ∷ [])) ≡ encode s laws fs ++ frame s laws f
  encode-append [] f = append_nil (frame s laws f)
  encode-append (g ∷ fs) f =
      ap (λ t. frame s laws g ++ t) (encode-append fs f)
      ∙ sym (append_assoc (frame s laws g) (encode s laws fs) (frame s laws f))

  -- Where every frame that was sent and not received is: in the inbox, on the wire, or waiting.
  record Follows (events : List Event) (t : Stream s laws k) : Type 0 where
    flying : List (List ℕ)
    sending : IsValid k tokio t.outgoing
    bytes : t.in_flight ≡ encode s laws flying
    framed : All IsFrame flying
    fifo : Fifo events (t.inbox.frames ++ (flying ++ waiting k tokio t.outgoing))

  -- A frame read from the bytes of frames is the first of them.
  module _ (r r' : s.Reader) (payload : List ℕ)
      (read : read_frame s r ≡ inr (some payload, r')) where
    read-encode :
        (fs : List (List ℕ))
        → laws.remaining r ≡ encode s laws fs
        → All IsFrame fs
        → (rest : List (List ℕ)) × (fs ≡ payload ∷ rest)
          × (laws.remaining r' ≡ encode s laws rest)
          × All IsFrame rest
    read-encode [] e framed =
        let (r2, ended) = read_frame_ends s laws r (rw e (omega arith)) in absurd (ground arith)
    read-encode (f ∷ fs) e framed =
        let (r2, got, left) =
          read_frame_of_frame s laws f (encode s laws fs) r framed.0.0 framed.0.1 e in
        let same : f ≡ payload = ground arith in
        let next : r2 ≡ r' = ground arith in
        (fs, ap (λ x. x ∷ fs) same, ap laws.remaining (sym next) ∙ left, framed.1)

  abbrev tail : Stream s laws k → List (List ℕ) → List (List ℕ)
  tail t flying = t.inbox.frames ++ (flying ++ waiting k tokio t.outgoing)

  opens-Follows : (writer : s.Writer) → Follows [] (opened_with s laws k writer)
  unfolding open_outgoing
  opens-Follows writer = record {
    flying = [];
    sending = open_outgoing-IsValid k tokio;
    bytes = refl;
    framed = tt;
    fifo = subst (Fifo []) (sym (tokio.frames-channel send_queue_frames)) empty;
  }

  module _ {events : List Event} {t : Stream s laws k} (v : Follows events t) where
    put-Follows :
        (payload : List ℕ) (out : Outgoing k)
        → IsValid k tokio out
        → waiting k tokio out ≡ waiting k tokio t.outgoing ++ (payload ∷ [])
        → Follows (events ++ (sent payload ∷ [])) (record t { outgoing = out })
    put-Follows payload out ok last = record {
      flying = v.flying;
      sending = ok;
      bytes = v.bytes;
      framed = v.framed;
      fifo =
          subst (Fifo (events ++ (sent payload ∷ [])))
            (append_assoc t.inbox.frames _ _
              ∙ ap (λ x. t.inbox.frames ++ x)
                  (append_assoc v.flying _ _ ∙ ap (λ x. v.flying ++ x) (sym last)))
            (put payload v.fifo);
    }

    keep-Follows :
        (out : Outgoing k)
        → IsValid k tokio out
        → waiting k tokio out ≡ waiting k tokio t.outgoing
        → Follows events (record t { outgoing = out })
    keep-Follows out ok same = record {
      flying = v.flying;
      sending = ok;
      bytes = v.bytes;
      framed = v.framed;
      fifo = subst (Fifo events) (ap (λ x. t.inbox.frames ++ (v.flying ++ x)) (sym same)) v.fifo;
    }

    sent-Follows :
        (payload : List ℕ) (r : Result (Unit {0})) (out : Outgoing k)
        → IsValid k tokio out
        → Sent k tokio payload t.outgoing r out
        → r ≡ inr tt
        → Follows (events ++ (sent payload ∷ [])) (record t { outgoing = out })
    sent-Follows payload r out ok (queued_last _ last) e = put-Follows payload out ok last
    sent-Follows payload r out ok (refused err h _ _) e = absurd (ground arith)

    failed-Follows :
        (payload : List ℕ) (err : IrohBridgeError) (r : Result (Unit {0})) (out : Outgoing k)
        → IsValid k tokio out
        → Sent k tokio payload t.outgoing r out
        → r ≡ inl err
        → Follows events (record t { outgoing = out })
    failed-Follows payload err r out ok (queued_last h _) e = absurd (ground arith)
    failed-Follows payload err r out ok (refused _ _ same _) e = keep-Follows out ok same

    writes-Follows :
        (payload bytes : List ℕ) (rx : k.Channel) (writer : s.Writer)
        → k.recv t.outgoing.tx ≡ some (payload, rx)
        → write_frame s payload t.writer ≡ inr writer
        → laws.written writer ≡ laws.written t.writer ++ bytes
        → Follows events (record t {
          outgoing = frame_written k payload rx t.outgoing;
          writer = writer;
          in_flight = t.in_flight ++ bytes;
        })
    writes-Follows payload bytes rx writer taken written added =
        let (ok, front, good) =
          frame_written-IsValid k tokio t.outgoing payload rx v.sending taken in
        let framed : bytes ≡ frame s laws payload =
          append_cancel (laws.written t.writer) _ _
            (sym added ∙ written-write_frame s laws payload t.writer writer written) in
        record {
          flying = v.flying ++ (payload ∷ []);
          sending = ok;
          bytes =
              ap (λ x. t.in_flight ++ x) framed
              ∙ ap (λ x. x ++ frame s laws payload) v.bytes
              ∙ sym (encode-append v.flying payload);
          framed = All-snoc IsFrame v.flying payload v.framed good;
          fifo =
              subst (Fifo events)
                (ap (λ x. t.inbox.frames ++ x)
                  (ap (λ x. v.flying ++ x) front ∙ sym (append_assoc v.flying (payload ∷ []) _)))
                v.fifo;
        }

    reads-Follows :
        (payload : List ℕ) (r r' : s.Reader) (inbox : InboxState)
        → laws.remaining r ≡ t.in_flight
        → read_frame s r ≡ inr (some payload, r')
        → try_enqueue payload t.inbox ≡ some inbox
        → Follows events (record t { in_flight = laws.remaining r'; inbox = inbox })
    reads-Follows payload r r' inbox here read room =
        let (rest, first, left, framed) =
          read-encode r r' payload read v.flying (here ∙ v.bytes) v.framed in
        let (same, _, _) = try_enqueue-some payload t.inbox inbox room in
        record {
          flying = rest;
          sending = v.sending;
          bytes = left;
          framed = framed;
          fifo =
              subst (Fifo events)
                (ap (λ x. t.inbox.frames ++ (x ++ waiting k tokio t.outgoing)) first
                  ∙ sym (append_assoc t.inbox.frames (payload ∷ []) _)
                  ∙ ap (λ x. x.frames ++ (rest ++ waiting k tokio t.outgoing)) (sym same))
                v.fifo;
        }

    delivers-Follows :
        (payload : List ℕ) (inbox : InboxState)
        → pop_frame t.inbox ≡ some (payload, inbox)
        → Follows (events ++ (received payload ∷ [])) (record t { inbox = inbox })
    delivers-Follows payload inbox popped =
        let (front, _) = pop_frame-some t.inbox payload inbox popped in
        record {
          flying = v.flying;
          sending = v.sending;
          bytes = v.bytes;
          framed = v.framed;
          fifo = take payload (
              subst (Fifo events) (ap (λ x. x ++ (v.flying ++ waiting k tokio t.outgoing)) front)
                v.fifo);
        }

    closes-Follows :
        (flag : Bool)
        → Follows events (record t { outgoing = record (t.outgoing) { is_closed = flag } })
    closes-Follows flag = record {
      flying = v.flying;
      sending = record {
        bound = v.sending.bound;
        few = v.sending.few;
        accounted = v.sending.accounted;
        good = v.sending.good;
      };
      bytes = v.bytes;
      framed = v.framed;
      fifo = v.fifo;
    }

  Run-Follows :
      {events : List Event} {t : Stream s laws k} → Run s laws k events t → Follows events t
  Run-Follows (opens writer) = opens-Follows writer
  Run-Follows (sends {t = t} payload {out} run good e) =
      let v = Run-Follows run in
      let (ok, did) = send_on-Good k tokio payload good t.outgoing v.sending in
      sent-Follows v payload _ out (subst (IsValid k tokio) (ap (λ x. x.1) e) ok)
        (subst (λ x. Sent k tokio payload t.outgoing x.0 x.1) e did) refl
  Run-Follows (fails {t = t} payload err {out} run good e) =
      let v = Run-Follows run in
      let (ok, did) = send_on-Good k tokio payload good t.outgoing v.sending in
      failed-Follows v payload err _ out (subst (IsValid k tokio) (ap (λ x. x.1) e) ok)
        (subst (λ x. Sent k tokio payload t.outgoing x.0 x.1) e did) refl
  Run-Follows (writes payload bytes rx writer run taken written added) =
      writes-Follows (Run-Follows run) payload bytes rx writer taken written added
  Run-Follows (reads payload r r' inbox run here read room) =
      reads-Follows (Run-Follows run) payload r r' inbox here read room
  Run-Follows (delivers payload inbox run popped) =
      delivers-Follows (Run-Follows run) payload inbox popped
  Run-Follows (closes flag run) = closes-Follows (Run-Follows run) flag

  -- A stream is a first-in, first-out queue. Whatever `send`, the writer task, the reader task and
  -- `next_message` do, in whatever order, the payloads sent and received are what a queue allows,
  -- and what is in the queue is the inbox, then frames whose bytes are those on the wire, then the
  -- frames that wait to be written. The channel, the semaphore and the QUIC stream are as
  -- documented.
  pub Run-Fifo :
      {events : List Event} {t : Stream s laws k}
      → Run s laws k events t
      → (flying : List (List ℕ)) × (t.in_flight ≡ encode s laws flying)
        × Fifo events (t.inbox.frames ++ (flying ++ waiting k tokio t.outgoing))
  Run-Fifo run = let v = Run-Follows run in (v.flying, v.bytes, v.fifo)
