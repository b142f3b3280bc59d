-- ===== src/Facade/Session/Shut.antt =====
-- What is open of a session that was closed.
use mathlib.Core.Path.{subst}
use iroh_react_native_bridge.Base.{
  ℕ, ◌≡◌, refl, sym, ◌∙◌, ap, Bool, true, false, ◌||◌, List, [], ◌∷◌, inl, inr, ◌==◌, arith,
  Bool-cases,
}
use iroh_react_native_bridge.Facade.Stream.{add, delete}
use iroh_react_native_bridge.Facade.Session.{
  Session, opened_session, with_open, close_stream, unless_thrown, close_active, given, open_stream,
  stream_closed, closed_active, close_session,
}

abbrev pub has : ℕ → List ℕ → Bool
has i [] = false
has i (j ∷ js) = j == i || has i js

has-add : (i h : ℕ) (hs : List ℕ) → has i (add h hs) ≡ (h == i || has i hs)
unfolding add
has-add i h [] = refl
has-add i h (g ∷ hs) = ground (arith, has-add i h hs)

has-delete : (i h : ℕ) (hs : List ℕ) → (h == i) ≡ false → has i (delete h hs) ≡ has i hs
unfolding delete
has-delete i h [] other = refl
has-delete i h (g ∷ hs) other = ground (arith, has-delete i h hs other)

module _ (throws : ℕ → Bool) where
  -- The end of an openStream with a new native stream, close of one stream, the end of one by
  -- itself, and close of the session.
  pub data Step (s : Session throws) : Session throws → Type 0 where
    opens : (i : ℕ) → s.is_open i ≡ false → Step s (open_stream throws i s).1
    closes :
        (i : ℕ)
        → Step s
            (stream_closed throws i (record s { is_open = (close_stream throws i s.is_open).1 }))
    ends :
        (i : ℕ)
        → Step s
            (stream_closed throws i (record s { is_open = with_open throws i false s.is_open }))
    shuts : Step s (close_session throws s).1

  pub data Reach : Session throws → Type 0 where
    here : Reach (opened_session throws)
    next : {s t : Session throws} → Reach s → Step s t → Reach t

  -- An open stream is one that the session still has, and then the session is not closed.
  abbrev IsKept : Session throws → Type 0
  IsKept s = (i : ℕ) → s.is_open i ≡ true → (s.closed ≡ false) × (has i s.streams ≡ true)

  module _ (safe : (i : ℕ) → throws i ≡ false) where
    close_stream-safe :
        (i : ℕ) (is_open : ℕ → Bool)
        → close_stream throws i is_open ≡ (false, with_open throws i false is_open)
    unfolding close_stream
    close_stream-safe i is_open = rw (safe i) refl

    close_active-open :
        (active : List ℕ) (is_open : ℕ → Bool) (i : ℕ)
        → (close_active throws active is_open).1 i ≡ true
        → (is_open i ≡ true) × (has i active ≡ false)
    unfolding close_active
    close_active-open [] is_open i h = (h, refl)
    close_active-open (j ∷ active) is_open i h =
        let closed_first =
          ap (λ x. (unless_thrown throws x (close_active throws active)).1 i)
            (close_stream-safe j is_open) in
        let (left, other) =
          close_active-open active (with_open throws j false is_open) i (sym closed_first ∙ h) in
        (ground arith, ground arith)

    given-IsKept :
        (b : Bool) (i : ℕ) (s : Session throws)
        → s.closed ≡ b
        → s.is_open i ≡ false
        → IsKept s
        → IsKept (given throws b i s).1
    given-IsKept true i s shut new v j h =
        let same = ap (λ x. x.1 j) (close_stream-safe i (with_open throws i true s.is_open)) in
        let before : s.is_open j ≡ true = ground (arith, same) in
        absurd (ground (arith, (v j before).0))
    given-IsKept false i s up new v j h = elim (Bool-cases (j == i)) [
      | inl e ↦ (up, has-add j i s.streams ∙ ground arith)
      | inr e ↦
          let before : s.is_open j ≡ true = ground arith in
          (up, has-add j i s.streams ∙ ground (arith, (v j before).1))
    ]

    stream_closed-IsKept :
        (i : ℕ) (s : Session throws)
        → IsKept s
        → IsKept
            (stream_closed throws i (record s { is_open = with_open throws i false s.is_open }))
    unfolding stream_closed
    stream_closed-IsKept i s v j h =
        let before : s.is_open j ≡ true = ground arith in
        let other : (i == j) ≡ false = ground arith in
        ((v j before).0, has-delete j i s.streams other ∙ (v j before).1)

    closed_active-IsKept :
        (b : Bool) (s : Session throws)
        → s.closed ≡ b
        → IsKept s
        → IsKept (closed_active throws b s).1
    closed_active-IsKept true s shut v = v
    closed_active-IsKept false s up v = λ j h.
        let (before, gone) = close_active-open s.streams s.is_open j h in
        absurd (ground (arith, (v j before).1))

    Step-IsKept : {s t : Session throws} → IsKept s → Step s t → IsKept t
    unfolding open_stream close_session
    Step-IsKept {s} v (opens i new) = given-IsKept s.closed i s refl new v
    Step-IsKept {s} v (closes i) =
        subst (λ x. IsKept (stream_closed throws i (record s { is_open = x.1 })))
          (sym (close_stream-safe i s.is_open)) (stream_closed-IsKept i s v)
    Step-IsKept {s} v (ends i) = stream_closed-IsKept i s v
    Step-IsKept {s} v shuts = closed_active-IsKept s.closed s refl v

    Reach-IsKept : {s : Session throws} → Reach s → IsKept s
    Reach-IsKept here = λ j h. absurd (ground arith)
    Reach-IsKept (next r step) = Step-IsKept (Reach-IsKept r) step

    -- No stream of a session is open once the session was closed: in every order of its openStream,
    -- of the closes and ends of its streams and of its close, where no native close throws. A
    -- stream that an openStream still waits for is not open yet.
    pub Reach-is_open :
        {s : Session throws} (i : ℕ) → Reach s → s.closed ≡ true → s.is_open i ≡ false
    Reach-is_open {s} i r shut = elim (Bool-cases (s.is_open i)) [
      | inl e ↦ absurd (ground (arith, (Reach-IsKept r i e).0))
      | inr e ↦ e
    ]

  closed_active-throws :
      (b : Bool) (s : Session throws) (i : ℕ) (rest : List ℕ)
      → b ≡ false
      → s.streams ≡ i ∷ rest
      → throws i ≡ true
      → closed_active throws b s
        ≡ (true, record { streams = []; closed = true; is_open = s.is_open })
  unfolding close_active close_stream
  closed_active-throws true s i rest up first fails = absurd (ground arith)
  closed_active-throws false s i rest up first fails =
      ap
        (λ l.
          let (threw, is_open) = close_active throws l s.is_open in
          (threw, record { streams = []; closed = true; is_open = is_open }))
        first
      ∙ rw fails refl

  -- The close of a session stops at a stream whose native close throws: where it is the first of
  -- the streams, close throws, every stream that was open still is, and closing the session again
  -- does nothing.
  pub close_session-throws :
      (s : Session throws) (i : ℕ) (rest : List ℕ)
      → s.closed ≡ false
      → s.streams ≡ i ∷ rest
      → throws i ≡ true
      → (t : Session throws) × (close_session throws s ≡ (true, t))
        × (t.is_open ≡ s.is_open)
        × (close_session throws t ≡ (false, t))
  unfolding close_session
  close_session-throws s i rest up first fails = (
    record { streams = []; closed = true; is_open = s.is_open },
    closed_active-throws s.closed s i rest up first fails,
    refl,
    refl,
  )
