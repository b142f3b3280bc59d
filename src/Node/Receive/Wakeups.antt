-- ===== src/Node/Receive/Wakeups.antt =====
-- Every order of the reader task, of one caller of next_message, of close and of the ends of the
-- tasks of a stream.
pub mod Awake
pub mod Deadlock
use mathlib.Core.Path.{subst}
use iroh_react_native_bridge.Base.{
  ℕ, suc, ◌+◌, ◌<◌, ◌≡◌, refl, sym, ◌∙◌, ap, Bool, true, false, List, [], ◌∷◌, Option, none, some,
  ◌⊎◌, inl, inr, arith, Option-cases,
}
use iroh_react_native_bridge.Node.Inbox.{InboxState, empty_inbox, try_enqueue, pop_frame, pop_front}
use iroh_react_native_bridge.Node.Receive.{
  Notify, NotifyLaws, Receiving, enqueued, enqueue_turn, frame_enqueued, popped, pop_and_notify,
}

-- Where the reader task is: reading a frame, at a turn of enqueue_inbox_frame, waiting for
-- capacity, about to notify, or ended.
pub data Reader : Type 0 where
  reading : Reader
  turning : List ℕ → Reader
  waiting : List ℕ → Reader
  notifying : Reader
  ended : Reader

-- Where next_message is: not called, past its first look with nothing found, past its test of
-- `closed`, waiting, or at its second look.
pub data Caller : Type 0 where
  idle looked checked awaits woken : Caller

abbrev pub is_notifying : Reader → Bool
is_notifying notifying = true
is_notifying _ = false

module _ (k : Notify) where
  -- `closers` counts those who have set `closed` and have not notified yet.
  pub record Stream : Type 0 where
    pub shared : Receiving k
    pub reader : Reader
    pub caller : Caller
    pub closers : ℕ

  abbrev pub after_turn : List ℕ → Bool → Reader
  after_turn payload true = notifying
  after_turn payload false = waiting payload

  abbrev pub after_look : Option (List ℕ) → Caller
  after_look none = looked
  after_look (some payload) = idle

  abbrev pub opened : k.Permits → k.Permits → Stream
  opened notify capacity = record {
    shared = record {
      inbox = empty_inbox;
      notify = notify;
      capacity = capacity;
      is_closed = false;
    };
    reader = reading;
    caller = idle;
    closers = 0;
  }

  -- `stops` is the end of the reader task, and `closes` that of the writer task, or close. A
  -- notification is taken in `wakes`, `goes_on` and `is_woken`; `times_out` is next_message's
  -- timeout.
  pub data Step (s : Stream) : Stream → Type 0 where
    reads : (payload : List ℕ) → s.reader ≡ reading → Step s (record s { reader = turning payload })
    turns :
        (payload : List ℕ)
        → s.reader ≡ turning payload
        → Step s (record s {
          shared = (enqueue_turn k payload s.shared).1;
          reader = after_turn payload (enqueue_turn k payload s.shared).0;
        })
    wakes :
        (payload : List ℕ) (left : k.Permits)
        → s.reader ≡ waiting payload
        → k.poll s.shared.capacity ≡ some left
        → Step s
            (record s { shared = record (s.shared) { capacity = left }; reader = turning payload })
    notifies :
        s.reader ≡ notifying
        → Step s (record s { shared = frame_enqueued k s.shared; reader = reading })
    stops :
        is_notifying s.reader ≡ false
        → Step s (record s {
          shared = record (s.shared) { is_closed = true };
          reader = ended;
          closers = suc s.closers;
        })
    closes :
        Step s
          (record s { shared = record (s.shared) { is_closed = true }; closers = suc s.closers })
    closer_notifies :
        (left : ℕ)
        → s.closers ≡ suc left
        → Step s (record s {
          shared = record (s.shared) { notify = k.notify_one s.shared.notify };
          closers = left;
        })
    looks :
        s.caller ≡ idle
        → Step s (record s {
          shared = (pop_and_notify k s.shared).1;
          caller = after_look (pop_and_notify k s.shared).0;
        })
    gives_up : s.caller ≡ looked → Step s (record s { caller = idle })
    checks : s.caller ≡ looked → s.shared.is_closed ≡ false → Step s (record s { caller = checked })
    sleeps :
        s.caller ≡ checked → k.poll s.shared.notify ≡ none → Step s (record s { caller = awaits })
    goes_on :
        (left : k.Permits)
        → s.caller ≡ checked
        → k.poll s.shared.notify ≡ some left
        → Step s (record s { shared = record (s.shared) { notify = left }; caller = woken })
    is_woken :
        (left : k.Permits)
        → s.caller ≡ awaits
        → k.poll s.shared.notify ≡ some left
        → Step s (record s { shared = record (s.shared) { notify = left }; caller = woken })
    times_out : s.caller ≡ awaits → Step s (record s { caller = woken })
    looks_again :
        s.caller ≡ woken
        → Step s (record s { shared = (pop_and_notify k s.shared).1; caller = idle })

  pub data Reach : Stream → Type 0 where
    here : (notify capacity : k.Permits) → Reach (opened notify capacity)
    next : {s t : Stream} → Reach s → Step s t → Reach t

-- A reader that waits has a permit to wake it, or its frame does not fit.
abbrev pub ReaderAwake : Reader → Bool → InboxState → Type 0
ReaderAwake (waiting payload) permit inbox = (permit ≡ true) ⊎ (try_enqueue payload inbox ≡ none)
ReaderAwake _ permit inbox = Unit {0}

-- There is no frame to receive, or a permit, or the reader is about to give one.
abbrev pub FrameSeen : Bool → List (List ℕ) → Reader → Type 0
FrameSeen permit frames reader = (permit ≡ true) ⊎ ((frames ≡ []) ⊎ (is_notifying reader ≡ true))

-- The stream is open, or there is a permit, or someone is about to give one.
abbrev pub CloseSeen : Bool → Bool → ℕ → Type 0
CloseSeen permit is_closed closers = (permit ≡ true) ⊎ ((is_closed ≡ false) ⊎ (0 < closers))

abbrev pub CallerAwake : Caller → Bool → List (List ℕ) → Reader → Bool → ℕ → Type 0
CallerAwake idle permit frames reader is_closed closers = Unit {0}
CallerAwake looked permit frames reader is_closed closers = FrameSeen permit frames reader
CallerAwake checked permit frames reader is_closed closers =
    FrameSeen permit frames reader × CloseSeen permit is_closed closers
CallerAwake awaits permit frames reader is_closed closers =
    FrameSeen permit frames reader × CloseSeen permit is_closed closers
CallerAwake woken permit frames reader is_closed closers = Unit {0}

module _ (k : Notify) (laws : NotifyLaws k) where
  abbrev pub IsReaderAwake : Reader → Receiving k → Type 0
  IsReaderAwake reader r = ReaderAwake reader (laws.has_permit r.capacity) r.inbox

  abbrev pub IsCallerAwake : Caller → Reader → ℕ → Receiving k → Type 0
  IsCallerAwake caller reader closers r =
      CallerAwake caller (laws.has_permit r.notify) r.inbox.frames reader r.is_closed closers

  -- Nobody sleeps through what it waits for.
  abbrev pub IsAwake : Stream k → Type 0
  IsAwake s = IsReaderAwake s.reader s.shared × IsCallerAwake s.caller s.reader s.closers s.shared
