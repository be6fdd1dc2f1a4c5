-- ===== src/BareMetal/Sound.antt =====
-- `icap_loop` and `icap_put_msg` on a sound instance: the ring is a queue, every message is handled
-- without a fault, and every receive buffer is given back once.
use icap.Prelude.{
  subst, subst₂, ap₂, ℕ, ◌<◌, ◌≤◌, ◌≡◌, ◌≢◌, refl, sym, ap, ◌∙◌, Option, none, some, List, [], ◌∷◌,
  ◌++◌, arith, length, returns,
}
use icap.Wire.{SubdeviceFeatures}
use icap.Core.{Pointer, State, Callbacks, parse_msg}
use icap.Core.Typed.{Returns, Returns-bind, IsTyped, AgreesWith}
use icap.BareMetal.Transport.{Transport, Platform, RemoteMsg, Fifo, no_addr}
use icap.BareMetal.Fifo.{push, oldest, pop}
use icap.BareMetal.Fifo.Inv.{IsValid, push-IsValid, pop-IsValid, oldest-nonempty}
use icap.BareMetal.Fifo.Refine.{
  contents, queue_oldest, queue_pop, contents-push, contents-oldest, contents-pop,
}
use icap.BareMetal.Loop.{put_with, loop_with, link, put_msg, loop, finish}
use icap.BareMetal.Keeps.{ticks, Keeps, parse_msg-Keeps, releases}

-- The messages lie within their buffers, and within a response buffer of the given size: rpmsg-lite
-- buffers hold as many bytes as `last_response`, `RL_BUFFER_PAYLOAD_SIZE`.
abbrev pub AllFit : ℕ → List RemoteMsg → Type 0
AllFit room [] = Unit {0}
AllFit room (m ∷ q) = (m.size ≤ length m.buffer.bytes) × (m.size ≤ room) × AllFit room q

abbrev pub waiting : State Transport → List RemoteMsg
waiting s = contents s.icap.transport.msg_fifo

pub record IsSound (s : State Transport) : Type 0 where
  pub typed : IsTyped s.icap
  pub ring : IsValid s.icap.transport.msg_fifo
  pub fit : AllFit (length s.icap.transport.last_response) (waiting s)

-- The buffers that rpmsg-lite has handed over, latest first: those that wait, then those that were
-- given back.
abbrev pub handed : List RemoteMsg → List Pointer → List Pointer
handed [] given_back = given_back
handed (m ∷ q) given_back = handed q (m.buffer.addr ∷ given_back)

abbrev pub buffers : State Transport → List Pointer
buffers s = handed (waiting s) (releases s.history)

handed-append :
    (q : List RemoteMsg) (m : RemoteMsg) (r : List Pointer)
    → handed (q ++ (m ∷ [])) r ≡ m.buffer.addr ∷ handed q r
handed-append [] m r = refl
handed-append (n ∷ q) m r = handed-append q m (n.buffer.addr ∷ r)

-- What one call of `icap_loop` does to a sound state: the oldest message leaves, its buffer is given
-- back, and nothing else is.
pub record Handles (s s' : State Transport) : Type 0 where
  pub sound : IsSound s'
  pub taken : waiting s' ≡ queue_pop (waiting s)
  pub kept : buffers s' ≡ buffers s
  pub room : length s'.icap.transport.last_response ≡ length s.icap.transport.last_response
  pub clock : ticks s'.history ≡ ticks s.history
  pub callbacks : s'.icap.callbacks ≡ s.icap.callbacks
  pub type : s'.icap.type ≡ s.icap.type
  pub peer :
      s.icap.transport.remote_addr ≢ no_addr
      → s'.icap.transport.remote_addr ≡ s.icap.transport.remote_addr

AllFit-pop : (room : ℕ) (q : List RemoteMsg) → AllFit room q → AllFit room (queue_pop q)
AllFit-pop room [] h = tt
AllFit-pop room (m ∷ q) h = h.2

pub oldest_fits :
    (room : ℕ) (q : List RemoteMsg) (m : RemoteMsg)
    → AllFit room q
    → queue_oldest q ≡ some m
    → (m.size ≤ length m.buffer.bytes) × (m.size ≤ room)
oldest_fits room [] m h e = cc
oldest_fits room (n ∷ q) m h e = ground arith

queue_pop-empty : (q : List RemoteMsg) → queue_oldest q ≡ none → queue_pop q ≡ q
queue_pop-empty [] e = refl
queue_pop-empty (m ∷ q) e = cc

handed-pop :
    (q : List RemoteMsg) (m : RemoteMsg) (r : List Pointer)
    → queue_oldest q ≡ some m
    → handed (queue_pop q) (m.buffer.addr ∷ r) ≡ handed q r
handed-pop [] m r e = cc
handed-pop (n ∷ q) m r e = ground arith

finish-Handles :
    (m : RemoteMsg) (s s' : State Transport)
    → IsSound s
    → oldest s.icap.transport.msg_fifo ≡ some m
    → Keeps s s'
    → Handles s (finish m s')
unfolding finish
finish-Handles m s s' v e k =
    let f = s.icap.transport.msg_fifo in
    let first : queue_oldest (waiting s) ≡ some m = sym (contents-oldest f v.ring) ∙ e in
    let taken : contents (pop s'.icap.transport.msg_fifo) ≡ queue_pop (waiting s) =
      ap (λ g. contents (pop g)) k.fifo ∙ contents-pop f v.ring (oldest-nonempty m f e) in
    record {
      sound = record {
        typed = subst₂ AgreesWith (sym k.callbacks) (sym k.type) v.typed;
        ring = subst (λ g. IsValid (pop g)) (sym k.fifo) (pop-IsValid v.ring);
        fit = subst₂ AllFit (sym k.room) (sym taken) (AllFit-pop _ (waiting s) v.fit);
      };
      taken = taken;
      kept =
          ap₂ (λ q r. handed q (m.buffer.addr ∷ r)) taken k.freed
          ∙ handed-pop (waiting s) m (releases s.history) first;
      room = k.room;
      clock = k.clock;
      callbacks = k.callbacks;
      type = k.type;
      peer = k.peer;
    }

module _ (p : Platform) (u : SubdeviceFeatures) where
  loop_with-Handles :
      (o : Option RemoteMsg) (s : State Transport)
      → IsSound s
      → oldest s.icap.transport.msg_fifo ≡ o
      → Returns (loop_with p u o s) (λ (ret, s'). Handles s s')
  unfolding loop_with
  loop_with-Handles none s v e = record {
    sound = v;
    taken = sym (queue_pop-empty (waiting s) empty);
    kept = refl;
    room = refl;
    clock = refl;
    callbacks = refl;
    type = refl;
    peer = λ n. refl;
  }
    where
      empty : queue_oldest (waiting s) ≡ none
      empty = sym (contents-oldest s.icap.transport.msg_fifo v.ring) ∙ e
  loop_with-Handles (some m) s v e =
      Returns-bind (λ (_, s'). Handles s s')
        (parse_msg (link p) u m.src_addr m.buffer.bytes m.size s)
        (λ (ret, s'). returns (ret, finish m s'))
        (parse_msg-Keeps p u m.src_addr m.buffer.bytes m.size s v.typed fits.0 fits.1)
        (λ (ret, s') k. finish-Handles m s s' v e k)
    where
      fits : (m.size ≤ length m.buffer.bytes) × (m.size ≤ length s.icap.transport.last_response)
      fits =
          oldest_fits (length s.icap.transport.last_response) (waiting s) m v.fit
            (sym (contents-oldest s.icap.transport.msg_fifo v.ring) ∙ e)

  -- On a sound state (callbacks of the instance's own side, a valid ring, waiting messages that
  -- lie within their buffers and within the response buffer) icap_loop returns, without a fault,
  -- and leaves a sound state in which the oldest message is no longer waiting. The receive
  -- buffers that wait or were given back, in the order in which they were handed over, are the
  -- same as before: none is lost or given back twice. The size of the response buffer, the
  -- callbacks, the type and a known remote address stay, and the clock is not read.
  pub loop-Handles :
      (s : State Transport) → IsSound s → Returns (loop p u s) (λ (ret, s'). Handles s s')
  unfolding loop
  loop-Handles s v = loop_with-Handles (oldest s.icap.transport.msg_fifo) s v refl

pub AllFit-append :
    (room : ℕ) (q : List RemoteMsg) (m : RemoteMsg)
    → AllFit room q
    → m.size ≤ length m.buffer.bytes
    → m.size ≤ room
    → AllFit room (q ++ (m ∷ []))
AllFit-append room [] m h a b = (a, b, tt)
AllFit-append room (n ∷ q) m h a b = (h.0, h.1, AllFit-append room q m h.2 a b)

-- A state in which one more message waits.
pub record Holds (m : RemoteMsg) (s s' : State Transport) : Type 0 where
  pub sound : IsSound s'
  pub appended : waiting s' ≡ waiting s ++ (m ∷ [])
  pub taken : buffers s' ≡ m.buffer.addr ∷ buffers s

module _ (p : Platform) (m : RemoteMsg) (s : State Transport) where
  put_with-Holds :
      (o : Option Callbacks) (f : Option Fifo)
      → IsSound s
      → m.size ≤ length m.buffer.bytes
      → m.size ≤ length s.icap.transport.last_response
      → o ≢ none
      → push m s.icap.transport.msg_fifo ≡ f
      → length (waiting s) < 9
      → ((put_with p o f s).0 ≡ p.hold) × Holds m s (put_with p o f s).1
  put_with-Holds none f v a b c e l = absurd (c refl)
  put_with-Holds (some cb) none v a b c e l =
      absurd (ground (arith, contents-push m s.icap.transport.msg_fifo v.ring))
  put_with-Holds (some cb) (some g) v a b c e l = (
    refl,
    record {
      sound = record {
        typed = v.typed;
        ring = push-IsValid m v.ring e;
        fit = subst (AllFit _) (sym appended) (AllFit-append _ (waiting s) m v.fit a b);
      };
      appended = appended;
      taken =
          ap (λ q. handed q (releases s.history)) appended
          ∙ handed-append (waiting s) m (releases s.history);
    },
  )
    where
      appended : contents g ≡ waiting s ++ (m ∷ [])
      appended = ground (arith, contents-push m s.icap.transport.msg_fifo v.ring)

  -- On a sound state of an initialised instance with fewer than nine messages waiting,
  -- icap_put_msg of a message that lies within its buffer and within the response buffer returns
  -- RL_HOLD, where include/icap.h says 0, and leaves a sound state in which the message waits
  -- behind all others and its buffer is the latest one handed over.
  pub put_msg-Holds :
      IsSound s
      → m.size ≤ length m.buffer.bytes
      → m.size ≤ length s.icap.transport.last_response
      → s.icap.callbacks ≢ none
      → length (waiting s) < 9
      → ((put_msg p m s).0 ≡ p.hold) × Holds m s (put_msg p m s).1
  unfolding put_msg
  put_msg-Holds v a b c l =
      put_with-Holds s.icap.callbacks (push m s.icap.transport.msg_fifo) v a b c refl l

  put_with-refused :
      (o : Option Callbacks) (f : Option Fifo)
      → IsValid s.icap.transport.msg_fifo
      → push m s.icap.transport.msg_fifo ≡ f
      → o ≢ none
      → length (waiting s) ≡ 9
      → put_with p o f s ≡ (p.no_buff, s)
  put_with-refused none f v e c l = absurd (c refl)
  put_with-refused (some cb) none v e c l = refl
  put_with-refused (some cb) (some g) v e c l =
      absurd (ground (arith, contents-push m s.icap.transport.msg_fifo v))

  -- On an initialised instance with a valid ring and nine messages waiting, icap_put_msg returns
  -- RL_ERR_NO_BUFF and changes nothing.
  pub put_msg-refused :
      IsValid s.icap.transport.msg_fifo
      → s.icap.callbacks ≢ none
      → length (waiting s) ≡ 9
      → put_msg p m s ≡ (p.no_buff, s)
  unfolding put_msg
  put_msg-refused v c l =
      put_with-refused s.icap.callbacks (push m s.icap.transport.msg_fifo) v refl c l
