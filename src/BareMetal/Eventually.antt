-- ===== src/BareMetal/Eventually.antt =====
-- The response is taken whatever comes before it: `icap_wait_for_response` of
-- src/platform/icap_bm_rpmsg-lite.c with other messages in the ring.
use icap.Prelude.{
  lt→ltb, ◌++◌, ℕ, zero, suc, ◌+◌, ◌<◌, ◌≤◌, ◌≡◌, refl, sym, ap, ◌∙◌, ◌⊎◌, subst, Option, none,
  some, List, [], ◌∷◌, arith, length, drop, Bool-cases, inl, inr, ◌==◌, eq→==, ne→==, false,
  append_assoc, append-nil,
}
use icap.Wire.{Bytes, MsgHeader, SubdeviceFeatures, encode_msg, ack, nak}
use icap.Core.{application, ApplicationCallbacks, State, History, Event, Callbacks, record_event}
use icap.Core.Deliver.{Carries}
use icap.Core.Typed.{Returns-map, Returns, Returns-bind}
use icap.Core.Verdict.{outcome}
use icap.BareMetal.Transport.{Transport, Platform, RemoteMsg, Fifo, msg_timeout_us}
use icap.BareMetal.Fifo.{push, oldest}
use icap.BareMetal.Fifo.Refine.{contents-push, contents-oldest, queue_oldest, queue_pop}
use icap.BareMetal.Loop.{put_with, put_msg, receive, loop, finish}
use icap.BareMetal.Deliver.{Knows}
use icap.BareMetal.Wait.{elapsed, wait_rounds, accept_response}
use icap.BareMetal.Keeps.{ticks}
use icap.BareMetal.Sound.{AllFit, IsSound, loop-Handles, waiting, oldest_fits}
use icap.BareMetal.Ends.{room, put_with-Follows, ticked-IsSound}
use icap.BareMetal.Unanswered.{number_in, answers, Unanswered}
use icap.BareMetal.Silence.{AllOther, Returns-both, loop_with-Unanswered}
use icap.BareMetal.Await.{loop-response, decoded_last}

-- An application that talks to the given address and has no answer to the number.
pub record Talks (cb : ApplicationCallbacks) (src n : ℕ) (s : State Transport) : Type 0 where
  pub sound : IsSound s
  pub callbacks : s.icap.callbacks ≡ some (application cb)
  pub type : s.icap.type ≡ 0
  pub knows : Knows s src
  pub unanswered : Unanswered n s

-- A state with more messages behind those that wait.
pub record Extends (cb : ApplicationCallbacks) (src n : ℕ) (s s' : State Transport) : Type 0 where
  pub talks : Talks cb src n s'
  pub more : List RemoteMsg
  pub waits : waiting s' ≡ waiting s ++ more
  pub room_same : room s' ≡ room s
  pub clock : ticks s'.history ≡ ticks s.history

module _ (p : Platform) (cb : ApplicationCallbacks) (src n : ℕ) where
  same : (s : State Transport) → Talks cb src n s → Extends cb src n s s
  same s v = record {
    talks = v;
    more = [];
    waits = sym (append-nil (waiting s));
    room_same = refl;
    clock = refl;
  }

  put_with-Extends :
      (m : RemoteMsg) (o : Option Callbacks) (f : Option Fifo) (s : State Transport)
      → Talks cb src n s
      → m.size ≤ length m.buffer.bytes
      → m.size ≤ room s
      → push m s.icap.transport.msg_fifo ≡ f
      → Extends cb src n s (put_with p o f s).1
  put_with-Extends m none f s v a b e = same s v
  put_with-Extends m (some x) none s v a b e = same s v
  put_with-Extends m (some x) (some g) s v a b e =
      let k = put_with-Follows p m (some x) (some g) s v.sound a b e in
      record {
        talks = record {
          sound = k.sound;
          callbacks = v.callbacks;
          type = v.type;
          knows = v.knows;
          unanswered = v.unanswered;
        };
        more = m ∷ [];
        waits = ground (arith, contents-push m s.icap.transport.msg_fifo v.sound.ring);
        room_same = refl;
        clock = refl;
      }

  receive-Extends :
      (ms : List RemoteMsg) (s : State Transport)
      → Talks cb src n s
      → AllFit (room s) ms
      → Extends cb src n s (receive p ms s)
  unfolding receive put_msg
  receive-Extends [] s v f = same s v
  receive-Extends (m ∷ ms) s v f =
      let pushed = push m s.icap.transport.msg_fifo in
      let s₁ = (put_msg p m s).1 in
      let k = put_with-Extends m s.icap.callbacks pushed s v f.0 f.1 refl in
      let l = receive-Extends ms s₁ k.talks (subst (λ r. AllFit r ms) (sym k.room_same) f.2) in
      record {
        talks = l.talks;
        more = k.more ++ l.more;
        waits = l.waits ∙ ap (λ q. q ++ l.more) k.waits ∙ append_assoc (waiting s) k.more l.more;
        room_same = l.room_same ∙ k.room_same;
        clock = l.clock ∙ k.clock;
      }

-- A state in which the oldest message is done with.
record Skips (cb : ApplicationCallbacks) (src n : ℕ) (q : List RemoteMsg) (s s' : State Transport)
    : Type 0 where
  talks : Talks cb src n s'
  waits : waiting s' ≡ q
  room_same : room s' ≡ room s
  clock : ticks s'.history ≡ ticks s.history

other_first :
    (n : ℕ) (x : RemoteMsg) (q r : List RemoteMsg)
    → r ≡ x ∷ q
    → 40 ≤ x.size
    → answers n x.buffer.bytes ≡ false
    → (m : RemoteMsg) → queue_oldest r ≡ some m
    → (40 ≤ m.size) × (answers n m.buffer.bytes ≡ false)
other_first n x q r w a b m e =
    let first : some x ≡ some m = sym (ap queue_oldest w) ∙ e in
    let same : x ≡ m = cc in
    subst (λ (y : RemoteMsg). (40 ≤ y.size) × (answers n y.buffer.bytes ≡ false)) same (a, b)

module _ (p : Platform) (u : SubdeviceFeatures) (cb : ApplicationCallbacks) where
  loop-Skips :
      (src n : ℕ) (x : RemoteMsg) (q : List RemoteMsg) (s : State Transport)
      → Talks cb src n s
      → waiting s ≡ x ∷ q
      → 40 ≤ x.size
      → answers n x.buffer.bytes ≡ false
      → Returns (loop p u s) (λ (_, s'). Skips cb src n q s s')
  unfolding loop
  loop-Skips src n x q s v w a b =
      Returns-map (loop p u s)
        (λ (_, s') (k, l). record {
          talks = record {
            sound = k.sound;
            callbacks = k.callbacks ∙ v.callbacks;
            type = k.type ∙ v.type;
            knows = (k.peer (λ e. v.knows.1 (sym v.knows.0 ∙ e)) ∙ v.knows.0, v.knows.1);
            unanswered = l;
          };
          waits = k.taken ∙ ap queue_pop w;
          room_same = k.room;
          clock = k.clock;
        })
        (Returns-both _ _ (loop p u s) (loop-Handles p u s v.sound) (
          loop_with-Unanswered p u n (oldest s.icap.transport.msg_fifo) s v.sound v.unanswered
            (other_first n x q (waiting s) w a b) refl))

  module _ (h : MsgHeader) (payload rest : Bytes) (m : RemoteMsg)
      (c : Carries h payload rest m.buffer.bytes m.size) (r : (h.type ≡ ack) ⊎ (h.type ≡ nak)) where
    -- The round that handles the response.
    wait_rounds-taken :
        (n start : ℕ) (q : List RemoteMsg) (s : State Transport)
        → Talks cb m.src_addr h.seq_num (receive p (p.arrivals s.history) s)
        → waiting (receive p (p.arrivals s.history) s) ≡ m ∷ q
        → Returns
            (wait_rounds p u (suc n) start h.seq_num none s)
            (λ (ret, _, s'). (tail : Bytes) × (ret ≡ outcome h (payload ++ tail)))
    unfolding wait_rounds accept_response finish
    wait_rounds-taken n start q s v w =
        let s₁ = receive p (p.arrivals s.history) s in
        let first : queue_oldest (waiting s₁) ≡ some m = ap queue_oldest w in
        let fits = oldest_fits (room s₁) (waiting s₁) m v.sound.fit first in
        let tail = drop m.size s₁.icap.transport.last_response in
        let looped =
          loop-response p u h payload rest m c cb s₁ v.callbacks v.type v.knows r fits.1
            (contents-oldest s₁.icap.transport.msg_fifo v.sound.ring ∙ first) in
        let decoded =
          decoded_last p u h payload rest m c (encode_msg h (payload ++ tail)) tail refl in
        rw looped (elim (Bool-cases (h.type == nak)) [
          | inl b ↦ rw (decoded, eq→== h.seq_num h.seq_num refl, b) (tail, refl)
          | inr b ↦ rw (decoded, eq→== h.seq_num h.seq_num refl, b) (tail, refl)
        ])

    module _ (start size : ℕ) (arrivals_fit : (h : History) → AllFit size (p.arrivals h)) where
      -- The messages in front of the response are handled, one in each round, before the time is over.
      pub wait_rounds-eventually :
          (q₁ q₂ : List RemoteMsg) (rounds : ℕ) (s : State Transport)
          → Talks cb m.src_addr h.seq_num s
          → room s ≡ size
          → waiting (receive p (p.arrivals s.history) s) ≡ q₁ ++ (m ∷ q₂)
          → AllOther h.seq_num q₁
          → ((e : History)
              → ticks s.history ≤ ticks e
              → ticks e < length q₁ + ticks s.history
              → elapsed start (p.us_clock_tick e) < msg_timeout_us)
          → length q₁ < rounds
          → Returns
              (wait_rounds p u rounds start h.seq_num none s)
              (λ (ret, _, s'). (tail : Bytes) × (ret ≡ outcome h (payload ++ tail)))
      unfolding wait_rounds
      wait_rounds-eventually q₁ q₂ zero s v k w o early l = absurd (omega arith)
      wait_rounds-eventually [] q₂ (suc rounds) s v k w o early l =
          let ext =
            receive-Extends p cb m.src_addr h.seq_num (p.arrivals s.history) s v
              (subst (λ x. AllFit x (p.arrivals s.history)) (sym k) (arrivals_fit s.history)) in
          wait_rounds-taken rounds start q₂ s ext.talks w
      wait_rounds-eventually (x ∷ q₁) q₂ (suc rounds) s v k w o early l =
          let s₁ = receive p (p.arrivals s.history) s in
          let ext =
            receive-Extends p cb m.src_addr h.seq_num (p.arrivals s.history) s v
              (subst (λ x. AllFit x (p.arrivals s.history)) (sym k) (arrivals_fit s.history)) in
          Returns-bind _ (loop p u s₁) _
            (loop-Skips m.src_addr h.seq_num x (q₁ ++ (m ∷ q₂)) s₁ ext.talks w o.0 o.1)
            (λ (_, s₂) f.
              let now = p.us_clock_tick s₂.history in
              let s₃ = record_event (Event.ticked now) s₂ in
              let other =
                ne→== (number_in s₂.icap.transport.last_response) h.seq_num f.talks.unanswered in
              let soon = lt→ltb (elapsed start now) msg_timeout_us (
                early s₂.history (omega (arith, f.clock, ext.clock))
                  (omega (arith, f.clock, ext.clock))) in
              let v₃ : Talks cb m.src_addr h.seq_num s₃ = record {
                sound = ticked-IsSound now s₂ f.talks.sound;
                callbacks = f.talks.callbacks;
                type = f.talks.type;
                knows = f.talks.knows;
                unanswered = f.talks.unanswered;
              } in
              let k₃ : room s₃ ≡ size = f.room_same ∙ ext.room_same ∙ k in
              let next = receive-Extends p cb m.src_addr h.seq_num (p.arrivals s₃.history) s₃ v₃ (
                subst (λ x. AllFit x (p.arrivals s₃.history)) (sym k₃) (arrivals_fit s₃.history)) in
              rw (other, soon)
                (wait_rounds-eventually q₁ (q₂ ++ next.more) rounds s₃ v₃ k₃
                  (next.waits
                    ∙ ap (λ q. q ++ next.more) f.waits
                    ∙ append_assoc q₁ (m ∷ q₂) next.more)
                  o.2
                  (λ e a b.
                    early e (omega (arith, a, f.clock, ext.clock))
                      (omega (arith, b, f.clock, ext.clock)))
                  (omega arith)))
