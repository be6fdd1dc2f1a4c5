-- ===== src/BareMetal/Silence.antt =====
-- A call whose response does not come: `icap_wait_for_response` of src/platform/icap_bm_rpmsg-lite.c
-- while other messages come in.
use icap.Prelude.{
  ◌≢◌, ◌-◌, ltb→lt, ◌++◌, ℕ, zero, suc, ◌+◌, ◌<◌, ◌≤◌, ◌≡◌, refl, sym, ◌∙◌, subst, Option, none,
  some, List, [], ◌∷◌, arith, Bool-cases, inl, inr, ltb, ne→==, false, Run, returns, faults,
  runs_on, neg,
}
use icap.Wire.{Bytes, SubdeviceFeatures, error_timeout}
use icap.Core.{State, History, Event, Callbacks, record_event, parse_msg}
use icap.Core.Typed.{Returns-map, Returns, Returns-bind}
use icap.BareMetal.Transport.{Transport, Platform, RemoteMsg, Fifo, msg_timeout_us}
use icap.BareMetal.Fifo.{push, oldest}
use icap.BareMetal.Fifo.Inv.{IsValid}
use icap.BareMetal.Fifo.Refine.{contents, contents-push, contents-oldest, queue_oldest, queue_pop}
use icap.BareMetal.Loop.{put_with, put_msg, receive, loop, loop_with, finish, link}
use icap.BareMetal.Wait.{elapsed, wait_rounds, wait_for_response}
use icap.BareMetal.Keeps.{ticks}
use icap.BareMetal.Sound.{AllFit, IsSound, loop-Handles, waiting, oldest_fits}
use icap.BareMetal.Ends.{
  room, Follows, put_with-Follows, receive-Follows, round-Follows, ticked-IsSound,
}
use icap.BareMetal.Unanswered.{number_in, answers, Unanswered, parse_msg-Unanswered}

-- Messages of at least a header's length, none of which answers the number.
abbrev pub AllOther : ℕ → List RemoteMsg → Type 0
AllOther n [] = Unit {0}
AllOther n (m ∷ q) = (40 ≤ m.size) × (answers n m.buffer.bytes ≡ false) × AllOther n q

-- Neither the last response nor a waiting message answers the number.
abbrev pub Silent : ℕ → State Transport → Type 0
Silent n s = Unanswered n s × AllOther n (waiting s)

AllOther-pop : (n : ℕ) (q : List RemoteMsg) → AllOther n q → AllOther n (queue_pop q)
AllOther-pop n [] h = tt
AllOther-pop n (m ∷ q) h = h.2

AllOther-append :
    (n : ℕ) (q : List RemoteMsg) (m : RemoteMsg)
    → AllOther n q
    → 40 ≤ m.size
    → answers n m.buffer.bytes ≡ false
    → AllOther n (q ++ (m ∷ []))
AllOther-append n [] m h a b = (a, b, tt)
AllOther-append n (x ∷ q) m h a b = (h.0, h.1, AllOther-append n q m h.2 a b)

oldest_other :
    (n : ℕ) (q : List RemoteMsg) (m : RemoteMsg)
    → AllOther n q
    → queue_oldest q ≡ some m
    → (40 ≤ m.size) × (answers n m.buffer.bytes ≡ false)
oldest_other n [] m h e = cc
oldest_other n (x ∷ q) m h e = ground arith

pub Returns-both {ℓ} :
    {A : Type ℓ} (P Q : A → Type 0) (r : Run A)
    → Returns r P
    → Returns r Q
    → Returns r (λ a. P a × Q a)
Returns-both P Q (returns a) f g = (f, g)
Returns-both P Q faults f g = f
Returns-both P Q runs_on f g = f

module _ (p : Platform) (n : ℕ) where
  put_with-Silent :
      (m : RemoteMsg) (o : Option Callbacks) (f : Option Fifo) (s : State Transport)
      → IsValid s.icap.transport.msg_fifo
      → 40 ≤ m.size
      → answers n m.buffer.bytes ≡ false
      → push m s.icap.transport.msg_fifo ≡ f
      → Silent n s
      → Silent n (put_with p o f s).1
  put_with-Silent m none f s v a b e h = h
  put_with-Silent m (some cb) none s v a b e h = h
  put_with-Silent m (some cb) (some g) s v a b e h =
      let appended : contents g ≡ waiting s ++ (m ∷ []) =
        ground (arith, contents-push m s.icap.transport.msg_fifo v) in
      (h.0, subst (AllOther n) (sym appended) (AllOther-append n (waiting s) m h.1 a b))

  receive-Silent :
      (ms : List RemoteMsg) (s : State Transport)
      → IsSound s
      → AllFit (room s) ms
      → AllOther n ms
      → Silent n s
      → Silent n (receive p ms s)
  unfolding receive put_msg
  receive-Silent [] s v f o h = h
  receive-Silent (m ∷ ms) s v f o h =
      let pushed = push m s.icap.transport.msg_fifo in
      let s₁ = (put_msg p m s).1 in
      let k = put_with-Follows p m s.icap.callbacks pushed s v f.0 f.1 refl in
      receive-Silent ms s₁ k.sound (subst (λ r. AllFit r ms) (sym k.room_same) f.2) o.2
        (put_with-Silent m s.icap.callbacks pushed s v.ring o.0 o.1 refl h)

module _ (p : Platform) (u : SubdeviceFeatures) (n : ℕ) where
  pub loop_with-Unanswered :
      (o : Option RemoteMsg) (s : State Transport)
      → IsSound s
      → Unanswered n s
      → ((m : RemoteMsg)
          → queue_oldest (waiting s) ≡ some m
          → (40 ≤ m.size) × (answers n m.buffer.bytes ≡ false))
      → oldest s.icap.transport.msg_fifo ≡ o
      → Returns (loop_with p u o s) (λ (ret, s'). Unanswered n s')
  unfolding loop_with finish
  loop_with-Unanswered none s v h others e = h
  loop_with-Unanswered (some m) s v h others e =
      let first : queue_oldest (waiting s) ≡ some m =
        sym (contents-oldest s.icap.transport.msg_fifo v.ring) ∙ e in
      let fits = oldest_fits (room s) (waiting s) m v.fit first in
      let other = others m first in
      Returns-bind (λ (_, s'). Unanswered n s')
        (parse_msg (link p) u m.src_addr m.buffer.bytes m.size s)
        (λ (ret, s'). returns (ret, finish m s'))
        (parse_msg-Unanswered p n u m.src_addr m.buffer.bytes m.size s v.typed other.0 fits.0 fits.1
          other.1 h)
        (λ (ret, s') k. k)

  loop-Silent :
      (s : State Transport)
      → IsSound s
      → Silent n s
      → Returns (loop p u s) (λ (ret, s'). Silent n s')
  unfolding loop
  loop-Silent s v h =
      Returns-map (loop p u s)
        (λ (ret, s') (k, l). (l, subst (AllOther n) (sym k.taken) (AllOther-pop n (waiting s) h.1)))
        (Returns-both _ _ (loop p u s) (loop-Handles p u s v) (
          loop_with-Unanswered (oldest s.icap.transport.msg_fifo) s v h.0
            (λ m. oldest_other n (waiting s) m h.1) refl))

  round-Silent :
      (s : State Transport)
      → IsSound s
      → AllFit (room s) (p.arrivals s.history)
      → AllOther n (p.arrivals s.history)
      → Silent n s
      → Returns
          (loop p u (receive p (p.arrivals s.history) s))
          (λ (_, s'). Follows s s' × Silent n s')
  round-Silent s v f o h =
      let s₁ = receive p (p.arrivals s.history) s in
      let k = receive-Follows p (p.arrivals s.history) s v f in
      Returns-both _ _ (loop p u s₁) (round-Follows p u s v f)
        (loop-Silent s₁ k.sound (receive-Silent p n (p.arrivals s.history) s v f o h))

  module _ (start size : ℕ) (response : Option Bytes)
      (arrivals_fit : (h : History) → AllFit size (p.arrivals h))
      (arrivals_other : (h : History) → AllOther n (p.arrivals h)) where
    wait_rounds-Silent :
        (k rounds : ℕ) (s : State Transport)
        → IsSound s
        → Silent n s
        → room s ≡ size
        → ((h : History)
            → ticks h ≡ k + ticks s.history
            → msg_timeout_us ≤ elapsed start (p.us_clock_tick h))
        → k < rounds
        → Returns (wait_rounds p u rounds start n response s) (λ (ret, kept, s').
          (ret ≡ neg error_timeout) × (kept ≡ response) × IsSound s' × Silent n s')
    unfolding wait_rounds
    wait_rounds-Silent k zero s v q r late h = absurd (omega arith)
    wait_rounds-Silent k (suc rounds) s v q r late h =
        Returns-bind _ (loop p u (receive p (p.arrivals s.history) s)) _
          (round-Silent s v
            (subst (λ x. AllFit x (p.arrivals s.history)) (sym r) (arrivals_fit s.history))
            (arrivals_other s.history) q)
          (λ (_, s₁) (f, q₁).
            let now = p.us_clock_tick s₁.history in
            let v₁ = ticked-IsSound now s₁ f.sound in
            let other = ne→== (number_in s₁.icap.transport.last_response) n q₁.0 in
            elim (Bool-cases (ltb (elapsed start now) msg_timeout_us)) [
              | inr b ↦ rw (other, b) (refl, refl, v₁, q₁)
              | inl b ↦
                  let early : elapsed start now < msg_timeout_us =
                    ltb→lt (elapsed start now) msg_timeout_us b in
                  let more : k ≢ 0 = λ z. omega (arith, late s₁.history (omega (arith, f.clock))) in
                  rw (other, b)
                    (wait_rounds-Silent (k - 1) rounds (record_event (Event.ticked now) s₁) v₁ q₁
                      (f.room_same ∙ r) (λ h' e. late h' (omega (arith, f.clock))) (omega arith))
            ])

  -- Only its own response ends a call. On bare metal, from every sound state, if last_response
  -- does not carry the awaited number and no message that waits or arrives is a response with it,
  -- whatever else arrives (reports, late responses to other calls, requests that are refused),
  -- each at least a header long and within its buffer and the response buffer, if the clock has
  -- passed the limit when it has been read k times after the start, and more than k rounds are
  -- granted, then icap_wait_for_response returns -ICAP_ERROR_TIMEOUT and leaves the place for the
  -- response as it was, in a sound state in which last_response and the waiting messages still
  -- have no such response.
  pub wait_for_response-Silent :
      (k rounds : ℕ) (response : Option Bytes) (s : State Transport)
      → ((h : History) → AllFit (room s) (p.arrivals h))
      → ((h : History) → AllOther n (p.arrivals h))
      → IsSound s
      → Silent n s
      → ((h : History)
          → ticks h ≡ k + ticks s.history + 1
          → msg_timeout_us ≤ elapsed (p.us_clock_tick s.history) (p.us_clock_tick h))
      → k < rounds
      → Returns (wait_for_response p u rounds n response s) (λ (ret, kept, s').
        (ret ≡ neg error_timeout) × (kept ≡ response) × IsSound s' × Silent n s')
  unfolding wait_for_response
  wait_for_response-Silent k rounds response s fit other v q late h =
      let start = p.us_clock_tick s.history in
      wait_rounds-Silent start (room s) response fit other k rounds
        (record_event (Event.ticked start) s) (ticked-IsSound start s v) q refl
        (λ h' e. late h' (omega arith)) h
