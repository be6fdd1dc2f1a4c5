-- ===== src/BareMetal/Ends.antt =====
-- `icap_wait_for_response` of src/platform/icap_bm_rpmsg-lite.c ends: the clock bounds its rounds.
use icap.Prelude.{
  ◌≢◌, ◌-◌, ltb→lt, ◌++◌, ℕ, zero, suc, ◌+◌, ◌<◌, ◌≤◌, ◌≡◌, refl, sym, ◌∙◌, subst, Option, none,
  some, List, [], ◌∷◌, arith, length, Bool-cases, inl, inr, ◌==◌, ltb,
}
use icap.Wire.{Bytes, SubdeviceFeatures, decode_msg, nak}
use icap.Core.{State, History, Event, Callbacks, record_event}
use icap.Core.Typed.{Returns-map, Returns, Returns-bind}
use icap.BareMetal.Transport.{Transport, Platform, RemoteMsg, Fifo, msg_timeout_us}
use icap.BareMetal.Fifo.{push}
use icap.BareMetal.Fifo.Inv.{push-IsValid}
use icap.BareMetal.Fifo.Refine.{contents, contents-push}
use icap.BareMetal.Loop.{put_with, put_msg, receive, loop}
use icap.BareMetal.Wait.{accept_response, elapsed, wait_rounds, wait_for_response}
use icap.BareMetal.Keeps.{ticks}
use icap.BareMetal.Sound.{AllFit, AllFit-append, IsSound, loop-Handles, waiting}

abbrev pub room : State Transport → ℕ
room s = length s.icap.transport.last_response

-- A sound state with the same clock and the same room.
pub record Follows (s s' : State Transport) : Type 0 where
  pub sound : IsSound s'
  pub room_same : room s' ≡ room s
  pub clock : ticks s'.history ≡ ticks s.history

module _ (p : Platform) where
  pub put_with-Follows :
      (m : RemoteMsg) (o : Option Callbacks) (f : Option Fifo) (s : State Transport)
      → IsSound s
      → m.size ≤ length m.buffer.bytes
      → m.size ≤ room s
      → push m s.icap.transport.msg_fifo ≡ f
      → Follows s (put_with p o f s).1
  put_with-Follows m none f s v a b e = record { sound = v; room_same = refl; clock = refl }
  put_with-Follows m (some cb) none s v a b e = record { sound = v; room_same = refl; clock = refl }
  put_with-Follows m (some cb) (some g) s v a b e = record {
    sound = record {
      typed = v.typed;
      ring = push-IsValid m v.ring e;
      fit = subst (AllFit _) (sym appended) (AllFit-append _ (waiting s) m v.fit a b);
    };
    room_same = refl;
    clock = refl;
  }
    where
      appended : contents g ≡ waiting s ++ (m ∷ [])
      appended = ground (arith, contents-push m s.icap.transport.msg_fifo v.ring)

  pub receive-Follows :
      (ms : List RemoteMsg) (s : State Transport)
      → IsSound s
      → AllFit (room s) ms
      → Follows s (receive p ms s)
  unfolding receive put_msg
  receive-Follows [] s v h = record { sound = v; room_same = refl; clock = refl }
  receive-Follows (m ∷ ms) s v h =
      let s₁ = (put_msg p m s).1 in
      let f =
        put_with-Follows m s.icap.callbacks (push m s.icap.transport.msg_fifo) s v h.0 h.1 refl in
      let g = receive-Follows ms s₁ f.sound (subst (λ r. AllFit r ms) (sym f.room_same) h.2) in
      record { sound = g.sound; room_same = g.room_same ∙ f.room_same; clock = g.clock ∙ f.clock }

accept_response-none : (last : Bytes) → Returns (accept_response last none) (λ _. Unit {0})
unfolding accept_response
accept_response-none last = elim (Bool-cases ((decode_msg last).header.type == nak)) [
  | inl a ↦ rw a tt
  | inr a ↦ rw a tt
]

pub ticked-IsSound :
    (t : ℕ) (s : State Transport) → IsSound s → IsSound (record_event (Event.ticked t) s)
ticked-IsSound t s v = record { typed = v.typed; ring = v.ring; fit = v.fit }

module _ (p : Platform) (u : SubdeviceFeatures) where
  -- One call of the loop after the interrupts.
  pub round-Follows :
      (s : State Transport)
      → IsSound s
      → AllFit (room s) (p.arrivals s.history)
      → Returns (loop p u (receive p (p.arrivals s.history) s)) (λ (_, s'). Follows s s')
  round-Follows s v h =
      let s₁ = receive p (p.arrivals s.history) s in
      let f = receive-Follows p (p.arrivals s.history) s v h in
      Returns-map (loop p u s₁)
        (λ (_, s₂) g. record {
          sound = g.sound;
          room_same = g.room ∙ f.room_same;
          clock = g.clock ∙ f.clock;
        })
        (loop-Handles p u s₁ f.sound)

  module _ (seq_num start size : ℕ)
      (arrivals_fit : (h : History) → AllFit size (p.arrivals h)) where
    -- The loop ends in the round in which the clock passes the limit, if not before.
    wait_rounds-ends :
        (k rounds : ℕ) (s : State Transport)
        → IsSound s
        → room s ≡ size
        → ((h : History)
            → ticks h ≡ k + ticks s.history
            → msg_timeout_us ≤ elapsed start (p.us_clock_tick h))
        → k < rounds
        → Returns (wait_rounds p u rounds start seq_num none s) (λ (_, _, s'). IsSound s')
    unfolding wait_rounds
    wait_rounds-ends k zero s v r late h = absurd (omega arith)
    wait_rounds-ends k (suc n) s v r late h =
        Returns-bind (λ (_, _, s'). IsSound s') (loop p u (receive p (p.arrivals s.history) s)) _
          (round-Follows s v
            (subst (λ x. AllFit x (p.arrivals s.history)) (sym r) (arrivals_fit s.history)))
          (λ (_, s₁) f.
            let last = s₁.icap.transport.last_response in
            let now = p.us_clock_tick s₁.history in
            elim (Bool-cases ((decode_msg last).header.seq_num == seq_num)) [
              | inl a ↦ rw a (
                  Returns-bind (λ (_, _, s'). IsSound s') (accept_response last none) _
                    (accept_response-none last) (λ _ _. f.sound))
              | inr a ↦ elim (Bool-cases (ltb (elapsed start now) msg_timeout_us)) [
                | inr b ↦ rw (a, b) (ticked-IsSound now s₁ f.sound)
                | inl b ↦
                    let early : elapsed start now < msg_timeout_us =
                      ltb→lt (elapsed start now) msg_timeout_us b in
                    let more : k ≢ 0 =
                      λ z. omega (arith, late s₁.history (omega (arith, f.clock))) in
                    rw (a, b)
                      (wait_rounds-ends (k - 1) n (record_event (Event.ticked now) s₁)
                        (ticked-IsSound now s₁ f.sound) (f.room_same ∙ r)
                        (λ h' e. late h' (omega (arith, f.clock))) (omega arith))
              ]
            ])

  -- icap_wait_for_response without a place for the response returns, in a sound state, for every
  -- sequence number, from every sound state, if every message that arrives fits its buffer and
  -- the response buffer, the clock has passed the limit when it has been read k times after the
  -- start, and more than k rounds are granted.
  pub wait_for_response-ends :
      (seq_num k rounds : ℕ) (s : State Transport)
      → ((h : History) → AllFit (room s) (p.arrivals h))
      → IsSound s
      → ((h : History)
          → ticks h ≡ k + ticks s.history + 1
          → msg_timeout_us ≤ elapsed (p.us_clock_tick s.history) (p.us_clock_tick h))
      → k < rounds
      → Returns (wait_for_response p u rounds seq_num none s) (λ (_, _, s'). IsSound s')
  unfolding wait_for_response
  wait_for_response-ends seq_num k rounds s fit v late h =
      let start = p.us_clock_tick s.history in
      wait_rounds-ends seq_num start (room s) fit k rounds (record_event (Event.ticked start) s)
        (ticked-IsSound start s v) refl (λ h' e. late h' (omega arith)) h
