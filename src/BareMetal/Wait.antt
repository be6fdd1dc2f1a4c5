-- ===== src/BareMetal/Wait.antt =====
-- `icap_wait_for_response` and `icap_prepare_wait` of src/platform/icap_bm_rpmsg-lite.c.
use icap.Prelude.{
  ℕ, zero, suc, ℤ, ◌+◌, ◌-◌, ◌%◌, ◌^◌, pos, neg, to_s32, Option, none, some, ◌==◌, ltb,
  if◌then◌else◌, memcpy, Run, ◌>>=◌, returns, runs_on,
}
use icap.Wire.{Bytes, SubdeviceFeatures, decode_msg, u32_at, nak, header_size, error_timeout}
use icap.Core.{Event, State, record_event}
use icap.Core.Request.{Waiter}
use icap.BareMetal.Transport.{Transport, Platform, msg_timeout_us}
use icap.BareMetal.Loop.{receive, loop}

-- What the function returns for a response with the awaited number.
unfoldable pub accept_response : Bytes → Option Bytes → Run (ℤ × Option Bytes)
accept_response last response =
    let m = decode_msg last in
    if m.header.type == nak
    then returns (to_s32 (u32_at m.payload 0), response)
    else elim response [
      | none ↦ returns (pos 0, none)
      | some dst ↦ memcpy dst last ((header_size + m.header.payload_len) % 2 ^ 32) >>= λ copied.
          returns (pos 0, some copied)
    ]

-- `elapsed`, in `uint32_t`.
unfoldable pub elapsed : ℕ → ℕ → ℕ
elapsed start tick = (tick + 2 ^ 32 - start) % 2 ^ 32

-- The clock is read and remembered.
abbrev pub tick : Platform → State Transport → ℕ × State Transport
tick p s = let t = p.us_clock_tick s.history in (t, record_event (Event.ticked t) s)

module _ (p : Platform) (uninitialised : SubdeviceFeatures) where
  -- The `do … while` loop. The first argument bounds its rounds.
  unfoldable pub wait_rounds :
      ℕ → ℕ → ℕ → Option Bytes → State Transport → Run (ℤ × Option Bytes × State Transport)
  unfolding receive loop accept_response elapsed
  wait_rounds zero start seq_num response s = runs_on
  wait_rounds (suc rounds) start seq_num response s =
      loop p uninitialised (receive p (p.arrivals s.history) s) >>= λ (_, s₁).
      let last = s₁.icap.transport.last_response in
      let (now, s₂) = tick p s₁ in
      let again = wait_rounds rounds start seq_num response s₂ in
      if (decode_msg last).header.seq_num == seq_num
      then (accept_response last response >>= λ (ret, response'). returns (ret, response', s₁))
      else if ltb (elapsed start now) msg_timeout_us
      then again
      else returns (neg error_timeout, response, s₂)

  unfoldable pub wait_for_response :
      ℕ → ℕ → Option Bytes → State Transport → Run (ℤ × Option Bytes × State Transport)
  unfolding wait_rounds
  wait_for_response rounds seq_num response s =
      let (start, s₁) = tick p s in wait_rounds rounds start seq_num response s₁

  unfoldable pub waiter : ℕ → Waiter Transport
  unfolding wait_for_response
  waiter rounds = record {
    prepare_wait = λ header s. returns (pos 0, s);
    wait_for_response = wait_for_response rounds;
  }
