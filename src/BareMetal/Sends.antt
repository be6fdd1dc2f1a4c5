-- ===== src/BareMetal/Sends.antt =====
-- `icap_send_msg` of src/icap.c over bare metal, up to the wait for the response.
use icap.Prelude.{
  le→ltb, ℕ, ◌+◌, ◌%◌, ◌^◌, ◌≤◌, ◌≡◌, refl, none, ◌∷◌, arith, length, take_all, true, returns,
  ◌>>=◌,
}
use icap.Wire.{Bytes, MsgHeader, Cmd, code, msg, SubdeviceFeatures, encode_msg}
use icap.Core.{record_event, State, Event, header_for}
use icap.Core.Request.{send_only}
use icap.BareMetal.Transport.{Transport, Platform}
use icap.BareMetal.Loop.{link, send_platform}
use icap.BareMetal.Wait.{wait_rounds, waiter, wait_for_response}

-- The message that `icap_send_msg` sends in this state.
abbrev pub request_header : {T : Type 0} → Cmd → Bytes → State T → MsgHeader
request_header c args s = header_for ((s.icap.seq_num + 1) % 2 ^ 32) (code c) msg (length args)

-- The state behind `icap_send_platform`, and the one in which the wait begins.
abbrev pub sends : Cmd → Bytes → State Transport → State Transport
sends c args s = record {
  icap = record s.icap { seq_num = (s.icap.seq_num + 1) % 2 ^ 32 };
  history =
      Event.sent s.icap.transport.remote_addr (encode_msg (request_header c args s) args)
      ∷ s.history;
}

abbrev pub waits_in : Platform → Cmd → Bytes → State Transport → State Transport
waits_in p c args s =
    record_event (Event.ticked (p.us_clock_tick (sends c args s).history)) (sends c args s)

module _ (p : Platform) (u : SubdeviceFeatures) where
  -- A synchronous call numbers its message, sends it and waits for the response with its number.
  pub send_only-waits :
      (c : Cmd) (args : Bytes) (s : State Transport) (n : ℕ)
      → length args ≤ 264
      → send_only (link p) (waiter p u n) c args (length args) true s ≡ (
          wait_rounds p u n
            (p.us_clock_tick (sends c args s).history)
            ((s.icap.seq_num + 1) % 2 ^ 32)
            none
            (waits_in p c args s)
          >>= λ (ret, _, s'). returns (ret, s'))
  unfolding send_only waiter wait_for_response link send_platform header_for
  send_only-waits c args s n l =
      rw (le→ltb 264 (length args) l, take_all (length args) args (omega arith)) refl
