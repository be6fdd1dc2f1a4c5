-- ===== src/Rpc/Busy.antt =====
-- A call while other messages come in: `icap_send_msg` of src/icap.c over bare metal, with reports and
-- late responses in front of the response.
use icap.Prelude.{
  ℕ, ◌+◌, ◌%◌, ◌^◌, ◌<◌, ◌≤◌, ◌≡◌, refl, sym, subst, ◌∙◌, ◌∷◌, ◌++◌, List, arith, length, true,
  returns, IsInt32,
}
use icap.Wire.{Bytes, Cmd, code, SubdeviceFeatures}
use icap.Core.{ApplicationCallbacks, State, History, header_for}
use icap.Core.Deliver.{Carries}
use icap.Core.Request.{send_only}
use icap.Core.Typed.{Returns, Returns-bind}
use icap.Core.Verdict.{Verdict, type_of, payload_of, result_of, reply_header, outcome}
use icap.BareMetal.Transport.{Transport, Platform, RemoteMsg, msg_timeout_us}
use icap.BareMetal.Loop.{link, receive}
use icap.BareMetal.Wait.{waiter, elapsed}
use icap.BareMetal.Keeps.{ticks}
use icap.BareMetal.Sound.{AllFit, waiting}
use icap.BareMetal.Ends.{room}
use icap.BareMetal.Silence.{AllOther}
use icap.BareMetal.Eventually.{Talks, wait_rounds-eventually}
use icap.BareMetal.Sends.{request_header, sends, waits_in, send_only-waits}
use icap.Rpc.Received.{code-lt, Received, header_for-Carries}
use icap.Rpc.Client.{type_of-response, type_of-lt, outcome-verdict}

module _ (p : Platform) (u : SubdeviceFeatures) (cb : ApplicationCallbacks) (c : Cmd)
    (args rest : Bytes) (v : Verdict) (s : State Transport) (m : RemoteMsg) (q₁ q₂ : List RemoteMsg)
    (rounds : ℕ) where
  -- A call gets its response whatever stands before it. An application over bare metal, in a
  -- sound state that talks to its peer and whose last_response does not carry the next number,
  -- sends a command with at most 264 bytes of arguments, keeps no response and waits. Before the
  -- first round of the wait the ring holds any messages, each at least a header long and none a
  -- response with the number of the call, then the response to a verdict, then any others;
  -- whatever arrives later fits its buffer and the response buffer. If the verdict's payload has
  -- at most 264 bytes and its result is an int32_t, if the clock stays below ICAP_MSG_TIMEOUT_US
  -- for as many readings after the start as messages stand before the response, and more rounds
  -- than these are granted, then the call returns, and it returns the verdict's result.
  pub send_only-busy :
      let seq_num = (s.icap.seq_num + 1) % 2 ^ 32 in
      let start = p.us_clock_tick (sends c args s).history in
      let s₁ = waits_in p c args s in
      length args ≤ 264
      → length (payload_of v) ≤ 264
      → IsInt32 (result_of v)
      → Talks cb m.src_addr seq_num s
      → ((h : History) → AllFit (room s) (p.arrivals h))
      → waiting (receive p (p.arrivals s₁.history) s₁) ≡ q₁ ++ (m ∷ q₂)
      → AllOther seq_num q₁
      → Received (reply_header (request_header c args s) v) (payload_of v) rest m
      → ((h : History)
          → ticks s.history < ticks h
          → ticks h ≤ length q₁ + ticks s.history
          → elapsed start (p.us_clock_tick h) < msg_timeout_us)
      → length q₁ < rounds
      → Returns
          (send_only (link p) (waiter p u rounds) c args (length args) true s)
          (λ (ret, s'). ret ≡ result_of v)
  unfolding header_for
  send_only-busy a l i t fit w o r early k =
      let h = reply_header (request_header c args s) v in
      let start = p.us_clock_tick (sends c args s).history in
      let s₁ = waits_in p c args s in
      let carried : Carries h (payload_of v) rest m.buffer.bytes m.size =
        header_for-Carries ((s.icap.seq_num + 1) % 2 ^ 32) (code c) (type_of v) (payload_of v) rest
          m (omega arith) (code-lt c) (omega (arith, type_of-lt v)) l r in
      let talks : Talks cb m.src_addr h.seq_num s₁ = record {
        sound = record { typed = t.sound.typed; ring = t.sound.ring; fit = t.sound.fit };
        callbacks = t.callbacks;
        type = t.type;
        knows = t.knows;
        unanswered = t.unanswered;
      } in
      subst (λ x. Returns x (λ (ret, s'). ret ≡ result_of v))
        (sym (send_only-waits p u c args s rounds a))
        (Returns-bind
          {P = λ (ret, _, s'). (tail : Bytes) × (ret ≡ outcome h (payload_of v ++ tail))}
          (λ (ret, s'). ret ≡ result_of v) _ (λ (ret, _, s'). returns (ret, s'))
          (wait_rounds-eventually p u cb h (payload_of v) rest m carried (type_of-response v) start
            (room s) fit q₁ q₂ rounds s₁ talks refl w o
            (λ e b n. early e (omega arith) (omega arith)) k)
          (λ (ret, _, s') (tail, e). e ∙ outcome-verdict (request_header c args s) v tail i))
