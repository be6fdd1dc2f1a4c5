-- ===== src/Rpc/Kept.antt =====
-- A call that keeps the response: `icap_send_msg` of src/icap.c with a place for it, over bare
-- metal.
use icap.Prelude.{
  ℕ, suc, ◌+◌, ◌%◌, ◌^◌, ◌≤◌, ◌≡◌, refl, ◌∙◌, Option, some, [], ◌∷◌, ◌++◌, arith, length, drop,
  returns, true,
}
use icap.Wire.{Bytes, Cmd, code, SubdeviceFeatures}
use icap.Wire.RoundTrip.{HeaderFits}
use icap.Core.{ApplicationCallbacks, State, header_for}
use icap.Core.Verdict.{Verdict, payload_of, reply_header, type_of, outcome}
use icap.Core.Request.{exchange}
use icap.Core.Deliver.{Carries}
use icap.BareMetal.Transport.{Transport, Platform, RemoteMsg}
use icap.BareMetal.Loop.{link, send_platform}
use icap.BareMetal.Wait.{waiter, wait_for_response, wait_rounds}
use icap.BareMetal.Await.{IsClient}
use icap.BareMetal.Copied.{received_in, wait_rounds-copied}
use icap.BareMetal.Sends.{request_header, sends, waits_in}
use icap.Rpc.Received.{Received, header_for-Carries, code-lt}
use icap.Rpc.Client.{type_of-response, type_of-lt}

pub reply_header-HeaderFits :
    (c : Cmd) (args : Bytes) (s : State Transport) (v : Verdict)
    → length (payload_of v) ≤ 264
    → HeaderFits (reply_header (request_header c args s) v)
unfolding header_for
reply_header-HeaderFits c args s v l = omega (arith, code-lt c, type_of-lt v)

module _ (p : Platform) (u : SubdeviceFeatures) where
  exchange-waits :
      (c : Cmd) (args : Bytes) (response : Option Bytes) (s : State Transport) (n : ℕ)
      → exchange (link p) (waiter p u n) (code c) args (length args) true response s
        ≡ wait_rounds p u n
            (p.us_clock_tick (sends c args s).history)
            ((s.icap.seq_num + 1) % 2 ^ 32)
            response
            (waits_in p c args s)
  unfolding exchange waiter wait_for_response link send_platform header_for
  exchange-waits c args response s n = refl

  -- The call returns what the response says, and keeps it, at most 264 bytes of payload.
  pub exchange-kept :
      (c : Cmd) (args rest stack : Bytes) (cb : ApplicationCallbacks) (v : Verdict)
      (s : State Transport) (m : RemoteMsg) (n : ℕ)
      → IsClient cb m.src_addr s
      → length (payload_of v) ≤ 264
      → length stack ≡ 304
      → let h = reply_header (request_header c args s) v in
        Received h (payload_of v) rest m
        → m.size ≤ length s.icap.transport.last_response
        → p.arrivals (waits_in p c args s).history ≡ m ∷ []
        → (s' : State Transport) × (exchange
              (link p)
              (waiter p u (suc n))
              (code c)
              args
              (length args)
              true
              (some stack)
              s
            ≡ returns (
              outcome h (payload_of v ++ drop m.size s.icap.transport.last_response),
              some (received_in h (payload_of v) m.size stack),
              s',
            ))
  unfolding header_for code
  exchange-kept c args rest stack cb v s m n k small room r fits a =
      let h = reply_header (request_header c args s) v in
      let s₁ = waits_in p c args s in
      let start = p.us_clock_tick (sends c args s).history in
      let carried : Carries h (payload_of v) rest m.buffer.bytes m.size =
        header_for-Carries ((s.icap.seq_num + 1) % 2 ^ 32) (code c) (type_of v) (payload_of v) rest
          m (omega arith) (code-lt c) (omega (arith, type_of-lt v)) small r in
      let client : IsClient cb m.src_addr s₁ = record {
        callbacks = k.callbacks;
        type = k.type;
        knows = k.knows;
        ring = k.ring;
        idle = k.idle;
      } in
      let (s', e) =
        wait_rounds-copied p u h (payload_of v) rest m carried cb s₁ n start stack client
          (type_of-response v) (omega (arith, carried.extent)) fits a in
      (s', exchange-waits c args (some stack) s (suc n) ∙ e)
