-- ===== src/Rpc/Client.antt =====
-- The application's side of a call: `icap_send_msg` of src/icap.c and the response.
use icap.Prelude.{
  ℕ, suc, ◌+◌, ◌%◌, ◌^◌, ◌<◌, ◌≤◌, ◌≡◌, refl, ap, ◌∙◌, inl, inr, ◌⊎◌, [], ◌∷◌, ◌++◌, arith, length,
  true, returns, ◌>>=◌, IsInt32, to_u32-lt, to_s32, to_u32, to_s32-to_u32,
}
use icap.Wire.{
  Bytes, MsgHeader, Cmd, code, ack, nak, SubdeviceFeatures, encode_u32, u32_at, put_u32,
  get_u32-put_u32,
}
use icap.Core.{ApplicationCallbacks, State, header_for}
use icap.Core.Verdict.{
  outcome, Verdict, unknown, default, accepted, refused, type_of, payload_of, result_of,
  reply_header,
}
use icap.Core.Request.{send_only}
use icap.BareMetal.Transport.{Transport, Platform, RemoteMsg}
use icap.BareMetal.Loop.{link, send_platform}
use icap.BareMetal.Wait.{waiter, wait_for_response}
use icap.Core.Deliver.{Carries}
use icap.BareMetal.Await.{IsClient, wait_rounds-response}
use icap.BareMetal.Sends.{request_header, sends, waits_in, send_only-waits}
use icap.Rpc.Received.{code-lt, Received, header_for-Carries}

pub type_of-response : (v : Verdict) → (type_of v ≡ ack) ⊎ (type_of v ≡ nak)
type_of-response unknown = inr refl
type_of-response (default value) = inl refl
type_of-response (accepted c value) = inl refl
type_of-response (refused c error) = inr refl

pub type_of-lt : (v : Verdict) → type_of v < 3
type_of-lt unknown = omega arith
type_of-lt (default value) = omega arith
type_of-lt (accepted c value) = omega arith
type_of-lt (refused c error) = omega arith

-- What a waiting call returns for the response to a verdict.
pub outcome-verdict :
    (h : MsgHeader) (v : Verdict) (tail : Bytes)
    → IsInt32 (result_of v)
    → outcome (reply_header h v) (payload_of v ++ tail) ≡ result_of v
unfolding header_for encode_u32 u32_at put_u32
outcome-verdict h unknown tail i = refl
outcome-verdict h (default value) tail i = refl
outcome-verdict h (accepted c value) tail i = refl
outcome-verdict h (refused c error) tail i =
    ap to_s32 (get_u32-put_u32 (to_u32 error) tail (to_u32-lt error)) ∙ to_s32-to_u32 error i

module _ (p : Platform) (u : SubdeviceFeatures) where
  -- A call of the application gets back what the device's callback returned.
  pub send_only-response :
      (c : Cmd) (args rest : Bytes) (cb : ApplicationCallbacks) (v : Verdict) (s : State Transport)
      (m : RemoteMsg) (n : ℕ)
      → length args ≤ 264
      → IsClient cb m.src_addr s
      → length (payload_of v) ≤ 264
      → IsInt32 (result_of v)
      → Received (reply_header (request_header c args s) v) (payload_of v) rest m
      → m.size ≤ length s.icap.transport.last_response
      → p.arrivals (waits_in p c args s).history ≡ m ∷ []
      → (s' : State Transport) × (send_only
            (link p)
            (waiter p u (suc n))
            c
            args
            (length args)
            true
            s
          ≡ returns (result_of v, s'))
  unfolding send_only waiter wait_for_response link send_platform header_for
  send_only-response c args rest cb v s m n l k lv i r room a =
      let h = reply_header (request_header c args s) v in
      let s₁ = waits_in p c args s in
      let carried : Carries h (payload_of v) rest m.buffer.bytes m.size =
        header_for-Carries ((s.icap.seq_num + 1) % 2 ^ 32) (code c) (type_of v) (payload_of v) rest
          m (omega arith) (code-lt c) (omega (arith, type_of-lt v)) lv r in
      let client : IsClient cb m.src_addr s₁ = record {
        callbacks = k.callbacks;
        type = k.type;
        knows = k.knows;
        ring = k.ring;
        idle = k.idle;
      } in
      let (s', e) =
        wait_rounds-response p u h (payload_of v) rest m carried cb s₁ n
          (p.us_clock_tick (sends c args s).history) client (type_of-response v) room a in
      (
        s',
        send_only-waits p u c args s (suc n) l
            ∙ ap (λ x. x >>= λ (ret, _, t). returns (ret, t)) e
            ∙ ap (λ x. returns (x, s')) (outcome-verdict (request_header c args s) v _ i),
      )
