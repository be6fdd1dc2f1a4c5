-- ===== src/Rpc/Report/Answered.antt =====
-- A report, the application's answer, and the device's callback for it, over bare metal.
use icap.Prelude.{
  ℕ, pos, ◌+◌, ◌%◌, ◌^◌, ◌≤◌, ◌≡◌, refl, ap, ◌∙◌, some, ◌++◌, arith, length, false, returns,
  take_all, le→ltb, IsInt32,
}
use icap.Wire.{
  Bytes, Cmd, code, cmd_of-code, msg, SubdeviceFeatures, BufFrags, encode_frags, put_u32,
  encode_msg, Msg,
}
use icap.Wire.RoundTrip.{FragsFit}
use icap.Core.{
  History, ApplicationCallbacks, DeviceCallbacks, application, device, State, header_for, parse_msg,
  device_response_switch, call_if_set,
}
use icap.Core.Verdict.{application_verdict, enact, payload_of, type_of, result_of, reply_header}
use icap.Core.Request.{frag_ready, xrun, send_only, send_msg, exchange, Waiter}
use icap.Core.Deliver.{Carries, dispatch-application, dispatch-device_response}
use icap.BareMetal.Transport.{Transport, Platform, RemoteMsg}
use icap.BareMetal.Loop.{link, send_platform}
use icap.BareMetal.Deliver.{Knows, parse_msg-dispatch}
use icap.BareMetal.Sends.{request_header, sends}
use icap.Rpc.Received.{Received, header_for-Carries, code-lt}
use icap.Rpc.Client.{type_of-response, type_of-lt}
use icap.Rpc.Server.{IsServer, enact-answered, answered}
use icap.Rpc.Report.{
  Report, ready, overrun, cmd_for, report_call, handler, response_handler, response_call,
  send_report, report_verdict, told,
}
use icap.Rpc.Report.Told.{
  application_verdict-report, report_verdict-small, response_buf_id-told,
  device_response_switch-report,
}

-- An application that talks to the given address.
pub record IsListener (cb : ApplicationCallbacks) (src : ℕ) (s : State Transport) : Type 0 where
  pub callbacks : s.icap.callbacks ≡ some (application cb)
  pub type : s.icap.type ≡ 0
  pub knows : Knows s src

module _ (q : Platform) (w : Waiter Transport) where
  -- A call that does not wait numbers its message and sends it.
  pub send_only-sends :
      (c : Cmd) (args : Bytes) (d : State Transport)
      → length args ≤ 264
      → send_only (link q) w c args (length args) false d
        ≡ returns (
          q.send d.icap.transport.rpmsg_instance d.icap.transport.rpmsg_ept
              d.icap.transport.remote_addr
              (encode_msg (request_header c args d) args)
              d.history,
          sends c args d,
        )
  unfolding send_only send_msg exchange link send_platform header_for
  send_only-sends c args d l =
      rw (le→ltb 264 (length args) l, take_all (length args) args (omega arith)) refl

  send_report-sends :
      (k : Report) (f : BufFrags) (d : State Transport)
      → send_report q w k f d
        ≡ returns (
          q.send d.icap.transport.rpmsg_instance d.icap.transport.rpmsg_ept
              d.icap.transport.remote_addr
              (encode_msg (request_header (cmd_for k) (encode_frags f) d) (encode_frags f))
              d.history,
          sends (cmd_for k) (encode_frags f) d,
        )
  unfolding frag_ready xrun encode_frags put_u32
  send_report-sends ready f d = send_only-sends Cmd.frag_ready (encode_frags f) d (omega arith)
  send_report-sends overrun f d = send_only-sends Cmd.xrun (encode_frags f) d (omega arith)

length-encode_frags : (f : BufFrags) → length (encode_frags f) ≡ 8
unfolding encode_frags put_u32
length-encode_frags f = refl

module _ (p : Platform) (u : SubdeviceFeatures) where
  -- An application answers a report: at most one call of its callback, and one response.
  parse_msg-report :
      (k : Report) (f : BufFrags) (rest : Bytes) (cb : ApplicationCallbacks) (d s : State Transport)
      (m : RemoteMsg)
      → FragsFit f
      → IsListener cb m.src_addr s
      → Received (request_header (cmd_for k) (encode_frags f) d) (encode_frags f) rest m
      → parse_msg (link p) u m.src_addr m.buffer.bytes m.size s
        ≡ returns (
          pos 0,
          answered m.src_addr
              (request_header (cmd_for k) (encode_frags f) d)
              (report_verdict k cb f s.history)
              s,
        )
  unfolding header_for
  parse_msg-report k f rest cb d s m i v r =
      let args = encode_frags f in
      let h = request_header (cmd_for k) args d in
      let carried : Carries h args rest m.buffer.bytes m.size =
        header_for-Carries ((d.icap.seq_num + 1) % 2 ^ 32) (code (cmd_for k)) msg args rest m
          (omega arith) (code-lt (cmd_for k)) (omega arith) (omega (arith, length-encode_frags f))
          r in
      parse_msg-dispatch p u h args rest m.buffer.bytes m.size carried (application cb) m.src_addr s
        v.callbacks v.knows
      ∙ dispatch-application (link p) u h args rest m.buffer.bytes m.size carried cb s v.type refl
      ∙ ap
          (λ x.
            returns (pos 0, enact (link p) h (application_verdict x cb (args ++ rest) s.history) s))
          (cmd_of-code (cmd_for k))
      ∙ ap (λ x. returns (pos 0, enact (link p) h x s))
          (application_verdict-report k f rest cb s.history i)
      ∙ ap (λ x. returns (pos 0, x))
          (enact-answered p h (report_verdict k cb f s.history) m.src_addr s v.knows)

  -- The device hands the answer to its callback.
  parse_msg-answer :
      (k : Report) (f : BufFrags) (rest : Bytes) (app : ApplicationCallbacks) (h : History)
      (cb : DeviceCallbacks) (d s : State Transport) (m : RemoteMsg)
      → FragsFit f
      → IsServer cb m.src_addr s
      → let v = report_verdict k app f h in
        IsInt32 (result_of v)
        → Received
            (reply_header (request_header (cmd_for k) (encode_frags f) d) v)
            (payload_of v)
            rest
            m
        → parse_msg (link p) u m.src_addr m.buffer.bytes m.size s
          ≡ returns (call_if_set (response_handler k cb) (told f v) (response_call (told f v) k) s)
  unfolding header_for
  parse_msg-answer k f rest app h cb d s m i e n r =
      let v = report_verdict k app f h in
      let rh = request_header (cmd_for k) (encode_frags f) d in
      let header = reply_header rh v in
      let response : Msg = record { header = header; payload = payload_of v ++ rest } in
      let carried : Carries header (payload_of v) rest m.buffer.bytes m.size =
        header_for-Carries ((d.icap.seq_num + 1) % 2 ^ 32) (code (cmd_for k)) (type_of v)
          (payload_of v) rest m (omega arith) (code-lt (cmd_for k)) (omega (arith, type_of-lt v))
          (omega (arith, report_verdict-small k app f h)) r in
      parse_msg-dispatch p u header (payload_of v) rest m.buffer.bytes m.size carried (device cb)
        m.src_addr s e.callbacks e.knows
      ∙ dispatch-device_response (link p) u header (payload_of v) rest m.buffer.bytes m.size carried
          cb s e.type (type_of-response v)
      ∙ ap (λ x. returns (device_response_switch x cb response s)) (cmd_of-code (cmd_for k))
      ∙ ap returns (device_response_switch-report k cb response s)
      ∙ ap (λ x. returns (call_if_set (response_handler k cb) x (response_call x k) s))
          (response_buf_id-told (handler k app) (report_call f k) f h rh rest i n)

module _ (p q : Platform) (u w : SubdeviceFeatures) (waiter : Waiter Transport) (k : Report)
    (f : BufFrags) (app : ApplicationCallbacks) (dev : DeviceCallbacks) (d d₂ s : State Transport)
    (m₁ m₂ : RemoteMsg) (rest₁ rest₂ : Bytes) where
  -- A report of a device over bare metal, icap_frag_ready or icap_xrun with fields that are
  -- 32-bit words, to an application that knows the sender and back to a device that knows the
  -- application. The device's call sends one message, does not wait, and returns what
  -- rpmsg_lite_send returned. If the application receives this message as it was sent, its
  -- icap_parse_msg returns 0 after calling the callback for the report, if it is set, with these
  -- fragments, and sending one response. If the device, then in any state, receives this response
  -- and the application's result is an int32_t, its icap_parse_msg calls the response callback,
  -- if it is set, once and returns its result; the callback gets the buffer's id if the
  -- application's callback agreed or is not set, and else its error.
  pub report-answered :
      let args = encode_frags f in
      let rh = request_header (cmd_for k) args d in
      let v = report_verdict k app f s.history in
      FragsFit f
      → IsListener app m₁.src_addr s
      → IsServer dev m₂.src_addr d₂
      → IsInt32 (result_of v)
      → Received rh args rest₁ m₁
      → Received (reply_header rh v) (payload_of v) rest₂ m₂
      → (send_report q waiter k f d
          ≡ returns (
            q.send d.icap.transport.rpmsg_instance d.icap.transport.rpmsg_ept
                d.icap.transport.remote_addr
                (encode_msg rh args)
                d.history,
            sends (cmd_for k) args d,
          ))
        × (parse_msg (link p) u m₁.src_addr m₁.buffer.bytes m₁.size s
            ≡ returns (pos 0, answered m₁.src_addr rh v s))
        × (parse_msg (link q) w m₂.src_addr m₂.buffer.bytes m₂.size d₂
            ≡ returns
                (call_if_set (response_handler k dev) (told f v) (response_call (told f v) k) d₂))
  report-answered i l e n r₁ r₂ = (
    send_report-sends q waiter k f d,
    parse_msg-report p u k f rest₁ app d s m₁ i l r₁,
    parse_msg-answer q w k f rest₂ app s.history dev d d₂ m₂ i e n r₂,
  )
