-- ===== src/Rpc/Report.antt =====
-- A device's reports about fragments: `icap_frag_ready` and `icap_xrun` of src/icap.c, and what
-- stands for each on the two sides.
mod Told
pub mod Answered
use icap.Prelude.{
  Bool, true, ℕ, ℤ, pos, neg, is_zero, ◌+◌, ◌%◌, ◌^◌, ◌<◌, ◌≤◌, ◌≡◌, refl, ap, ◌∙◌, ◌⊎◌, inl, inr,
  Option, none, some, [], ◌∷◌, ◌++◌, arith, length, false, returns, take_all, le→ltb, IsInt32,
  to_s32, to_u32, to_u32-lt, to_s32-to_u32, if◌then◌else◌, Bool-cases,
}
use icap.Wire.{
  Bytes, Cmd, code, cmd_of-code, ack, nak, msg, SubdeviceFeatures, BufFrags, encode_frags,
  decode_frags, encode_u32, put_u32, u32_at, get_u32-put_u32, encode_msg, MsgHeader, Msg,
}
use icap.Wire.RoundTrip.{FragsFit, decode_frags-tail}
use icap.Core.{
  History, ApplicationCallbacks, DeviceCallbacks, application, device, Callback, State, Event, Call,
  header_for, parse_msg, parse_with, device_response_switch, call_if_set, response_buf_id,
}
use icap.Core.Verdict.{
  Verdict, default, accepted, refused, ask, application_verdict, enact, payload_of, type_of,
  calls_of, result_of, reply_header,
}
use icap.Core.Request.{Request, frag_ready, xrun, send_only, send_msg, exchange, Waiter}
use icap.Core.Deliver.{Carries, dispatch-application, dispatch-device_response}
use icap.BareMetal.Transport.{Transport, Platform, RemoteMsg}
use icap.BareMetal.Loop.{link, send_platform}
use icap.BareMetal.Deliver.{Knows, parse_msg-dispatch}
use icap.BareMetal.Sends.{request_header, sends}
use icap.Rpc.Received.{Received, header_for-Carries, code-lt}
use icap.Rpc.Client.{type_of-response, type_of-lt}
use icap.Rpc.Server.{IsServer, enact-answered, answered}

-- The two reports, with what stands for them on each side.
pub data Report : Type 0 where
  ready overrun : Report

abbrev pub cmd_for : Report → Cmd
cmd_for ready = Cmd.frag_ready
cmd_for overrun = Cmd.xrun

abbrev pub report_call : BufFrags → Report → Call
report_call f ready = Call.frag_ready f
report_call f overrun = Call.xrun f

abbrev pub handler : Report → ApplicationCallbacks → Callback BufFrags
handler ready cb = cb.frag_ready
handler overrun cb = cb.xrun

abbrev pub response_handler : Report → DeviceCallbacks → Callback ℤ
response_handler ready cb = cb.frag_ready_response
response_handler overrun cb = cb.xrun_response

abbrev pub response_call : ℤ → Report → Call
response_call n ready = Call.frag_ready_response n
response_call n overrun = Call.xrun_response n

-- The function of include/icap_device.h, on an instance with this waiter.
abbrev pub send_report : Platform → Waiter Transport → Report → BufFrags → Request Transport
send_report q w ready f = frag_ready (link q) w (some f)
send_report q w overrun f = xrun (link q) w (some f)

-- What the application makes of the report.
abbrev pub report_verdict : Report → ApplicationCallbacks → BufFrags → History → Verdict
report_verdict k cb f h = ask (handler k cb) f (report_call f k) (encode_u32 f.buf_id) h

-- What the device's callback gets: the buffer, or the error of the application's callback.
abbrev pub told : BufFrags → Verdict → ℤ
told f v = if is_zero (result_of v) then to_s32 f.buf_id else result_of v
