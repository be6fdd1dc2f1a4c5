-- ===== src/Rpc/Report/Told.antt =====
-- What the application's verdict on a report and the device's callback are given.
use icap.Prelude.{
  Bool, true, ℤ, is_zero, ◌≤◌, ◌≡◌, refl, ap, ◌∙◌, none, some, ◌++◌, arith, length, false, IsInt32,
  to_s32, to_u32, to_u32-lt, to_s32-to_u32, if◌then◌else◌,
}
use icap.Wire.{
  Bytes, BufFrags, encode_frags, encode_u32, put_u32, u32_at, get_u32-put_u32, MsgHeader, Msg,
}
use icap.Wire.RoundTrip.{FragsFit, decode_frags-tail}
use icap.Core.{
  History, ApplicationCallbacks, DeviceCallbacks, Callback, State, Call, header_for,
  device_response_switch, call_if_set, response_buf_id,
}
use icap.Core.Verdict.{
  accepted, refused, ask, application_verdict, payload_of, result_of, reply_header,
}
use icap.BareMetal.Transport.{Transport}
use icap.Rpc.Report.{
  Report, ready, overrun, cmd_for, response_handler, response_call, report_verdict, told,
}

pub application_verdict-report :
    (k : Report) (f : BufFrags) (rest : Bytes) (cb : ApplicationCallbacks) (h : History)
    → FragsFit f
    → application_verdict (some (cmd_for k)) cb (encode_frags f ++ rest) h ≡ report_verdict k cb f h
unfolding application_verdict
application_verdict-report ready f rest cb h i =
    ap (λ x. report_verdict ready cb x h) (decode_frags-tail f rest i)
application_verdict-report overrun f rest cb h i =
    ap (λ x. report_verdict overrun cb x h) (decode_frags-tail f rest i)

pub report_verdict-small :
    (k : Report) (cb : ApplicationCallbacks) (f : BufFrags) (h : History)
    → length (payload_of (report_verdict k cb f h)) ≤ 4
unfolding encode_u32 put_u32
report_verdict-small ready cb f h = ground arith
report_verdict-small overrun cb f h = ground arith

pub device_response_switch-report :
    (k : Report) (cb : DeviceCallbacks) (m : Msg) (s : State Transport)
    → device_response_switch (some (cmd_for k)) cb m s
      ≡ call_if_set
          (response_handler k cb)
          (response_buf_id m)
          (response_call (response_buf_id m) k)
          s
unfolding device_response_switch
device_response_switch-report ready cb m s = refl
device_response_switch-report overrun cb m s = refl

-- The word in the answer is the buffer's id, or the error.
response_buf_id-decided :
    (b : Bool) (e : ℤ) (c : Call) (f : BufFrags) (rh : MsgHeader) (rest : Bytes)
    → FragsFit f
    → is_zero e ≡ b
    → let v = if b then accepted c (encode_u32 f.buf_id) else refused c e in
      IsInt32 (result_of v)
      → response_buf_id (record { header = reply_header rh v; payload = payload_of v ++ rest })
        ≡ told f v
unfolding header_for encode_u32 put_u32 u32_at
response_buf_id-decided true e c f rh rest i z n = ap to_s32 (get_u32-put_u32 f.buf_id rest i.0)
response_buf_id-decided false e c f rh rest i z n =
    ap to_s32 (get_u32-put_u32 (to_u32 e) rest (to_u32-lt e)) ∙ to_s32-to_u32 e n ∙ rw z refl

pub response_buf_id-told :
    (o : Callback BufFrags) (c : Call) (f : BufFrags) (h : History) (rh : MsgHeader) (rest : Bytes)
    → FragsFit f
    → let v = ask o f c (encode_u32 f.buf_id) h in
      IsInt32 (result_of v)
      → response_buf_id (record { header = reply_header rh v; payload = payload_of v ++ rest })
        ≡ told f v
unfolding header_for encode_u32 put_u32 u32_at
response_buf_id-told none c f h rh rest i n = ap to_s32 (get_u32-put_u32 f.buf_id rest i.0)
response_buf_id-told (some g) c f h rh rest i n =
    response_buf_id-decided (is_zero (g f h)) (g f h) c f rh rest i refl n
