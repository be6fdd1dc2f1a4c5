-- ===== src/Core/Verdict.antt =====
-- What a message deserves, as include/icap_device.h, include/icap_application.h and the README
-- tell it: one response, positive or negative, after at most one callback.
use icap.Prelude.{
  ◌==◌, ◌∷◌, ℕ, ℤ, pos, neg, is_zero, is_nonneg, to_s32, to_u32, Option, none, some, [], length,
  if◌then◌else◌,
}
use icap.Wire.{
  Bytes, MsgHeader, Cmd, SubdeviceFeatures, decode_frags, decode_buf, decode_params, decode_offsets,
  encode_features, encode_u32, u32_at, error_msg_id, ack, nak,
}
use icap.Core.Model.{
  ApplicationCallbacks, DeviceCallbacks, Callback, Call, Event, History, State, Link, record_event,
}
use icap.Core.Reply.{header_for, transmit}

-- `unknown`: no command of this side. `default`: no callback is set. `accepted` and `refused`: the
-- callback that was called agreed or not. Positive responses carry bytes.
pub data Verdict : Type 0 where
  unknown : Verdict
  default : Bytes → Verdict
  accepted : Call → Bytes → Verdict
  refused : Call → ℤ → Verdict

-- A callback that returns 0 on success.
abbrev pub ask : {A : Type 0} → Callback A → A → Call → Bytes → History → Verdict
ask none a c value h = default value
ask (some f) a c value h = if is_zero (f a h) then accepted c value else refused c (f a h)

-- A callback that returns a number or a negative error code.
abbrev pub ask_number : Option (History → ℤ) → Call → History → Verdict
ask_number none c h = default []
ask_number (some f) c h =
    if is_nonneg (f h) then accepted c (encode_u32 (to_u32 (f h))) else refused c (f h)

abbrev pub apply_to : {A : Type 0} → Callback A → A → Option (History → ℤ)
apply_to none a = none
apply_to (some f) a = some (f a)

abbrev pub ask_features :
    Option (ℕ → SubdeviceFeatures → History → ℤ × SubdeviceFeatures)
    → SubdeviceFeatures
    → ℕ
    → History
    → Verdict
ask_features none uninitialised id h = default []
ask_features (some f) uninitialised id h =
    let (ret, features) = f id uninitialised h in
    if is_nonneg ret
    then accepted (Call.get_subdevice_features id) (encode_features features)
    else refused (Call.get_subdevice_features id) ret

unfoldable pub application_verdict : Option Cmd → ApplicationCallbacks → Bytes → History → Verdict
application_verdict (some Cmd.frag_ready) cb p h =
    let f = decode_frags p in ask cb.frag_ready f (Call.frag_ready f) (encode_u32 f.buf_id) h
application_verdict (some Cmd.xrun) cb p h =
    let f = decode_frags p in ask cb.xrun f (Call.xrun f) (encode_u32 f.buf_id) h
application_verdict (some Cmd.error) cb p h =
    let code = to_s32 (u32_at p 0) in ask cb.error code (Call.error code) [] h
application_verdict _ cb p h = unknown

unfoldable pub device_verdict :
    SubdeviceFeatures → Option Cmd → DeviceCallbacks → Bytes → History → Verdict
device_verdict u (some Cmd.get_dev_num) cb p h = ask_number cb.get_subdevices Call.get_subdevices h
device_verdict u (some Cmd.get_dev_features) cb p h =
    ask_features cb.get_subdevice_features u (u32_at p 0) h
device_verdict u (some Cmd.dev_init) cb p h =
    let params = decode_params p in ask cb.subdevice_init params (Call.subdevice_init params) [] h
device_verdict u (some Cmd.dev_deinit) cb p h =
    let id = u32_at p 0 in ask cb.subdevice_deinit id (Call.subdevice_deinit id) [] h
device_verdict u (some Cmd.add_src) cb p h =
    let buf = decode_buf p in ask_number (apply_to cb.add_src buf) (Call.add_src buf) h
device_verdict u (some Cmd.add_dst) cb p h =
    let buf = decode_buf p in ask_number (apply_to cb.add_dst buf) (Call.add_dst buf) h
device_verdict u (some Cmd.remove_src) cb p h =
    let id = u32_at p 0 in ask cb.remove_src id (Call.remove_src id) [] h
device_verdict u (some Cmd.remove_dst) cb p h =
    let id = u32_at p 0 in ask cb.remove_dst id (Call.remove_dst id) [] h
device_verdict u (some Cmd.start) cb p h =
    let id = u32_at p 0 in ask cb.start id (Call.start id) [] h
device_verdict u (some Cmd.stop) cb p h = let id = u32_at p 0 in ask cb.stop id (Call.stop id) [] h
device_verdict u (some Cmd.pause) cb p h =
    let id = u32_at p 0 in ask cb.pause id (Call.pause id) [] h
device_verdict u (some Cmd.resume) cb p h =
    let id = u32_at p 0 in ask cb.resume id (Call.resume id) [] h
device_verdict u (some Cmd.buf_offsets) cb p h =
    let offsets = decode_offsets p in ask cb.frags offsets (Call.frags offsets) [] h
device_verdict u _ cb p h = unknown

module _ {T : Type 0} (link : Link T) (header : MsgHeader) where
  -- One response to the message, with its command and sequence number.
  abbrev pub respond : ℕ → Bytes → State T → State T
  respond type payload s =
      (transmit link (header_for header.seq_num header.cmd type (length payload)) payload s).1

  unfoldable pub enact : Verdict → State T → State T
  enact unknown s = respond nak (encode_u32 (to_u32 (neg error_msg_id))) s
  enact (default value) s = respond ack value s
  enact (accepted c value) s = respond ack value (record_event (Event.called c) s)
  enact (refused c error) s =
      respond nak (encode_u32 (to_u32 error)) (record_event (Event.called c) s)

-- The response that a verdict calls for, the callback that it reports, and what the call of the
-- peer that waits for the response returns.
abbrev pub type_of : Verdict → ℕ
type_of unknown = nak
type_of (default value) = ack
type_of (accepted c value) = ack
type_of (refused c error) = nak

abbrev pub payload_of : Verdict → Bytes
payload_of unknown = encode_u32 (to_u32 (neg error_msg_id))
payload_of (default value) = value
payload_of (accepted c value) = value
payload_of (refused c error) = encode_u32 (to_u32 error)

abbrev pub calls_of : Verdict → History
calls_of unknown = []
calls_of (default value) = []
calls_of (accepted c value) = Event.called c ∷ []
calls_of (refused c error) = Event.called c ∷ []

abbrev pub result_of : Verdict → ℤ
result_of unknown = neg error_msg_id
result_of (default value) = pos 0
result_of (accepted c value) = pos 0
result_of (refused c error) = error

abbrev pub reply_header : MsgHeader → Verdict → MsgHeader
reply_header header v = header_for header.seq_num header.cmd (type_of v) (length (payload_of v))

-- What a waiting call returns for a response.
abbrev pub outcome : MsgHeader → Bytes → ℤ
outcome h payload = if h.type == nak then to_s32 (u32_at payload 0) else pos 0
