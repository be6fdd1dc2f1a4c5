-- ===== src/Core/Device.antt =====
-- `icap_device_parse_response` and `icap_device_parse_msg` of src/icap.c.
use icap.Prelude.{
  ℕ, ℤ, pos, neg, is_nonneg, to_s32, to_u32, Bool, true, false, Option, none, some, ◌==◌,
  if◌then◌else◌,
}
use icap.Wire.{
  BufDescriptor, MsgHeader, Msg, Cmd, SubdeviceFeatures, cmd_of, decode_buf, decode_params,
  decode_offsets, encode_features, u32_at, error_msg_id, ack, nak,
}
use icap.Core.Model.{DeviceCallbacks, Callback, Call, Event, State, Link, record_event}
use icap.Core.Reply.{send_ack}
use icap.Core.Application.{call, ack_word, generic_ack}

-- `if (cb->f){ ret = cb->f(icap, …); }`
abbrev pub call_if_set : {T A : Type 0} → Callback A → A → Call → State T → ℤ × State T
call_if_set none a c s = (pos 0, s)
call_if_set (some f) a c s = call f a c s

-- `error` before the `switch`, and as the cases for fragments set it.
abbrev pub response_error : Msg → ℤ
response_error msg = if msg.header.type == nak then to_s32 (u32_at msg.payload 0) else pos 0

abbrev pub response_buf_id : Msg → ℤ
response_buf_id msg =
    if msg.header.type == ack then to_s32 (u32_at msg.payload 0) else response_error msg

module _ {T : Type 0} where
  unfoldable pub device_response_switch : Option Cmd → DeviceCallbacks → Msg → State T → ℤ × State T
  device_response_switch (some Cmd.frag_ready) cb msg s =
      let id = response_buf_id msg in
      call_if_set cb.frag_ready_response id (Call.frag_ready_response id) s
  device_response_switch (some Cmd.xrun) cb msg s =
      let id = response_buf_id msg in call_if_set cb.xrun_response id (Call.xrun_response id) s
  device_response_switch (some Cmd.error) cb msg s =
      let error = response_error msg in
      call_if_set cb.error_response error (Call.error_response error) s
  device_response_switch _ cb msg s = (neg error_msg_id, s)

  unfoldable pub device_parse_response : DeviceCallbacks → Msg → State T → ℤ × State T
  unfolding device_response_switch
  device_parse_response cb msg s = device_response_switch (cmd_of msg.header.cmd) cb msg s

module _ {T : Type 0} (link : Link T) where
  -- A callback's result that the default acknowledgement reports.
  abbrev pub then_generic : ℤ × State T → ℤ × Bool × State T
  then_generic (ret, s) = (ret, true, s)

  -- A callback's result that is sent back as a word, if it is no error.
  abbrev pub then_word : MsgHeader → ℤ × State T → ℤ × Bool × State T
  then_word header (ret, s) =
      if is_nonneg ret then (ret, false, ack_word link header (to_u32 ret) s) else (ret, true, s)

  unfoldable pub add_buf_case :
      Callback BufDescriptor → (BufDescriptor → Call) → Msg → State T → ℤ × Bool × State T
  unfolding send_ack
  add_buf_case none c msg s = (pos 0, true, s)
  add_buf_case (some f) c msg s =
      let buf = decode_buf msg.payload in then_word msg.header (call f buf (c buf) s)

  -- The commands whose argument is one word.
  abbrev pub word_case : Callback ℕ → (ℕ → Call) → Msg → State T → ℤ × Bool × State T
  word_case cb c msg s =
      let word = u32_at msg.payload 0 in then_generic (call_if_set cb word (c word) s)

  -- `uninitialised` is what the local `features` holds before the callback fills it in.
  unfoldable pub device_switch :
      SubdeviceFeatures → Option Cmd → DeviceCallbacks → Msg → State T → ℤ × Bool × State T
  unfolding add_buf_case send_ack
  device_switch uninitialised (some Cmd.get_dev_num) cb msg s = elim cb.get_subdevices [
    | none ↦ (pos 0, true, s)
    | some f ↦ then_word msg.header (f s.history, record_event (Event.called Call.get_subdevices) s)
  ]
  device_switch uninitialised (some Cmd.get_dev_features) cb msg s =
      elim cb.get_subdevice_features [
        | none ↦ (pos 0, true, s)
        | some f ↦
            let id = u32_at msg.payload 0 in
            let (ret, features) = f id uninitialised s.history in
            let s' = record_event (Event.called (Call.get_subdevice_features id)) s in
            if is_nonneg ret
            then (
              ret,
              false,
              (send_ack link msg.header.cmd msg.header.seq_num (some (encode_features features)) 28
                  s').1,
            )
            else (ret, true, s')
      ]
  device_switch uninitialised (some Cmd.dev_init) cb msg s =
      let params = decode_params msg.payload in
      then_generic (call_if_set cb.subdevice_init params (Call.subdevice_init params) s)
  device_switch uninitialised (some Cmd.dev_deinit) cb msg s =
      word_case cb.subdevice_deinit Call.subdevice_deinit msg s
  device_switch uninitialised (some Cmd.add_src) cb msg s =
      add_buf_case cb.add_src Call.add_src msg s
  device_switch uninitialised (some Cmd.add_dst) cb msg s =
      add_buf_case cb.add_dst Call.add_dst msg s
  device_switch uninitialised (some Cmd.remove_src) cb msg s =
      word_case cb.remove_src Call.remove_src msg s
  device_switch uninitialised (some Cmd.remove_dst) cb msg s =
      word_case cb.remove_dst Call.remove_dst msg s
  device_switch uninitialised (some Cmd.start) cb msg s = word_case cb.start Call.start msg s
  device_switch uninitialised (some Cmd.stop) cb msg s = word_case cb.stop Call.stop msg s
  device_switch uninitialised (some Cmd.pause) cb msg s = word_case cb.pause Call.pause msg s
  device_switch uninitialised (some Cmd.resume) cb msg s = word_case cb.resume Call.resume msg s
  device_switch uninitialised (some Cmd.buf_offsets) cb msg s =
      let offsets = decode_offsets msg.payload in
      then_generic (call_if_set cb.frags offsets (Call.frags offsets) s)
  device_switch uninitialised _ cb msg s = (neg error_msg_id, true, s)

  unfoldable pub device_parse_msg :
      SubdeviceFeatures → DeviceCallbacks → Msg → State T → ℤ × State T
  unfolding device_switch generic_ack
  device_parse_msg uninitialised cb msg s = (
    pos 0,
    generic_ack link msg.header (device_switch uninitialised (cmd_of msg.header.cmd) cb msg s),
  )
