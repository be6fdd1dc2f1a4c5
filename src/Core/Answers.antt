-- ===== src/Core/Answers.antt =====
-- `icap_application_parse_msg` and `icap_device_parse_msg` give every message what it deserves.
use icap.Prelude.{pos, ◌≡◌, refl, Option, some, arith}
use icap.Wire.{Msg, Cmd, SubdeviceFeatures, put_u32, put_words, encode_u32, encode_features, cmd_of}
use icap.Core.Model.{ApplicationCallbacks, DeviceCallbacks, State, Link}
use icap.Core.Reply.{send_response}
use icap.Core.Application.{application_switch, generic_ack, application_parse_msg}
use icap.Core.Device.{device_switch, device_parse_msg}
use icap.Core.Verdict.{application_verdict, device_verdict, enact}

module _ {T : Type 0} (link : Link T) (msg : Msg) (s : State T) where
  application_switch_lem :
      (c : Option Cmd) (cb : ApplicationCallbacks)
      → generic_ack link msg.header (application_switch link c cb msg s)
        ≡ enact link msg.header (application_verdict c cb msg.payload s.history) s
  unfolding application_switch application_verdict enact generic_ack send_response encode_u32
      put_u32
  application_switch_lem (some Cmd.frag_ready) cb = ground arith
  application_switch_lem (some Cmd.xrun) cb = ground arith
  application_switch_lem (some Cmd.error) cb = ground arith
  application_switch_lem _ cb = refl

  -- icap_application_parse_msg implements the specification of an application over every
  -- transport: for every message, command and set of callbacks it returns 0 and leaves the state
  -- that enacting the verdict leaves, that is, at most one callback recorded and then one
  -- response sent, negative for an unknown command or a callback's error, else positive.
  pub application_parse_msg-verdict :
      (cb : ApplicationCallbacks)
      → application_parse_msg link cb msg s ≡ (
        pos 0,
        enact link msg.header
            (application_verdict (cmd_of msg.header.cmd) cb msg.payload s.history)
            s,
      )
  unfolding application_parse_msg
  application_parse_msg-verdict cb =
      λ i. (pos 0, application_switch_lem (cmd_of msg.header.cmd) cb i)

  device_switch_lem :
      (u : SubdeviceFeatures) (c : Option Cmd) (cb : DeviceCallbacks)
      → generic_ack link msg.header (device_switch link u c cb msg s)
        ≡ enact link msg.header (device_verdict u c cb msg.payload s.history) s
  unfolding device_switch device_verdict enact generic_ack send_response encode_u32 encode_features
      put_words put_u32
  device_switch_lem u (some Cmd.get_dev_num) cb = ground arith
  device_switch_lem u (some Cmd.get_dev_features) cb = ground arith
  device_switch_lem u (some Cmd.dev_init) cb = ground arith
  device_switch_lem u (some Cmd.dev_deinit) cb = ground arith
  device_switch_lem u (some Cmd.add_src) cb = ground arith
  device_switch_lem u (some Cmd.add_dst) cb = ground arith
  device_switch_lem u (some Cmd.remove_src) cb = ground arith
  device_switch_lem u (some Cmd.remove_dst) cb = ground arith
  device_switch_lem u (some Cmd.start) cb = ground arith
  device_switch_lem u (some Cmd.stop) cb = ground arith
  device_switch_lem u (some Cmd.pause) cb = ground arith
  device_switch_lem u (some Cmd.resume) cb = ground arith
  device_switch_lem u (some Cmd.buf_offsets) cb = ground arith
  device_switch_lem u _ cb = refl

  -- icap_device_parse_msg implements the specification of a device over every transport: for
  -- every message, command and set of callbacks it returns 0 and leaves the state that enacting
  -- the verdict leaves. The verdict depends on the command, the callbacks, the payload and the
  -- history; enacting it records at most one callback and then sends one response with the
  -- message's sequence number and command, negative for an unknown command or a callback's error,
  -- else positive.
  pub device_parse_msg-verdict :
      (u : SubdeviceFeatures) (cb : DeviceCallbacks)
      → device_parse_msg link u cb msg s ≡ (
        pos 0,
        enact link msg.header (device_verdict u (cmd_of msg.header.cmd) cb msg.payload s.history) s,
      )
  unfolding device_parse_msg
  device_parse_msg-verdict u cb = λ i. (pos 0, device_switch_lem u (cmd_of msg.header.cmd) cb i)
