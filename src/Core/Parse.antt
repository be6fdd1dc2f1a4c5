-- ===== src/Core/Parse.antt =====
-- `icap_parse_msg` of src/icap.c.
use icap.Prelude.{
  ℕ, ℤ, neg, is_zero, ◌+◌, ◌%◌, ◌||◌, not, Option, none, some, ◌==◌, if◌then◌else◌, Run, returns,
  faults,
}
use icap.Wire.{
  Bytes, SubdeviceFeatures, decode_msg, protocol_version, header_size, msg, ack, nak, error_init,
  error_protocol_not_sup, error_msg_len, error_msg_type,
}
use icap.Core.Model.{
  Callbacks, application, device, State, Link, application_instance, set_transport,
}
use icap.Core.Application.{application_parse_response, application_parse_msg}
use icap.Core.Device.{device_parse_response, device_parse_msg}

module _ {T : Type 0} (link : Link T) (uninitialised : SubdeviceFeatures) where
  -- The dispatch on the message's type and the instance's. The handlers cast the pointer to the
  -- callbacks to the type of their side.
  unfoldable pub dispatch : Callbacks → Bytes → State T → Run (ℤ × State T)
  dispatch (application cb) bytes s =
      let m = decode_msg bytes in
      if m.header.type == ack || m.header.type == nak
      then if s.icap.type == application_instance
        then application_parse_response link bytes s
        else faults
      else if m.header.type == msg
      then if s.icap.type == application_instance
        then returns (application_parse_msg link cb m s)
        else faults
      else returns (neg error_msg_type, s)
  dispatch (device cb) bytes s =
      let m = decode_msg bytes in
      if m.header.type == ack || m.header.type == nak
      then if s.icap.type == application_instance
        then application_parse_response link bytes s
        else returns (device_parse_response cb m s)
      else if m.header.type == msg
      then if s.icap.type == application_instance
        then faults
        else returns (device_parse_msg link uninitialised cb m s)
      else returns (neg error_msg_type, s)

  -- The checks of `icap_parse_msg`, with the pointer that it finds in `icap->callbacks`.
  unfoldable pub parse_with : Option Callbacks → ℕ → Bytes → ℕ → State T → Run (ℤ × State T)
  parse_with none src_addr bytes size s = returns (neg error_init, s)
  parse_with (some cb) src_addr bytes size s =
      let header = (decode_msg bytes).header in
      if not (header.protocol_version == protocol_version)
      then returns (neg error_protocol_not_sup, s)
      else if not (size == (header_size + header.payload_len) % link.size_mod)
      then returns (neg error_msg_len, s)
      else let (ret, t) = link.verify_remote s.icap.transport src_addr in
        let s' = set_transport t s in
        if is_zero ret then dispatch cb bytes s' else returns (ret, s')

  unfoldable pub parse_msg : ℕ → Bytes → ℕ → State T → Run (ℤ × State T)
  unfolding parse_with
  parse_msg src_addr bytes size s = parse_with s.icap.callbacks src_addr bytes size s
