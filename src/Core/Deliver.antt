-- ===== src/Core/Deliver.antt =====
-- A message of the other side in a buffer, and where `icap_parse_msg` of src/icap.c takes it, over
-- any transport.
use icap.Prelude.{
  ℕ, ◌+◌, ◌%◌, ◌^◌, ◌<◌, ◌≡◌, refl, ap, ◌∙◌, ◌⊎◌, some, ◌++◌, arith, length, returns, pos, true,
  eq→==, ne→==, ◌==◌, ◌||◌,
}
use icap.Wire.{
  Bytes, MsgHeader, Msg, msg, ack, nak, SubdeviceFeatures, decode_msg, encode_msg, cmd_of,
  header_size,
}
use icap.Wire.RoundTrip.{HeaderFits, decode_msg-encode_msg}
use icap.Core.Model.{
  application_instance, Callbacks, application, device, ApplicationCallbacks, DeviceCallbacks,
  State, Link, set_transport,
}
use icap.Core.Application.{application_parse_response}
use icap.Core.Device.{device_parse_response, device_response_switch}
use icap.Core.Parse.{dispatch, parse_with}
use icap.Core.Verdict.{enact, device_verdict, application_verdict}
use icap.Core.Answers.{device_parse_msg-verdict, application_parse_msg-verdict}

-- The buffer holds a message of this protocol, and more bytes behind it.
pub record Carries (h : MsgHeader) (payload rest bytes : Bytes) (size : ℕ) : Type 0 where
  pub content : bytes ≡ encode_msg h (payload ++ rest)
  pub extent : size ≡ 40 + length payload
  pub len : h.payload_len ≡ length payload
  pub version : h.protocol_version ≡ 1
  pub fits : HeaderFits h
  pub small : size < 2 ^ 32

module _ {T : Type 0} (link : Link T) (u : SubdeviceFeatures) (h : MsgHeader)
    (payload rest bytes : Bytes) (size : ℕ) (c : Carries h payload rest bytes size) where
  pub decoded : decode_msg bytes ≡ record { header = h; payload = payload ++ rest }
  decoded = ap decode_msg c.content ∙ decode_msg-encode_msg h (payload ++ rest) c.fits

  pub header_of : (decode_msg bytes).header ≡ h
  header_of = ap (λ (m : Msg). m.header) decoded

  -- The message passes the checks if its sender does; the transport may note the sender.
  pub parse_with-noted :
      (cb : Callbacks) (src : ℕ) (s : State T) (t : T)
      → link.verify_remote s.icap.transport src ≡ (pos 0, t)
      → size % link.size_mod ≡ size
      → parse_with link u (some cb) src bytes size s ≡ dispatch link u cb bytes (set_transport t s)
  unfolding parse_with
  parse_with-noted cb src s t known whole =
      let sum : header_size + h.payload_len ≡ size = omega (arith, c.extent, c.len) in
      rw (header_of, eq→== h.protocol_version 1 c.version, sum, whole, eq→== size size refl, known)
        refl

  pub parse_with-passes :
      (cb : Callbacks) (src : ℕ) (s : State T)
      → link.verify_remote s.icap.transport src ≡ (pos 0, s.icap.transport)
      → size % link.size_mod ≡ size
      → parse_with link u (some cb) src bytes size s ≡ dispatch link u cb bytes s
  parse_with-passes cb src s known whole = parse_with-noted cb src s s.icap.transport known whole

  pub dispatch-device :
      (cb : DeviceCallbacks) (s : State T)
      → s.icap.type ≡ 1
      → h.type ≡ msg
      → dispatch link u (device cb) bytes s
        ≡ returns
            (pos 0, enact link h (device_verdict u (cmd_of h.cmd) cb (payload ++ rest) s.history) s)
  unfolding dispatch
  dispatch-device cb s e t =
      rw
        (
          decoded,
          ne→== h.type ack (omega arith),
          ne→== h.type nak (omega arith),
          eq→== h.type msg t,
          ne→== s.icap.type application_instance (omega arith),
          device_parse_msg-verdict,
        )
        refl

  pub dispatch-application :
      (cb : ApplicationCallbacks) (s : State T)
      → s.icap.type ≡ 0
      → h.type ≡ msg
      → dispatch link u (application cb) bytes s
        ≡ returns (
          pos 0,
          enact link h (application_verdict (cmd_of h.cmd) cb (payload ++ rest) s.history) s,
        )
  unfolding dispatch
  dispatch-application cb s e t =
      rw
        (
          decoded,
          ne→== h.type ack (omega arith),
          ne→== h.type nak (omega arith),
          eq→== h.type msg t,
          eq→== s.icap.type application_instance e,
          application_parse_msg-verdict,
        )
        refl

  pub dispatch-response :
      (cb : ApplicationCallbacks) (s : State T)
      → s.icap.type ≡ 0
      → (h.type ≡ ack) ⊎ (h.type ≡ nak)
      → dispatch link u (application cb) bytes s ≡ application_parse_response link bytes s
  unfolding dispatch
  dispatch-response cb s e t =
      let response : (h.type == ack || h.type == nak) ≡ true = ground arith in
      rw (header_of, response, eq→== s.icap.type application_instance e) refl

  pub dispatch-device_response :
      (cb : DeviceCallbacks) (s : State T)
      → s.icap.type ≡ 1
      → (h.type ≡ ack) ⊎ (h.type ≡ nak)
      → dispatch link u (device cb) bytes s
        ≡ returns (
            device_response_switch
              (cmd_of h.cmd)
              cb
              (record { header = h; payload = payload ++ rest })
              s)
  unfolding dispatch device_parse_response
  dispatch-device_response cb s e t =
      let response : (h.type == ack || h.type == nak) ≡ true = ground arith in
      rw (decoded, response, ne→== s.icap.type application_instance (omega arith)) refl
