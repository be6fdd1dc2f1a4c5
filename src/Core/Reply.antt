-- ===== src/Core/Reply.antt =====
-- `icap_send_response`, `icap_send_ack` and `icap_send_nak` of src/icap.c.
use icap.Prelude.{ℕ, ℤ, Option, none, some, [], take, replicate, neg, to_u32, ltb, if◌then◌else◌}
use icap.Wire.{
  Bytes, MsgHeader, encode_msg, encode_u32, protocol_version, ack, nak, error_msg_len, payload_size,
}
use icap.Core.Model.{State, Link}

-- The header that both kinds of messages get.
unfoldable pub header_for : ℕ → ℕ → ℕ → ℕ → MsgHeader
header_for seq_num cmd type size = record {
  protocol_version = protocol_version;
  seq_num = seq_num;
  cmd = cmd;
  type = type;
  reserved = replicate 5 0;
  payload_len = size;
}

module _ {T : Type 0} (link : Link T) where
  -- `icap_send_platform(icap, &msg, size)`: the first `size` bytes of `msg` are the header and the
  -- payload that was copied in.
  abbrev pub transmit : MsgHeader → Bytes → State T → ℤ × State T
  transmit header payload s =
      let (ret, h) = link.send_platform s.icap.transport (encode_msg header payload) s.history in
      (ret, record s { history = h })

  unfoldable pub send_response : ℕ → ℕ → ℕ → Option Bytes → ℕ → State T → ℤ × State T
  unfolding header_for
  send_response cmd type seq_num none size s = transmit (header_for seq_num cmd type 0) [] s
  send_response cmd type seq_num (some bytes) size s =
      if ltb payload_size size
      then (neg error_msg_len, s)
      else transmit (header_for seq_num cmd type size) (take size bytes) s

  unfoldable pub send_ack : ℕ → ℕ → Option Bytes → ℕ → State T → ℤ × State T
  send_ack cmd seq_num bytes size = send_response cmd ack seq_num bytes size

  unfoldable pub send_nak : ℕ → ℕ → ℤ → State T → ℤ × State T
  send_nak cmd seq_num error = send_response cmd nak seq_num (some (encode_u32 (to_u32 error))) 4
