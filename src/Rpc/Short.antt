-- ===== src/Rpc/Short.antt =====
-- A request that is shorter than the arguments of its command: `icap_parse_msg` and
-- `icap_device_parse_msg` of src/icap.c on a device.
use icap.Prelude.{
  ℕ, ℤ, pos, ◌<◌, ◌^◌, ◌≡◌, ap, ◌∙◌, some, [], ◌++◌, arith, returns, is_zero, if◌then◌else◌,
}
use icap.Wire.{Bytes, Cmd, SubdeviceFeatures, encode_u32, u32_at, put_u32, get_u32-put_u32}
use icap.Core.{History, DeviceCallbacks, State, Call, parse_msg}
use icap.Core.Verdict.{ask, accepted, refused, device_verdict}
use icap.BareMetal.Transport.{Transport, Platform, RemoteMsg}
use icap.BareMetal.Loop.{link}
use icap.BareMetal.Sends.{request_header}
use icap.Rpc.Received.{Received}
use icap.Rpc.Server.{IsServer, parse_msg-request, answered}

-- A device with a callback for ICAP_MSG_START, over bare metal, receives a request for it that a
-- peer it knows has sent without a payload, in a buffer in which the bytes of a 32-bit word lie
-- behind the 40 bytes of the message. icap_parse_msg returns 0 after calling the callback with
-- this word as the subdevice's number, and answers as the callback's result says: the length of
-- the payload is not compared with that of the command's argument.
pub start-behind :
    (p : Platform) (w : SubdeviceFeatures) (dev : DeviceCallbacks) (s d : State Transport)
    (m : RemoteMsg) (id : ℕ) (rest : Bytes) (f : ℕ → History → ℤ)
    → id < 2 ^ 32
    → dev.start ≡ some f
    → IsServer dev m.src_addr d
    → Received (request_header Cmd.start [] s) [] (encode_u32 id ++ rest) m
    → (m.size ≡ 40)
      × (parse_msg (link p) w m.src_addr m.buffer.bytes m.size d
          ≡ returns (
            pos 0,
            answered m.src_addr
                (request_header Cmd.start [] s)
                (if is_zero (f id d.history)
                  then accepted (Call.start id) []
                  else refused (Call.start id) (f id d.history))
                d,
          ))
unfolding device_verdict encode_u32 put_u32 u32_at
start-behind p w dev s d m id rest f l e v r = (
  omega (arith, r.1),
  parse_msg-request p w Cmd.start [] (encode_u32 id ++ rest) dev s d m (omega arith) v r
      ∙ ap
          (λ x. returns (
            pos 0,
            answered m.src_addr (request_header Cmd.start [] s)
                (ask dev.start x (Call.start x) [] d.history) d,
          ))
          (get_u32-put_u32 id rest l)
      ∙ ap
          (λ o. returns (
            pos 0,
            answered m.src_addr (request_header Cmd.start [] s)
                (ask o id (Call.start id) [] d.history) d,
          ))
          e,
)
