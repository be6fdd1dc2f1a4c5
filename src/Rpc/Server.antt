-- ===== src/Rpc/Server.antt =====
-- The device's side of a call: `icap_parse_msg` of src/icap.c on a request.
use icap.Prelude.{
  ℕ, pos, ◌+◌, ◌%◌, ◌^◌, ◌≤◌, ◌≡◌, refl, ap, ◌∙◌, Option, some, ◌∷◌, ◌++◌, arith, length, returns,
}
use icap.Wire.{
  Bytes, MsgHeader, Cmd, code, cmd_of-code, msg, SubdeviceFeatures, encode_msg, encode_u32, put_u32,
  encode_features, put_words,
}
use icap.Core.{History, device, DeviceCallbacks, State, Event, header_for, parse_msg}
use icap.Core.Verdict.{
  Verdict, unknown, default, accepted, refused, device_verdict, enact, payload_of, calls_of,
  reply_header,
}
use icap.BareMetal.Transport.{Transport, Platform, RemoteMsg}
use icap.BareMetal.Loop.{link, send_platform}
use icap.Core.Deliver.{Carries, dispatch-device}
use icap.BareMetal.Deliver.{Knows, parse_msg-dispatch}
use icap.BareMetal.Sends.{request_header}
use icap.Rpc.Received.{code-lt, Received, header_for-Carries}

-- A device that talks to the given address.
pub record IsServer (cb : DeviceCallbacks) (src : ℕ) (s : State Transport) : Type 0 where
  pub callbacks : s.icap.callbacks ≡ some (device cb)
  pub type : s.icap.type ≡ 1
  pub knows : Knows s src

-- The state once a verdict's response is sent to an address.
abbrev pub answered : ℕ → MsgHeader → Verdict → State Transport → State Transport
answered src h v s = record s {
  history = Event.sent src (encode_msg (reply_header h v) (payload_of v)) ∷ calls_of v ++ s.history;
}

module _ (p : Platform) where
  to_peer :
      (h : MsgHeader) (v : Verdict) (s : State Transport)
      → enact (link p) h v s ≡ answered s.icap.transport.remote_addr h v s
  unfolding enact link send_platform
  to_peer h unknown s = refl
  to_peer h (default value) s = refl
  to_peer h (accepted c value) s = refl
  to_peer h (refused c error) s = refl

  -- A verdict sends one response, to the peer.
  pub enact-answered :
      (h : MsgHeader) (v : Verdict) (src : ℕ) (s : State Transport)
      → Knows s src
      → enact (link p) h v s ≡ answered src h v s
  enact-answered h v src s k = to_peer h v s ∙ ap (λ a. answered a h v s) k.0

  -- A device answers a command that the peer sent: it makes the call that the verdict reports, and
  -- sends one response.
  pub parse_msg-request :
      {T : Type 0} (u : SubdeviceFeatures) (c : Cmd) (args rest : Bytes) (cb : DeviceCallbacks)
      (s : State T) (d : State Transport) (m : RemoteMsg)
      → length args ≤ 264
      → IsServer cb m.src_addr d
      → Received (request_header c args s) args rest m
      → let v = device_verdict u (some c) cb (args ++ rest) d.history in
        parse_msg (link p) u m.src_addr m.buffer.bytes m.size d
        ≡ returns (
          pos 0,
          record d {
            history =
                Event.sent m.src_addr
                    (encode_msg (reply_header (request_header c args s) v) (payload_of v))
                  ∷ calls_of v
                ++ d.history;
          },
        )
  unfolding header_for
  parse_msg-request u c args rest cb s d m l v r =
      let h = request_header c args s in
      let carried : Carries h args rest m.buffer.bytes m.size =
        header_for-Carries ((s.icap.seq_num + 1) % 2 ^ 32) (code c) msg args rest m (omega arith)
          (code-lt c) (omega arith) l r in
      let verdict = λ (x : Option Cmd). device_verdict u x cb (args ++ rest) d.history in
      parse_msg-dispatch p u h args rest m.buffer.bytes m.size carried (device cb) m.src_addr d
        v.callbacks v.knows
      ∙ dispatch-device (link p) u h args rest m.buffer.bytes m.size carried cb d v.type refl
      ∙ ap (λ x. returns (pos 0, enact (link p) h (verdict x) d)) (cmd_of-code c)
      ∙ ap (λ x. returns (pos 0, x)) (enact-answered h (verdict (some c)) m.src_addr d v.knows)

-- No response carries more than the features of a subdevice.
pub device_verdict-small :
    (u : SubdeviceFeatures) (o : Option Cmd) (cb : DeviceCallbacks) (args : Bytes) (h : History)
    → length (payload_of (device_verdict u o cb args h)) ≤ 28
unfolding device_verdict encode_u32 encode_features put_words put_u32
device_verdict-small u (some Cmd.get_dev_num) cb args h = ground arith
device_verdict-small u (some Cmd.get_dev_features) cb args h = ground arith
device_verdict-small u (some Cmd.dev_init) cb args h = ground arith
device_verdict-small u (some Cmd.dev_deinit) cb args h = ground arith
device_verdict-small u (some Cmd.add_src) cb args h = ground arith
device_verdict-small u (some Cmd.add_dst) cb args h = ground arith
device_verdict-small u (some Cmd.remove_src) cb args h = ground arith
device_verdict-small u (some Cmd.remove_dst) cb args h = ground arith
device_verdict-small u (some Cmd.start) cb args h = ground arith
device_verdict-small u (some Cmd.stop) cb args h = ground arith
device_verdict-small u (some Cmd.pause) cb args h = ground arith
device_verdict-small u (some Cmd.resume) cb args h = ground arith
device_verdict-small u (some Cmd.buf_offsets) cb args h = ground arith
device_verdict-small u _ cb args h = omega arith
