-- ===== src/BareMetal/Keeps.antt =====
-- What handling a message leaves alone, and that it does not fault: `icap_parse_msg` over the bare
-- metal transport.
use icap.Prelude.{
  memcpy_in_bounds, sym, ◌≢◌, eq→==, ne→==, ◌||◌, ℕ, suc, ◌+◌, ◌%◌, ◌^◌, ◌≤◌, ◌≡◌, refl, ◌∙◌, ap,
  Option, none, some, List, [], ◌∷◌, true, false, arith, length, ==→eq, is_zero, ◌==◌, Bool-cases,
  inl, inr,
}
use icap.Wire.{
  Bytes, MsgHeader, Msg, msg, ack, nak, SubdeviceFeatures, Cmd, decode_msg, cmd_of, header_size,
  protocol_version,
}
use icap.Core.{
  Pointer, parse_with, application_instance, History, Event, Callbacks, application, device,
  ApplicationCallbacks, DeviceCallbacks, State, set_transport, application_parse_response,
  application_parse_msg, device_parse_response, device_response_switch, device_parse_msg, dispatch,
  parse_msg,
}
use icap.Core.Verdict.{
  Verdict, unknown, default, accepted, refused, enact, application_verdict, device_verdict,
}
use icap.Core.Answers.{application_parse_msg-verdict, device_parse_msg-verdict}
use icap.Core.Typed.{Returns-map, Returns, IsTyped, AgreesWith}
use icap.BareMetal.Transport.{Transport, Platform, no_addr}
use icap.BareMetal.Loop.{link, verify_remote, response_notify, send_platform}

-- How often the clock has been read.
abbrev pub ticks : History → ℕ
ticks [] = 0
ticks (Event.ticked t ∷ h) = suc (ticks h)
ticks (Event.called c ∷ h) = ticks h
ticks (Event.sent a b ∷ h) = ticks h
ticks (Event.released b ∷ h) = ticks h
ticks (Event.timed_out d c ∷ h) = ticks h

-- The buffers that were given back, latest first.
abbrev pub releases : History → List Pointer
releases [] = []
releases (Event.ticked t ∷ h) = releases h
releases (Event.called c ∷ h) = releases h
releases (Event.sent a b ∷ h) = releases h
releases (Event.timed_out d c ∷ h) = releases h
releases (Event.released b ∷ h) = b ∷ releases h

-- Neither the ring nor the instance's fixed fields change, nor the size of the response buffer; the
-- clock is not read, and no buffer given back.
pub record Keeps (s s' : State Transport) : Type 0 where
  pub fifo : s'.icap.transport.msg_fifo ≡ s.icap.transport.msg_fifo
  pub room : length s'.icap.transport.last_response ≡ length s.icap.transport.last_response
  pub callbacks : s'.icap.callbacks ≡ s.icap.callbacks
  pub type : s'.icap.type ≡ s.icap.type
  pub seq_num : s'.icap.seq_num ≡ s.icap.seq_num
  pub clock : ticks s'.history ≡ ticks s.history
  pub freed : releases s'.history ≡ releases s.history
  pub peer :
      s.icap.transport.remote_addr ≢ no_addr
      → s'.icap.transport.remote_addr ≡ s.icap.transport.remote_addr

pub Keeps-refl : (s : State Transport) → Keeps s s
Keeps-refl s = record {
  fifo = refl;
  room = refl;
  callbacks = refl;
  type = refl;
  seq_num = refl;
  clock = refl;
  freed = refl;
  peer = λ n. refl;
}

pub Keeps-trans : {s t u : State Transport} → Keeps s t → Keeps t u → Keeps s u
Keeps-trans k l = record {
  fifo = l.fifo ∙ k.fifo;
  room = l.room ∙ k.room;
  callbacks = l.callbacks ∙ k.callbacks;
  type = l.type ∙ k.type;
  seq_num = l.seq_num ∙ k.seq_num;
  clock = l.clock ∙ k.clock;
  freed = l.freed ∙ k.freed;
  peer = λ n. l.peer (λ e. n (sym (k.peer n) ∙ e)) ∙ k.peer n;
}

module _ (p : Platform) where
  enact-Keeps :
      (header : MsgHeader) (v : Verdict) (s : State Transport) → Keeps s (enact (link p) header v s)
  unfolding enact link send_platform
  enact-Keeps header unknown s = ground arith
  enact-Keeps header (default _) s = ground arith
  enact-Keeps header (accepted _ _) s = ground arith
  enact-Keeps header (refused _ _) s = ground arith

  application_parse_msg-Keeps :
      (cb : ApplicationCallbacks) (m : Msg) (s : State Transport)
      → Keeps s (application_parse_msg (link p) cb m s).1
  application_parse_msg-Keeps cb m s =
      rw (application_parse_msg-verdict (link p) m s cb)
        (enact-Keeps m.header (application_verdict (cmd_of m.header.cmd) cb m.payload s.history) s)

  device_parse_msg-Keeps :
      (u : SubdeviceFeatures) (cb : DeviceCallbacks) (m : Msg) (s : State Transport)
      → Keeps s (device_parse_msg (link p) u cb m s).1
  device_parse_msg-Keeps u cb m s =
      rw (device_parse_msg-verdict (link p) m s u cb)
        (enact-Keeps m.header (device_verdict u (cmd_of m.header.cmd) cb m.payload s.history) s)

device_response_switch-Keeps :
    (c : Option Cmd) (cb : DeviceCallbacks) (m : Msg) (s : State Transport)
    → Keeps s (device_response_switch c cb m s).1
unfolding device_response_switch
device_response_switch-Keeps (some Cmd.frag_ready) cb m s = ground arith
device_response_switch-Keeps (some Cmd.xrun) cb m s = ground arith
device_response_switch-Keeps (some Cmd.error) cb m s = ground arith
device_response_switch-Keeps _ cb m s = Keeps-refl s

device_parse_response-Keeps :
    (cb : DeviceCallbacks) (m : Msg) (s : State Transport)
    → Keeps s (device_parse_response cb m s).1
unfolding device_parse_response
device_parse_response-Keeps cb m s = device_response_switch-Keeps (cmd_of m.header.cmd) cb m s

-- The bytes that `response_notify` copies exist, in the message and in the buffer.
abbrev pub Fits : Bytes → State Transport → Type 0
Fits bytes s =
    let size = (header_size + (decode_msg bytes).header.payload_len) % 2 ^ 32 in
    (size ≤ length s.icap.transport.last_response) × (size ≤ length bytes)

module _ (p : Platform) where
  application_parse_response-Keeps :
      (bytes : Bytes) (s : State Transport)
      → Fits bytes s
      → Returns (application_parse_response (link p) bytes s) (λ (ret, s'). Keeps s s')
  unfolding application_parse_response link response_notify
  application_parse_response-Keeps bytes s (h, k) =
      let t = s.icap.transport in
      let size = (header_size + (decode_msg bytes).header.payload_len) % 2 ^ 32 in
      let (out, e, l) = memcpy_in_bounds t.last_response bytes size h k in
      rw e (record {
        fifo = refl;
        room = l;
        callbacks = refl;
        type = refl;
        seq_num = refl;
        clock = refl;
        freed = refl;
        peer = λ n. refl;
      })

  dispatch-Keeps :
      (u : SubdeviceFeatures) (cb : Callbacks) (bytes : Bytes) (s : State Transport)
      → AgreesWith (some cb) s.icap.type
      → Fits bytes s
      → Returns (dispatch (link p) u cb bytes s) (λ (ret, s'). Keeps s s')
  unfolding dispatch
  dispatch-Keeps u (application cb) bytes s e f =
      let m = decode_msg bytes in
      let side : (s.icap.type == application_instance) ≡ true = eq→== s.icap.type 0 e in
      elim (Bool-cases (m.header.type == ack || m.header.type == nak)) [
        | inl a ↦ rw (a, side) (application_parse_response-Keeps bytes s f)
        | inr r ↦ elim (Bool-cases (m.header.type == msg)) [
          | inl b ↦ rw (r, b, side) (application_parse_msg-Keeps p cb m s)
          | inr b ↦ rw (r, b) (Keeps-refl s)
        ]
      ]
  dispatch-Keeps u (device cb) bytes s e f =
      let m = decode_msg bytes in
      let side : (s.icap.type == application_instance) ≡ false =
        ne→== s.icap.type 0 (omega arith) in
      elim (Bool-cases (m.header.type == ack || m.header.type == nak)) [
        | inl a ↦ rw (a, side) (device_parse_response-Keeps cb m s)
        | inr r ↦ elim (Bool-cases (m.header.type == msg)) [
          | inl b ↦ rw (r, b, side) (device_parse_msg-Keeps p u cb m s)
          | inr b ↦ rw (r, b) (Keeps-refl s)
        ]
      ]

  verify_remote-Keeps :
      (src : ℕ) (s : State Transport)
      → Keeps s (set_transport (verify_remote s.icap.transport src).1 s)
  unfolding verify_remote
  verify_remote-Keeps src s = ground arith

  last_response-verify_remote :
      (src : ℕ) (t : Transport) → (verify_remote t src).1.last_response ≡ t.last_response
  unfolding verify_remote
  last_response-verify_remote src t = ground arith

  parse_with-Keeps :
      (u : SubdeviceFeatures) (o : Option Callbacks) (src : ℕ) (bytes : Bytes) (size : ℕ)
      (s : State Transport)
      → AgreesWith o s.icap.type
      → size ≤ length bytes
      → size ≤ length s.icap.transport.last_response
      → Returns (parse_with (link p) u o src bytes size s) (λ (ret, s'). Keeps s s')
  unfolding parse_with link
  parse_with-Keeps u none src bytes size s e h k = Keeps-refl s
  parse_with-Keeps u (some cb) src bytes size s e h k =
      let header = (decode_msg bytes).header in
      let (ret, t) = verify_remote s.icap.transport src in
      let s₁ = set_transport t s in
      elim (Bool-cases (header.protocol_version == protocol_version)) [
        | inr a ↦ rw a (Keeps-refl s)
        | inl a ↦ elim (Bool-cases (size == (header_size + header.payload_len) % 2 ^ 32)) [
          | inr b ↦ rw (a, b) (Keeps-refl s)
          | inl b ↦ elim (Bool-cases (is_zero ret)) [
            | inr c ↦ rw (a, b, c) (verify_remote-Keeps src s)
            | inl c ↦
                rw (a, b, c)
                  (Returns-map (dispatch (link p) u cb bytes s₁)
                    (λ (_, s'). Keeps-trans (verify_remote-Keeps src s))
                    (dispatch-Keeps u cb bytes s₁ e (
                      omega (
                        arith,
                        ==→eq size ((header_size + header.payload_len) % 2 ^ 32) b,
                        ap length (last_response-verify_remote src s.icap.transport),
                      ),
                      omega (arith, ==→eq size ((header_size + header.payload_len) % 2 ^ 32) b),
                    )))
          ]
        ]
      ]

  -- icap_parse_msg over bare metal returns, without a fault, for every message whose size is
  -- within its bytes and within the response buffer, if the instance's callbacks are of its own
  -- side. The ring, the size of the response buffer, the callbacks, the type, the sequence number
  -- and a known remote address stay, the clock is not read and no receive buffer is given back.
  pub parse_msg-Keeps :
      (u : SubdeviceFeatures) (src : ℕ) (bytes : Bytes) (size : ℕ) (s : State Transport)
      → IsTyped s.icap
      → size ≤ length bytes
      → size ≤ length s.icap.transport.last_response
      → Returns (parse_msg (link p) u src bytes size s) (λ (ret, s'). Keeps s s')
  unfolding parse_msg
  parse_msg-Keeps u src bytes size s = parse_with-Keeps u s.icap.callbacks src bytes size s
