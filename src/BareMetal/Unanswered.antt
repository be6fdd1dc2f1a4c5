-- ===== src/BareMetal/Unanswered.antt =====
-- Handling messages that do not answer the awaited number leaves `last_response` without it:
-- `icap_parse_msg` over the bare metal transport.
use icap.Prelude.{
  eq→==, ne→==, ◌||◌, ◌&&◌, ℕ, ◌+◌, ◌%◌, ◌^◌, ◌≤◌, ◌≡◌, ◌≢◌, refl, ◌∙◌, ap, sym, subst, Option,
  none, some, ◌++◌, true, false, Bool, arith, length, take, drop, le→leb, ==→eq, is_zero, ◌==◌,
  Bool-cases, inl, inr,
}
use icap.Wire.{
  Bytes, MsgHeader, Msg, msg, ack, nak, SubdeviceFeatures, Cmd, decode_msg, cmd_of, header_size,
  protocol_version, u32_at-take_append,
}
use icap.Core.{
  parse_with, application_instance, Callbacks, application, device, ApplicationCallbacks,
  DeviceCallbacks, State, set_transport, application_parse_response, application_parse_msg,
  device_parse_response, device_response_switch, device_parse_msg, dispatch, parse_msg,
}
use icap.Core.Verdict.{Verdict, unknown, default, accepted, refused, enact}
use icap.Core.Answers.{application_parse_msg-verdict, device_parse_msg-verdict}
use icap.Core.Typed.{Returns, IsTyped, AgreesWith}
use icap.BareMetal.Transport.{Transport, Platform}
use icap.BareMetal.Loop.{link, verify_remote, response_notify}

-- The number of the message at the start of these bytes.
abbrev pub number_in : Bytes → ℕ
number_in bytes = (decode_msg bytes).header.seq_num

-- A response to the message with this number.
abbrev pub answers : ℕ → Bytes → Bool
answers n bytes =
    let h = (decode_msg bytes).header in (h.type == ack || h.type == nak) && h.seq_num == n

-- The last response has another number.
abbrev pub Unanswered : ℕ → State Transport → Type 0
Unanswered n s = number_in s.icap.transport.last_response ≢ n

module _ (p : Platform) where
  transport-enact :
      (h : MsgHeader) (v : Verdict) (s : State Transport)
      → (enact (link p) h v s).icap.transport ≡ s.icap.transport
  unfolding enact
  transport-enact h unknown s = refl
  transport-enact h (default value) s = refl
  transport-enact h (accepted c value) s = refl
  transport-enact h (refused c error) s = refl

  application_parse_msg-Unanswered :
      (n : ℕ) (cb : ApplicationCallbacks) (m : Msg) (s : State Transport)
      → Unanswered n s
      → Unanswered n (application_parse_msg (link p) cb m s).1
  application_parse_msg-Unanswered n cb m s o =
      rw (application_parse_msg-verdict (link p) m s cb, transport-enact) o

  device_parse_msg-Unanswered :
      (n : ℕ) (u : SubdeviceFeatures) (cb : DeviceCallbacks) (m : Msg) (s : State Transport)
      → Unanswered n s
      → Unanswered n (device_parse_msg (link p) u cb m s).1
  device_parse_msg-Unanswered n u cb m s o =
      rw (device_parse_msg-verdict (link p) m s u cb, transport-enact) o

transport-device_response_switch :
    (c : Option Cmd) (cb : DeviceCallbacks) (m : Msg) (s : State Transport)
    → (device_response_switch c cb m s).1.icap.transport ≡ s.icap.transport
unfolding device_response_switch
transport-device_response_switch (some Cmd.frag_ready) cb m s = ground arith
transport-device_response_switch (some Cmd.xrun) cb m s = ground arith
transport-device_response_switch (some Cmd.error) cb m s = ground arith
transport-device_response_switch _ cb m s = refl

device_parse_response-Unanswered :
    (n : ℕ) (cb : DeviceCallbacks) (m : Msg) (s : State Transport)
    → Unanswered n s
    → Unanswered n (device_parse_response cb m s).1
unfolding device_parse_response
device_parse_response-Unanswered n cb m s o =
    rw (transport-device_response_switch (cmd_of m.header.cmd) cb m s) o

number_in-copied :
    (last bytes : Bytes) (size : ℕ)
    → 40 ≤ size
    → size ≤ length bytes
    → number_in (take size bytes ++ drop size last) ≡ number_in bytes
unfolding decode_msg
number_in-copied last bytes size l k =
    u32_at-take_append size bytes (drop size last) 4 (omega arith) k

module _ (p : Platform) (n : ℕ) where
  application_parse_response-Unanswered :
      (bytes : Bytes) (size : ℕ) (s : State Transport)
      → size ≡ (header_size + (decode_msg bytes).header.payload_len) % 2 ^ 32
      → 40 ≤ size
      → size ≤ length bytes
      → size ≤ length s.icap.transport.last_response
      → number_in bytes ≢ n
      → Returns (application_parse_response (link p) bytes s) (λ (ret, s'). Unanswered n s')
  unfolding application_parse_response link response_notify
  application_parse_response-Unanswered bytes size s e h k l o =
      let last = s.icap.transport.last_response in
      rw (← e, le→leb size (length last) l, le→leb size (length bytes) k)
        (λ z. o (sym (number_in-copied last bytes size h k) ∙ z))

  dispatch-Unanswered :
      (u : SubdeviceFeatures) (cb : Callbacks) (bytes : Bytes) (size : ℕ) (s : State Transport)
      → AgreesWith (some cb) s.icap.type
      → size ≡ (header_size + (decode_msg bytes).header.payload_len) % 2 ^ 32
      → 40 ≤ size
      → size ≤ length bytes
      → size ≤ length s.icap.transport.last_response
      → answers n bytes ≡ false
      → Unanswered n s
      → Returns (dispatch (link p) u cb bytes s) (λ (ret, s'). Unanswered n s')
  unfolding dispatch
  dispatch-Unanswered u (application cb) bytes size s e q h k l r o =
      let m = decode_msg bytes in
      let side : (s.icap.type == application_instance) ≡ true = eq→== s.icap.type 0 e in
      elim (Bool-cases (m.header.type == ack || m.header.type == nak)) [
        | inl a ↦
            rw (a, side)
              (application_parse_response-Unanswered bytes size s q h k l (λ z. ground arith))
        | inr a ↦ elim (Bool-cases (m.header.type == msg)) [
          | inl b ↦ rw (a, b, side) (application_parse_msg-Unanswered p n cb m s o)
          | inr b ↦ rw (a, b) o
        ]
      ]
  dispatch-Unanswered u (device cb) bytes size s e q h k l r o =
      let m = decode_msg bytes in
      let side : (s.icap.type == application_instance) ≡ false =
        ne→== s.icap.type 0 (omega arith) in
      elim (Bool-cases (m.header.type == ack || m.header.type == nak)) [
        | inl a ↦ rw (a, side) (device_parse_response-Unanswered n cb m s o)
        | inr a ↦ elim (Bool-cases (m.header.type == msg)) [
          | inl b ↦ rw (a, b, side) (device_parse_msg-Unanswered p n u cb m s o)
          | inr b ↦ rw (a, b) o
        ]
      ]

  last_response-verify_remote :
      (src : ℕ) (t : Transport) → (verify_remote t src).1.last_response ≡ t.last_response
  unfolding verify_remote
  last_response-verify_remote src t = ground arith

  parse_with-Unanswered :
      (u : SubdeviceFeatures) (o : Option Callbacks) (src : ℕ) (bytes : Bytes) (size : ℕ)
      (s : State Transport)
      → AgreesWith o s.icap.type
      → 40 ≤ size
      → size ≤ length bytes
      → size ≤ length s.icap.transport.last_response
      → answers n bytes ≡ false
      → Unanswered n s
      → Returns (parse_with (link p) u o src bytes size s) (λ (ret, s'). Unanswered n s')
  unfolding parse_with link
  parse_with-Unanswered u none src bytes size s e h k l r o = o
  parse_with-Unanswered u (some cb) src bytes size s e h k l r o =
      let header = (decode_msg bytes).header in
      let (ret, t) = verify_remote s.icap.transport src in
      let s₁ = set_transport t s in
      let same = last_response-verify_remote src s.icap.transport in
      let o₁ : Unanswered n s₁ = subst (λ x. number_in x ≢ n) (sym same) o in
      elim (Bool-cases (header.protocol_version == protocol_version)) [
        | inr a ↦ rw a o
        | inl a ↦ elim (Bool-cases (size == (header_size + header.payload_len) % 2 ^ 32)) [
          | inr b ↦ rw (a, b) o
          | inl b ↦ elim (Bool-cases (is_zero ret)) [
            | inr c ↦ rw (a, b, c) o₁
            | inl c ↦
                rw (a, b, c)
                  (dispatch-Unanswered u cb bytes size s₁ e
                    (==→eq size ((header_size + header.payload_len) % 2 ^ 32) b) h k
                    (omega (arith, ap length same)) r o₁)
          ]
        ]
      ]

  -- A message that does not answer the awaited number is handled without such an answer.
  pub parse_msg-Unanswered :
      (u : SubdeviceFeatures) (src : ℕ) (bytes : Bytes) (size : ℕ) (s : State Transport)
      → IsTyped s.icap
      → 40 ≤ size
      → size ≤ length bytes
      → size ≤ length s.icap.transport.last_response
      → answers n bytes ≡ false
      → Unanswered n s
      → Returns (parse_msg (link p) u src bytes size s) (λ (ret, s'). Unanswered n s')
  unfolding parse_msg
  parse_msg-Unanswered u src bytes size s =
      parse_with-Unanswered u s.icap.callbacks src bytes size s
