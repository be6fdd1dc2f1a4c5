-- ===== src/BareMetal/Deliver.antt =====
-- What happens to a message that the peer of this instance has sent: it passes the checks of
-- `icap_parse_msg` and reaches its handler, whatever stands behind it in the receive buffer.
use icap.Prelude.{
  length-append, ℕ, ◌+◌, ◌%◌, ◌^◌, ◌≤◌, ◌≡◌, ◌≢◌, refl, sym, ap, ◌∙◌, ◌⊎◌, some, ◌++◌, arith,
  length, take, drop, returns, pos, le→leb, memcpy,
}
use icap.Wire.{Bytes, MsgHeader, ack, nak, SubdeviceFeatures, decode_msg, encode_msg, header_size}
use icap.Wire.Message.{take-encode_msg, length-encode_msg, encode_msg-append}
use icap.Core.{
  Callbacks, application, ApplicationCallbacks, State, set_transport, dispatch, parse_with,
  parse_msg, application_parse_response,
}
use icap.Core.Deliver
use icap.Core.Deliver.{Carries, parse_with-passes, header_of}
use icap.BareMetal.Transport.{Transport, Platform, no_addr}
use icap.BareMetal.Loop.{link, verify_remote, response_notify}

-- The instance talks to this address.
abbrev pub Knows : State Transport → ℕ → Type 0
Knows s src = (s.icap.transport.remote_addr ≡ src) × (src ≢ no_addr)

pub verify_remote-known :
    (t : Transport) (src : ℕ)
    → t.remote_addr ≡ src
    → src ≢ no_addr
    → verify_remote t src ≡ (pos 0, t)
unfolding verify_remote
verify_remote-known t src e n = ground arith

-- What `last_response` holds after a response has been copied over `last`.
abbrev pub after_response : MsgHeader → Bytes → ℕ → Bytes → Bytes
after_response h payload size last = encode_msg h (payload ++ drop size last)

-- The application's state once the response is copied.
abbrev pub with_response : MsgHeader → Bytes → ℕ → State Transport → State Transport
with_response h payload size s =
    let t = s.icap.transport in
    set_transport (record t { last_response = after_response h payload size t.last_response }) s

module _ (p : Platform) (u : SubdeviceFeatures) (h : MsgHeader) (payload rest bytes : Bytes)
    (size : ℕ) (c : Carries h payload rest bytes size) where
  pub parse_with-dispatch :
      (cb : Callbacks) (src : ℕ) (s : State Transport)
      → Knows s src
      → parse_with (link p) u (some cb) src bytes size s ≡ dispatch (link p) u cb bytes s
  unfolding link
  parse_with-dispatch cb src s k =
      parse_with-passes (link p) u h payload rest bytes size c cb src s
        (verify_remote-known s.icap.transport src k.0 k.1) (omega (arith, c.small))

  -- A message of the known peer reaches its handler.
  pub parse_msg-dispatch :
      (cb : Callbacks) (src : ℕ) (s : State Transport)
      → s.icap.callbacks ≡ some cb
      → Knows s src
      → parse_msg (link p) u src bytes size s ≡ dispatch (link p) u cb bytes s
  unfolding parse_msg
  parse_msg-dispatch cb src s e k =
      ap (λ x. parse_with (link p) u x src bytes size s) e ∙ parse_with-dispatch cb src s k

  copy_response :
      (last : Bytes)
      → size ≤ length last
      → memcpy last bytes size ≡ returns (after_response h payload size last)
  copy_response last r =
      let whole : size ≤ length bytes = omega (
        arith,
        ap length c.content,
        length-encode_msg h (payload ++ rest) c.fits.1,
        length-append payload rest,
        c.extent,
      ) in
      rw (le→leb size (length last) r, le→leb size (length bytes) whole)
        (ap returns (
          ap (λ b. take size b ++ drop size last) c.content
          ∙ ap (λ b. b ++ drop size last) (take-encode_msg h payload rest c.fits.1 (sym c.extent))
          ∙ encode_msg-append h payload (drop size last)))

  response_copied :
      (s : State Transport)
      → size ≤ length s.icap.transport.last_response
      → application_parse_response (link p) bytes s
        ≡ returns (pos 0, with_response h payload size s)
  unfolding application_parse_response link response_notify
  response_copied s r =
      let extent : (header_size + (decode_msg bytes).header.payload_len) % 2 ^ 32 ≡ size =
        rw (header_of (link p) u h payload rest bytes size c)
          (omega (arith, c.extent, c.len, c.small)) in
      rw (extent, copy_response s.icap.transport.last_response r) refl

  pub dispatch-response :
      (cb : ApplicationCallbacks) (s : State Transport)
      → s.icap.type ≡ 0
      → (h.type ≡ ack) ⊎ (h.type ≡ nak)
      → size ≤ length s.icap.transport.last_response
      → dispatch (link p) u (application cb) bytes s
        ≡ returns (pos 0, with_response h payload size s)
  dispatch-response cb s e t r =
      Deliver.dispatch-response (link p) u h payload rest bytes size c cb s e t
      ∙ response_copied s r
