-- ===== src/BareMetal/Rejects.antt =====
-- Messages that `icap_parse_msg` turns away over bare metal.
use icap.Prelude.{
  ℕ, ℤ, neg, ◌+◌, ◌%◌, ◌^◌, ◌≡◌, ◌≢◌, refl, ◌⊎◌, inl, inr, Option, none, some, Run, returns, arith,
  is_nonneg, false, ◌==◌, Bool-cases,
}
use icap.Wire.{
  Bytes, SubdeviceFeatures, decode_msg, header_size, protocol_version, error_remote_addr,
  error_protocol_not_sup, error_msg_len, error_init,
}
use icap.Core.{Callbacks, State, parse_with, parse_msg}
use icap.BareMetal.Transport.{Transport, Platform, no_addr}
use icap.BareMetal.Loop.{link, verify_remote}

verify_remote-stranger :
    (t : Transport) (src : ℕ)
    → t.remote_addr ≢ no_addr
    → t.remote_addr ≢ src
    → verify_remote t src ≡ (neg error_remote_addr, t)
unfolding verify_remote
verify_remote-stranger t src a b = ground arith

module _ (p : Platform) (u : SubdeviceFeatures) (src : ℕ) (bytes : Bytes) (size : ℕ)
    (s : State Transport) where
  -- Another protocol version, a length that is not the header's and the payload's, or, once the
  -- instance has a peer, another sender.
  abbrev pub IsBad : Type 0
  IsBad =
      ((decode_msg bytes).header.protocol_version ≢ protocol_version)
      ⊎ (size ≢ (header_size + (decode_msg bytes).header.payload_len) % 2 ^ 32)
      ⊎ ((s.icap.transport.remote_addr ≢ no_addr) × (s.icap.transport.remote_addr ≢ src))

  abbrev Rejected : Run (ℤ × State Transport) → Type 0
  Rejected r = (e : ℤ) × (r ≡ returns (e, s)) × (is_nonneg e ≡ false)

  parse_with-rejects :
      (o : Option Callbacks) → IsBad → Rejected (parse_with (link p) u o src bytes size s)
  unfolding parse_with link
  parse_with-rejects none bad = (neg error_init, refl, refl)
  parse_with-rejects (some cb) bad =
      let h = (decode_msg bytes).header in
      elim (Bool-cases (h.protocol_version == protocol_version)) [
        | inr a ↦ rw a (neg error_protocol_not_sup, refl, refl)
        | inl a ↦ elim (Bool-cases (size == (header_size + h.payload_len) % 2 ^ 32)) [
          | inr b ↦ rw (a, b) (neg error_msg_len, refl, refl)
          | inl b ↦
              let stranger : (s.icap.transport.remote_addr ≢ no_addr)
                  × (s.icap.transport.remote_addr ≢ src) =
                ground arith in
              rw (a, b, verify_remote-stranger s.icap.transport src stranger.0 stranger.1)
                (neg error_remote_addr, refl, refl)
        ]
      ]

  -- icap_parse_msg over bare metal returns a negative error and leaves the instance and the
  -- history as they were, so that no callback is called and nothing is sent, for a message of
  -- another protocol version, for one whose size is not that of the header and the payload length
  -- it names, and for one from another address than that of the peer, once there is one.
  pub parse_msg-rejects :
      IsBad
      → (e : ℤ) × (parse_msg (link p) u src bytes size s ≡ returns (e, s)) × (is_nonneg e ≡ false)
  unfolding parse_msg
  parse_msg-rejects bad = parse_with-rejects s.icap.callbacks bad
