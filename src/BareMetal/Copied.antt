-- ===== src/BareMetal/Copied.antt =====
-- An application that waits with a place for the response: `icap_wait_for_response` copies it.
use icap.Prelude.{
  ℕ, suc, ◌+◌, ◌%◌, ◌^◌, ◌≤◌, ◌≡◌, refl, ap, sym, ◌∙◌, ◌⊎◌, inl, inr, some, [], ◌∷◌, ◌++◌, arith,
  length, take, drop, returns, eq→==, ◌==◌, if◌then◌else◌, Bool-cases, le→leb, memcpy,
  length-append,
}
use icap.Wire.{header_size, Bytes, MsgHeader, ack, nak, SubdeviceFeatures, encode_msg}
use icap.Wire.Message.{take-encode_msg, length-encode_msg, encode_msg-append}
use icap.Core.{ApplicationCallbacks, State}
use icap.Core.Deliver.{Carries}
use icap.Core.Verdict.{outcome}
use icap.BareMetal.Transport.{Transport, Platform, RemoteMsg}
use icap.BareMetal.Wait.{accept_response, wait_rounds}
use icap.BareMetal.Await.{IsClient, round-response, decoded_last}

-- What the place for a response holds after the call.
abbrev pub received_in : MsgHeader → Bytes → ℕ → Bytes → Bytes
received_in h payload size dst =
    if h.type == nak then dst else encode_msg h (payload ++ drop size dst)

module _ (p : Platform) (u : SubdeviceFeatures) (h : MsgHeader) (payload rest : Bytes)
    (m : RemoteMsg) (c : Carries h payload rest m.buffer.bytes m.size) where
  copied :
      (dst last tail : Bytes)
      → last ≡ encode_msg h (payload ++ tail)
      → m.size ≤ length dst
      → memcpy dst last m.size ≡ returns (encode_msg h (payload ++ drop m.size dst))
  copied dst last tail e l =
      let whole : m.size ≤ length last = omega (
        arith,
        ap length e,
        length-encode_msg h (payload ++ tail) c.fits.1,
        length-append payload tail,
        c.extent,
      ) in
      rw (le→leb m.size (length dst) l, le→leb m.size (length last) whole)
        (ap returns (
          ap (λ b. take m.size b ++ drop m.size dst) e
          ∙ ap (λ b. b ++ drop m.size dst) (take-encode_msg h payload tail c.fits.1 (sym c.extent))
          ∙ encode_msg-append h payload (drop m.size dst)))

  pub wait_rounds-copied :
      (cb : ApplicationCallbacks) (s : State Transport) (n start : ℕ) (dst : Bytes)
      → IsClient cb m.src_addr s
      → (h.type ≡ ack) ⊎ (h.type ≡ nak)
      → m.size ≤ length dst
      → m.size ≤ length s.icap.transport.last_response
      → p.arrivals s.history ≡ m ∷ []
      → (s' : State Transport) × (wait_rounds p u (suc n) start h.seq_num (some dst) s
          ≡ returns (
            outcome h (payload ++ drop m.size s.icap.transport.last_response),
            some (received_in h payload m.size dst),
            s',
          ))
  unfolding wait_rounds accept_response
  wait_rounds-copied cb s n start dst v r fits l a =
      let (s', looped, last) = round-response p u h payload rest m c cb s v r l a in
      let tail = drop m.size s.icap.transport.last_response in
      let decoded = decoded_last p u h payload rest m c s'.icap.transport.last_response tail last in
      let extent : (header_size + h.payload_len) % 2 ^ 32 ≡ m.size =
        omega (arith, c.len, c.extent, c.small) in
      (
        s',
        rw looped (elim (Bool-cases (h.type == nak)) [
          | inl b ↦ rw (decoded, eq→== h.seq_num h.seq_num refl, b) refl
          | inr b ↦
              rw
                (
                  decoded,
                  eq→== h.seq_num h.seq_num refl,
                  b,
                  extent,
                  copied dst s'.icap.transport.last_response tail last fits,
                )
                refl
        ]),
      )
