-- ===== src/BareMetal/Await.antt =====
-- An application that waits gets the response that its peer sends: `icap_put_msg`, `icap_loop` and
-- `icap_wait_for_response` together.
use icap.Prelude.{
  faults, lt→leb, ap₂, Bool-cases, ℕ, suc, pos, ◌+◌, ◌%◌, ◌^◌, ◌<◌, ◌≤◌, ◌≡◌, refl, ap, ◌∙◌, ◌⊎◌,
  inl, inr, none, some, [], ◌∷◌, ◌++◌, arith, length, drop, returns, ◌>>=◌, eq→==, ne→==, ◌==◌,
  Option-cases,
}
use icap.Wire.{encode_msg, header_size, Bytes, MsgHeader, ack, nak, SubdeviceFeatures, decode_msg}
use icap.Wire.RoundTrip.{decode_msg-encode_msg}
use icap.Core.{application, ApplicationCallbacks, State, set_transport, parse_with, parse_msg}
use icap.BareMetal.Transport.{Transport, Platform, RemoteMsg, Fifo}
use icap.BareMetal.Fifo.{push, oldest}
use icap.BareMetal.Fifo.Inv.{IsValid, push-IsValid}
use icap.BareMetal.Fifo.Refine.{contents, queue_oldest, contents-push, contents-oldest}
use icap.BareMetal.Loop.{link, put_with, put_msg, receive, finish, loop_with, loop}
use icap.BareMetal.Wait.{accept_response, wait_rounds}
use icap.BareMetal.Sound.{waiting}
use icap.Core.Deliver.{Carries}
use icap.BareMetal.Deliver.{Knows, parse_with-dispatch, dispatch-response, with_response}
use icap.Core.Verdict.{outcome}

-- An application that has nothing waiting and talks to the given address.
pub record IsClient (cb : ApplicationCallbacks) (src : ℕ) (s : State Transport) : Type 0 where
  pub callbacks : s.icap.callbacks ≡ some (application cb)
  pub type : s.icap.type ≡ 0
  pub knows : Knows s src
  pub ring : IsValid s.icap.transport.msg_fifo
  pub idle : waiting s ≡ []

-- A ring with one message.
one_held :
    (m : RemoteMsg) (f : Fifo)
    → IsValid f
    → contents f ≡ []
    → (g : Fifo) × (push m f ≡ some g) × (oldest g ≡ some m)
one_held m f v e = elim (Option-cases (push m f)) [
  | inl full ↦ absurd (ground (arith, contents-push m f v))
  | inr (g, pushed) ↦
      let held : contents g ≡ m ∷ [] = ground (arith, contents-push m f v) in
      (g, pushed, contents-oldest g (push-IsValid m v pushed) ∙ ap queue_oldest held)
]

module _ (p : Platform) (u : SubdeviceFeatures) (h : MsgHeader) (payload rest : Bytes)
    (m : RemoteMsg) (c : Carries h payload rest m.buffer.bytes m.size) where
  pub loop-response :
      (cb : ApplicationCallbacks) (s : State Transport)
      → s.icap.callbacks ≡ some (application cb)
      → s.icap.type ≡ 0
      → Knows s m.src_addr
      → (h.type ≡ ack) ⊎ (h.type ≡ nak)
      → m.size ≤ length s.icap.transport.last_response
      → oldest s.icap.transport.msg_fifo ≡ some m
      → loop p u s ≡ returns (pos 0, finish m (with_response h payload m.size s))
  unfolding loop loop_with parse_msg
  loop-response cb s e t k r l o =
      ap (λ x. loop_with p u x s) o ∙ ap (λ x. x >>= λ (ret, s'). returns (ret, finish m s')) parsed
    where
      parsed :
          parse_msg (link p) u m.src_addr m.buffer.bytes m.size s
          ≡ returns (pos 0, with_response h payload m.size s)
      parsed =
          ap (λ x. parse_with (link p) u x m.src_addr m.buffer.bytes m.size s) e
          ∙ parse_with-dispatch p u h payload rest m.buffer.bytes m.size c (application cb)
              m.src_addr s k
          ∙ dispatch-response p u h payload rest m.buffer.bytes m.size c cb s t r l

  -- One round: the interrupt holds the message, and the loop copies the response.
  pub round-response :
      (cb : ApplicationCallbacks) (s : State Transport)
      → IsClient cb m.src_addr s
      → (h.type ≡ ack) ⊎ (h.type ≡ nak)
      → m.size ≤ length s.icap.transport.last_response
      → p.arrivals s.history ≡ m ∷ []
      → (s' : State Transport) × (loop p u (receive p (p.arrivals s.history) s)
          ≡ returns (pos 0, s'))
        × (s'.icap.transport.last_response
            ≡ encode_msg h (payload ++ drop m.size s.icap.transport.last_response))
  unfolding receive put_msg finish
  round-response cb s v r l a =
      let (g, pushed, first) = one_held m s.icap.transport.msg_fifo v.ring v.idle in
      let s₁ = set_transport (record s.icap.transport { msg_fifo = g }) s in
      let received : receive p (p.arrivals s.history) s ≡ s₁ =
        ap (λ ms. receive p ms s) a ∙ ap₂ (λ o f. (put_with p o f s).1) v.callbacks pushed in
      (
        finish m (with_response h payload m.size s₁),
        ap (loop p u) received ∙ loop-response cb s₁ v.callbacks v.type v.knows r l first,
        refl,
      )

  pub decoded_last :
      (last tail : Bytes)
      → last ≡ encode_msg h (payload ++ tail)
      → decode_msg last ≡ record { header = h; payload = payload ++ tail }
  decoded_last last tail e = ap decode_msg e ∙ decode_msg-encode_msg h (payload ++ tail) c.fits

  -- A waiting application takes the response with the awaited number in the first round.
  pub wait_rounds-response :
      (cb : ApplicationCallbacks) (s : State Transport) (n start : ℕ)
      → IsClient cb m.src_addr s
      → (h.type ≡ ack) ⊎ (h.type ≡ nak)
      → m.size ≤ length s.icap.transport.last_response
      → p.arrivals s.history ≡ m ∷ []
      → (s' : State Transport) × (wait_rounds p u (suc n) start h.seq_num none s
          ≡ returns (outcome h (payload ++ drop m.size s.icap.transport.last_response), none, s'))
  unfolding wait_rounds accept_response
  wait_rounds-response cb s n start v r l a =
      let (s', looped, last) = round-response cb s v r l a in
      let decoded =
        decoded_last s'.icap.transport.last_response (drop m.size s.icap.transport.last_response)
          last in
      (
        s',
        rw looped (elim (Bool-cases (h.type == nak)) [
          | inl b ↦ rw (decoded, eq→== h.seq_num h.seq_num refl, b) refl
          | inr b ↦ rw (decoded, eq→== h.seq_num h.seq_num refl, b) refl
        ]),
      )

  -- Buffer overflow: an application that has nothing waiting and knows its peer waits for a
  -- response with a place of 304 bytes for it. If a well-formed positive response with the
  -- awaited number and more than 264 bytes of payload arrives from the peer, alone and with room
  -- for it in the response buffer, then the copy to the caller's place faults.
  pub wait_rounds-overflow :
      (cb : ApplicationCallbacks) (s : State Transport) (n start : ℕ) (dst : Bytes)
      → IsClient cb m.src_addr s
      → h.type ≡ ack
      → 264 < length payload
      → length dst ≡ 304
      → m.size ≤ length s.icap.transport.last_response
      → p.arrivals s.history ≡ m ∷ []
      → wait_rounds p u (suc n) start h.seq_num (some dst) s ≡ faults
  unfolding wait_rounds accept_response
  wait_rounds-overflow cb s n start dst v t big d l a =
      let (s', looped, last) = round-response cb s v (inl t) l a in
      let decoded =
        decoded_last s'.icap.transport.last_response (drop m.size s.icap.transport.last_response)
          last in
      rw looped (
        rw
          (
            decoded,
            eq→== h.seq_num h.seq_num refl,
            ne→== h.type nak (omega arith),
            lt→leb ((header_size + h.payload_len) % 2 ^ 32) (length dst)
                (omega (arith, c.len, c.extent, c.small)),
          )
          refl)
