-- ===== src/Linux/Notify.antt =====
-- `icap_response_notify` of src/platform/icap_linux_kernel_rpmsg.c in a reachable state: who gets
-- a response, and what fits.
use icap.Prelude.{
  ℕ, pos, neg, ◌+◌, ◌%◌, ◌^◌, ◌<◌, ◌≤◌, ◌≡◌, ◌≢◌, refl, ap, sym, ◌∙◌, Option, some, arith, returns,
  faults, inl, inr, length, take, drop, ◌++◌,
}
use icap.Wire.{Bytes, decode_msg, header_size, msg_size, error_timeout}
use icap.Core.{Pointer}
use icap.Linux.Transport.{Transport, Kernel, IsKernel, Skb, extended, update}
use icap.Linux.Respond.{mark_received, answer, response_notify}
use icap.Linux.System.{System, IsMessage, Reach, received_at}
use icap.Linux.Find.{find_seq_num-cases}
use icap.Linux.Inv.{Inv, find-own, alive, seq_of, ptr_of}
use icap.Linux.Reachable.{Reach-Holds}
use icap.Linux.Safety.{owned_skb}

-- The size that `icap_response_notify` computes.
abbrev pub size_of : Bytes → ℕ
size_of bytes = (header_size + (decode_msg bytes).header.payload_len) % 2 ^ 32

abbrev pub filled : Skb → Bytes → Skb
filled skb bytes = record (extended skb bytes (size_of bytes)) {
  hint = record skb.hint { received = 1 };
}

-- An empty buffer holds the response, and behind it what lay there.
filled-empty :
    (skb : Skb) (bytes : Bytes) (size : ℕ)
    → skb.len ≡ 0
    → size_of bytes ≡ size
    → filled skb bytes ≡ record {
      hint = record skb.hint { received = 1 };
      len = size;
      memory = take size bytes ++ drop size skb.memory;
    }
filled-empty skb bytes size e f =
    let whole : skb.len + size_of bytes ≡ size = omega (arith, e, f) in
    λ i. record {
      hint = record skb.hint { received = 1 };
      len = whole i;
      memory = take (e i) skb.memory ++ (take (f i) bytes ++ drop (whole i) skb.memory);
    }

module _ {Q : Type 0} (k : Kernel Q) (laws : IsKernel k) where
  pub answer-fits :
      (p : Pointer) (skb : Skb) (bytes : Bytes) (t : Transport Q)
      → t.skbs p ≡ some skb
      → skb.len + size_of bytes ≤ length skb.memory
      → size_of bytes ≤ length bytes
      → answer k (some p) bytes t
        ≡ returns (pos 0, record t { skbs = update t.skbs p (some (filled skb bytes)) })
  unfolding answer mark_received
  answer-fits p skb bytes t has a b = ground (arith, laws.put-fits skb bytes (size_of bytes) a b)

  answer-overflows :
      (p : Pointer) (skb : Skb) (bytes : Bytes) (t : Transport Q)
      → t.skbs p ≡ some skb
      → length skb.memory < skb.len + size_of bytes
      → answer k (some p) bytes t ≡ faults
  unfolding answer
  answer-overflows p skb bytes t has a = ground (arith, laws.put-panics skb bytes (size_of bytes) a)

module _ {Q : Type 0} (k : Kernel Q) (laws : IsKernel k) {rpdev : Option Pointer} {n : ℕ}
    {s : System Q} (few : n < 2 ^ 32) (r : Reach k rpdev n s) where
  v : Inv s.seq_num s.transport.skbs (k.walk s.transport.response_queue) s.pc
  v = (Reach-Holds k laws few r).0

  finds :
      (i x : ℕ) (p : Pointer) (bytes : Bytes)
      → ptr_of (s.pc i) ≡ some p
      → seq_of (s.pc i) ≡ some (decode_msg bytes).header.seq_num
      → response_notify k s.transport bytes ≡ answer k (some p) bytes s.transport
  unfolding response_notify
  finds i x p bytes a b = rw (find-own v i (decode_msg bytes).header.seq_num p a b) refl

  -- On Linux, in every state reached within fewer than 2^32 steps of threads and incoming
  -- messages since the initialisation, icap_response_notify of a whole response of at most the
  -- size of struct icap_msg, with the number of a thread that owns a buffer and has no response
  -- yet, returns 0, marks that buffer as received, puts the bytes of the response at its front,
  -- sets its length to theirs, and changes nothing else: not the other fields of its hint, not
  -- the memory behind the response, not another buffer or the queue.
  pub response_notify-first :
      (i : ℕ) (p : Pointer) (bytes : Bytes)
      → ptr_of (s.pc i) ≡ some p
      → seq_of (s.pc i) ≡ some (decode_msg bytes).header.seq_num
      → received_at s.transport p ≡ some 0
      → IsMessage bytes
      → header_size + (decode_msg bytes).header.payload_len ≤ msg_size
      → let size = header_size + (decode_msg bytes).header.payload_len in
        (skb : Skb) × (s.transport.skbs p ≡ some skb)
        × (response_notify k s.transport bytes
            ≡ returns (
              pos 0,
              record s.transport {
                skbs = update s.transport.skbs p (
                    some (record {
                      hint = record skb.hint { received = 1 };
                      len = size;
                      memory = take size bytes ++ drop size skb.memory;
                    }));
              },
            ))
  response_notify-first i p bytes a b c w fits =
      let x = (decode_msg bytes).header.seq_num in
      let (skb, has, its, own) = owned_skb k laws few r i x p a b in
      let empty : skb.len ≡ 0 = own.waiting (ground arith) in
      let short : size_of bytes ≡ header_size + (decode_msg bytes).header.payload_len =
        omega (arith, w.small) in
      (
        skb,
        has,
        finds i x p bytes a b
            ∙ answer-fits k laws p skb bytes s.transport has (omega (arith, own.room, w.small))
                (omega (arith, w.small, w.whole))
            ∙ ap
                (λ y.
                  returns (pos 0, record s.transport { skbs = update s.transport.skbs p (some y) }))
                (filled-empty skb bytes _ empty short),
      )

  -- On Linux, in every state reached within fewer than 2^32 steps of threads and incoming
  -- messages since the initialisation, icap_response_notify of a response whose number no pending
  -- call has returns -ICAP_ERROR_TIMEOUT and changes nothing.
  pub response_notify-stranger :
      (bytes : Bytes)
      → ((i : ℕ) → seq_of (s.pc i) ≢ some (decode_msg bytes).header.seq_num)
      → response_notify k s.transport bytes ≡ returns (neg error_timeout, s.transport)
  unfolding response_notify answer
  response_notify-stranger bytes other =
      let x = (decode_msg bytes).header.seq_num in
      elim (find_seq_num-cases s.transport.skbs x (k.walk s.transport.response_queue) (alive v)) [
        | inl (absent, others) ↦ rw absent refl
        | inr (p, (found, in_list, its)) ↦
            let (i, o) = v.covered p in_list in absurd (other i (sym (v.owns i p o).1 ∙ its))
      ]

  -- On Linux, in every state reached within fewer than 2^32 steps of threads and incoming
  -- messages since the initialisation: a whole response with the number of a thread that owns a
  -- buffer, longer than the room that is left in that buffer, makes icap_response_notify fault.
  pub response_notify-overflow :
      (i : ℕ) (p : Pointer) (bytes : Bytes) (skb : Skb)
      → ptr_of (s.pc i) ≡ some p
      → seq_of (s.pc i) ≡ some (decode_msg bytes).header.seq_num
      → s.transport.skbs p ≡ some skb
      → IsMessage bytes
      → length skb.memory < skb.len + header_size + (decode_msg bytes).header.payload_len
      → response_notify k s.transport bytes ≡ faults
  response_notify-overflow i p bytes skb a b has w large =
      finds i (decode_msg bytes).header.seq_num p bytes a b
      ∙ answer-overflows k laws p skb bytes s.transport has (omega (arith, w.small))
