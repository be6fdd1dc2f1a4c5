-- ===== src/Linux/System.antt =====
-- Threads that call `icap_send_msg`, and the rpmsg callback, over one Linux transport: what runs
-- under a lock is one step, and the steps of different threads come in any order.
use icap.Prelude.{
  ℕ, suc, ℤ, ◌+◌, ◌%◌, ◌^◌, ◌<◌, ◌≤◌, ◌≡◌, pos, negsuc, Option, none, some, length, returns,
}
use icap.Wire.{Bytes, MsgHeader, decode_msg, header_size}
use icap.Core.{Pointer, History}
use icap.Linux.Transport.{Transport, Kernel, update}
use icap.Linux.Respond.{prepare_skb, response_notify}
use icap.Linux.Wait.{find_waiter, finish_wait}

-- Where a thread stands in `icap_send_msg`, with its sequence number; `queued` names the buffer
-- that `icap_prepare_wait` has queued, which the code does not keep.
pub data Pc : Type 0 where
  idle : Pc
  numbered : (seq_num : ℕ) → Pc
  prepared : (seq_num : ℕ) → (queued : Pointer) → Pc
  sleeping : (seq_num : ℕ) → (skb : Pointer) → Pc
  woken : (seq_num : ℕ) → (skb : Pointer) → (timeout : ℤ) → Pc

-- The bytes of a whole message, as `icap_parse_msg` hands them to `icap_response_notify`.
pub record IsMessage (bytes : Bytes) : Type 0 where
  pub whole : header_size + (decode_msg bytes).header.payload_len ≤ length bytes
  pub small : header_size + (decode_msg bytes).header.payload_len < 2 ^ 32

pub record System (Q : Type 0) : Type 0 where
  pub seq_num : ℕ
  pub transport : Transport Q
  pub pc : ℕ → Pc

-- The hint says whether the response has come.
abbrev pub received_at : {Q : Type 0} → Transport Q → Pointer → Option ℕ
received_at t p = elim (t.skbs p) [ none ↦ none | some skb ↦ some skb.hint.received ]

module _ {Q : Type 0} (k : Kernel Q) where
  -- One step of one thread, with what it does to the counter and to the transport, given where its
  -- call keeps the response, if it does, and what has happened before. Sending comes between
  -- `prepare` and `find`, and touches neither. A sleeping thread reads its hint first: time and
  -- signals matter only while the response has not come.
  pub data Move (response : Option Bytes) (h : History) (n : ℕ) (t : Transport Q)
      : Pc → ℕ → Transport Q → Pc → Type 0 where
    number : {m : ℕ} → m ≡ (n + 1) % 2 ^ 32 → Move response h n t Pc.idle m t (Pc.numbered m)
    prepare :
        {x : ℕ} {p : Pointer} {t' : Transport Q} (header : MsgHeader) (ret : ℤ)
        → header.seq_num ≡ x
        → prepare_skb k header t h ≡ (ret, some p, t')
        → Move response h n t (Pc.numbered x) n t' (Pc.prepared x p)
    not_prepared :
        {x : ℕ} {t' : Transport Q} (header : MsgHeader) (ret : ℤ)
        → header.seq_num ≡ x
        → prepare_skb k header t h ≡ (ret, none, t')
        → Move response h n t (Pc.numbered x) n t' Pc.idle
    find :
        {x : ℕ} {p q : Pointer}
        → find_waiter k x t ≡ returns (some q)
        → Move response h n t (Pc.prepared x p) n t (Pc.sleeping x q)
    not_found :
        {x : ℕ} {p : Pointer}
        → find_waiter k x t ≡ returns none
        → Move response h n t (Pc.prepared x p) n t Pc.idle
    wake :
        {x : ℕ} {p : Pointer} (r left : ℕ)
        → received_at t p ≡ some (suc r)
        → Move response h n t (Pc.sleeping x p) n t (Pc.woken x p (pos (suc left)))
    expire :
        {x : ℕ} {p : Pointer}
        → received_at t p ≡ some 0
        → Move response h n t (Pc.sleeping x p) n t (Pc.woken x p (pos 0))
    interrupt :
        {x : ℕ} {p : Pointer} (error : ℕ)
        → received_at t p ≡ some 0
        → Move response h n t (Pc.sleeping x p) n t (Pc.woken x p (negsuc error))
    finish :
        {x : ℕ} {p : Pointer} {timeout : ℤ} {t' : Transport Q} (response' : Option Bytes)
        (h' : History) (ret : ℤ)
        → finish_wait k p timeout response t h ≡ returns (ret, response', t', h')
        → Move response h n t (Pc.woken x p timeout) n t' Pc.idle

  pub data Step (s : System Q) : System Q → Type 0 where
    thread :
        (i : ℕ) (response : Option Bytes) (h : History) {n : ℕ} {t : Transport Q} {p : Pc}
        → Move response h s.seq_num s.transport (s.pc i) n t p
        → Step s (record { seq_num = n; transport = t; pc = update s.pc i p })
    notify :
        {t : Transport Q} (bytes : Bytes) (ret : ℤ)
        → IsMessage bytes
        → response_notify k s.transport bytes ≡ returns (ret, t)
        → Step s (record s { transport = t })

  -- After `icap_application_init` or `icap_device_init`, with no buffer in use.
  abbrev pub init : Option Pointer → System Q
  init rpdev = record {
    seq_num = 0;
    transport = record { rpdev = rpdev; response_queue = k.empty_queue; skbs = λ p. none };
    pc = λ i. Pc.idle;
  }

  -- Reachable with at most so many steps.
  pub data Reach (rpdev : Option Pointer) : ℕ → System Q → Type 0 where
    start : Reach rpdev 0 (init rpdev)
    later : {n : ℕ} {s u : System Q} → Reach rpdev n s → Step s u → Reach rpdev (suc n) u
