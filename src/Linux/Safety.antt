-- ===== src/Linux/Safety.antt =====
-- Threads that wait for responses on the Linux transport: each finds its own buffer, gets the
-- response to its own message, and can always go on.
use icap.Prelude.{
  memcpy_in_bounds, ℕ, suc, ℤ, pos, ◌^◌, ◌<◌, ◌≡◌, refl, ap, ◌∙◌, Option, none, some, arith,
  returns, to_s32, length, ◌≤◌, ◌==◌, Bool-cases, Option-cases, inl, inr, negsuc, zero, true,
}
use icap.Wire.{Bytes, MsgHeader, decode_msg, u32_at, nak}
use icap.Core.{Pointer, History, header_for}
use icap.Core.Verdict.{outcome}
use icap.Linux.Transport.{Transport, Kernel, IsKernel, Skb, update}
use icap.Linux.Respond.{prepare_skb}
use icap.Linux.Wait.{find_waiter, finish_wait, settle, take_response, give_up}
use icap.Linux.System.{
  Pc, idle, numbered, prepared, sleeping, woken, System, Move, number, prepare, not_prepared, find,
  wake, expire, finish, Reach,
}
use icap.Linux.Inv.{Inv, find-own, IsOwn, seq_of, ptr_of, has_response}
use icap.Linux.Reachable.{Reach-Holds}

module _ {Q : Type 0} (k : Kernel Q) where
  -- The transport without one of its buffers.
  abbrev pub freed : Pointer → Transport Q → Transport Q
  freed p t = record t { response_queue = k.unlink p t.response_queue; skbs = update t.skbs p none }

  -- What a woken thread that keeps no response returns.
  pub finish_wait-response :
      (p : Pointer) (skb : Skb) (left : ℕ) (t : Transport Q) (h : History)
      → t.skbs p ≡ some skb
      → finish_wait k p (pos (suc left)) none t h
        ≡ returns (
          outcome (decode_msg skb.memory).header (decode_msg skb.memory).payload,
          none,
          freed p t,
          h,
        )
  unfolding finish_wait settle take_response
  finish_wait-response p skb left t h has = ground arith

  -- A place that holds what lies in the buffer takes it.
  take_response-returns :
      (skb : Skb) (response : Option Bytes)
      → skb.len ≤ length skb.memory
      → ((dst : Bytes) → response ≡ some dst → skb.len ≤ length dst)
      → (ret : ℤ) × (response' : Option Bytes) × (take_response skb response
          ≡ returns (ret, response'))
  unfolding take_response
  take_response-returns skb none l room =
      elim (Bool-cases ((decode_msg skb.memory).header.type == nak)) [
        | inl b ↦ (to_s32 (u32_at (decode_msg skb.memory).payload 0), none, rw b refl)
        | inr b ↦ (pos 0, none, rw b refl)
      ]
  take_response-returns skb (some dst) l room =
      elim (Bool-cases ((decode_msg skb.memory).header.type == nak)) [
        | inl b ↦ (to_s32 (u32_at (decode_msg skb.memory).payload 0), some dst, rw b refl)
        | inr b ↦
            let (copied, e, same) = memcpy_in_bounds dst skb.memory skb.len (room dst refl) l in
            (pos 0, some copied, rw (b, e) refl)
      ]

  finish_wait-returns :
      (p : Pointer) (skb : Skb) (timeout : ℤ) (response : Option Bytes) (t : Transport Q)
      (h : History)
      → t.skbs p ≡ some skb
      → skb.len ≤ length skb.memory
      → ((left : ℕ) (dst : Bytes)
          → timeout ≡ pos (suc left)
          → response ≡ some dst
          → skb.len ≤ length dst)
      → (ret : ℤ) × (response' : Option Bytes) × (h' : History) × (finish_wait k p timeout response
            t h
          ≡ returns (ret, response', freed p t, h'))
  unfolding finish_wait settle
  finish_wait-returns p skb (pos (suc left)) response t h has l room =
      let (ret, response', e) = take_response-returns skb response l (λ dst. room left dst refl) in
      (ret, response', h, ground (arith, e))
  finish_wait-returns p skb (pos zero) response t h has l room =
      ((give_up k t.rpdev skb h).0, response, (give_up k t.rpdev skb h).1, ground arith)
  finish_wait-returns p skb (negsuc n) response t h has l room =
      (negsuc n, response, h, ground arith)

  module _ (response : Option Bytes) (h : History) where
    -- Every result of the preparation is a move.
    prepares :
        (m x : ℕ) (t : Transport Q) (header : MsgHeader) (r : ℤ × Option Pointer × Transport Q)
        → header.seq_num ≡ x
        → prepare_skb k header t h ≡ r
        → (t' : Transport Q) × (c : Pc) × Move k response h m t (numbered x) m t' c
    prepares m x t header (ret, none, t') its e = (t', idle, not_prepared header ret its e)
    prepares m x t header (ret, some p, t') its e = (t', prepared x p, prepare header ret its e)

    wakes :
        (m x : ℕ) (p : Pointer) (t : Transport Q) (skb : Skb) (received : ℕ)
        → t.skbs p ≡ some skb
        → skb.hint.received ≡ received
        → (c : Pc) × Move k response h m t (sleeping x p) m t c
    wakes m x p t skb zero has e = (_, expire (ground arith))
    wakes m x p t skb (suc n) has e = (_, wake n 0 (ground arith))

module _ {Q : Type 0} (k : Kernel Q) (laws : IsKernel k) {rpdev : Option Pointer} {n : ℕ}
    {s : System Q} (few : n < 2 ^ 32) (r : Reach k rpdev n s) where
  v : Inv s.seq_num s.transport.skbs (k.walk s.transport.response_queue) s.pc
  v = (Reach-Holds k laws few r).0

  -- On Linux, in every state reached within fewer than 2^32 steps of threads and incoming
  -- messages since the initialisation, a thread that has prepared its wait finds exactly the
  -- buffer that it has queued, so that icap_wait_for_response never returns -ICAP_ERROR_PROTOCOL,
  -- which the code says should never happen.
  pub find_waiter-own :
      (i x : ℕ) (p : Pointer)
      → s.pc i ≡ Pc.prepared x p
      → find_waiter k x s.transport ≡ returns (some p)
  unfolding find_waiter
  find_waiter-own i x p e = find-own v i x p (ap ptr_of e) (ap seq_of e)

  -- The buffer of a thread.
  pub owned_skb :
      (i x : ℕ) (p : Pointer)
      → ptr_of (s.pc i) ≡ some p
      → seq_of (s.pc i) ≡ some x
      → (skb : Skb) × (s.transport.skbs p ≡ some skb) × (skb.hint.seq_num ≡ x) × IsOwn skb
  owned_skb i x p a b = elim (Option-cases (s.transport.skbs p)) [
    | inl gone ↦ absurd (ground (arith, v.owns i p a))
    | inr (skb, has) ↦ (skb, has, ground (arith, v.owns i p a), v.own p skb has)
  ]

  -- On Linux, in every state that any threads' calls and incoming messages reach within fewer
  -- than 2^32 steps: a thread that the arrival of its response has woken, and that keeps no
  -- response, takes its own buffer off the queue without a fault; what lies in that buffer starts
  -- with a message of the thread's own sequence number, and the thread returns what this message
  -- says.
  pub finish_wait-own :
      (i x : ℕ) (p : Pointer) (left : ℕ) (h : History)
      → s.pc i ≡ Pc.woken x p (pos (suc left))
      → (skb : Skb) × (s.transport.skbs p ≡ some skb)
        × ((decode_msg skb.memory).header.seq_num ≡ x)
        × (finish_wait k p (pos (suc left)) none s.transport h
            ≡ returns (
              outcome (decode_msg skb.memory).header (decode_msg skb.memory).payload,
              none,
              freed k p s.transport,
              h,
            ))
  unfolding decode_msg
  finish_wait-own i x p left h e =
      let (skb, has, its, own) = owned_skb i x p (ap ptr_of e) (ap seq_of e) in
      let came : has_response (s.transport.skbs p) ≡ true = v.came i x p left e in
      (
        skb,
        has,
        (own.answered (λ z. ground arith)).1 ∙ its,
        finish_wait-response k p skb left s.transport h has,
      )

  module _ (i : ℕ) (response : Option Bytes) (h : History) where
    goes_on :
        ((x : ℕ) (p : Pointer) (left : ℕ) (skb : Skb) (dst : Bytes)
          → s.pc i ≡ Pc.woken x p (pos (suc left))
          → s.transport.skbs p ≡ some skb
          → response ≡ some dst
          → skb.len ≤ length dst)
        → (c : Pc) → s.pc i ≡ c
        → (m : ℕ) × (t : Transport Q) × (c' : Pc) × Move k response h s.seq_num s.transport c m t c'
    unfolding header_for
    goes_on room idle e = (_, _, _, number refl)
    goes_on room (numbered x) e =
        let (t, c, m) =
          prepares k response h s.seq_num x s.transport (header_for x 0 0 0) _ refl refl in
        (_, t, c, m)
    goes_on room (prepared x p) e = (_, _, _, find (find_waiter-own i x p e))
    goes_on room (sleeping x p) e =
        let (skb, has, its, own) = owned_skb i x p (ap ptr_of e) (ap seq_of e) in
        let (c, m) = wakes k response h s.seq_num x p s.transport skb _ has refl in (_, _, c, m)
    goes_on room (woken x p timeout) e =
        let (skb, has, its, own) = owned_skb i x p (ap ptr_of e) (ap seq_of e) in
        let (ret, response', h', f) =
          finish_wait-returns k p skb timeout response s.transport h has own.used
            (λ left dst f g. room x p left skb dst (e ∙ ap (λ y. Pc.woken x p y) f) has g) in
        (_, _, _, finish response' h' ret f)

    -- On Linux, in every state reached within fewer than 2^32 steps of threads and incoming
    -- messages since the initialisation, each thread can go on by itself, wherever the other
    -- threads stand: one that is idle takes a number, one with a number prepares its wait or
    -- fails to, one that has prepared looks for its buffer without a fault, one that sleeps reads
    -- its hint and wakes up, and one that is awake ends its wait without a fault. This holds for
    -- every history, and whether the thread's call keeps its response or not, if, where the
    -- response has woken the thread and is to be kept, what lies in the thread's buffer is no
    -- longer than the place for it.
    pub Reach-goes_on :
        ((x : ℕ) (p : Pointer) (left : ℕ) (skb : Skb) (dst : Bytes)
          → s.pc i ≡ Pc.woken x p (pos (suc left))
          → s.transport.skbs p ≡ some skb
          → response ≡ some dst
          → skb.len ≤ length dst)
        → (m : ℕ) × (t : Transport Q) × (c : Pc) × Move k response h s.seq_num s.transport
            (s.pc i)
            m
            t
            c
    Reach-goes_on room = goes_on room (s.pc i) refl
