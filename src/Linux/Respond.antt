-- ===== src/Linux/Respond.antt =====
-- src/platform/icap_linux_kernel_rpmsg.c, but for the wait: setting up and down, sending, queueing
-- the buffer for a response, and filling it.
use icap.Prelude.{
  ℕ, zero, suc, ℤ, ◌+◌, ◌%◌, ◌^◌, pos, neg, Option, none, some, List, [], ◌∷◌, ◌==◌, if◌then◌else◌,
  length, drop, Run, ◌>>=◌, returns, faults,
}
use icap.Wire.{Bytes, MsgHeader, decode_msg, header_size, msg_size, error_broken_con, error_timeout}
use icap.Core.{Pointer, History, Event}
use icap.Linux.Transport.{Transport, Kernel, Heap, Skb, update}

-- `sizeof(struct _icap_wait_hint)`
abbrev pub hint_size : ℕ
hint_size = 12

-- `_find_seq_num`: the hints of the queue are read in turn, which faults at a freed buffer.
unfoldable pub find_seq_num : Heap → List Pointer → ℕ → Run (Option Pointer)
find_seq_num m [] seq_num = returns none
find_seq_num m (p ∷ ps) seq_num =
    let rest = find_seq_num m ps seq_num in
    elim (m p) [
      | none ↦ faults
      | some skb ↦ if skb.hint.seq_num == seq_num then returns (some p) else rest
    ]

-- `hint->received = 1`
unfoldable pub mark_received : Skb → Skb
mark_received skb = record skb { hint = record skb.hint { received = 1 } }

module _ {Q : Type 0} (k : Kernel Q) where
  unfoldable pub init_transport : Transport Q → ℤ × Transport Q
  init_transport t = (pos 0, record t { response_queue = k.empty_queue })

  -- The `while` loop that frees the buffers of the queue. The first argument bounds its rounds.
  unfoldable pub purge : ℕ → Transport Q → Transport Q
  purge zero t = t
  purge (suc n) t = elim (k.dequeue t.response_queue) [
    | none ↦ t
    | some (p, q) ↦ purge n (record t { response_queue = q; skbs = update t.skbs p none })
  ]

  -- The loop is granted a round for each buffer that is queued.
  unfoldable pub deinit_transport : Transport Q → ℤ × Transport Q
  unfolding purge
  deinit_transport t =
      let t' = purge (length (k.walk t.response_queue)) t in (pos 0, record t' { rpdev = none })

  unfoldable pub verify_remote : Transport Q → ℕ → ℤ × Transport Q
  verify_remote t src_addr = (pos 0, t)

  unfoldable pub send_platform : Transport Q → Bytes → History → ℤ × History
  send_platform t bytes h = elim t.rpdev [
    | none ↦ (neg error_broken_con, h)
    | some d ↦ (k.rpmsg_send d bytes h, Event.sent (k.dst d) bytes ∷ h)
  ]

  -- `icap_prepare_wait`, with the buffer that it has queued.
  unfoldable pub prepare_skb : MsgHeader → Transport Q → History → ℤ × Option Pointer × Transport Q
  prepare_skb header t h = elim t.rpdev [
    | none ↦ (neg error_broken_con, none, t)
    | some d ↦ elim (k.alloc_skb (hint_size + msg_size) t.skbs h) [
      | none ↦ (neg k.enomem, none, t)
      | some (p, bytes) ↦ (
        pos 0,
        some p,
        record t {
          response_queue = k.queue_tail p t.response_queue;
          skbs = update t.skbs p (
              some (record {
                hint = record { received = 0; seq_num = header.seq_num; msg_cmd = header.cmd };
                len = 0;
                memory = drop hint_size bytes;
              }));
        },
      )
    ]
  ]

  unfoldable pub prepare_wait : MsgHeader → Transport Q → History → ℤ × Transport Q
  unfolding prepare_skb
  prepare_wait header t h = let (ret, _, t') = prepare_skb header t h in (ret, t')

  -- The waiter's buffer takes the response.
  unfoldable pub answer : Option Pointer → Bytes → Transport Q → Run (ℤ × Transport Q)
  unfolding mark_received
  answer none response t = returns (neg error_timeout, t)
  answer (some p) response t = elim (t.skbs p) [
    | none ↦ faults
    | some skb ↦
        k.put_data skb response ((header_size + (decode_msg response).header.payload_len) % 2 ^ 32)
        >>= λ skb'. returns (pos 0, record t { skbs = update t.skbs p (some (mark_received skb')) })
  ]

  unfoldable pub response_notify : Transport Q → Bytes → Run (ℤ × Transport Q)
  unfolding find_seq_num answer
  response_notify t response =
      find_seq_num t.skbs (k.walk t.response_queue) (decode_msg response).header.seq_num
      >>= λ waiter. answer waiter response t
