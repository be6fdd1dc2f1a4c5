-- ===== src/Linux/Wait.antt =====
-- `icap_wait_for_response` of src/platform/icap_linux_kernel_rpmsg.c in the pieces between which
-- other threads run: finding the buffer, sleeping, and taking the buffer off the queue.
use icap.Prelude.{
  ℕ, zero, suc, ℤ, ◌%◌, pos, negsuc, neg, to_s32, Option, none, some, ◌∷◌, ◌==◌, if◌then◌else◌,
  memcpy, Run, ◌>>=◌, returns, faults,
}
use icap.Wire.{Bytes, decode_msg, u32_at, nak, error_broken_con}
use icap.Core.{Pointer, History, Event}
use icap.Linux.Transport.{Transport, Kernel, Skb, update}
use icap.Linux.Respond.{find_seq_num}

-- The response that came in time.
unfoldable pub take_response : Skb → Option Bytes → Run (ℤ × Option Bytes)
take_response skb response =
    let m = decode_msg skb.memory in
    if m.header.type == nak
    then returns (to_s32 (u32_at m.payload 0), response)
    else elim response [
      | none ↦ returns (pos 0, none)
      | some dst ↦ memcpy dst skb.memory skb.len >>= λ copied. returns (pos 0, some copied)
    ]

module _ {Q : Type 0} (k : Kernel Q) where
  unfoldable pub find_waiter : ℕ → Transport Q → Run (Option Pointer)
  unfolding find_seq_num
  find_waiter seq_num t = find_seq_num t.skbs (k.walk t.response_queue) seq_num

  -- No response in time: the event names the peer by 8 bits.
  unfoldable pub give_up : Option Pointer → Skb → History → ℤ × History
  give_up none skb h = (neg error_broken_con, h)
  give_up (some d) skb h = (neg k.etimedout, Event.timed_out (k.dst d % 256) skb.hint.msg_cmd ∷ h)

  -- By the result of `wait_event_interruptible_timeout`.
  unfoldable pub settle :
      ℤ → Skb → Option Bytes → Transport Q → History → Run (ℤ × Option Bytes × History)
  unfolding take_response give_up
  settle (pos (suc n)) skb response t h =
      take_response skb response >>= λ (ret, response'). returns (ret, response', h)
  settle (negsuc n) skb response t h = returns (negsuc n, response, h)
  settle (pos zero) skb response t h =
      let (ret, h') = give_up t.rpdev skb h in returns (ret, response, h')

  -- `skb_unlink`, the result, and `kfree_skb`.
  unfoldable pub finish_wait :
      Pointer
      → ℤ
      → Option Bytes
      → Transport Q
      → History
      → Run (ℤ × Option Bytes × Transport Q × History)
  unfolding settle
  finish_wait p timeout response t h = elim (t.skbs p) [
    | none ↦ faults
    | some skb ↦ settle timeout skb response t h >>= λ (ret, response', h'). returns (
      ret,
      response',
      record t { response_queue = k.unlink p t.response_queue; skbs = update t.skbs p none },
      h',
    )
  ]
