-- ===== src/Tests/Threads.antt =====
-- The theorems about the Linux transport, at one thread that waits for its response.
use icap.Prelude.{
  ℕ, zero, suc, pos, neg, ◌≡◌, ◌≢◌, refl, ap, ◌∙◌, Option, none, some, [], ◌∷◌, arith, returns,
  faults, replicate, length, ◌≤◌, take, drop, ◌++◌, List, if◌then◌else◌,
}
use icap.Wire.{encode_msg, put_u32, put_words, u32_at, Bytes, decode_msg, error_timeout}
use icap.Core.{header_for, Pointer}
use icap.Core.Verdict.{outcome}
use icap.Linux.Transport.{update, Skb, Transport}
use icap.Linux.Respond.{response_notify, deinit_transport}
use icap.Linux.Wait.{find_waiter, finish_wait}
use icap.Linux.System.{Pc, System, Reach, thread, notify, later, IsMessage, Move, find, wake}
use icap.Linux.Find.{listed}
use icap.Linux.Inv.{seq_of, ptr_of}
use icap.Linux.Safety.{freed, find_waiter-own, finish_wait-own, Reach-goes_on}
use icap.Linux.Notify.{
  filled, response_notify-first, response_notify-stranger, response_notify-overflow,
}
use icap.Linux.Shutdown.{deinit_transport-frees, finish_wait-use_after_free}
use icap.Tests.Kernel.{list_kernel, list_kernel-IsKernel, one_skb, preparing, preparing-Reach}
use icap.Linux.Reachable.{Holds, Reach-Holds}

abbrev asleep : System (List ℕ)
asleep = record preparing { pc = update preparing.pc 0 (Pc.sleeping 1 1) }

asleep-Reach : Reach list_kernel (some 9) 3 asleep
unfolding find_waiter
asleep-Reach = later preparing-Reach (thread 0 none [] (find refl))

-- The positive response to message 1, and a response to message 2.
abbrev accepted : Bytes
accepted = encode_msg (header_for 1 54 1 0) []

abbrev other : Bytes
other = encode_msg (header_for 2 54 1 0) []

accepted-IsMessage : IsMessage accepted
unfolding header_for decode_msg encode_msg u32_at put_u32 put_words
accepted-IsMessage = omega arith

abbrev answered : System (List ℕ)
answered = record asleep {
  transport = record asleep.transport {
    skbs = update asleep.transport.skbs 1 (some (filled one_skb accepted));
  };
}

answered-Reach : Reach list_kernel (some 9) 4 answered
unfolding response_notify header_for decode_msg encode_msg u32_at put_u32 put_words
answered-Reach = later asleep-Reach (notify accepted (pos 0) accepted-IsMessage refl)

abbrev awake : System (List ℕ)
awake = record answered { pc = update answered.pc 0 (Pc.woken 1 1 (pos 1)) }

awake-Reach : Reach list_kernel (some 9) 5 awake
awake-Reach = later answered-Reach (thread 0 none [] (wake 0 0 refl))

find_waiter-own_example : find_waiter list_kernel 1 preparing.transport ≡ returns (some 1)
find_waiter-own_example =
    find_waiter-own list_kernel list_kernel-IsKernel (omega arith) preparing-Reach 0 1 1 refl

finish_wait-own_example :
    (skb : Skb) × (awake.transport.skbs 1 ≡ some skb)
    × ((decode_msg skb.memory).header.seq_num ≡ 1)
    × (finish_wait list_kernel 1 (pos 1) none awake.transport []
        ≡ returns (
          outcome (decode_msg skb.memory).header (decode_msg skb.memory).payload,
          none,
          freed list_kernel 1 awake.transport,
          [],
        ))
finish_wait-own_example =
    finish_wait-own list_kernel list_kernel-IsKernel (omega arith) awake-Reach 0 1 1 0 [] refl

-- The thread keeps the response.
abbrev kept : Bytes
kept = replicate 304 0

abbrev len_of : Option Skb → ℕ
len_of none = 0
len_of (some skb) = skb.len

fits_kept :
    (x : ℕ) (p : Pointer) (left : ℕ) (skb : Skb) (dst : Bytes)
    → awake.pc 0 ≡ Pc.woken x p (pos (suc left))
    → awake.transport.skbs p ≡ some skb
    → some kept ≡ some dst
    → skb.len ≤ length dst
unfolding header_for decode_msg encode_msg u32_at put_u32 put_words
fits_kept x p left skb dst e f g =
    let own : some 1 ≡ some p = ap ptr_of e in
    let its : 1 ≡ p = cc in
    let has : awake.transport.skbs 1 ≡ some skb = ap awake.transport.skbs its ∙ f in
    let used : 40 ≡ skb.len = ap len_of has in
    let same : kept ≡ dst = cc in omega (arith, used, ap length same)

Reach-goes_on_example :
    (m : ℕ) × (t : Transport (List ℕ)) × (c : Pc) × Move list_kernel
      (some kept)
      []
      1
      awake.transport
      (Pc.woken 1 1 (pos 1))
      m
      t
      c
Reach-goes_on_example =
    Reach-goes_on list_kernel list_kernel-IsKernel (omega arith) awake-Reach 0 (some kept) []
      fits_kept

response_notify-first_example :
    (skb : Skb) × (asleep.transport.skbs 1 ≡ some skb)
    × (response_notify list_kernel asleep.transport accepted
        ≡ returns (
          pos 0,
          record asleep.transport {
            skbs = update asleep.transport.skbs 1 (
                some (record {
                  hint = record skb.hint { received = 1 };
                  len = 40;
                  memory = take 40 accepted ++ drop 40 skb.memory;
                }));
          },
        ))
unfolding header_for decode_msg encode_msg u32_at put_u32 put_words
response_notify-first_example =
    response_notify-first list_kernel list_kernel-IsKernel (omega arith) asleep-Reach 0 1 accepted
      refl refl refl accepted-IsMessage (omega arith)

strange : (i : ℕ) → seq_of (asleep.pc i) ≢ some (decode_msg other).header.seq_num
unfolding header_for decode_msg encode_msg u32_at put_u32 put_words
strange zero e = ground arith
strange (suc i) e = ground arith

response_notify-stranger_example :
    response_notify list_kernel asleep.transport other
    ≡ returns (neg error_timeout, asleep.transport)
response_notify-stranger_example =
    response_notify-stranger list_kernel list_kernel-IsKernel (omega arith) asleep-Reach other
      strange

-- A response with 265 bytes of payload.
abbrev long : Bytes
long = encode_msg (header_for 1 54 1 265) (replicate 265 7)

long-IsMessage : IsMessage long
unfolding header_for decode_msg encode_msg u32_at put_u32 put_words
long-IsMessage = omega arith

response_notify-overflow_example : response_notify list_kernel asleep.transport long ≡ faults
unfolding header_for decode_msg encode_msg u32_at put_u32 put_words
response_notify-overflow_example =
    response_notify-overflow list_kernel list_kernel-IsKernel (omega arith) asleep-Reach 0 1 long
      one_skb refl refl refl long-IsMessage (omega arith)

deinit_transport-frees_example :
    let (ret, t') = deinit_transport list_kernel asleep.transport in
    (ret ≡ pos 0)
    × (t'.rpdev ≡ none)
    × (t'.response_queue ≡ [])
    × ((p : Pointer) → t'.skbs p ≡ (if listed p (1 ∷ []) then none else asleep.transport.skbs p))
deinit_transport-frees_example =
    deinit_transport-frees list_kernel list_kernel-IsKernel asleep.transport

finish_wait-use_after_free_example :
    finish_wait list_kernel 1 (pos 0) none (deinit_transport list_kernel asleep.transport).1 []
    ≡ faults
finish_wait-use_after_free_example =
    finish_wait-use_after_free list_kernel list_kernel-IsKernel (omega arith) asleep-Reach 0 1 refl
      (pos 0) none []

Reach-Holds_example : Holds list_kernel list_kernel-IsKernel 5 awake
Reach-Holds_example = Reach-Holds list_kernel list_kernel-IsKernel (omega arith) awake-Reach
