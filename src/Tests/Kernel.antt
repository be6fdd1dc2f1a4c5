-- ===== src/Tests/Kernel.antt =====
-- A kernel whose queues are lists, and a call that waits for its response on it.
use icap.Prelude.{
  ℕ, pos, refl, none, some, [], ◌∷◌, ◌++◌, List, Option, replicate, arith, returns, length,
  length-replicate, le→leb, lt→leb, leb, ◌&&◌, ◌+◌, if◌then◌else◌, faults,
}
use icap.Wire.{Bytes}
use icap.Core.{header_for}
use icap.Linux.Transport.{Kernel, IsKernel, Dequeues, extended, without, update, Heap, Skb}
use icap.Linux.Respond.{prepare_skb}
use icap.Linux.System.{Pc, System, Reach, thread, start, later, init, number, prepare}

abbrev pub pop_list : List ℕ → Option (ℕ × List ℕ)
pop_list [] = none
pop_list (p ∷ ps) = some (p, ps)

-- Two buffers, 1 and 2.
abbrev pub two_buffers : ℕ → Heap → Option (ℕ × Bytes)
two_buffers size m = elim (m 1) [
  | none ↦ some (1, replicate size 0)
  | some a ↦ elim (m 2) [ none ↦ some (2, replicate size 0) | some b ↦ none ]
]

abbrev pub list_kernel : Kernel (List ℕ)
list_kernel = record {
  empty_queue = [];
  walk = λ q. q;
  queue_tail = λ p q. q ++ (p ∷ []);
  unlink = without;
  dequeue = pop_list;
  put_data = λ skb src size.
      if leb (skb.len + size) (length skb.memory) && leb size (length src)
      then returns (extended skb src size)
      else faults;
  alloc_skb = λ size m h. two_buffers size m;
  rpmsg_send = λ d bytes h. pos 0;
  dst = λ d. 1034;
  enomem = 12;
  etimedout = 110;
}

pop_list-Dequeues : (q : List ℕ) → Dequeues (λ (q : List ℕ). q) q (pop_list q)
pop_list-Dequeues [] = tt
pop_list-Dequeues (p ∷ ps) = (refl, refl)

pub list_kernel-IsKernel : IsKernel list_kernel
list_kernel-IsKernel = record {
  walk-empty = refl;
  walk-queue_tail = λ p q. refl;
  walk-unlink = λ p q. refl;
  walk-dequeue = pop_list-Dequeues;
  put-fits = λ skb src size a b.
      ground (arith, le→leb (skb.len + size) (length skb.memory) a, le→leb size (length src) b);
  put-panics = λ skb src size a. ground (arith, lt→leb (skb.len + size) (length skb.memory) a);
  alloc-fresh = λ size m h p bytes e. ground (arith, length-replicate {A = ℕ} size 0);
}

abbrev pub starting : System (List ℕ)
starting = init list_kernel (some 9)

abbrev pub numbering : System (List ℕ)
numbering = record starting { seq_num = 1; pc = update starting.pc 0 (Pc.numbered 1) }

abbrev pub one_skb : Skb
one_skb = record {
  hint = record { received = 0; seq_num = 1; msg_cmd = 54 };
  len = 0;
  memory = replicate 304 0;
}

abbrev pub preparing : System (List ℕ)
preparing = record numbering {
  transport = record starting.transport {
    response_queue = 1 ∷ [];
    skbs = update starting.transport.skbs 1 (some one_skb);
  };
  pc = update numbering.pc 0 (Pc.prepared 1 1);
}

pub preparing-Reach : Reach list_kernel (some 9) 2 preparing
unfolding prepare_skb header_for
preparing-Reach =
    later (later start (thread 0 none [] (number (omega arith))))
      (thread 0 none [] (prepare (header_for 1 54 0 4) (pos 0) refl refl))
