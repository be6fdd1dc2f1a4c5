-- ===== src/Linux/Transport.antt =====
-- The state of the Linux kernel transport (include/icap_linux_kernel_rpmsg.h), and what
-- src/platform/icap_linux_kernel_rpmsg.c takes from the kernel: socket buffers and their queues,
-- and the rpmsg bus.
use icap.Prelude.{
  ℕ, ◌+◌, ◌≤◌, ◌≡◌, Option, none, some, List, [], ◌∷◌, ◌++◌, ◌==◌, if◌then◌else◌, ℤ, length, take,
  drop, Run, returns, faults, ◌<◌,
}
use icap.Wire.{Bytes}
use icap.Core.{Pointer, History}

-- `struct _icap_wait_hint`
pub record WaitHint : Type 0 where
  pub received : ℕ
  pub seq_num : ℕ
  pub msg_cmd : ℕ

-- A `struct sk_buff` with the hint at its head. `memory` is what lies behind `skb->data`, its
-- unused room included; the first `len` bytes of it are in use.
pub record Skb : Type 0 where
  pub hint : WaitHint
  pub len : ℕ
  pub memory : Bytes

-- The socket buffers that are allocated.
abbrev pub Heap : Type 0
Heap = Pointer → Option Skb

-- An entry of a map changes.
abbrev pub update {ℓ} : {A : Type ℓ} → (ℕ → A) → ℕ → A → ℕ → A
update f i a j = if j == i then a else f j

-- `struct icap_transport`. The locks are not state of the model: what the code does under one of
-- them is one step.
pub record Transport (Q : Type 0) : Type 0 where
  pub rpdev : Option Pointer
  pub response_queue : Q
  pub skbs : Heap

-- The kernel's functions. `walk` lists a queue in the order of `skb_queue_walk`; `alloc_skb` gives
-- the buffer's memory as it happens to be; `woken` is what `wait_event_interruptible_timeout`
-- returns if its condition does not hold.
pub record Kernel (Q : Type 0) : Type 0 where
  pub empty_queue : Q
  pub walk : Q → List Pointer
  pub queue_tail : Pointer → Q → Q
  pub unlink : Pointer → Q → Q
  pub dequeue : Q → Option (Pointer × Q)
  pub put_data : Skb → Bytes → ℕ → Run Skb
  pub alloc_skb : ℕ → Heap → History → Option (Pointer × Bytes)
  pub rpmsg_send : Pointer → Bytes → History → ℤ
  pub dst : Pointer → ℕ
  pub enomem : ℕ
  pub etimedout : ℕ

-- A buffer with more bytes behind those in use.
abbrev pub extended : Skb → Bytes → ℕ → Skb
extended skb src size = record skb {
  len = skb.len + size;
  memory = take skb.len skb.memory ++ (take size src ++ drop (skb.len + size) skb.memory);
}

-- A queue without one of its buffers.
abbrev pub without : Pointer → List Pointer → List Pointer
without p [] = []
without p (q ∷ qs) = if q == p then without p qs else q ∷ without p qs

-- What `skb_dequeue` takes from a queue with these buffers.
abbrev pub Dequeues :
    {Q : Type 0} → (Q → List Pointer) → List Pointer → Option (Pointer × Q) → Type 0
Dequeues walk [] none = Unit {0}
Dequeues walk [] (some x) = ⊥
Dequeues walk (p ∷ ps) none = ⊥
Dequeues walk (p ∷ ps) (some (q, rest)) = (q ≡ p) × (walk rest ≡ ps)

-- What the kernel documents: buffers are queued at the tail and taken from the head, a buffer is on
-- one queue once, `skb_put_data` panics if the data would exceed the buffer, and `alloc_skb` gives memory of at least the size asked for that is not in
-- use.
pub record IsKernel {Q : Type 0} (k : Kernel Q) : Type 0 where
  pub walk-empty : k.walk k.empty_queue ≡ []
  pub walk-queue_tail : (p : Pointer) (q : Q) → k.walk (k.queue_tail p q) ≡ k.walk q ++ (p ∷ [])
  pub walk-unlink : (p : Pointer) (q : Q) → k.walk (k.unlink p q) ≡ without p (k.walk q)
  pub walk-dequeue : (q : Q) → Dequeues k.walk (k.walk q) (k.dequeue q)
  pub alloc-fresh :
      (size : ℕ) (m : Heap) (h : History) (p : Pointer) (bytes : Bytes)
      → k.alloc_skb size m h ≡ some (p, bytes)
      → (m p ≡ none) × (size ≤ length bytes)
  pub put-fits :
      (skb : Skb) (src : Bytes) (size : ℕ)
      → skb.len + size ≤ length skb.memory
      → size ≤ length src
      → k.put_data skb src size ≡ returns (extended skb src size)
  pub put-panics :
      (skb : Skb) (src : Bytes) (size : ℕ)
      → length skb.memory < skb.len + size
      → k.put_data skb src size ≡ faults
