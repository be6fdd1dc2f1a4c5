-- ===== src/Linux/Shutdown.antt =====
-- `icap_deinit_transport` of src/platform/icap_linux_kernel_rpmsg.c: what it frees, and what a
-- thread that still waits then meets.
use icap.Prelude.{
  ℕ, suc, ℤ, pos, ◌^◌, ◌<◌, ◌≡◌, refl, ap, subst₂, ◌∙◌, Option, none, some, List, [], ◌∷◌, arith,
  faults, Option-cases, inl, inr, ◌==◌, if◌then◌else◌, length, Bool-cases,
}
use icap.Wire.{Bytes}
use icap.Core.{Pointer, History}
use icap.Linux.Transport.{Transport, Kernel, IsKernel, Dequeues, update, Heap}
use icap.Linux.Respond.{purge, deinit_transport}
use icap.Linux.Wait.{finish_wait}
use icap.Linux.System.{System, Reach}
use icap.Linux.Find.{listed}
use icap.Linux.Inv.{ptr_of}
use icap.Linux.Reachable.{Reach-Holds}

module _ {Q : Type 0} (k : Kernel Q) (laws : IsKernel k) where
  -- The buffers of a list are freed, and the others kept.
  abbrev pub without_all : List Pointer → Heap → Heap
  without_all l m p = if listed p l then none else m p

  purge-frees :
      (l : List Pointer) (t : Transport Q)
      → k.walk t.response_queue ≡ l
      → (k.walk (purge k (length l) t).response_queue ≡ [])
        × ((p : Pointer) → (purge k (length l) t).skbs p ≡ without_all l t.skbs p)
  unfolding purge
  purge-frees [] t e = (e, λ p. refl)
  purge-frees (q ∷ qs) t e = elim (Option-cases (k.dequeue t.response_queue)) [
    | inl empty ↦
        absurd (subst₂ (λ l o. Dequeues k.walk l o) e empty (laws.walk-dequeue t.response_queue))
    | inr ((p, rest), got) ↦
        let (first, others) : (p ≡ q) × (k.walk rest ≡ qs) =
          subst₂ (λ l o. Dequeues k.walk l o) e got (laws.walk-dequeue t.response_queue) in
        let t₁ : Transport Q = record t { response_queue = rest; skbs = update t.skbs p none } in
        let goes : purge k (suc (length qs)) t ≡ purge k (length qs) t₁ = ground arith in
        let (ended, gone) = purge-frees qs t₁ others in
        (
          ap (λ (u : Transport Q). k.walk u.response_queue) goes ∙ ended,
          λ r.
              ap (λ (u : Transport Q). u.skbs r) goes
              ∙ gone r
              ∙ elim (Bool-cases (q == r)) [ inl same ↦ ground arith | inr other ↦ ground arith ],
        )
  ]

  -- icap_deinit_transport on Linux returns 0 with an empty queue and no rpmsg device; the buffers
  -- that were queued are freed and all others kept. A round of the loop for each queued buffer is
  -- enough.
  pub deinit_transport-frees :
      (t : Transport Q)
      → let (ret, t') = deinit_transport k t in
        (ret ≡ pos 0)
        × (t'.rpdev ≡ none)
        × (k.walk t'.response_queue ≡ [])
        × ((p : Pointer)
            → t'.skbs p ≡ (if listed p (k.walk t.response_queue) then none else t.skbs p))
  unfolding deinit_transport
  deinit_transport-frees t =
      let (ended, gone) = purge-frees (k.walk t.response_queue) t refl in (refl, refl, ended, gone)

  -- On Linux, in every state reached within fewer than 2^32 steps of threads and incoming
  -- messages since the initialisation: after icap_deinit_transport, a thread that owned a buffer
  -- faults when its wait on this buffer ends, however it is woken.
  pub finish_wait-use_after_free :
      {rpdev : Option Pointer} {n : ℕ} {s : System Q}
      → n < 2 ^ 32
      → Reach k rpdev n s
      → (i : ℕ) (p : Pointer) → ptr_of (s.pc i) ≡ some p
      → (timeout : ℤ) (response : Option Bytes) (h : History)
      → finish_wait k p timeout response (deinit_transport k s.transport).1 h ≡ faults
  unfolding finish_wait
  finish_wait-use_after_free {s} few r i p e timeout response h =
      let owned = ((Reach-Holds k laws few r).0.owns i p e).0 in
      let t' = (deinit_transport k s.transport).1 in
      let gone : t'.skbs p ≡ none =
        (deinit_transport-frees s.transport).3 p
        ∙ ap (λ b. if b then none else s.transport.skbs p) owned in
      ground arith
