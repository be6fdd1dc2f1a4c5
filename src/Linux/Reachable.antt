-- ===== src/Linux/Reachable.antt =====
-- The invariant of the Linux transport holds in every reachable state.
use icap.Prelude.{
  ℕ, suc, ℤ, pos, ◌+◌, ◌^◌, ◌<◌, ◌≤◌, ◌≡◌, refl, ap, sym, ◌∙◌, subst, Option, none, some, arith,
  inl, inr, returns,
}
use icap.Wire.{Bytes, decode_msg}
use icap.Core.{Pointer, History}
use icap.Linux.Transport.{Transport, Kernel, IsKernel, update}
use icap.Linux.Respond.{response_notify}
use icap.Linux.Wait.{find_waiter}
use icap.Linux.System.{
  Pc, idle, numbered, prepared, sleeping, woken, System, IsMessage, Move, number, prepare,
  not_prepared, find, not_found, wake, expire, interrupt, finish, Step, thread, notify, Reach,
  start, later,
}
use icap.Linux.Find.{find_seq_num-cases}
use icap.Linux.Inv.{Inv, Inv-init, alive, find-own}
use icap.Linux.Moves.{heap-Inv, goes_on-Inv, number-Inv, leave-Inv, prepare-Inv, finish-Inv}
use icap.Linux.Steps.{
  queue_of, Notifies, answer-Notifies, prepare_skb-Queues, prepare_skb-none, finish_wait-frees,
}

module _ {Q : Type 0} (k : Kernel Q) (laws : IsKernel k) where
  abbrev pub InvAt : ℕ → Transport Q → (ℕ → Pc) → Type 0
  InvAt n t pc = Inv n t.skbs (queue_of k t) pc

  pub response_notify-Notifies :
      {n : ℕ} {pc : ℕ → Pc} (t t' : Transport Q) (bytes : Bytes) (ret : ℤ)
      → InvAt n t pc
      → IsMessage bytes
      → response_notify k t bytes ≡ returns (ret, t')
      → Notifies k t t'
  unfolding response_notify
  response_notify-Notifies t t' bytes ret v w e =
      let x = (decode_msg bytes).header.seq_num in
      elim (find_seq_num-cases t.skbs x (queue_of k t) (alive v)) [
        | inl (absent, others) ↦
            answer-Notifies k laws none bytes t t' ret v.own w (λ p f. absurd (cc)) (ground arith)
        | inr (p, (found, in_list, its)) ↦
            answer-Notifies k laws (some p) bytes t t' ret v.own w (λ q f. ground arith)
              (ground arith)
      ]

  -- A thread's moves.
  Move-Inv :
      {response : Option Bytes} {h : History} {n n' : ℕ} {t t' : Transport Q} {c c' : Pc}
      (pc : ℕ → Pc) (i : ℕ)
      → n + 1 < 2 ^ 32
      → InvAt n t pc
      → pc i ≡ c
      → Move k response h n t c n' t' c'
      → InvAt n' t' (update pc i c') × (n' ≤ n + 1)
  unfolding find_waiter
  Move-Inv {n} {t} pc i l v e (number f) = (
    subst (λ m. InvAt m t (update pc i (numbered m))) (omega (arith)) (number-Inv v i e),
    omega (arith, f),
  )
  Move-Inv {h} {n} {t} pc i l v e (prepare {x} {p} {t'} header ret f g) =
      let q = prepare_skb-Queues k laws header t t' h ret p g in
      (
        subst (λ m. Inv n m (queue_of k t') (update pc i (prepared x p))) (sym q.skbs)
            (subst (λ l. Inv n (update t.skbs p (some q.skb)) l (update pc i (prepared x p)))
              (sym q.queue) (prepare-Inv v i x p q.skb e q.unused (q.its ∙ f) q.own)),
        omega arith,
      )
  Move-Inv {h} {n} {t} pc i l v e (not_prepared {t'} header ret f g) = (
    subst (λ u. InvAt n u (update pc i idle)) (sym (prepare_skb-none k header t t' h ret g))
        (leave-Inv v i (ground arith)),
    omega arith,
  )
  Move-Inv {n} {t} pc i l v e (find {x} {p} {q} f) =
      let own = find-own v i x p (ground arith) (ground arith) in
      let same : q ≡ p = ground arith in
      (
        goes_on-Inv v i (sleeping x q) (ground arith) (ground arith) (λ y p' left f. cc),
        omega arith,
      )
  Move-Inv {n} {t} pc i l v e (not_found {x} {p} f) =
      let own = find-own v i x p (ground arith) (ground arith) in absurd (ground arith)
  Move-Inv pc i l v e (wake {x} {p} r left f) = (
    goes_on-Inv v i (woken x p (pos (suc left))) (ground arith) (ground arith)
        (λ y q l g. ground arith),
    omega arith,
  )
  Move-Inv pc i l v e (expire f) =
      (goes_on-Inv v i _ (ground arith) (ground arith) (λ y q l g. cc), omega arith)
  Move-Inv pc i l v e (interrupt error f) =
      (goes_on-Inv v i _ (ground arith) (ground arith) (λ y q l g. cc), omega arith)
  Move-Inv {response} {h} {n} {t} pc i l v e (finish {p} {timeout} {t'} response' h' ret f) = (
    subst (λ u. InvAt n u (update pc i idle))
        (sym (finish_wait-frees k p timeout response response' t t' h h' ret f))
        (subst (λ q. Inv n (update t.skbs p none) q (update pc i idle))
          (sym (laws.walk-unlink p t.response_queue)) (finish-Inv v i p (ground arith))),
    omega arith,
  )

  abbrev pub Holds : ℕ → System Q → Type 0
  Holds n s = InvAt s.seq_num s.transport s.pc × (s.seq_num ≤ n)

  Step-Holds : {s u : System Q} (n : ℕ) → n + 1 < 2 ^ 32 → Holds n s → Step k s u → Holds (n + 1) u
  Step-Holds {s} n l v (thread i response h mv) =
      let (w, b) = Move-Inv s.pc i (omega (arith, v.1)) v.0 refl mv in (w, omega (arith, v.1))
  Step-Holds {s} n l v (notify {t} bytes ret w e) =
      let r = response_notify-Notifies s.transport t bytes ret v.0 w e in
      (
        subst (λ q. Inv s.seq_num t.skbs q s.pc) (ap k.walk (sym r.queue))
            (heap-Inv v.0 t.skbs r.numbers r.came r.own),
        omega (arith, v.1),
      )

  -- On Linux, after any fewer than 2^32 steps of threads and incoming messages since the
  -- initialisation, and before icap_deinit_transport: the sequence numbers of pending calls are
  -- distinct and at most the counter, which has not passed the number of steps; each thread
  -- between icap_prepare_wait and the end of its wait owns a queued buffer with its number, and
  -- every queued buffer has an owner; every allocated buffer has room for a struct icap_msg, is
  -- empty until its response comes, and then starts with a message of its number; and a thread
  -- woken by a response has one.
  pub Reach-Holds :
      {rpdev : Option Pointer} {n : ℕ} {s : System Q} → n < 2 ^ 32 → Reach k rpdev n s → Holds n s
  Reach-Holds l start =
      (subst (λ q. Inv 0 (λ p. none) q (λ i. idle)) (sym laws.walk-empty) Inv-init, omega arith)
  Reach-Holds l (later {n} r st) =
      let (v, b) = Step-Holds n (omega arith) (Reach-Holds (omega arith) r) st in (v, omega arith)
