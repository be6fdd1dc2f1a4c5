-- ===== src/Linux/Steps.antt =====
-- The steps of src/platform/icap_linux_kernel_rpmsg.c keep the invariant of the transport.
use icap.Prelude.{
  returns-inj, ℕ, ℤ, pos, ◌+◌, ◌%◌, ◌^◌, ◌≤◌, ◌≡◌, refl, ap, sym, ◌∙◌, subst, Option, none, some,
  List, [], ◌∷◌, ◌++◌, true, ◌==◌, arith, ==→eq, Bool-cases, Option-cases, inl, inr, length, take,
  drop, length-append, length-take, length-drop, Run, returns, ◌>>=◌, bind-returns,
}
use icap.Wire.{Bytes, MsgHeader, decode_msg, u32_at, u32_at-take_append, header_size, msg_size}
use native.Mathlib.Decide.{dec_le}
use icap.Core.{Pointer, History}
use icap.Linux.Transport.{Skb, Transport, Kernel, IsKernel, extended, update}
use icap.Linux.Respond.{hint_size, mark_received, prepare_skb, answer}
use icap.Linux.Wait.{finish_wait}
use icap.Linux.System.{IsMessage}
use icap.Linux.Find.{seq_at}
use icap.Linux.Inv.{IsOwn, AllOwn, has_response}

-- What a filled buffer starts with: the response, or what it held before.
filled-starts :
    (skb : Skb) (bytes : Bytes) (size : ℕ)
    → IsOwn skb
    → (decode_msg bytes).header.seq_num ≡ skb.hint.seq_num
    → header_size ≤ size
    → size ≤ length bytes
    → u32_at (take skb.len skb.memory ++ (take size bytes ++ drop (skb.len + size) skb.memory)) 4
      ≡ skb.hint.seq_num
unfolding decode_msg
filled-starts skb bytes size o s a b = elim (Bool-cases (skb.hint.received == 0)) [
  | inl h ↦
      let rest = drop (skb.len + size) skb.memory in
      let nothing : skb.len ≡ 0 = o.waiting (==→eq skb.hint.received 0 h) in
      ap (λ n. u32_at (take n skb.memory ++ (take size bytes ++ rest)) 4) nothing
      ∙ u32_at-take_append size bytes rest 4 (omega arith) b
      ∙ s
  | inr h ↦
      let (c, d) = o.answered (λ e. ground arith) in
      u32_at-take_append skb.len skb.memory (take size bytes ++ drop (skb.len + size) skb.memory) 4
        (omega arith) o.used
      ∙ d
]

-- A buffer that takes a response with its number.
extended-IsOwn :
    (skb : Skb) (bytes : Bytes) (size : ℕ)
    → IsOwn skb
    → (decode_msg bytes).header.seq_num ≡ skb.hint.seq_num
    → header_size ≤ size
    → size ≤ length bytes
    → skb.len + size ≤ length skb.memory
    → IsOwn (mark_received (extended skb bytes size))
unfolding mark_received
extended-IsOwn skb bytes size o s a whole fits =
    let rest = drop (skb.len + size) skb.memory in
    let same : length (extended skb bytes size).memory ≡ length skb.memory = omega (
      arith,
      length-append (take skb.len skb.memory) (take size bytes ++ rest),
      length-append (take size bytes) rest,
      length-take skb.len skb.memory,
      length-take size bytes,
      length-drop (skb.len + size) skb.memory,
    ) in
    record {
      room = omega (arith, same, o.room);
      used = omega (arith, same);
      waiting = λ z. absurd (omega arith);
      answered = λ z. (omega arith, filled-starts skb bytes size o s a whole);
    }

module _ {Q : Type 0} (k : Kernel Q) (laws : IsKernel k) where
  -- `skb_put_data` of a response to a buffer with its number.
  put_data-IsOwn :
      (skb skb' : Skb) (bytes : Bytes) (size : ℕ)
      → IsOwn skb
      → (decode_msg bytes).header.seq_num ≡ skb.hint.seq_num
      → header_size ≤ size
      → size ≤ length bytes
      → k.put_data skb bytes size ≡ returns skb'
      → IsOwn (mark_received skb') × (skb'.hint.seq_num ≡ skb.hint.seq_num)
  put_data-IsOwn skb skb' bytes size o s a whole e =
      elim (dec_le (skb.len + size) (length skb.memory)) [
        | no large ↦ let panic = laws.put-panics skb bytes size (omega arith) in absurd (cc)
        | yes fits ↦
            let result : extended skb bytes size ≡ skb' =
              returns-inj (sym (laws.put-fits skb bytes size fits whole) ∙ e) in
            subst (λ b. IsOwn (mark_received b) × (b.hint.seq_num ≡ skb.hint.seq_num)) result
              (extended-IsOwn skb bytes size o s a whole fits, refl)
      ]

module _ {Q : Type 0} (k : Kernel Q) where
  abbrev pub queue_of : Transport Q → List Pointer
  queue_of t = k.walk t.response_queue

  -- `icap_prepare_wait` has queued a new buffer.
  pub record Queues (header : MsgHeader) (p : Pointer) (t t' : Transport Q) : Type 0 where
    pub skb : Skb
    pub unused : t.skbs p ≡ none
    pub own : IsOwn skb
    pub its : skb.hint.seq_num ≡ header.seq_num
    pub queue : queue_of t' ≡ queue_of t ++ (p ∷ [])
    pub skbs : t'.skbs ≡ update t.skbs p (some skb)

  pub prepare_skb-Queues :
      (laws : IsKernel k) (header : MsgHeader) (t t' : Transport Q) (h : History) (ret : ℤ)
      (p : Pointer)
      → prepare_skb k header t h ≡ (ret, some p, t')
      → Queues header p t t'
  unfolding prepare_skb
  prepare_skb-Queues laws header t t' h ret p e = elim (Option-cases t.rpdev) [
    | inl off ↦ absurd (ground arith)
    | inr (d, on) ↦ elim (Option-cases (k.alloc_skb (hint_size + msg_size) t.skbs h)) [
      | inl full ↦ absurd (ground arith)
      | inr ((q, bytes), got) ↦
          let (free, large) = laws.alloc-fresh (hint_size + msg_size) t.skbs h q bytes got in
          let new : Skb = record {
            hint = record { received = 0; seq_num = header.seq_num; msg_cmd = header.cmd };
            len = 0;
            memory = drop hint_size bytes;
          } in
          let same : p ≡ q = ground arith in
          let result : t' ≡ record t {
            response_queue = k.queue_tail q t.response_queue;
            skbs = update t.skbs q (some new);
          } =
            ground arith in
          record {
            skb = new;
            unused = ap t.skbs same ∙ free;
            own = record {
              room = omega (arith, length-drop hint_size bytes);
              used = omega arith;
              waiting = λ z. refl;
              answered = λ z. absurd (z refl);
            };
            its = refl;
            queue =
                ap queue_of result
                ∙ laws.walk-queue_tail q t.response_queue
                ∙ ap (λ r. queue_of t ++ (r ∷ [])) (sym same);
            skbs =
                ap (λ (u : Transport Q). u.skbs) result
                ∙ ap (λ r. update t.skbs r (some new)) (sym same);
          }
    ]
  ]

  pub prepare_skb-none :
      (header : MsgHeader) (t t' : Transport Q) (h : History) (ret : ℤ)
      → prepare_skb k header t h ≡ (ret, none, t')
      → t' ≡ t
  unfolding prepare_skb
  prepare_skb-none header t t' h ret e = elim (Option-cases t.rpdev) [
    | inl off ↦ ground arith
    | inr (d, on) ↦ elim (Option-cases (k.alloc_skb (hint_size + msg_size) t.skbs h)) [
      | inl full ↦ ground arith
      | inr ((q, bytes), got) ↦ absurd (ground arith)
    ]
  ]

  -- The buffer is off the queue and freed.
  pub finish_wait-frees :
      (p : Pointer) (timeout : ℤ) (response response' : Option Bytes) (t t' : Transport Q)
      (h h' : History) (ret : ℤ)
      → finish_wait k p timeout response t h ≡ returns (ret, response', t', h')
      → t' ≡ record t { response_queue = k.unlink p t.response_queue; skbs = update t.skbs p none }
  unfolding finish_wait
  finish_wait-frees p timeout response response' t t' h h' ret e = elim (Option-cases (t.skbs p)) [
    | inl gone ↦ absurd (ground arith)
    | inr (skb, has) ↦ ground arith
  ]

  -- The waiters' buffers after `icap_response_notify`: their numbers, and what they hold.
  pub record Notifies (t t' : Transport Q) : Type 0 where
    pub queue : t'.response_queue ≡ t.response_queue
    pub rpdev : t'.rpdev ≡ t.rpdev
    pub numbers : (p : Pointer) → seq_at (t'.skbs p) ≡ seq_at (t.skbs p)
    pub own : AllOwn t'.skbs
    pub came : (p : Pointer) → has_response (t.skbs p) ≡ true → has_response (t'.skbs p) ≡ true

  pub answer-Notifies :
      (laws : IsKernel k) (o : Option Pointer) (bytes : Bytes) (t t' : Transport Q) (ret : ℤ)
      → AllOwn t.skbs
      → IsMessage bytes
      → ((p : Pointer) → o ≡ some p → seq_at (t.skbs p) ≡ some (decode_msg bytes).header.seq_num)
      → answer k o bytes t ≡ returns (ret, t')
      → Notifies t t'
  unfolding answer mark_received
  answer-Notifies laws none bytes t t' ret a w s e =
      subst (Notifies t) (ground arith)
        (record { queue = refl; rpdev = refl; numbers = λ p. refl; own = a; came = λ p h. h })
  answer-Notifies laws (some p) bytes t t' ret a w s e = elim (Option-cases (t.skbs p)) [
    | inl gone ↦ absurd (ground (arith, s p refl))
    | inr (skb, has) ↦
        let size = (header_size + (decode_msg bytes).header.payload_len) % 2 ^ 32 in
        let its : (decode_msg bytes).header.seq_num ≡ skb.hint.seq_num = ground (arith, s p refl) in
        let next : Skb → Run (ℤ × Transport Q) =
          λ b. returns (pos 0, record t { skbs = update t.skbs p (some (mark_received b)) }) in
        let chain : (k.put_data skb bytes size >>= next) ≡ returns (ret, t') = ground arith in
        let (skb', filled, rest) = bind-returns (k.put_data skb bytes size) next (ret, t') chain in
        let (own, kept) =
          put_data-IsOwn k laws skb skb' bytes size (a p skb has) its (omega (arith, w.small))
            (omega (arith, w.small, w.whole)) filled in
        let result : record t { skbs = update t.skbs p (some (mark_received skb')) } ≡ t' =
          ground arith in
        subst (Notifies t) result (record {
          queue = refl;
          rpdev = refl;
          numbers = λ q. elim (Bool-cases (q == p)) [
            | inl same ↦ ground arith
            | inr other ↦ ground arith
          ];
          came = λ q h. elim (Bool-cases (q == p)) [
            | inl same ↦ ground arith
            | inr other ↦ ground arith
          ];
          own = λ q b f. elim (Bool-cases (q == p)) [
            | inl same ↦ subst IsOwn (ground arith) own
            | inr other ↦ a q b (ground arith)
          ];
        })
  ]
