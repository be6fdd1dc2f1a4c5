-- ===== src/Linux/Inv.antt =====
-- What holds of the threads and the response queue of the Linux transport at every moment: each
-- thread between `icap_prepare_wait` and the end of `icap_wait_for_response` owns one queued buffer.
use icap.Prelude.{
  ℕ, suc, ◌≤◌, ◌≡◌, ◌≢◌, refl, sym, ◌∙◌, inl, inr, Option, none, some, List, [], Bool, true, false,
  not, pos, ◌==◌, arith, length, returns,
}
use icap.Wire.{u32_at, msg_size, header_size}
use icap.Core.{Pointer}
use icap.Linux.Transport.{Heap, Skb}
use icap.Linux.Respond.{find_seq_num}
use icap.Linux.System.{Pc, idle, numbered, prepared, sleeping, woken}
use icap.Linux.Find.{listed, seq_at, find_seq_num-cases}

abbrev pub seq_of : Pc → Option ℕ
seq_of idle = none
seq_of (numbered x) = some x
seq_of (prepared x p) = some x
seq_of (sleeping x p) = some x
seq_of (woken x p timeout) = some x

abbrev pub ptr_of : Pc → Option Pointer
ptr_of idle = none
ptr_of (numbered x) = none
ptr_of (prepared x p) = some p
ptr_of (sleeping x p) = some p
ptr_of (woken x p timeout) = some p

pub ptr_of-seq_of : (c : Pc) (p : Pointer) → ptr_of c ≡ some p → (x : ℕ) × (seq_of c ≡ some x)
ptr_of-seq_of idle p e = absurd (cc)
ptr_of-seq_of (numbered x) p e = absurd (cc)
ptr_of-seq_of (prepared x q) p e = (x, refl)
ptr_of-seq_of (sleeping x q) p e = (x, refl)
ptr_of-seq_of (woken x q timeout) p e = (x, refl)

-- A buffer has room for a whole `struct icap_msg`. It is empty until a response has come, and then
-- starts with a response of its own number.
pub record IsOwn (skb : Skb) : Type 0 where
  pub room : msg_size ≤ length skb.memory
  pub used : skb.len ≤ length skb.memory
  pub waiting : skb.hint.received ≡ 0 → skb.len ≡ 0
  pub answered :
      skb.hint.received ≢ 0 → (header_size ≤ skb.len) × (u32_at skb.memory 4 ≡ skb.hint.seq_num)

abbrev pub has_response : Option Skb → Bool
has_response none = false
has_response (some skb) = not (skb.hint.received == 0)

abbrev pub AllOwn : Heap → Type 0
AllOwn m = (p : Pointer) (skb : Skb) → m p ≡ some skb → IsOwn skb

pub record Inv (n : ℕ) (m : Heap) (l : List Pointer) (pc : ℕ → Pc) : Type 0 where
  pub numbers : (i x : ℕ) → seq_of (pc i) ≡ some x → x ≤ n
  pub one_number : (i j x : ℕ) → seq_of (pc i) ≡ some x → seq_of (pc j) ≡ some x → i ≡ j
  pub owns :
      (i : ℕ) (p : Pointer)
      → ptr_of (pc i) ≡ some p
      → (listed p l ≡ true) × (seq_at (m p) ≡ seq_of (pc i))
  pub covered : (p : Pointer) → listed p l ≡ true → (i : ℕ) × (ptr_of (pc i) ≡ some p)
  pub own : AllOwn m
  pub came :
      (i x : ℕ) (p : Pointer) (left : ℕ)
      → pc i ≡ woken x p (pos (suc left))
      → has_response (m p) ≡ true

pub Inv-init : Inv 0 (λ p. none) [] (λ i. idle)
Inv-init = record {
  numbers = λ i x e. cc;
  one_number = λ i j x e f. cc;
  owns = λ i p e. cc;
  covered = λ p e. cc;
  own = λ p skb e. cc;
  came = λ i x p left e. cc;
}

module _ {n : ℕ} {m : Heap} {l : List Pointer} {pc : ℕ → Pc} (v : Inv n m l pc) where
  pub alive : (p : Pointer) → listed p l ≡ true → m p ≢ none
  alive p h e =
      let (i, o) = v.covered p h in
      let (x, f) = ptr_of-seq_of (pc i) p o in ground (arith, v.owns i p o)

  pub one_owner : (i j : ℕ) (p : Pointer) → ptr_of (pc i) ≡ some p → ptr_of (pc j) ≡ some p → i ≡ j
  one_owner i j p a b =
      let (x, e) = ptr_of-seq_of (pc i) p a in
      v.one_number i j x e (sym (v.owns j p b).1 ∙ (v.owns i p a).1 ∙ e)

  -- A thread finds its own buffer.
  pub find-own :
      (i x : ℕ) (p : Pointer)
      → ptr_of (pc i) ≡ some p
      → seq_of (pc i) ≡ some x
      → find_seq_num m l x ≡ returns (some p)
  find-own i x p a b = elim (find_seq_num-cases m x l alive) [
    | inl (absent, others) ↦ absurd (others p (v.owns i p a).0 ((v.owns i p a).1 ∙ b))
    | inr (q, (found, in_list, its)) ↦
        let (j, c) = v.covered q in_list in
        let same : i ≡ j = v.one_number i j x b (sym (v.owns j q c).1 ∙ its) in ground arith
  ]
