-- ===== src/Linux/Moves.antt =====
-- Each kind of move keeps the invariant of the Linux transport.
use icap.Prelude.{
  ℕ, suc, pos, ◌+◌, ◌≡◌, ◌∙◌, none, some, List, [], ◌∷◌, ◌++◌, true, ◌==◌, arith, Bool-cases, inl,
  inr,
}
use icap.Core.{Pointer}
use icap.Linux.Transport.{Heap, Skb, update, without}
use icap.Linux.System.{Pc, idle, numbered, prepared, woken}
use icap.Linux.Find.{listed-append, listed-without, seq_at}
use icap.Linux.Inv.{has_response, seq_of, ptr_of, ptr_of-seq_of, IsOwn, AllOwn, Inv, one_owner}

module _ {n : ℕ} {m : Heap} {l : List Pointer} {pc : ℕ → Pc} (v : Inv n m l pc) where
  -- The queue's buffers change, but not the numbers in their hints.
  pub heap-Inv :
      (m' : Heap)
      → ((p : Pointer) → seq_at (m' p) ≡ seq_at (m p))
      → ((p : Pointer) → has_response (m p) ≡ true → has_response (m' p) ≡ true)
      → AllOwn m'
      → Inv n m' l pc
  heap-Inv m' same more own = record {
    came = λ i x p left e. more p (v.came i x p left e);
    numbers = v.numbers;
    one_number = v.one_number;
    owns = λ i p e. ((v.owns i p e).0, same p ∙ (v.owns i p e).1);
    covered = v.covered;
    own = own;
  }

  module _ (i : ℕ) where
    -- A thread goes on, with its number and its buffer.
    pub goes_on-Inv :
        (c : Pc)
        → seq_of c ≡ seq_of (pc i)
        → ptr_of c ≡ ptr_of (pc i)
        → ((x : ℕ) (p : Pointer) (left : ℕ)
            → c ≡ woken x p (pos (suc left))
            → has_response (m p) ≡ true)
        → Inv n m l (update pc i c)
    goes_on-Inv c e f g = record {
      came = λ j x p left a. ground (arith, v.came j x p left, g x p left);
      numbers = λ j x a. ground (arith, v.numbers j x, v.numbers i x);
      one_number =
          λ j k x a b. ground (arith, v.one_number j k x, v.one_number i k x, v.one_number j i x);
      owns = λ j p a. ground (arith, v.owns j p, v.owns i p);
      covered = λ p h. let (j, o) = v.covered p h in (j, ground arith);
      own = v.own;
    }

    -- A thread takes the next number.
    pub number-Inv : pc i ≡ idle → Inv (n + 1) m l (update pc i (numbered (n + 1)))
    number-Inv e = record {
      came = λ j x p left a. ground (arith, v.came j x p left);
      numbers = λ j x a. ground (arith, v.numbers j x);
      one_number = λ j k x a b. ground (arith, v.one_number j k x, v.numbers j x, v.numbers k x);
      owns = λ j p a. ground (arith, v.owns j p);
      covered = λ p h. let (j, o) = v.covered p h in (j, ground arith);
      own = v.own;
    }

    -- A thread that owns no buffer returns.
    pub leave-Inv : ptr_of (pc i) ≡ none → Inv n m l (update pc i idle)
    leave-Inv e = record {
      came = λ j x p left a. ground (arith, v.came j x p left);
      numbers = λ j x a. ground (arith, v.numbers j x);
      one_number = λ j k x a b. ground (arith, v.one_number j k x);
      owns = λ j p a. ground (arith, v.owns j p);
      covered = λ p h. let (j, o) = v.covered p h in (j, ground arith);
      own = v.own;
    }

    -- A thread queues a new buffer.
    pub prepare-Inv :
        (x : ℕ) (p : Pointer) (skb : Skb)
        → pc i ≡ numbered x
        → m p ≡ none
        → skb.hint.seq_num ≡ x
        → IsOwn skb
        → Inv n (update m p (some skb)) (l ++ (p ∷ [])) (update pc i (prepared x p))
    prepare-Inv x p skb e f s own = record {
      came = λ j y q left a. elim (Bool-cases (q == p)) [
        | inl h ↦ ground (arith, v.came j y q left)
        | inr h ↦ ground (arith, v.came j y q left)
      ];
      numbers = λ j y a. ground (arith, v.numbers j y, v.numbers i y);
      one_number =
          λ j k y a b. ground (arith, v.one_number j k y, v.one_number i k y, v.one_number j i y);
      owns = λ j q a. elim (Bool-cases (j == i)) [
        | inl h ↦ ground (arith, listed-append q p l)
        | inr h ↦
            let o : ptr_of (pc j) ≡ some q = ground arith in
            let (y, g) = ptr_of-seq_of (pc j) q o in
            ground (arith, listed-append q p l, v.owns j q o)
      ];
      covered = λ q h. elim (Bool-cases (p == q)) [
        | inl g ↦ (i, ground arith)
        | inr g ↦
            let (j, o) = v.covered q (ground (arith, listed-append q p l)) in (j, ground arith)
      ];
      own = λ q b a. elim (Bool-cases (q == p)) [
        | inl g ↦ ground arith
        | inr g ↦ v.own q b (ground arith)
      ];
    }

    -- A thread frees its buffer and returns.
    pub finish-Inv :
        (p : Pointer)
        → ptr_of (pc i) ≡ some p
        → Inv n (update m p none) (without p l) (update pc i idle)
    finish-Inv p e = record {
      came = λ j x q left a. ground (arith, v.came j x q left, one_owner v i j p);
      numbers = λ j x a. ground (arith, v.numbers j x);
      one_number = λ j k x a b. ground (arith, v.one_number j k x);
      owns = λ j q a. ground (arith, listed-without q p l, v.owns j q, one_owner v i j p);
      covered = λ q h.
          let (j, o) = v.covered q (ground (arith, listed-without q p l)) in
          (j, ground (arith, listed-without q p l));
      own = λ q b a. v.own q b (ground arith);
    }
