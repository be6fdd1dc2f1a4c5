-- ===== src/Linux/Find.antt =====
-- The queue as a set of buffers, and what `_find_seq_num` of
-- src/platform/icap_linux_kernel_rpmsg.c finds in it.
use icap.Prelude.{
  ℕ, ◌≡◌, ◌≢◌, refl, ◌⊎◌, inl, inr, Option, none, some, List, [], ◌∷◌, ◌++◌, Bool, true, false,
  ◌||◌, ◌==◌, if◌then◌else◌, arith, returns, Bool-cases, Option-cases,
}
use icap.Core.{Pointer}
use icap.Linux.Transport.{Heap, Skb, without}
use icap.Linux.Respond.{find_seq_num}

abbrev pub listed : Pointer → List Pointer → Bool
listed p [] = false
listed p (q ∷ qs) = if q == p then true else listed p qs

pub listed-append :
    (p q : Pointer) (l : List Pointer) → listed p (l ++ (q ∷ [])) ≡ (listed p l || q == p)
listed-append p q [] = ground arith
listed-append p q (r ∷ l) = ground (arith, listed-append p q l)

pub listed-without :
    (p q : Pointer) (l : List Pointer)
    → listed p (without q l) ≡ (if p == q then false else listed p l)
listed-without p q [] = ground arith
listed-without p q (r ∷ l) = ground (arith, listed-without p q l)

-- The number that the hint of a buffer holds.
abbrev pub seq_at : Option Skb → Option ℕ
seq_at none = none
seq_at (some skb) = some skb.hint.seq_num

module _ (m : Heap) (x : ℕ) where
  abbrev pub IsFound : List Pointer → Pointer → Type 0
  IsFound l p =
      (find_seq_num m l x ≡ returns (some p)) × (listed p l ≡ true) × (seq_at (m p) ≡ some x)

  abbrev pub IsAbsent : List Pointer → Type 0
  IsAbsent l =
      (find_seq_num m l x ≡ returns none)
      × ((p : Pointer) → listed p l ≡ true → seq_at (m p) ≢ some x)

  -- With every queued buffer allocated, the search finds a buffer with the number, or there is none.
  pub find_seq_num-cases :
      (l : List Pointer)
      → ((p : Pointer) → listed p l ≡ true → m p ≢ none)
      → IsAbsent l ⊎ ((p : Pointer) × IsFound l p)
  unfolding find_seq_num
  find_seq_num-cases [] alive = inl (refl, λ p e. cc)
  find_seq_num-cases (q ∷ qs) alive = elim (Option-cases (m q)) [
    | inl e ↦ absurd (alive q (ground arith) e)
    | inr (skb, e) ↦ elim (Bool-cases (skb.hint.seq_num == x)) [
      | inl a ↦ inr (q, (ground arith, ground arith, ground arith))
      | inr a ↦ elim (find_seq_num-cases qs (λ p h. alive p (ground arith))) [
        | inl (none_found, others) ↦ inl (
          ground arith,
          λ p h. elim (Bool-cases (q == p)) [
            | inl b ↦ ground arith
            | inr b ↦ others p (ground arith)
          ],
        )
        | inr (p, (found, in_list, numbered)) ↦ inr (p, (ground arith, ground arith, numbered))
      ]
    ]
  ]
