-- ===== src/Net/Inv.antt =====
-- What holds of an application and a device whatever order their steps came in.
use icap.Prelude.{
  ℕ, zero, suc, ◌≡◌, refl, sym, ap, ap₂, subst, ◌∙◌, inl, inr, List, [], ◌∷◌, ◌++◌, append-nil,
  ◌==◌, ◌||◌, Bool-cases,
}
use icap.Wire.{Bytes, decode_msg, msg, ack, nak}
use icap.Core.{State}
use icap.BareMetal.Transport.{Transport}
use icap.Net.{Note, sent_in, requests, responses}
use icap.Net.Whole.{IsWhole, AllWhole}
use icap.Net.Takes.{Takes}

pub requests-append : (xs ys : List Bytes) → requests (xs ++ ys) ≡ requests xs ++ requests ys
unfolding requests
requests-append [] ys = refl
requests-append (m ∷ xs) ys = elim (Bool-cases ((decode_msg m).header.type == msg)) [
  | inl b ↦ rw (b, requests-append xs ys) refl
  | inr b ↦ rw (b, requests-append xs ys) refl
]

pub responses-append : (xs ys : List Bytes) → responses (xs ++ ys) ≡ responses xs ++ responses ys
unfolding responses
responses-append [] ys = refl
responses-append (m ∷ xs) ys =
    let type = (decode_msg m).header.type in
    elim (Bool-cases (type == ack || type == nak)) [
      | inl b ↦ rw (b, responses-append xs ys) refl
      | inr b ↦ rw (b, responses-append xs ys) refl
    ]

pub AllWhole-append : (xs ys : List Bytes) → AllWhole xs → AllWhole ys → AllWhole (xs ++ ys)
AllWhole-append [] ys h k = k
AllWhole-append (m ∷ xs) ys h k = (h.0, AllWhole-append xs ys h.1 k)

pub AllWhole-next :
    (xs : List Bytes) (m : Bytes) (ys : List Bytes) → AllWhole (xs ++ (m ∷ ys)) → IsWhole m
AllWhole-next [] m ys h = h.0
AllWhole-next (x ∷ xs) m ys h = AllWhole-next xs m ys h.1

abbrev pub numbers : List Note → List ℕ
numbers [] = []
numbers (x ∷ xs) = x.seq_num ∷ numbers xs

pub numbers-append : (xs ys : List Note) → numbers (xs ++ ys) ≡ numbers xs ++ numbers ys
numbers-append [] ys = refl
numbers-append (x ∷ xs) ys = ap (λ l. x.seq_num ∷ l) (numbers-append xs ys)

-- 1, 2, …, n
abbrev pub upto : ℕ → List ℕ
upto zero = []
upto (suc n) = upto n ++ (suc n ∷ [])

-- A core that has handled these messages: what it sent is whole, its requests are numbered from 1 to
-- its counter, and its responses are those to the requests that it has handled.
pub record Stands (s : State Transport) (handled : List Bytes) : Type 0 where
  pub whole : AllWhole (sent_in s.history)
  pub numbered : numbers (requests (sent_in s.history)) ≡ upto s.icap.seq_num
  pub answered : responses (sent_in s.history) ≡ requests handled

pub Takes-Stands :
    (m : Bytes) (handled : List Bytes) (s s' : State Transport)
    → Stands s handled
    → Takes m s s'
    → Stands s' (handled ++ (m ∷ []))
Takes-Stands m handled s s' v t =
    let old = sent_in s.history in
    record {
      whole = subst AllWhole (sym t.sends) (AllWhole-append old t.new v.whole t.whole);
      numbered =
          ap (λ x. numbers (requests x)) t.sends
          ∙ ap numbers (
              requests-append old t.new
              ∙ ap (λ x. requests old ++ x) t.asks_none
              ∙ append-nil (requests old))
          ∙ v.numbered
          ∙ ap upto (sym t.seq_num);
      answered =
          ap responses t.sends
          ∙ responses-append old t.new
          ∙ ap₂ (λ x y. x ++ y) v.answered t.answers
          ∙ sym (requests-append handled (m ∷ []));
    }
