-- ===== src/Net/Asks.antt =====
-- What a call that sends leaves of the invariant of a core.
use icap.Prelude.{
  returns-inj, suc, ℤ, ◌+◌, ◌%◌, ◌^◌, ◌<◌, ◌≤◌, ◌≡◌, refl, sym, ap, ◌∙◌, ◌⊎◌, inl, inr, [], ◌∷◌,
  ◌++◌, arith, length, returns, append-nil, List, false, Bool-cases, ltb, neg,
}
use icap.Wire.{Bytes, Cmd, code, msg, encode_msg, error_msg_len}
use icap.Core.{State, header_for}
use icap.Core.Request.{Waiter, send_only, send_msg}
use icap.BareMetal.Transport.{Transport, Platform}
use icap.BareMetal.Loop.{link}
use icap.BareMetal.Sends.{request_header, sends}
use icap.Rpc.Received.{code-lt}
use icap.Rpc.Report.Answered.{send_only-sends}
use icap.Net.{sent_in, requests, responses}
use icap.Net.Whole.{IsWhole, requests-request, responses-request}
use icap.Net.Inv.{
  Stands, requests-append, responses-append, AllWhole-append, numbers, numbers-append, upto,
}

module _ (p : Platform) (w : Waiter Transport) where
  -- More than a payload is refused, and anything else is sent.
  pub send_only-cases :
      (c : Cmd) (args : Bytes) (ret : ℤ) (s s' : State Transport)
      → send_only (link p) w c args (length args) false s ≡ returns (ret, s')
      → (s' ≡ s) ⊎ ((length args ≤ 264) × (s' ≡ sends c args s))
  unfolding send_only send_msg
  send_only-cases c args ret s s' e = elim (Bool-cases (ltb 264 (length args))) [
    | inl b ↦
        let refused : send_only (link p) w c args (length args) false s
            ≡ returns (neg error_msg_len, s) =
          rw b refl in
        inl (ap (λ (x : ℤ × State Transport). x.1) (returns-inj (sym e ∙ refused)))
    | inr b ↦
        let l : length args ≤ 264 = ground arith in
        let sent = send_only-sends p w c args s l in
        inr (l, ap (λ (x : ℤ × State Transport). x.1) (returns-inj (sym e ∙ sent)))
  ]

pub sends-Stands :
    (c : Cmd) (args : Bytes) (s : State Transport) (handled : List Bytes)
    → length args ≤ 264
    → s.icap.seq_num + 1 < 2 ^ 32
    → Stands s handled
    → Stands (sends c args s) handled
unfolding sent_in header_for
sends-Stands c args s handled l k v =
    let old = sent_in s.history in
    let next = (s.icap.seq_num + 1) % 2 ^ 32 in
    let m = encode_msg (request_header c args s) args in
    let whole : IsWhole m = record {
      seq_num = next;
      cmd = code c;
      type = msg;
      payload = args;
      content = refl;
      seq_num_lt = omega arith;
      cmd_lt = code-lt c;
      kind = inl refl;
      small = l;
    } in
    let counted : next ≡ suc s.icap.seq_num = omega arith in
    record {
      whole = AllWhole-append old (m ∷ []) v.whole (whole, tt);
      numbered =
          ap numbers (requests-append old (m ∷ []))
          ∙ numbers-append (requests old) (requests (m ∷ []))
          ∙ ap (λ x. numbers (requests old) ++ numbers x) (requests-request m whole refl)
          ∙ ap (λ x. x ++ (next ∷ [])) v.numbered
          ∙ ap (λ x. upto s.icap.seq_num ++ (x ∷ [])) counted
          ∙ ap upto (sym counted);
      answered =
          responses-append old (m ∷ [])
          ∙ ap (λ x. responses old ++ x) (responses-request m whole refl)
          ∙ append-nil (responses old)
          ∙ v.answered;
    }
