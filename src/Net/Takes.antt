-- ===== src/Net/Takes.antt =====
-- What handling a message does to a core: a request is answered once, a response not at all.
use icap.Prelude.{
  ℕ, ◌≤◌, ◌≡◌, refl, sym, ap, ◌∙◌, ◌⊎◌, inr, List, [], ◌∷◌, ◌++◌, arith, length, length-drop, drop,
  append-nil, length-append,
}
use icap.Wire.{Bytes, Msg, encode_msg, msg, ack, nak}
use icap.Wire.Message.{length-encode_msg}
use icap.Wire.RoundTrip.{decode_msg-encode_msg}
use icap.Core.{State, History, header_for}
use icap.Core.Verdict.{
  Verdict, unknown, default, accepted, refused, reply_header, payload_of, type_of, calls_of,
}
use icap.BareMetal.Transport.{Transport}
use icap.BareMetal.Deliver.{with_response}
use icap.Rpc.Client.{type_of-response}
use icap.Rpc.Server.{answered}
use icap.Net.{note_of, sent_in, requests, responses}
use icap.Net.Whole.{
  IsWhole, AllWhole, whole_header, length-whole, whole-Carries, requests-request, requests-response,
  responses-response,
}

-- What handling a message does to a core.
pub record Takes (m : Bytes) (s s' : State Transport) : Type 0 where
  pub new : List Bytes
  pub sends : sent_in s'.history ≡ sent_in s.history ++ new
  pub whole : AllWhole new
  pub answers : responses new ≡ requests (m ∷ [])
  pub asks_none : requests new ≡ []
  pub seq_num : s'.icap.seq_num ≡ s.icap.seq_num
  pub callbacks : s'.icap.callbacks ≡ s.icap.callbacks
  pub type : s'.icap.type ≡ s.icap.type
  pub peer : s'.icap.transport.remote_addr ≡ s.icap.transport.remote_addr
  pub room : length s'.icap.transport.last_response ≡ length s.icap.transport.last_response

-- Whether `last_response` holds the message now.
abbrev pub Latest : Bytes → State Transport → State Transport → Type 0
Latest m s s' =
    ((s'.icap.transport.last_response ≡ s.icap.transport.last_response) × (responses (m ∷ []) ≡ []))
    ⊎ (responses (m ∷ []) ≡ note_of s'.icap.transport.last_response ∷ [])

sent_in-calls_of : (v : Verdict) (h : History) → sent_in (calls_of v ++ h) ≡ sent_in h
unfolding sent_in
sent_in-calls_of unknown h = refl
sent_in-calls_of (default value) h = refl
sent_in-calls_of (accepted c value) h = refl
sent_in-calls_of (refused c error) h = refl

-- A request is answered once, with its number and command.
pub answered-Takes :
    (m : Bytes) (w : IsWhole m) (src : ℕ) (v : Verdict) (s : State Transport)
    → w.type ≡ msg
    → length (payload_of v) ≤ 264
    → Takes m s (answered src (whole_header m w) v s)
unfolding sent_in header_for
answered-Takes m w src v s t l =
    let reply = encode_msg (reply_header (whole_header m w) v) (payload_of v) in
    let whole : IsWhole reply = record {
      seq_num = w.seq_num;
      cmd = w.cmd;
      type = type_of v;
      payload = payload_of v;
      content = refl;
      seq_num_lt = w.seq_num_lt;
      cmd_lt = w.cmd_lt;
      kind = inr (type_of-response v);
      small = l;
    } in
    record {
      new = reply ∷ [];
      sends = ap (λ x. x ++ (reply ∷ [])) (sent_in-calls_of v s.history);
      whole = (whole, tt);
      answers = responses-response reply whole (type_of-response v) ∙ sym (requests-request m w t);
      asks_none = requests-response reply whole (type_of-response v);
      seq_num = refl;
      callbacks = refl;
      type = refl;
      peer = refl;
      room = refl;
    }

pub response-Takes :
    (m : Bytes) (w : IsWhole m) (s s' : State Transport)
    → (w.type ≡ ack) ⊎ (w.type ≡ nak)
    → s'.icap ≡ s.icap
    → sent_in s'.history ≡ sent_in s.history
    → Takes m s s'
unfolding responses requests
response-Takes m w s s' t e f = record {
  new = [];
  sends = f ∙ sym (append-nil (sent_in s.history));
  whole = tt;
  answers = sym (requests-response m w t);
  asks_none = refl;
  seq_num = ap (λ x. x.seq_num) e;
  callbacks = ap (λ x. x.callbacks) e;
  type = ap (λ x. x.type) e;
  peer = ap (λ x. x.transport.remote_addr) e;
  room = ap (λ x. length x.transport.last_response) e;
}

-- A response is copied to `last_response`.
pub copied-Takes :
    (m : Bytes) (w : IsWhole m) (s : State Transport)
    → (w.type ≡ ack) ⊎ (w.type ≡ nak)
    → length m ≤ length s.icap.transport.last_response
    → Takes m s (with_response (whole_header m w) w.payload (length m) s)
unfolding responses requests header_for
copied-Takes m w s t l =
    let h = whole_header m w in
    let last = s.icap.transport.last_response in
    let behind = drop (length m) last in
    let content = encode_msg h (w.payload ++ behind) in
    record {
      new = [];
      sends = sym (append-nil (sent_in s.history));
      whole = tt;
      answers = sym (requests-response m w t);
      asks_none = refl;
      seq_num = refl;
      callbacks = refl;
      type = refl;
      peer = refl;
      room = omega (
        arith,
        length-encode_msg h (w.payload ++ behind) refl,
        length-append w.payload behind,
        length-drop (length m) last,
        length-whole m w,
      );
    }

pub copied-Latest :
    (m : Bytes) (w : IsWhole m) (s : State Transport)
    → (w.type ≡ ack) ⊎ (w.type ≡ nak)
    → responses (m ∷ [])
      ≡ note_of
          (with_response (whole_header m w) w.payload (length m) s).icap.transport.last_response
        ∷ []
unfolding header_for
copied-Latest m w s t =
    let behind = drop (length m) s.icap.transport.last_response in
    responses-response m w t
    ∙ ap (λ (x : Msg). record { seq_num = x.header.seq_num; cmd = x.header.cmd } ∷ [])
        (sym (
          decode_msg-encode_msg (whole_header m w) (w.payload ++ behind)
            (whole-Carries m w []).fits))
