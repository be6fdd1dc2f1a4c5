-- ===== src/Net/Whole.antt =====
-- A message as icap_send_msg and icap_send_response of src/icap.c make it, and what it is read as.
use icap.Prelude.{
  ℕ, ◌+◌, ◌^◌, ◌<◌, ◌≤◌, ◌≡◌, refl, ap, ◌∙◌, ◌⊎◌, List, [], ◌∷◌, ◌++◌, arith, length, eq→==, ne→==,
  ◌==◌, ◌||◌, true, false,
}
use icap.Wire.{Bytes, MsgHeader, Msg, decode_msg, encode_msg, msg, ack, nak}
use icap.Wire.Message.{encode_msg-append, length-encode_msg}
use icap.Wire.RoundTrip.{decode_msg-encode_msg}
use icap.Core.{header_for}
use icap.Core.Deliver.{Carries}
use icap.Rpc.Received.{header_for-Carries}
use icap.Net.{Note, requests, responses}

-- A message as both sides send it, with what it was made of.
pub record IsWhole (m : Bytes) : Type 0 where
  pub seq_num : ℕ
  pub cmd : ℕ
  pub type : ℕ
  pub payload : Bytes
  pub content : m ≡ encode_msg (header_for seq_num cmd type (length payload)) payload
  pub seq_num_lt : seq_num < 2 ^ 32
  pub cmd_lt : cmd < 2 ^ 32
  pub kind : (type ≡ msg) ⊎ ((type ≡ ack) ⊎ (type ≡ nak))
  pub small : length payload ≤ 264

abbrev pub AllWhole : List Bytes → Type 0
AllWhole [] = Unit {0}
AllWhole (m ∷ ms) = IsWhole m × AllWhole ms

module _ (m : Bytes) (w : IsWhole m) where
  abbrev pub whole_header : MsgHeader
  whole_header = header_for w.seq_num w.cmd w.type (length w.payload)

  pub length-whole : length m ≡ 40 + length w.payload
  unfolding header_for
  length-whole = ap length w.content ∙ length-encode_msg whole_header w.payload refl

  pub whole-Carries : (rest : Bytes) → Carries whole_header w.payload rest (m ++ rest) (length m)
  whole-Carries rest =
      header_for-Carries w.seq_num w.cmd w.type w.payload rest
        (record { buffer = record { addr = 0; bytes = m ++ rest }; size = length m; src_addr = 0 })
        w.seq_num_lt w.cmd_lt (ground arith) w.small
        (
          ap (λ x. x ++ rest) w.content ∙ encode_msg-append whole_header w.payload rest,
          length-whole,
        )

  decoded_header : (decode_msg m).header ≡ whole_header
  decoded_header =
      ap (λ x. (decode_msg x).header) w.content
      ∙ ap (λ (x : Msg). x.header)
          (decode_msg-encode_msg whole_header w.payload (whole-Carries []).fits)

  abbrev whole_note : Note
  whole_note = record { seq_num = w.seq_num; cmd = w.cmd }

  pub requests-request : w.type ≡ msg → requests (m ∷ []) ≡ whole_note ∷ []
  unfolding requests header_for
  requests-request t = rw (decoded_header, eq→== w.type msg t) refl

  pub requests-response : (w.type ≡ ack) ⊎ (w.type ≡ nak) → requests (m ∷ []) ≡ []
  unfolding requests header_for
  requests-response t = rw (decoded_header, ne→== w.type msg (ground arith)) refl

  pub responses-response : (w.type ≡ ack) ⊎ (w.type ≡ nak) → responses (m ∷ []) ≡ whole_note ∷ []
  unfolding responses header_for
  responses-response t =
      let response : (w.type == ack || w.type == nak) ≡ true = ground arith in
      rw (decoded_header, response) refl

  pub responses-request : w.type ≡ msg → responses (m ∷ []) ≡ []
  unfolding responses header_for
  responses-request t =
      let response : (w.type == ack || w.type == nak) ≡ false = ground arith in
      rw (decoded_header, response) refl
