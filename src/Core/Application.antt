-- ===== src/Core/Application.antt =====
-- `icap_application_parse_response` and `icap_application_parse_msg` of src/icap.c.
use icap.Prelude.{
  ℕ, ℤ, pos, neg, is_zero, Bool, true, false, Option, none, some, if◌then◌else◌, Run, ◌>>=◌,
  returns,
}
use icap.Wire.{
  Bytes, BufFrags, MsgHeader, Msg, Cmd, cmd_of, decode_frags, encode_u32, u32_at, error_msg_id,
}
use icap.Prelude.{to_s32}
use icap.Core.Model.{
  ApplicationCallbacks, Callback, History, Call, Event, State, Link, record_event, set_transport,
}
use icap.Core.Reply.{send_ack, send_nak}

-- A call through a callback pointer that was found not to be NULL.
abbrev pub call : {T A : Type 0} → (A → History → ℤ) → A → Call → State T → ℤ × State T
call f a c s = (f a s.history, record_event (Event.called c) s)

module _ {T : Type 0} (link : Link T) where
  unfoldable pub application_parse_response : Bytes → State T → Run (ℤ × State T)
  application_parse_response msg s =
      link.response_notify s.icap.transport msg >>= λ (ret, t). returns (ret, set_transport t s)

  -- `icap_send_ack(icap, cmd, seq_num, &word, sizeof(word))`, its result dropped.
  abbrev pub ack_word : MsgHeader → ℕ → State T → State T
  ack_word header word s = (send_ack link header.cmd header.seq_num (some (encode_u32 word)) 4 s).1

  -- The two commands about fragments: the acknowledgement carries the buffer's id.
  unfoldable pub fragments_case :
      Callback BufFrags → (BufFrags → Call) → Msg → State T → ℤ × Bool × State T
  unfolding decode_frags send_ack
  fragments_case none c msg s =
      (pos 0, false, ack_word msg.header (decode_frags msg.payload).buf_id s)
  fragments_case (some f) c msg s =
      let frags = decode_frags msg.payload in
      let (ret, s') = call f frags (c frags) s in
      if is_zero ret then (ret, false, ack_word msg.header frags.buf_id s') else (ret, true, s')

  -- The `switch`: `ret`, `send_generic_ack`, and the state behind it.
  unfoldable pub application_switch :
      Option Cmd → ApplicationCallbacks → Msg → State T → ℤ × Bool × State T
  unfolding fragments_case
  application_switch (some Cmd.frag_ready) cb msg s =
      fragments_case cb.frag_ready Call.frag_ready msg s
  application_switch (some Cmd.xrun) cb msg s = fragments_case cb.xrun Call.xrun msg s
  application_switch (some Cmd.error) cb msg s =
      let code = to_s32 (u32_at msg.payload 0) in
      elim cb.error [
        | none ↦ (pos 0, true, s)
        | some f ↦ let (ret, s') = call f code (Call.error code) s in (ret, true, s')
      ]
  application_switch _ cb msg s = (neg error_msg_id, true, s)

  -- The end of both `parse_msg` functions: `if (send_generic_ack)`.
  unfoldable pub generic_ack : MsgHeader → ℤ × Bool × State T → State T
  unfolding send_ack send_nak
  generic_ack header (ret, false, s) = s
  generic_ack header (ret, true, s) =
      if is_zero ret
      then (send_ack link header.cmd header.seq_num none 0 s).1
      else (send_nak link header.cmd header.seq_num ret s).1

  unfoldable pub application_parse_msg : ApplicationCallbacks → Msg → State T → ℤ × State T
  unfolding application_switch generic_ack
  application_parse_msg cb msg s =
      (pos 0, generic_ack msg.header (application_switch (cmd_of msg.header.cmd) cb msg s))
