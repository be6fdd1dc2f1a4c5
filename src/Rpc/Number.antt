-- ===== src/Rpc/Number.antt =====
-- Calls whose response carries a number: `icap_get_subdevices`, `icap_add_src` and `icap_add_dst` of
-- src/icap.c, over bare metal.
use icap.Prelude.{
  ℕ, suc, ℤ, pos, negsuc, neg, is_nonneg, not, ◌≤◌, ◌≡◌, ap, ◌∙◌, Option, none, some, [], ◌∷◌, ◌++◌,
  arith, length, drop, returns, ◌>>=◌, true, IsInt32, to_s32, to_u32, to_u32-lt, to_s32-to_u32,
  if◌then◌else◌, ◌==◌, Run,
}
use icap.Wire.{
  Bytes, MsgHeader, Cmd, code, SubdeviceFeatures, encode_u32, u32_at, put_u32, get_u32-put_u32, Msg,
  encode_msg, error_msg_len,
}
use icap.Wire.RoundTrip.{HeaderFits, decode_msg-encode_msg}
use icap.Core.{
  ApplicationCallbacks, DeviceCallbacks, State, History, Call, header_for, Event, parse_msg,
}
use icap.Core.Verdict.{
  Verdict, default, accepted, refused, ask_number, payload_of, reply_header, outcome,
  device_verdict, calls_of,
}
use icap.Core.Request.{exchange, send_msg, word_of_response, get_subdevices}
use icap.BareMetal.Transport.{Transport, Platform, RemoteMsg}
use icap.BareMetal.Loop.{link}
use icap.BareMetal.Wait.{waiter}
use icap.BareMetal.Await.{IsClient}
use icap.BareMetal.Copied.{received_in}
use icap.BareMetal.Sends.{request_header, waits_in}
use icap.Rpc.Received.{Received}
use icap.Rpc.Server.{IsServer, parse_msg-request}
use icap.Rpc.Kept.{exchange-kept, reply_header-HeaderFits}
use icap.Rpc.Client.{outcome-verdict}

-- The number that a callback returns; a device without the callback sends none.
abbrev pub number_of : Option (History → ℤ) → History → ℤ
number_of none h = neg error_msg_len
number_of (some f) h = f h

-- What such a call makes of a whole response.
abbrev word_in : Msg → ℤ
word_in m =
    if not (m.header.payload_len == 4) then neg error_msg_len else to_s32 (u32_at m.payload 0)

-- The verdict of a callback that returned a number.
abbrev number_verdict : Call → ℤ → Verdict
number_verdict cl r = if is_nonneg r then accepted cl (encode_u32 (to_u32 r)) else refused cl r

-- The result of such a call for a verdict.
abbrev word_result : MsgHeader → Verdict → ℕ → Bytes → Bytes → ℤ
word_result rh v size tail stack =
    word_of_response (outcome (reply_header rh v) (payload_of v ++ tail))
      (some (received_in (reply_header rh v) (payload_of v) size stack))

word_result-number :
    (rh : MsgHeader) (cl : Call) (r : ℤ) (size : ℕ) (tail stack : Bytes)
    → IsInt32 r
    → HeaderFits (reply_header rh (number_verdict cl r))
    → word_result rh (number_verdict cl r) size tail stack ≡ r
unfolding header_for encode_u32 put_u32 u32_at
word_result-number rh cl (pos n) size tail stack i f =
    let h = reply_header rh (accepted cl (encode_u32 (to_u32 (pos n)))) in
    let payload = encode_u32 (to_u32 (pos n)) ++ drop size stack in
    ap word_in (decode_msg-encode_msg h payload f)
    ∙ ap to_s32 (get_u32-put_u32 (to_u32 (pos n)) (drop size stack) (to_u32-lt (pos n)))
    ∙ to_s32-to_u32 (pos n) i
word_result-number rh cl (negsuc n) size tail stack i f =
    ap
      (λ x. word_of_response x (
        some (
          received_in (reply_header rh (refused cl (negsuc n))) (encode_u32 (to_u32 (negsuc n)))
            size stack)))
      (outcome-verdict rh (refused cl (negsuc n)) tail i)

word_result-default :
    (rh : MsgHeader) (size : ℕ) (tail stack : Bytes)
    → HeaderFits (reply_header rh (default []))
    → word_result rh (default []) size tail stack ≡ neg error_msg_len
unfolding header_for
word_result-default rh size tail stack f =
    ap word_in (decode_msg-encode_msg (reply_header rh (default [])) (drop size stack) f)

word_result-ask_number :
    (rh : MsgHeader) (o : Option (History → ℤ)) (cl : Call) (hist : History) (size : ℕ)
    (tail stack : Bytes)
    → IsInt32 (number_of o hist)
    → HeaderFits (reply_header rh (ask_number o cl hist))
    → word_result rh (ask_number o cl hist) size tail stack ≡ number_of o hist
word_result-ask_number rh (some g) cl hist size tail stack i f =
    word_result-number rh cl (g hist) size tail stack i f
word_result-ask_number rh none cl hist size tail stack i f =
    word_result-default rh size tail stack f

number_verdict-small : (cl : Call) (r : ℤ) → length (payload_of (number_verdict cl r)) ≤ 4
unfolding encode_u32 put_u32
number_verdict-small cl (pos n) = omega arith
number_verdict-small cl (negsuc n) = omega arith

ask_number-small :
    (o : Option (History → ℤ)) (cl : Call) (h : History)
    → length (payload_of (ask_number o cl h)) ≤ 4
ask_number-small none cl h = omega arith
ask_number-small (some g) cl h = number_verdict-small cl (g h)

-- What a call that returns a number makes of the exchange.
abbrev pub number_from : {T : Type 0} → Run (ℤ × Option Bytes × State T) → Run (ℤ × State T)
number_from r = r >>= λ (ret, response, t). returns (word_of_response ret response, t)

module _ (p : Platform) (u : SubdeviceFeatures) where
  -- A call that keeps the response returns the number that the device's callback returned.
  pub exchange-number :
      (c : Cmd) (args rest stack : Bytes) (cb : ApplicationCallbacks) (o : Option (History → ℤ))
      (cl : Call) (hist : History) (s : State Transport) (m : RemoteMsg) (n : ℕ)
      → IsClient cb m.src_addr s
      → IsInt32 (number_of o hist)
      → length stack ≡ 304
      → let v = ask_number o cl hist in
        Received (reply_header (request_header c args s) v) (payload_of v) rest m
        → m.size ≤ length s.icap.transport.last_response
        → p.arrivals (waits_in p c args s).history ≡ m ∷ []
        → (s' : State Transport) × (number_from (
              exchange
                (link p)
                (waiter p u (suc n))
                (code c)
                args
                (length args)
                true
                (some stack)
                s)
            ≡ returns (number_of o hist, s'))
  exchange-number c args rest stack cb o cl hist s m n k i room r fits a =
      let v = ask_number o cl hist in
      let rh = request_header c args s in
      let small = ask_number-small o cl hist in
      let (s', e) =
        exchange-kept p u c args rest stack cb v s m n k (omega (arith, small)) room r fits a in
      (
        s',
        ap number_from e
            ∙ ap (λ x. returns (x, s'))
                (word_result-ask_number rh o cl hist m.size
                  (drop m.size s.icap.transport.last_response) stack i
                  (reply_header-HeaderFits c args s v (omega (arith, small)))),
      )

module _ (p q : Platform) (u w : SubdeviceFeatures) (app : ApplicationCallbacks)
    (dev : DeviceCallbacks) (s d : State Transport) (m₁ m₂ : RemoteMsg) (n : ℕ)
    (rest₁ rest₂ stack : Bytes) where
  -- icap_get_subdevices as a remote function call over bare metal, response kept. An application
  -- that has nothing waiting and knows its peer calls it; the peer is a device that knows the
  -- sender. If the device receives the request as it was sent, and the application receives, as
  -- the only message before the first round of its wait, the response that the device's callback
  -- calls for, with a number that is an int32_t and room for the response, then the device's
  -- icap_parse_msg returns 0 after calling the callback, if it is set, and sending exactly that
  -- response; the application returns what the callback returned, the number of subdevices or a
  -- negative error, and -ICAP_ERROR_MSG_LEN when the device has no such callback.
  pub get_subdevices-remote :
      let rh = request_header Cmd.get_dev_num [] s in
      let v = ask_number dev.get_subdevices Call.get_subdevices d.history in
      IsClient app m₂.src_addr s
      → IsServer dev m₁.src_addr d
      → Received rh [] rest₁ m₁
      → Received (reply_header rh v) (payload_of v) rest₂ m₂
      → IsInt32 (number_of dev.get_subdevices d.history)
      → length stack ≡ 304
      → m₂.size ≤ length s.icap.transport.last_response
      → p.arrivals (waits_in p Cmd.get_dev_num [] s).history ≡ m₂ ∷ []
      → (parse_msg (link q) w m₁.src_addr m₁.buffer.bytes m₁.size d
          ≡ returns (
            pos 0,
            record d {
              history =
                  Event.sent m₁.src_addr (encode_msg (reply_header rh v) (payload_of v))
                    ∷ calls_of v
                  ++ d.history;
            },
          ))
        × ((s' : State Transport) × (get_subdevices (link p) (waiter p u (suc n)) stack s
              ≡ returns (number_of dev.get_subdevices d.history, s')))
  unfolding get_subdevices send_msg device_verdict
  get_subdevices-remote k v r₁ r₂ i room fits a = (
    parse_msg-request q w Cmd.get_dev_num [] rest₁ dev s d m₁ (omega arith) v r₁,
    exchange-number p u Cmd.get_dev_num [] rest₂ stack app dev.get_subdevices Call.get_subdevices
        d.history s m₂ n k i room r₂ fits a,
  )
