-- ===== src/Rpc/Buffer.antt =====
-- `icap_add_src` of src/icap.c over bare metal: the descriptor that crosses to the device, and the
-- identifier that comes back.
use icap.Prelude.{
  ℕ, suc, pos, ◌+◌, ◌≤◌, ◌≡◌, ap, ◌∙◌, some, [], ◌∷◌, ◌++◌, arith, length, true, returns, IsInt32,
  length-append, take_all, refl,
}
use icap.Wire.{
  Bytes, Cmd, code, SubdeviceFeatures, BufDescriptor, encode_buf, put_words, put_u32, encode_msg,
}
use icap.Wire.RoundTrip.{BufFits, decode_buf-tail}
use icap.Core.{ApplicationCallbacks, DeviceCallbacks, State, Event, Call, parse_msg, Link}
use icap.Core.Verdict.{ask_number, apply_to, payload_of, calls_of, reply_header, device_verdict}
use icap.Core.Request.{exchange, add_buf, add_src, send_msg, Waiter}
use icap.BareMetal.Transport.{Transport, Platform, RemoteMsg}
use icap.BareMetal.Loop.{link}
use icap.BareMetal.Wait.{waiter}
use icap.BareMetal.Await.{IsClient}
use icap.BareMetal.Sends.{request_header, waits_in}
use icap.Rpc.Received.{Received}
use icap.Rpc.Server.{IsServer, parse_msg-request}
use icap.Rpc.Number.{number_of, number_from, exchange-number}

length-encode_buf : (b : BufDescriptor) → BufFits b → length (encode_buf b) ≡ 108
unfolding encode_buf put_words put_u32
length-encode_buf b h = length-append b.name _ ∙ ap (λ n. n + 44) h.0

-- A descriptor is sent whole.
add_buf-exchange :
    {T : Type 0} (l : Link T) (w : Waiter T) (c : Cmd) (stack : Bytes) (b : BufDescriptor)
    (s : State T)
    → BufFits b
    → add_buf l w c stack (some b) s
      ≡ number_from
          (exchange l w (code c) (encode_buf b) (length (encode_buf b)) true (some stack) s)
unfolding add_buf send_msg
add_buf-exchange l w c stack b s h =
    rw (take_all 108 (encode_buf b) (omega (arith, length-encode_buf b h)), length-encode_buf b h)
      refl

module _ (p q : Platform) (u w : SubdeviceFeatures) (app : ApplicationCallbacks)
    (dev : DeviceCallbacks) (s d : State Transport) (m₁ m₂ : RemoteMsg) (n : ℕ)
    (rest₁ rest₂ stack : Bytes) (b : BufDescriptor) where
  -- icap_add_src as a remote function call over bare metal, response kept. An application that
  -- has nothing waiting and knows its peer calls it with a descriptor whose fields fit their C
  -- types; the peer is a device that knows the sender. If the device receives the request as it
  -- was sent, whatever bytes lie behind it in the receive buffer, and the application receives,
  -- as the only message before the first round of its wait, the response that the device's
  -- callback calls for with a number that is an int32_t and room for the response, then the
  -- device's icap_parse_msg returns 0 after calling the callback, if it is set, with that same
  -- descriptor and sending exactly that response; the application returns what the callback
  -- returned, the buffer's identifier or a negative error, and -ICAP_ERROR_MSG_LEN when the
  -- device has no such callback.
  pub add_src-remote :
      let rh = request_header Cmd.add_src (encode_buf b) s in
      let v = ask_number (apply_to dev.add_src b) (Call.add_src b) d.history in
      BufFits b
      → IsClient app m₂.src_addr s
      → IsServer dev m₁.src_addr d
      → Received rh (encode_buf b) rest₁ m₁
      → Received (reply_header rh v) (payload_of v) rest₂ m₂
      → IsInt32 (number_of (apply_to dev.add_src b) d.history)
      → length stack ≡ 304
      → m₂.size ≤ length s.icap.transport.last_response
      → p.arrivals (waits_in p Cmd.add_src (encode_buf b) s).history ≡ m₂ ∷ []
      → (parse_msg (link q) w m₁.src_addr m₁.buffer.bytes m₁.size d
          ≡ returns (
            pos 0,
            record d {
              history =
                  Event.sent m₁.src_addr (encode_msg (reply_header rh v) (payload_of v))
                    ∷ calls_of v
                  ++ d.history;
            },
          ))
        × ((s' : State Transport) × (add_src (link p) (waiter p u (suc n)) stack (some b) s
              ≡ returns (number_of (apply_to dev.add_src b) d.history, s')))
  unfolding add_src device_verdict
  add_src-remote f k v r₁ r₂ i room fits a =
      let rh = request_header Cmd.add_src (encode_buf b) s in
      let o = apply_to dev.add_src b in
      (
        parse_msg-request q w Cmd.add_src (encode_buf b) rest₁ dev s d m₁
              (omega (arith, length-encode_buf b f)) v r₁
            ∙ ap
                (λ x.
                  let y = ask_number (apply_to dev.add_src x) (Call.add_src x) d.history in
                  returns (
                    pos 0,
                    record d {
                      history =
                          Event.sent m₁.src_addr (encode_msg (reply_header rh y) (payload_of y))
                            ∷ calls_of y
                          ++ d.history;
                    },
                  ))
                (decode_buf-tail b rest₁ f),
        let (s', e) =
              exchange-number p u Cmd.add_src (encode_buf b) rest₂ stack app o (Call.add_src b)
                d.history s m₂ n k i room r₂ fits a in
            (s', add_buf-exchange (link p) (waiter p u (suc n)) Cmd.add_src stack b s f ∙ e),
      )
