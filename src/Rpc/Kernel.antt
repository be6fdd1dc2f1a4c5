-- ===== src/Rpc/Kernel.antt =====
-- A call of a Linux application to a bare metal device: both sides, over their two transports.
use icap.Prelude.{
  ℕ, pos, ◌+◌, ◌%◌, ◌^◌, ◌≤◌, ◌≡◌, refl, ap, sym, ◌∙◌, some, [], ◌∷◌, ◌++◌, arith, length, true,
  returns, ◌>>=◌, IsInt32, append-nil, length-drop, eq→==,
}
use icap.Wire.{Bytes, Cmd, code, SubdeviceFeatures, encode_msg, msg_size}
use icap.Wire.Message.{length-encode_msg}
use icap.Core.{ApplicationCallbacks, DeviceCallbacks, State, Event, Pointer, parse_msg, header_for}
use icap.Core.Verdict.{
  Verdict, device_verdict, payload_of, calls_of, result_of, reply_header, type_of,
}
use icap.Core.Deliver.{Carries}
use icap.Core.Request.{send_only}
use icap.BareMetal.Transport.{Platform, RemoteMsg, Transport as DeviceTransport}
use icap.BareMetal.Loop.{link as device_link}
use icap.BareMetal.Sends.{request_header}
use icap.Linux.Transport.{Transport, Kernel, IsKernel}
use icap.Linux.Respond.{hint_size}
use icap.Linux.Link.{Bus, link, waiter}
use icap.Linux.Await.{IsCaller, skb_for, waits_in, finds, send_only-awaits, await-response}
use icap.Rpc.Received.{Received, header_for-Carries, code-lt}
use icap.Rpc.Server.{IsServer, parse_msg-request, device_verdict-small}
use icap.Rpc.Client.{type_of-response, type_of-lt, outcome-verdict}

module _ {Q : Type 0} (k : Kernel Q) (laws : IsKernel k) (bus : Bus) (u : SubdeviceFeatures)
    (c : Cmd) (args : Bytes) (app : ApplicationCallbacks) (ch p : Pointer) (memory : Bytes)
    (s : State (Transport Q)) where
  -- The application's call gets back what the verdict on its request says.
  send_only-response :
      (v : Verdict) (src : ℕ) (bytes : Bytes)
      → length args ≤ 264
      → IsCaller k app ch s
      → k.alloc_skb (hint_size + msg_size) s.icap.transport.skbs s.history ≡ some (p, memory)
      → length (payload_of v) ≤ 28
      → IsInt32 (result_of v)
      → bytes ≡ encode_msg (reply_header (request_header c args s) v) (payload_of v)
      → bus.arrivals (waits_in k ch p memory c args s).history ≡ (src, bytes) ∷ []
      → (s' : State (Transport Q)) × (send_only
            (link k)
            (waiter k bus u)
            c
            args
            (length args)
            true
            s
          ≡ returns (result_of v, s'))
  unfolding header_for
  send_only-response v src bytes l caller got lv i content arrives =
      let h = reply_header (request_header c args s) v in
      let size : length bytes ≡ 40 + length (payload_of v) =
        ap length content ∙ length-encode_msg h (payload_of v) refl in
      let carried : Carries h (payload_of v) [] bytes (length bytes) =
        header_for-Carries ((s.icap.seq_num + 1) % 2 ^ 32) (code c) (type_of v) (payload_of v) []
          (record {
            buffer = record { addr = 0; bytes = bytes };
            size = length bytes;
            src_addr = src;
          })
          (omega arith) (code-lt c) (omega (arith, type_of-lt v)) (omega arith)
          (content ∙ ap (encode_msg h) (sym (append-nil (payload_of v))), size) in
      let large =
        (laws.alloc-fresh (hint_size + msg_size) s.icap.transport.skbs s.history p memory got).1 in
      let (s', e) =
        await-response k laws bus u h (payload_of v) bytes src carried app p
          (skb_for k c args memory s) (waits_in k ch p memory c args s) caller.callbacks caller.type
          (type_of-response v) arrives
          (finds k laws bus u c args app ch p memory s caller got h.seq_num refl)
          (ground (arith, eq→== p p refl)) refl
          (omega (arith, large, size, length-drop hint_size memory)) in
      (
        s',
        send_only-awaits k laws bus u c args app ch p memory s caller got l
            ∙ ap (λ x. x >>= λ (ret, _, t). returns (ret, t)) e
            ∙ ap (λ x. returns (x, s')) (outcome-verdict (request_header c args s) v _ i),
      )

  module _ (q : Platform) (w : SubdeviceFeatures) (rest : Bytes) (dev : DeviceCallbacks)
      (d : State DeviceTransport) (m : RemoteMsg) (src : ℕ) (bytes : Bytes) where
    -- What the device's callbacks make of the request.
    abbrev pub verdict : Verdict
    verdict = device_verdict w (some c) dev (args ++ rest) d.history

    -- A remote function call from a Linux application to a bare metal device, over every kernel
    -- with the documented laws. An application on a live rpmsg channel with no call pending, for
    -- which a buffer can be allocated, sends a command with at most 264 bytes of arguments, keeps
    -- no response and waits; the peer is a device that knows the sender. If the device receives
    -- the request as it was sent, the response that its callbacks call for has a result that is
    -- an int32_t and is the one message that comes in while the application sleeps, then the
    -- device's icap_parse_msg returns 0 after calling the callback at most once and sending
    -- exactly that response, and the application's call returns the callback's error, 0 if the
    -- callback agreed or is not set, or -ICAP_ERROR_MSG_ID for a command that devices do not
    -- know.
    pub linux_call :
        length args ≤ 264
        → IsCaller k app ch s
        → k.alloc_skb (hint_size + msg_size) s.icap.transport.skbs s.history ≡ some (p, memory)
        → IsServer dev m.src_addr d
        → Received (request_header c args s) args rest m
        → IsInt32 (result_of verdict)
        → bytes ≡ encode_msg (reply_header (request_header c args s) verdict) (payload_of verdict)
        → bus.arrivals (waits_in k ch p memory c args s).history ≡ (src, bytes) ∷ []
        → (parse_msg (device_link q) w m.src_addr m.buffer.bytes m.size d
            ≡ returns (
              pos 0,
              record d { history = Event.sent m.src_addr bytes ∷ calls_of verdict ++ d.history },
            ))
          × ((s' : State (Transport Q)) × (send_only
                  (link k)
                  (waiter k bus u)
                  c
                  args
                  (length args)
                  true
                  s
                ≡ returns (result_of verdict, s')))
    linux_call l caller got server r i content arrives = (
      parse_msg-request q w c args rest dev s d m l server r
          ∙ ap
              (λ b. returns (
                pos 0,
                record d { history = Event.sent m.src_addr b ∷ calls_of verdict ++ d.history },
              ))
              (sym content),
      send_only-response verdict src bytes l caller got
          (device_verdict-small w (some c) dev (args ++ rest) d.history) i content arrives,
    )
