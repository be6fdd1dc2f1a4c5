-- ===== src/Rpc/Call.antt =====
-- A call of an application function as a remote function call: both sides together.
use icap.Prelude.{ℕ, suc, pos, ◌≤◌, ◌≡◌, some, [], ◌∷◌, ◌++◌, arith, length, true, returns, IsInt32}
use icap.Wire.{Bytes, Cmd, SubdeviceFeatures, encode_msg}
use icap.Core.{ApplicationCallbacks, DeviceCallbacks, State, Event, parse_msg}
use icap.Core.Verdict.{Verdict, device_verdict, payload_of, calls_of, result_of, reply_header}
use icap.Core.Request.{send_only}
use icap.BareMetal.Transport.{Transport, Platform, RemoteMsg}
use icap.BareMetal.Loop.{link}
use icap.BareMetal.Wait.{waiter}
use icap.BareMetal.Await.{IsClient}
use icap.BareMetal.Sends.{request_header, waits_in}
use icap.Rpc.Received.{Received}
use icap.Rpc.Server.{IsServer, parse_msg-request, device_verdict-small}
use icap.Rpc.Client.{send_only-response}

module _ (p q : Platform) (u w : SubdeviceFeatures) (c : Cmd) (args rest₁ rest₂ : Bytes)
    (app : ApplicationCallbacks) (dev : DeviceCallbacks) (s d : State Transport) (m₁ m₂ : RemoteMsg)
    (n : ℕ) where
  -- What the device's callbacks make of the request.
  abbrev pub verdict : Verdict
  verdict = device_verdict w (some c) dev (args ++ rest₁) d.history

  -- A remote function call over bare metal. An application that has nothing waiting and knows its
  -- peer sends a command with at most 264 bytes of arguments, keeps no response and waits; the
  -- peer is a device that knows the sender. If the device receives the request as it was sent,
  -- and the application receives, as the only message before the first round of its wait, the
  -- response that the device's callbacks call for, with a result that is an int32_t and room for
  -- the response, then the device's icap_parse_msg returns 0 after calling the callback at most
  -- once with the decoded arguments and sending exactly that response, and the application's call
  -- returns the callback's error, 0 if the callback agreed or is not set, or -ICAP_ERROR_MSG_ID
  -- for a command that devices do not know.
  pub remote_call :
      length args ≤ 264
      → IsClient app m₂.src_addr s
      → IsServer dev m₁.src_addr d
      → Received (request_header c args s) args rest₁ m₁
      → Received (reply_header (request_header c args s) verdict) (payload_of verdict) rest₂ m₂
      → IsInt32 (result_of verdict)
      → m₂.size ≤ length s.icap.transport.last_response
      → p.arrivals (waits_in p c args s).history ≡ m₂ ∷ []
      → (parse_msg (link q) w m₁.src_addr m₁.buffer.bytes m₁.size d
          ≡ returns (
            pos 0,
            record d {
              history =
                  Event.sent m₁.src_addr (
                      encode_msg
                        (reply_header (request_header c args s) verdict)
                        (payload_of verdict))
                    ∷ calls_of verdict
                  ++ d.history;
            },
          ))
        × ((s' : State Transport) × (send_only
                (link p)
                (waiter p u (suc n))
                c
                args
                (length args)
                true
                s
              ≡ returns (result_of verdict, s')))
  remote_call l k v r₁ r₂ i room a = (
    parse_msg-request q w c args rest₁ dev s d m₁ l v r₁,
    send_only-response p u c args rest₂ app verdict s m₂ n l k
        (omega (arith, device_verdict-small w (some c) dev (args ++ rest₁) d.history)) i r₂ room a,
  )
