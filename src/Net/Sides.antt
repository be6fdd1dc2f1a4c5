-- ===== src/Net/Sides.antt =====
-- `icap_parse_msg` of a device, and of an application, on every message of the other side.
use icap.Prelude.{
  ℕ, ℤ, pos, ◌≤◌, ◌≡◌, refl, ap, ◌∙◌, inl, inr, Option, some, none, ◌++◌, arith, length, returns,
}
use icap.Wire.{Bytes, Msg, Cmd, cmd_of, SubdeviceFeatures, encode_u32, put_u32}
use icap.Core.{
  ApplicationCallbacks, DeviceCallbacks, application, device, State, History, header_for, parse_msg,
  device_response_switch, call_if_set, Callback, Call,
}
use icap.Core.Deliver.{dispatch-device, dispatch-application, dispatch-device_response}
use icap.Core.Verdict.{device_verdict, application_verdict, payload_of}
use icap.BareMetal.Transport.{Transport, Platform}
use icap.BareMetal.Loop.{link}
use icap.BareMetal.Deliver.{parse_msg-dispatch, dispatch-response, with_response}
use icap.Rpc.Server.{IsServer, enact-answered, answered, device_verdict-small}
use icap.Rpc.Report.Answered.{IsListener}
use icap.Net.{sent_in}
use icap.Net.Whole.{IsWhole, whole_header, length-whole, whole-Carries, responses-request}
use icap.Net.First.{IsDevice, learns, learns-IsServer, parse_msg-learns}
use icap.Net.Takes.{Takes, Latest, answered-Takes, response-Takes, copied-Takes, copied-Latest}

-- The callback for a response sends nothing.
call_if_set-quiet :
    {A : Type 0} (o : Callback A) (a : A) (c : Call) (s : State Transport)
    → let s' = (call_if_set o a c s).1 in
      (s'.icap ≡ s.icap) × (sent_in s'.history ≡ sent_in s.history)
unfolding sent_in
call_if_set-quiet none a c s = (refl, refl)
call_if_set-quiet (some f) a c s = (refl, refl)

device_response_switch-quiet :
    (c : Option Cmd) (cb : DeviceCallbacks) (m : Msg) (s : State Transport)
    → let s' = (device_response_switch c cb m s).1 in
      (s'.icap ≡ s.icap) × (sent_in s'.history ≡ sent_in s.history)
unfolding device_response_switch sent_in
device_response_switch-quiet (some Cmd.frag_ready) cb m s =
    call_if_set-quiet cb.frag_ready_response _ _ s
device_response_switch-quiet (some Cmd.xrun) cb m s = call_if_set-quiet cb.xrun_response _ _ s
device_response_switch-quiet (some Cmd.error) cb m s = call_if_set-quiet cb.error_response _ _ s
device_response_switch-quiet _ cb m s = (refl, refl)

module _ (p : Platform) (u : SubdeviceFeatures) (m rest : Bytes) (w : IsWhole m) (src : ℕ) where
  device_knows-Takes :
      (cb : DeviceCallbacks) (d : State Transport)
      → IsServer cb src d
      → (ret : ℤ) × (d' : State Transport) × (parse_msg (link p) u src (m ++ rest) (length m) d
          ≡ returns (ret, d'))
        × Takes m d d'
  unfolding header_for
  device_knows-Takes cb d v = elim w.kind [
    | inl t ↦
        let h = whole_header m w in
        let verdict = device_verdict u (cmd_of h.cmd) cb (w.payload ++ rest) d.history in
        (
          pos 0,
          answered src h verdict d,
          parse_msg-dispatch p u h w.payload rest (m ++ rest) (length m) (whole-Carries m w rest)
                (device cb) src d v.callbacks v.knows
              ∙ dispatch-device (link p) u h w.payload rest (m ++ rest) (length m)
                  (whole-Carries m w rest) cb d v.type t
              ∙ ap (λ x. returns (pos 0, x)) (enact-answered p h verdict src d v.knows),
          answered-Takes m w src verdict d t (
              omega
                (arith, device_verdict-small u (cmd_of h.cmd) cb (w.payload ++ rest) d.history)),
        )
    | inr t ↦
        let h = whole_header m w in
        let message : Msg = record { header = h; payload = w.payload ++ rest } in
        let quiet = device_response_switch-quiet (cmd_of h.cmd) cb message d in
        (
          (device_response_switch (cmd_of h.cmd) cb message d).0,
          (device_response_switch (cmd_of h.cmd) cb message d).1,
          parse_msg-dispatch p u h w.payload rest (m ++ rest) (length m) (whole-Carries m w rest)
                (device cb) src d v.callbacks v.knows
              ∙ dispatch-device_response (link p) u h w.payload rest (m ++ rest) (length m)
                  (whole-Carries m w rest) cb d v.type t,
          response-Takes m w d _ t quiet.0 quiet.1,
        )
  ]

  -- A device handles every message of the application, the first one too.
  pub device-Takes :
      (cb : DeviceCallbacks) (d : State Transport)
      → IsDevice cb src d
      → (ret : ℤ) × (d' : State Transport) × (parse_msg (link p) u src (m ++ rest) (length m) d
          ≡ returns (ret, d'))
        × Takes m (learns src d) d'
  device-Takes cb d v =
      let (ret, d', r, took) = device_knows-Takes cb (learns src d) (learns-IsServer cb src d v) in
      (
        ret,
        d',
        parse_msg-learns p u (whole_header m w) w.payload rest (m ++ rest) (length m)
              (whole-Carries m w rest) cb src d v
            ∙ r,
        took,
      )

application_verdict-small :
    (o : Option Cmd) (cb : ApplicationCallbacks) (args : Bytes) (h : History)
    → length (payload_of (application_verdict o cb args h)) ≤ 4
unfolding application_verdict encode_u32 put_u32
application_verdict-small (some Cmd.frag_ready) cb args h = ground arith
application_verdict-small (some Cmd.xrun) cb args h = ground arith
application_verdict-small (some Cmd.error) cb args h = ground arith
application_verdict-small _ cb args h = omega arith

module _ (p : Platform) (u : SubdeviceFeatures) (m rest : Bytes) (w : IsWhole m) (src : ℕ) where
  -- An application handles every message of the device.
  pub application-Takes :
      (cb : ApplicationCallbacks) (s : State Transport)
      → IsListener cb src s
      → 304 ≤ length s.icap.transport.last_response
      → (ret : ℤ) × (s' : State Transport) × (parse_msg (link p) u src (m ++ rest) (length m) s
          ≡ returns (ret, s'))
        × Takes m s s'
        × Latest m s s'
  unfolding header_for
  application-Takes cb s v l =
      let h = whole_header m w in
      let c = whole-Carries m w rest in
      let dispatched =
        parse_msg-dispatch p u h w.payload rest (m ++ rest) (length m) c (application cb) src s
          v.callbacks v.knows in
      elim w.kind [
        | inl t ↦
            let verdict = application_verdict (cmd_of h.cmd) cb (w.payload ++ rest) s.history in
            (
              pos 0,
              answered src h verdict s,
              dispatched
                  ∙ dispatch-application (link p) u h w.payload rest (m ++ rest) (length m) c cb s
                      v.type t
                  ∙ ap (λ x. returns (pos 0, x)) (enact-answered p h verdict src s v.knows),
              answered-Takes m w src verdict s t (
                  omega (
                    arith,
                    application_verdict-small (cmd_of h.cmd) cb (w.payload ++ rest) s.history,
                  )),
              inl (refl, responses-request m w t),
            )
        | inr t ↦
            let fits : length m ≤ length s.icap.transport.last_response =
              omega (arith, length-whole m w, w.small) in
            (
              pos 0,
              with_response h w.payload (length m) s,
              dispatched
                  ∙ dispatch-response p u h w.payload rest (m ++ rest) (length m) c cb s v.type t
                      fits,
              copied-Takes m w s t fits,
              inr (copied-Latest m w s t),
            )
      ]
