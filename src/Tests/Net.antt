-- ===== src/Tests/Net.antt =====
-- A call that crosses a report, between a concrete application and a concrete device.
use icap.Prelude.{none, List, ◌⊎◌, ℕ, pos, ◌≡◌, refl, arith, [], ◌∷◌, ◌++◌, returns, replicate}
use icap.Wire.{
  Bytes, Cmd, encode_msg, encode_u32, encode_frags, put_u32, put_words, get_words, u32_at, code,
  cmd_of, decode_msg,
}
use icap.Core.{
  Event, Call, Instance, application, device, header_for, parse_msg, parse_with, dispatch,
  device_parse_msg, device_switch, send_response, send_ack, send_nak, application_parse_response,
}
use icap.BareMetal.Transport.{Transport}
use icap.BareMetal.Loop.{link, verify_remote, send_platform, response_notify}
use icap.BareMetal.Wait.{waiter}
use icap.BareMetal.Sends.{sends}
use icap.Rpc.Report.Answered.{send_only-sends}
use icap.Net.{
  Setup, Net, ask, report, to_device, to_application, Reach, start, later, sent_in, Note, note_of,
  requests, responses,
}
use icap.Net.Inv.{numbers}
use icap.Net.Answers.{reach-answers, reach-numbers, reach-latest}
use icap.Net.Settles.{reach-settles}
use icap.Net.Started.{fresh, started, init-Connected}
use icap.Net.Connected.{Connected}
use icap.Tests.Data.{player, speaker, quiet, playing, no_features, two_frags}

abbrev both : Setup
both = record {
  app_platform = quiet;
  dev_platform = quiet;
  app_sends = λ i ept addr bytes h. refl;
  dev_sends = λ i ept addr bytes h. refl;
  app_features = no_features;
  dev_features = no_features;
  app_waiter = waiter quiet no_features 0;
  dev_waiter = waiter quiet no_features 0;
  app_callbacks = player;
  dev_callbacks = speaker;
  app_addr = 30;
  dev_addr = 30;
}

abbrev idle : Instance Transport
idle = record playing.icap { callbacks = none }

abbrev new_net : Net
new_net = started 30 (fresh (application player) 0 1 2 idle) (fresh (device speaker) 1 3 4 idle)

new_net-Connected : Connected both new_net
new_net-Connected =
    (init-Connected both idle idle 1 2 3 4 refl (omega arith) (omega arith) (omega arith)).2

-- `icap_start(icap, 2)`, its response, and then `icap_frag_ready(icap, &two_frags)`.
abbrev request : Bytes
request = encode_msg (header_for 1 54 0 4) (encode_u32 2)

abbrev response : Bytes
response = encode_msg (header_for 1 54 1 0) []

abbrev asked : Net
asked = record new_net { app = sends Cmd.start (encode_u32 2) new_net.app }

abbrev served : Net
served = record asked {
  dev = record asked.dev {
    icap = record asked.dev.icap {
      transport = record asked.dev.icap.transport { remote_addr = 30 };
    };
    history = Event.sent 30 response ∷ Event.called (Call.start 2) ∷ [];
  };
  at_dev = request ∷ [];
}

abbrev told : Net
told = record served {
  app = record asked.app {
    icap = record asked.app.icap {
      transport = record asked.app.icap.transport { last_response = response ++ replicate 456 0 };
    };
  };
  at_app = response ∷ [];
}

abbrev reported : Net
reported = record told { dev = sends Cmd.frag_ready (encode_frags two_frags) told.dev }

request_handled :
    parse_msg (link quiet) no_features 30 (request ++ (7 ∷ [])) 44 asked.dev
    ≡ returns (pos 0, served.dev)
unfolding parse_msg link verify_remote send_platform response_notify parse_with dispatch
    device_parse_msg device_switch send_response send_ack send_nak encode_u32 put_u32 encode_msg
    decode_msg header_for put_words get_words u32_at code cmd_of
request_handled = refl

response_handled :
    parse_msg (link quiet) no_features 30 (response ++ []) 40 served.app ≡ returns (pos 0, told.app)
unfolding parse_msg link verify_remote send_platform response_notify parse_with dispatch
    device_parse_msg device_switch send_response send_ack send_nak encode_u32 put_u32 encode_msg
    decode_msg header_for put_words get_words u32_at code cmd_of application_parse_response
response_handled = refl

reported-Reach : Reach both new_net 4 reported
unfolding sent_in encode_msg put_u32 put_words header_for encode_u32 encode_frags code
reported-Reach =
    later
      (later
        (later
          (later start (
            ask Cmd.start (encode_u32 2) (pos 0) (
              send_only-sends quiet both.app_waiter Cmd.start (encode_u32 2) new_net.app
                (omega arith))))
          (to_device request (7 ∷ []) [] (pos 0) refl request_handled))
        (to_application response [] [] (pos 0) refl response_handled))
      (report Cmd.frag_ready (encode_frags two_frags) (pos 0) (omega arith) (
        send_only-sends quiet both.dev_waiter Cmd.frag_ready (encode_frags two_frags) told.dev
          (omega arith)))

reach-answers_example :
    (responses (sent_in reported.dev.history) ≡ requests reported.at_dev)
    × (responses (sent_in reported.app.history) ≡ requests reported.at_app)
reach-answers_example =
    reach-answers both new_net new_net-Connected 4 reported (omega arith) reported-Reach

reach-numbers_example :
    (numbers (requests (sent_in reported.app.history)) ≡ 1 ∷ [])
    × (numbers (requests (sent_in reported.dev.history)) ≡ 1 ∷ [])
reach-numbers_example =
    reach-numbers both new_net new_net-Connected 4 reported (omega arith) reported-Reach

reach-latest_example :
    (pending : List Note) × (requests (sent_in reported.app.history)
      ≡ responses reported.at_app ++ pending)
    × ((reported.app.icap.transport.last_response ≡ new_net.app.icap.transport.last_response)
        ⊎ ((before : List Note) × (responses reported.at_app
              ≡ before ++ (note_of reported.app.icap.transport.last_response ∷ []))))
reach-latest_example =
    reach-latest both new_net new_net-Connected 4 reported (omega arith) reported-Reach

reach-settles_example :
    (u : Net) × ((k : ℕ) × Reach both reported k u)
    × (u.at_dev ≡ sent_in u.app.history)
    × (u.at_app ≡ sent_in u.dev.history)
    × (requests (sent_in u.app.history) ≡ requests (sent_in reported.app.history))
    × (requests (sent_in u.dev.history) ≡ requests (sent_in reported.dev.history))
    × (responses u.at_app ≡ requests (sent_in reported.app.history))
    × (responses u.at_dev ≡ requests (sent_in reported.dev.history))
reach-settles_example =
    reach-settles both new_net new_net-Connected 4 reported (omega arith) reported-Reach
