-- ===== src/Tests/Reports.antt =====
-- A device's report and a description of its features, at a concrete application and device.
use icap.Prelude.{pos, some, [], ◌∷◌, ◌≡◌, refl, arith, replicate, returns}
use icap.Wire.{
  Cmd, code, encode_msg, encode_u32, put_u32, put_words, u32_at, encode_features, encode_frags,
}
use icap.Core.{header_for, State, Event, Call, parse_msg}
use icap.Core.Verdict.{device_verdict}
use icap.Core.Request.{get_subdevice_features}
use icap.BareMetal.Transport.{RemoteMsg, Transport}
use icap.BareMetal.Loop.{link}
use icap.BareMetal.Wait.{waiter}
use icap.BareMetal.Sends.{sends}
use icap.Rpc.Features.{get_subdevice_features-remote}
use icap.Rpc.Report.{ready, send_report}
use icap.Rpc.Report.Answered.{report-answered, IsListener}
use icap.Tests.Data.{
  answering, playing-IsClient, speaking-IsServer, player, speaker, quiet, playing, speaking,
  no_features, stereo, two_frags,
}

-- `icap_get_subdevice_features(icap, 1, &features)`, and the device's answer.
abbrev asked : RemoteMsg
asked = record {
  buffer = record { addr = 0x2000; bytes = encode_msg (header_for 5 10 0 4) (encode_u32 1) };
  size = 44;
  src_addr = 30;
}

abbrev described : RemoteMsg
described = record {
  buffer = record {
    addr = 0x3000;
    bytes = encode_msg (header_for 5 10 1 28) (encode_features stereo);
  };
  size = 68;
  src_addr = 30;
}

get_subdevice_features-remote_example :
    (parse_msg (link quiet) no_features 30 asked.buffer.bytes 44 speaking
      ≡ returns (
        pos 0,
        record speaking {
          history =
              Event.sent 30 (encode_msg (header_for 5 10 1 28) (encode_features stereo))
              ∷ Event.called (Call.get_subdevice_features 1)
              ∷ [];
        },
      ))
    × ((s' : State Transport) × (get_subdevice_features
            (link (answering described))
            (waiter (answering described) no_features 1)
            (replicate 304 0)
            1
            (some no_features)
            playing
          ≡ returns (pos 0, some stereo, s')))
unfolding device_verdict encode_u32 put_u32 put_words encode_features u32_at code header_for
get_subdevice_features-remote_example =
    get_subdevice_features-remote (answering described) quiet no_features no_features player speaker
      playing speaking asked described 0 [] [] (replicate 304 0) 1 no_features (omega arith)
      playing-IsClient speaking-IsServer (refl, refl) (refl, refl) (omega arith) (omega arith) refl
      (omega arith) refl

-- `icap_frag_ready(icap, &two_frags)`, and the application's answer.
abbrev reported : RemoteMsg
reported = record {
  buffer = record {
    addr = 0x2000;
    bytes = encode_msg (header_for 5 59 0 8) (encode_frags two_frags);
  };
  size = 48;
  src_addr = 30;
}

abbrev acknowledged : RemoteMsg
acknowledged = record {
  buffer = record { addr = 0x3000; bytes = encode_msg (header_for 5 59 1 4) (encode_u32 7) };
  size = 44;
  src_addr = 30;
}

playing-IsListener : IsListener player 30 playing
playing-IsListener = record { callbacks = refl; type = refl; knows = omega arith }

report-answered_example :
    (send_report quiet (waiter quiet no_features 0) ready two_frags speaking
      ≡ returns (pos 0, sends Cmd.frag_ready (encode_frags two_frags) speaking))
    × (parse_msg (link quiet) no_features 30 reported.buffer.bytes 48 playing
        ≡ returns (
          pos 0,
          record playing {
            history =
                Event.sent 30 (encode_msg (header_for 5 59 1 4) (encode_u32 7))
                ∷ Event.called (Call.frag_ready two_frags)
                ∷ [];
          },
        ))
    × (parse_msg (link quiet) no_features 30 acknowledged.buffer.bytes 44 speaking
        ≡ returns (
          pos 0,
          record speaking { history = Event.called (Call.frag_ready_response (pos 7)) ∷ [] },
        ))
unfolding encode_u32 put_u32 encode_frags u32_at code header_for
report-answered_example =
    report-answered quiet quiet no_features no_features (waiter quiet no_features 0) ready two_frags
      player speaker speaking speaking playing reported acknowledged [] [] (omega arith)
      playing-IsListener speaking-IsServer (omega arith) (refl, refl) (refl, refl)
