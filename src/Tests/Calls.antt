-- ===== src/Tests/Calls.antt =====
-- The theorems about calls across the cores, at a concrete application and device.
use icap.Prelude.{
  neg, some, pos, [], ◌≡◌, refl, arith, negsuc, ◌∷◌, replicate, returns, faults, true,
}
use icap.Wire.{
  error_busy, Cmd, code, encode_msg, encode_u32, put_u32, put_words, encode_buf, u32_at, decode_msg,
}
use icap.Core.{header_for, State, Event, Call, parse_msg, Instance}
use icap.Core.Init.{application_init, device_init, deinit}
use icap.Core.Verdict.{device_verdict}
use icap.Core.Request.{send_only}
use icap.BareMetal.Transport.{RemoteMsg, Transport}
use icap.BareMetal.Loop.{link}
use icap.BareMetal.Wait.{waiter, wait_rounds}
use icap.BareMetal.Sends.{waits_in}
use icap.BareMetal.Await.{wait_rounds-overflow}
use icap.Core.Deliver.{Carries}
use icap.BareMetal.Stale.{send_only-stale, restarted}
use icap.Rpc.Call.{remote_call}
use icap.Rpc.Number.{get_subdevices-remote}
use icap.Core.Request.{get_subdevices, add_src}
use icap.Rpc.Buffer.{add_src-remote}
use icap.Tests.Data.{
  refusal, answering, playing-IsClient, speaking-IsServer, descriptor, crowded, player, speaker,
  quiet, playing, speaking, no_features,
}
use icap.BareMetal.Restart.{as_device, device_init-forgets}
use icap.BareMetal.Sound.{buffers}

-- `icap_start(icap, 1)`.
abbrev request : RemoteMsg
request = record {
  buffer = record { addr = 0x2000; bytes = encode_msg (header_for 5 54 0 4) (encode_u32 1) };
  size = 44;
  src_addr = 30;
}

remote_call_example :
    (parse_msg (link quiet) no_features 30 request.buffer.bytes 44 speaking
      ≡ returns (
        pos 0,
        record speaking {
          history =
              Event.sent 30 (encode_msg (header_for 5 54 2 4) (encode_u32 4294967280))
              ∷ Event.called (Call.start 1)
              ∷ [];
        },
      ))
    × ((s' : State Transport) × (send_only
            (link (answering refusal))
            (waiter (answering refusal) no_features 1)
            Cmd.start
            (encode_u32 1)
            4
            true
            playing
          ≡ returns (negsuc 15, s')))
unfolding device_verdict encode_u32 put_u32 u32_at code header_for
remote_call_example =
    remote_call (answering refusal) quiet no_features no_features Cmd.start (encode_u32 1) [] []
      player speaker playing speaking request refusal 0 (omega arith) playing-IsClient
      speaking-IsServer (refl, refl) (refl, refl) (omega arith) (omega arith) refl

-- A response that is longer than any payload.
abbrev long : RemoteMsg
long = record {
  buffer = record { addr = 0x4000; bytes = encode_msg (header_for 5 9 1 300) (replicate 300 0) };
  size = 340;
  src_addr = 30;
}

long-Carries : Carries (header_for 5 9 1 300) (replicate 300 0) [] long.buffer.bytes 340
unfolding header_for
long-Carries = record {
  content = refl;
  extent = refl;
  len = refl;
  version = refl;
  fits = omega arith;
  small = omega arith;
}

wait_rounds-overflow_example :
    wait_rounds (answering long) no_features 1 0 5 (some (replicate 304 0)) playing ≡ faults
unfolding header_for
wait_rounds-overflow_example =
    wait_rounds-overflow (answering long) no_features (header_for 5 9 1 300) (replicate 300 0) []
      long long-Carries player playing 0 0 (replicate 304 0) playing-IsClient refl (omega arith)
      refl (omega arith) refl

-- The first response of an earlier session was positive.
abbrev finished : Instance Transport
finished = record playing.icap {
  transport = record playing.icap.transport {
    last_response = 1 ∷ 0 ∷ 0 ∷ 0 ∷ 1 ∷ 0 ∷ 0 ∷ 0 ∷ 54 ∷ 0 ∷ 0 ∷ 0 ∷ 1 ∷ replicate 483 0;
  };
}

send_only-stale_example :
    ((application_init (link quiet) (some (deinit (link quiet) finished).1) 0 (some player) 0).1
      ≡ some (restarted quiet no_features 0 0 player finished []).icap)
    × (send_only
          (link quiet)
          (waiter quiet no_features 1)
          Cmd.start
          (encode_u32 0)
          4
          true
          (restarted quiet no_features 0 0 player finished [])
        ≡ returns (
          pos 0,
          waits_in quiet Cmd.start
              (encode_u32 0)
              (restarted quiet no_features 0 0 player finished []),
        ))
unfolding encode_u32 put_u32 decode_msg u32_at
send_only-stale_example =
    send_only-stale quiet no_features finished 0 0 player [] Cmd.start (encode_u32 0) 0
      (omega arith) refl refl

device_init-forgets_example :
    (application_init (link quiet) (some crowded.icap) 1 (some player) 2
      ≡ (neg error_busy, some crowded.icap))
    × (device_init (link quiet) (some crowded.icap) 1 (some speaker) 2
        ≡ (pos 0, some (as_device 1 2 speaker crowded.icap)))
    × (buffers (record { icap = as_device 1 2 speaker crowded.icap; history = [] }) ≡ [])
device_init-forgets_example = device_init-forgets quiet crowded 1 2 player speaker (λ e. cc)

-- `icap_get_subdevices(icap)`, and the device's answer.
abbrev count_request : RemoteMsg
count_request = record {
  buffer = record { addr = 0x2000; bytes = encode_msg (header_for 5 9 0 0) [] };
  size = 40;
  src_addr = 30;
}

abbrev count_response : RemoteMsg
count_response = record {
  buffer = record { addr = 0x3000; bytes = encode_msg (header_for 5 9 1 4) (encode_u32 1) };
  size = 44;
  src_addr = 30;
}

get_subdevices-remote_example :
    (parse_msg (link quiet) no_features 30 count_request.buffer.bytes 40 speaking
      ≡ returns (
        pos 0,
        record speaking {
          history =
              Event.sent 30 (encode_msg (header_for 5 9 1 4) (encode_u32 1))
              ∷ Event.called Call.get_subdevices
              ∷ [];
        },
      ))
    × ((s' : State Transport) × (get_subdevices
            (link (answering count_response))
            (waiter (answering count_response) no_features 1)
            (replicate 304 0)
            playing
          ≡ returns (pos 1, s')))
unfolding device_verdict encode_u32 put_u32 u32_at code header_for
get_subdevices-remote_example =
    get_subdevices-remote (answering count_response) quiet no_features no_features player speaker
      playing speaking count_request count_response 0 [] [] (replicate 304 0) playing-IsClient
      speaking-IsServer (refl, refl) (refl, refl) (omega arith) refl (omega arith) refl

-- `icap_add_src(icap, &descriptor)`, and the identifier that the device gives the buffer.
abbrev buffer_request : RemoteMsg
buffer_request = record {
  buffer = record {
    addr = 0x2000;
    bytes = encode_msg (header_for 5 50 0 108) (encode_buf descriptor);
  };
  size = 148;
  src_addr = 30;
}

abbrev buffer_response : RemoteMsg
buffer_response = record {
  buffer = record { addr = 0x3000; bytes = encode_msg (header_for 5 50 1 4) (encode_u32 3) };
  size = 44;
  src_addr = 30;
}

add_src-remote_example :
    (parse_msg (link quiet) no_features 30 buffer_request.buffer.bytes 148 speaking
      ≡ returns (
        pos 0,
        record speaking {
          history =
              Event.sent 30 (encode_msg (header_for 5 50 1 4) (encode_u32 3))
              ∷ Event.called (Call.add_src descriptor)
              ∷ [];
        },
      ))
    × ((s' : State Transport) × (add_src
            (link (answering buffer_response))
            (waiter (answering buffer_response) no_features 1)
            (replicate 304 0)
            (some descriptor)
            playing
          ≡ returns (pos 3, s')))
unfolding device_verdict encode_u32 put_u32 put_words encode_buf u32_at code header_for
add_src-remote_example =
    add_src-remote (answering buffer_response) quiet no_features no_features player speaker playing
      speaking buffer_request buffer_response 0 [] [] (replicate 304 0) descriptor (omega arith)
      playing-IsClient speaking-IsServer (refl, refl) (refl, refl) (omega arith) refl (omega arith)
      refl
