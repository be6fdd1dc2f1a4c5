-- ===== src/Tests/Channel.antt =====
-- A Linux application that calls `icap_start(icap, 1)` on a bare metal device, which refuses.
use icap.Prelude.{
  ℕ, pos, negsuc, ◌≡◌, refl, some, none, [], ◌∷◌, arith, returns, replicate, true, List,
}
use icap.Wire.{Cmd, encode_msg, encode_u32, Bytes, code, put_u32, u32_at}
use icap.Core.{State, Event, Call, application, header_for, parse_msg}
use icap.Core.Verdict.{device_verdict}
use icap.Core.Request.{send_only}
use icap.BareMetal.Transport.{RemoteMsg}
use icap.BareMetal.Loop.{link as device_link}
use icap.Linux.Transport.{Transport}
use icap.Linux.Link.{Bus, link, waiter}
use icap.Linux.Await.{IsCaller}
use icap.Rpc.Server.{IsServer}
use icap.Rpc.Kernel.{linux_call}
use icap.Tests.Data.{player, speaker, speaking, quiet, no_features}
use icap.Tests.Kernel.{list_kernel, list_kernel-IsKernel, starting}

abbrev listening : State (Transport (List ℕ))
listening = record {
  icap = record {
    transport = starting.transport;
    name = 0;
    type = 0;
    priv = 0;
    callbacks = some (application player);
    seq_num = 4;
  };
  history = [];
}

abbrev refusal : Bytes
refusal = encode_msg (header_for 5 54 2 4) (encode_u32 4294967280)

abbrev one_refusal : Bus
one_refusal = record { arrivals = λ h. (1034, refusal) ∷ []; signal = λ h. none; left = λ h. 7 }

abbrev request : RemoteMsg
request = record {
  buffer = record { addr = 0x2000; bytes = encode_msg (header_for 5 54 0 4) (encode_u32 1) };
  size = 44;
  src_addr = 30;
}

listening-IsCaller : IsCaller list_kernel player 9 listening
listening-IsCaller = record { callbacks = refl; type = refl; bound = refl; idle = refl }

speaking-IsServer : IsServer speaker 30 speaking
speaking-IsServer = record { callbacks = refl; type = refl; knows = (refl, omega arith) }

linux_call_example :
    (parse_msg (device_link quiet) no_features 30 request.buffer.bytes 44 speaking
      ≡ returns (
        pos 0,
        record speaking { history = Event.sent 30 refusal ∷ Event.called (Call.start 1) ∷ [] },
      ))
    × ((s' : State (Transport (List ℕ))) × (send_only
            (link list_kernel)
            (waiter list_kernel one_refusal no_features)
            Cmd.start
            (encode_u32 1)
            4
            true
            listening
          ≡ returns (negsuc 15, s')))
unfolding device_verdict encode_u32 put_u32 u32_at code header_for
linux_call_example =
    linux_call list_kernel list_kernel-IsKernel one_refusal no_features Cmd.start (encode_u32 1)
      player 9 1 (replicate 316 0) listening quiet no_features [] speaker speaking request 1034
      refusal (omega arith) listening-IsCaller refl speaking-IsServer (refl, refl) (omega arith)
      refl refl
