-- ===== src/Tests/Silence.antt =====
-- A wait in vain, a wait behind another message, and a request without its argument, at concrete
-- instances.
use icap.Prelude.{negsuc, true, ◌*◌, neg, pos, none, [], ◌∷◌, ◌≡◌, refl, arith, returns}
use icap.Wire.{
  Cmd, code, encode_u32, put_words, encode_msg, put_u32, u32_at, decode_msg, error_timeout,
}
use icap.Core.{State, header_for, Event, Call, parse_msg}
use icap.Core.Verdict.{refused}
use icap.Core.Typed.{Returns}
use icap.BareMetal.Transport.{Transport, Platform, RemoteMsg}
use icap.BareMetal.Loop.{link, receive, put_msg}
use icap.BareMetal.Wait.{elapsed, wait_for_response, waiter}
use icap.BareMetal.Sound.{IsSound}
use icap.BareMetal.Silence.{Silent, wait_for_response-Silent}
use icap.Rpc.Short.{start-behind}
use icap.Rpc.Busy.{send_only-busy}
use icap.Core.Request.{send_only}
use icap.BareMetal.Fifo.{push, next}
use icap.BareMetal.Keeps.{ticks}
use icap.Tests.Data.{
  refusal, player, answering, speaking-IsServer, speaker, quiet, playing, speaking, no_features,
}

-- The response to an earlier message, which comes again and again.
abbrev late : RemoteMsg
late = record {
  buffer = record { addr = 0x5000; bytes = encode_msg (header_for 3 54 1 0) [] };
  size = 40;
  src_addr = 30;
}

wait_for_response-Silent_example :
    Returns
      (wait_for_response (answering late) no_features 1 5 none playing)
      (λ (ret, kept, s'). (ret ≡ neg error_timeout) × (kept ≡ none) × IsSound s' × Silent 5 s')
unfolding elapsed header_for decode_msg encode_msg put_u32 put_words u32_at
wait_for_response-Silent_example =
    wait_for_response-Silent (answering late) no_features 5 0 1 none playing (λ h. omega arith)
      (λ h. (omega arith, refl, tt)) (record { typed = refl; ring = omega arith; fit = tt })
      (omega arith) (λ h e. omega arith) (omega arith)

-- In each round the late response comes in, and then the refusal; the clock is slow.
abbrev busy : Platform
busy = record quiet { us_clock_tick = λ h. 1000 * ticks h; arrivals = λ h. late ∷ refusal ∷ [] }

-- The clock has been read before.
abbrev called_before : State Transport
called_before = record playing { history = Event.ticked 0 ∷ [] }

send_only-busy_example :
    Returns
      (send_only
        (link busy)
        (waiter busy no_features 2)
        Cmd.start
        (encode_u32 1)
        4
        true
        called_before)
      (λ (ret, s'). ret ≡ negsuc 15)
unfolding elapsed header_for decode_msg encode_msg put_u32 put_words u32_at encode_u32 code receive
    put_msg push next
send_only-busy_example =
    send_only-busy busy no_features player Cmd.start (encode_u32 1) []
      (refused (Call.start 1) (negsuc 15)) called_before refusal (late ∷ []) [] 2 (omega arith)
      (omega arith) (omega arith)
      (record {
        sound = record { typed = refl; ring = omega arith; fit = tt };
        callbacks = refl;
        type = refl;
        knows = omega arith;
        unanswered = omega arith;
      })
      (λ h. omega arith) refl (omega arith, refl, tt) (refl, refl) (λ h b e. omega arith)
      (omega arith)

-- `ICAP_MSG_START` with an empty payload, and the bytes of an earlier message behind it.
abbrev bare : RemoteMsg
bare = record {
  buffer = record { addr = 0x2000; bytes = encode_msg (header_for 5 54 0 0) (encode_u32 1) };
  size = 40;
  src_addr = 30;
}

start-behind_example :
    (bare.size ≡ 40)
    × (parse_msg (link quiet) no_features 30 bare.buffer.bytes 40 speaking
        ≡ returns (
          pos 0,
          record speaking {
            history =
                Event.sent 30 (encode_msg (header_for 5 54 2 4) (encode_u32 4294967280))
                ∷ Event.called (Call.start 1)
                ∷ [];
          },
        ))
unfolding encode_u32 put_u32 code header_for
start-behind_example =
    start-behind quiet no_features speaker playing speaking bare 1 [] _ (omega arith) refl
      speaking-IsServer (refl, refl)
