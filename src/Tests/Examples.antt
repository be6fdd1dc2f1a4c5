-- ===== src/Tests/Examples.antt =====
-- The theorems about one instance, at concrete states and messages.
use icap.Prelude.{
  ◌≡◌, refl, arith, pos, negsuc, none, some, inr, [], ◌∷◌, ℤ, is_nonneg, false, returns,
}
use icap.Wire.{encode_u32, encode_frags, cmd_of}
use icap.Core.{header_for, application_parse_msg, device_parse_msg, parse_msg}
use icap.Core.Verdict.{enact, device_verdict, application_verdict}
use icap.Core.Answers.{application_parse_msg-verdict, device_parse_msg-verdict}
use icap.Core.Typed.{Returns, AllTyped}
use icap.Core.Lifecycle.{use_all, use_all-AllTyped, as_application, as_device, shut_down}
use icap.BareMetal.Fifo.{next}
use icap.BareMetal.Fifo.Interrupt.{run, queue_run, run_refines, put, begin, finish}
use icap.BareMetal.Loop.{link, loop, put_msg}
use icap.BareMetal.Keeps.{Keeps, parse_msg-Keeps}
use icap.BareMetal.Sound.{IsSound, Handles, Holds, loop-Handles, put_msg-Holds, put_msg-refused}
use icap.BareMetal.Wait.{wait_for_response, elapsed}
use icap.BareMetal.Ends.{wait_for_response-ends}
use icap.BareMetal.Rejects.{parse_msg-rejects}
use icap.Tests.Data.{
  playing, speaking, quiet, no_features, player, speaker, two_frags, transport, ready_msg, crowded,
  ready, start_request,
}

device_parse_msg-verdict_example :
    device_parse_msg (link quiet) no_features speaker start_request speaking ≡ (
      pos 0,
      enact
          (link quiet)
          start_request.header
          (device_verdict no_features (cmd_of 54) speaker (encode_u32 1) [])
          speaking,
    )
unfolding header_for
device_parse_msg-verdict_example =
    device_parse_msg-verdict (link quiet) start_request speaking no_features speaker

application_parse_msg-verdict_example :
    application_parse_msg (link quiet) player ready_msg playing ≡ (
      pos 0,
      enact
          (link quiet)
          ready_msg.header
          (application_verdict (cmd_of 59) player (encode_frags two_frags) [])
          playing,
    )
unfolding header_for
application_parse_msg-verdict_example =
    application_parse_msg-verdict (link quiet) ready_msg playing player

use_all-AllTyped_example : AllTyped (
    use_all
      (link quiet)
      (as_device 0 (some speaker) 0 ∷ shut_down ∷ as_application 0 (some player) 0 ∷ [])
      (some playing.icap))
use_all-AllTyped_example =
    use_all-AllTyped (link quiet)
      (as_device 0 (some speaker) 0 ∷ shut_down ∷ as_application 0 (some player) 0 ∷ [])
      (some playing.icap) refl

playing-IsSound : IsSound playing
playing-IsSound = record { typed = refl; ring = omega arith; fit = tt }

-- The loop is idle; the interrupt puts a message, the loop begins it, another one comes in.
run_refines_example :
    run (put ready ∷ begin ∷ put ready ∷ finish ∷ begin ∷ []) false transport.msg_fifo
    ≡ queue_run (put ready ∷ begin ∷ put ready ∷ finish ∷ begin ∷ []) false []
run_refines_example =
    run_refines (put ready ∷ begin ∷ put ready ∷ finish ∷ begin ∷ []) false transport.msg_fifo
      (omega arith) tt

parse_msg-Keeps_example :
    Returns
      (parse_msg (link quiet) no_features 30 ready.buffer.bytes 48 playing)
      (λ (ret, s'). Keeps playing s')
parse_msg-Keeps_example =
    parse_msg-Keeps quiet no_features 30 ready.buffer.bytes 48 playing refl (omega arith)
      (omega arith)

crowded-IsSound : IsSound crowded
unfolding next
crowded-IsSound = record { typed = refl; ring = omega arith; fit = omega arith }

loop-Handles_example : Returns (loop quiet no_features crowded) (λ (ret, s'). Handles crowded s')
loop-Handles_example = loop-Handles quiet no_features crowded crowded-IsSound

put_msg-Holds_example :
    ((put_msg quiet ready playing).0 ≡ pos 1) × Holds ready playing (put_msg quiet ready playing).1
put_msg-Holds_example =
    put_msg-Holds quiet ready playing playing-IsSound (omega arith) (omega arith) (λ e. cc)
      (omega arith)

put_msg-refused_example : put_msg quiet ready crowded ≡ (negsuc 0, crowded)
put_msg-refused_example = put_msg-refused quiet ready crowded (omega arith) (λ e. cc) (omega arith)

wait_for_response-ends_example :
    Returns (wait_for_response quiet no_features 1 5 none playing) (λ (_, _, s'). IsSound s')
unfolding elapsed
wait_for_response-ends_example =
    wait_for_response-ends quiet no_features 5 0 1 playing (λ h. tt) playing-IsSound
      (λ h e. omega arith) (omega arith)

-- The same message from another address.
parse_msg-rejects_example :
    (e : ℤ) × (parse_msg (link quiet) no_features 31 ready.buffer.bytes 48 playing
      ≡ returns (e, playing))
    × (is_nonneg e ≡ false)
parse_msg-rejects_example =
    parse_msg-rejects quiet no_features 31 ready.buffer.bytes 48 playing
      (inr (inr (omega arith, omega arith)))
