-- ===== src/Linux/Link.antt =====
-- The Linux kernel transport below src/icap.c: its functions as the core calls them, and the wait
-- of one call during which messages come in.
use icap.Prelude.{
  ℕ, zero, suc, ℤ, ◌^◌, pos, negsuc, neg, Option, none, some, List, [], ◌∷◌, length, Run, ◌>>=◌,
  returns, faults,
}
use icap.Wire.{Bytes, SubdeviceFeatures, error_protocol}
use icap.Core.{Pointer, History, State, Link, set_transport, parse_msg}
use icap.Core.Request.{Waiter}
use icap.Linux.Transport.{Transport, Kernel}
use icap.Linux.Respond.{
  init_transport, deinit_transport, verify_remote, send_platform, response_notify, prepare_wait,
}
use icap.Linux.Wait.{find_waiter, finish_wait}
use icap.Linux.System.{received_at}

-- What happens while a thread sleeps: the messages that the rpmsg bus hands over, with their
-- senders; then a signal with an error code or the end of the time, if no response has come, or
-- else the time that is left.
pub record Bus : Type 0 where
  pub arrivals : History → List (ℕ × Bytes)
  pub signal : History → Option ℕ
  pub left : History → ℕ

module _ {Q : Type 0} (k : Kernel Q) where
  -- `size_t` has 64 bits.
  unfoldable pub link : Link (Transport Q)
  link = record {
    size_mod = 2 ^ 64;
    init_transport = init_transport k;
    deinit_transport = deinit_transport k;
    verify_remote = verify_remote k;
    send_platform = send_platform k;
    response_notify = response_notify k;
  }

  module _ (bus : Bus) (uninitialised : SubdeviceFeatures) where
    -- The driver's rpmsg callback calls `icap_parse_msg`.
    unfoldable pub deliver : List (ℕ × Bytes) → State (Transport Q) → Run (State (Transport Q))
    deliver [] s = returns s
    deliver ((src_addr, bytes) ∷ ms) s =
        parse_msg link uninitialised src_addr bytes (length bytes) s >>= λ (ret, s'). deliver ms s'

    -- `wait_event_interruptible_timeout`
    abbrev pub timeout_of : ℕ → History → ℤ
    timeout_of (suc n) h = pos (suc (bus.left h))
    timeout_of zero h = elim (bus.signal h) [ none ↦ pos 0 | some error ↦ negsuc error ]

    abbrev pub resumes : Option ℕ → State (Transport Q) → Run (ℤ × State (Transport Q))
    resumes none s = faults
    resumes (some received) s = returns (timeout_of received s.history, s)

    unfoldable pub sleep : Pointer → State (Transport Q) → Run (ℤ × State (Transport Q))
    sleep p s =
        deliver (bus.arrivals s.history) s >>= λ s'. resumes (received_at s'.icap.transport p) s'

    -- The thread that has found its buffer.
    unfoldable pub await :
        Option Pointer
        → Option Bytes
        → State (Transport Q)
        → Run (ℤ × Option Bytes × State (Transport Q))
    await none response s = returns (neg error_protocol, response, s)
    await (some p) response s = sleep p s >>= λ (timeout, s').
        finish_wait k p timeout response s'.icap.transport s'.history >>= λ (ret, response', t, h).
        returns (ret, response', record (set_transport t s') { history = h })

    unfoldable pub wait_for_response :
        ℕ → Option Bytes → State (Transport Q) → Run (ℤ × Option Bytes × State (Transport Q))
    wait_for_response seq_num response s =
        find_waiter k seq_num s.icap.transport >>= λ o. await o response s

    unfoldable pub waiter : Waiter (Transport Q)
    waiter = record {
      prepare_wait = λ header s.
          let (ret, t) = prepare_wait k header s.icap.transport s.history in
          returns (ret, set_transport t s);
      wait_for_response = wait_for_response;
    }
