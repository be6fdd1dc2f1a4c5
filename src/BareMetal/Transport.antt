-- ===== src/BareMetal/Transport.antt =====
-- The state of the bare metal transport (include/icap_bm_rpmsg-lite.h), and what
-- src/platform/icap_bm_rpmsg-lite.c takes from the rpmsg-lite library and the platform.
use icap.Prelude.{ℕ, ℤ, ◌-◌, ◌*◌, ◌^◌, List, []}
use icap.Wire.{Bytes}
use icap.Core.{Pointer, History}

-- A receive buffer of rpmsg-lite: its address and its contents.
pub record Buffer : Type 0 where
  pub addr : Pointer
  pub bytes : Bytes

-- `struct _icap_remote_msg`
pub record RemoteMsg : Type 0 where
  pub buffer : Buffer
  pub size : ℕ
  pub src_addr : ℕ

abbrev pub zeroed : RemoteMsg
zeroed = record { buffer = record { addr = 0; bytes = [] }; size = 0; src_addr = 0 }

-- `ICAP_MSG_QUEUE_SIZE` of include/icap_config.h
abbrev pub msg_queue_size : ℕ
msg_queue_size = 10

-- `ICAP_MSG_TIMEOUT_US` of include/icap_config.h
abbrev pub msg_timeout_us : ℕ
msg_timeout_us = 600 * 1000

-- `struct _icap_msg_fifo`
pub record Fifo : Type 0 where
  pub head : ℕ
  pub tail : ℕ
  pub remote_msg : List RemoteMsg

-- `struct icap_transport`
pub record Transport : Type 0 where
  pub rpmsg_instance : Pointer
  pub rpmsg_ept : Pointer
  pub remote_addr : ℕ
  pub msg_fifo : Fifo
  pub last_response : Bytes

-- `(uint32_t)-1`, the remote address before the first message.
abbrev pub no_addr : ℕ
no_addr = 2 ^ 32 - 1

-- `RL_HOLD`, `RL_ERR_NO_BUFF`, the result of `rpmsg_lite_send`, the clock, and the messages that
-- the receive interrupt hands to `icap_put_msg` before each round of a waiting loop.
pub record Platform : Type 0 where
  pub hold : ℤ
  pub no_buff : ℤ
  pub send : Pointer → Pointer → ℕ → Bytes → History → ℤ
  pub us_clock_tick : History → ℕ
  pub arrivals : History → List RemoteMsg
