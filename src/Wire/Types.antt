-- ===== src/Wire/Types.antt =====
-- The structs, enumerations and constants of include/icap.h, and the message layout of
-- src/platform/icap_transport.h.
use icap.Prelude.{ℕ, List, Option, none, some, ◌==◌, if◌then◌else◌, ◌≡◌, refl}
use icap.Wire.Words.{Bytes}

-- The error codes, which functions return with a minus sign.
abbrev pub error_init : ℕ
error_init = 6

abbrev pub error_nomem : ℕ
error_nomem = 12

abbrev pub error_busy : ℕ
error_busy = 16

abbrev pub error_invalid : ℕ
error_invalid = 22

abbrev pub error_broken_con : ℕ
error_broken_con = 32

abbrev pub error_msg_type : ℕ
error_msg_type = 42

abbrev pub error_protocol : ℕ
error_protocol = 71

abbrev pub error_msg_id : ℕ
error_msg_id = 74

abbrev pub error_remote_addr : ℕ
error_remote_addr = 78

abbrev pub error_msg_len : ℕ
error_msg_len = 90

abbrev pub error_protocol_not_sup : ℕ
error_protocol_not_sup = 93

abbrev pub error_timeout : ℕ
error_timeout = 110

abbrev pub error_no_bufs : ℕ
error_no_bufs = 233

abbrev pub error_not_sup : ℕ
error_not_sup = 252

abbrev pub buf_name_len : ℕ
buf_name_len = 64

abbrev pub buf_max_frags_offsets_num : ℕ
buf_max_frags_offsets_num = 64

abbrev pub protocol_version : ℕ
protocol_version = 1

-- `char name[64]` is its bytes, and the pointer `buf` a `uint64_t`, two words with the low one first.
pub record BufDescriptor : Type 0 where
  pub name : Bytes
  pub subdev_id : ℕ
  pub buf_low : ℕ
  pub buf_high : ℕ
  pub buf_size : ℕ
  pub type : ℕ
  pub gap_size : ℕ
  pub frag_size : ℕ
  pub channels : ℕ
  pub format : ℕ
  pub rate : ℕ
  pub report_frags : ℕ

pub record BufFrags : Type 0 where
  pub buf_id : ℕ
  pub frags : ℕ

pub record BufOffsets : Type 0 where
  pub buf_id : ℕ
  pub num : ℕ
  pub frags_offsets : List ℕ

pub record SubdeviceFeatures : Type 0 where
  pub type : ℕ
  pub src_buf_max : ℕ
  pub dst_buf_max : ℕ
  pub channels_min : ℕ
  pub channels_max : ℕ
  pub formats : ℕ
  pub rates : ℕ

pub record SubdeviceParams : Type 0 where
  pub subdev_id : ℕ
  pub channels : ℕ
  pub format : ℕ
  pub rate : ℕ

-- `enum icap_msg_type`
abbrev pub msg : ℕ
msg = 0

abbrev pub ack : ℕ
ack = 1

abbrev pub nak : ℕ
nak = 2

-- `enum icap_msg_cmd`
pub data Cmd : Type 0 where
  get_dev_num get_dev_features dev_init dev_deinit : Cmd
  add_src add_dst remove_src remove_dst : Cmd
  start stop pause resume buf_offsets frag_ready xrun error : Cmd

unfoldable pub code : Cmd → ℕ
code get_dev_num = 9
code get_dev_features = 10
code dev_init = 11
code dev_deinit = 12
code add_src = 50
code add_dst = 51
code remove_src = 52
code remove_dst = 53
code start = 54
code stop = 55
code pause = 56
code resume = 57
code buf_offsets = 58
code frag_ready = 59
code xrun = 60
code error = 200

-- How a `switch` over the commands reads the number of a header: `none` is its `default`.
unfoldable pub cmd_of : ℕ → Option Cmd
cmd_of n =
    if n == 9
    then some get_dev_num
    else if n == 10
    then some get_dev_features
    else if n == 11
    then some dev_init
    else if n == 12
    then some dev_deinit
    else if n == 50
    then some add_src
    else if n == 51
    then some add_dst
    else if n == 52
    then some remove_src
    else if n == 53
    then some remove_dst
    else if n == 54
    then some start
    else if n == 55
    then some stop
    else if n == 56
    then some pause
    else if n == 57
    then some resume
    else if n == 58
    then some buf_offsets
    else if n == 59
    then some frag_ready
    else if n == 60
    then some xrun
    else if n == 200
    then some error
    else none

pub cmd_of-code : (c : Cmd) → cmd_of (code c) ≡ some c
unfolding cmd_of code
cmd_of-code get_dev_num = refl
cmd_of-code _ = refl

-- `reserved` is always zero in what is sent, and never read.
pub record MsgHeader : Type 0 where
  pub protocol_version : ℕ
  pub seq_num : ℕ
  pub cmd : ℕ
  pub type : ℕ
  pub reserved : List ℕ
  pub payload_len : ℕ

-- `sizeof(struct icap_msg_header)`
abbrev pub header_size : ℕ
header_size = 40

-- `sizeof(union icap_msg_payload)`: its longest member is `struct icap_buf_offsets`.
abbrev pub payload_size : ℕ
payload_size = 264

-- `sizeof(struct icap_msg)`
abbrev pub msg_size : ℕ
msg_size = 304

-- `payload` holds the bytes of the union that are initialised, and what follows in memory.
pub record Msg : Type 0 where
  pub header : MsgHeader
  pub payload : Bytes
