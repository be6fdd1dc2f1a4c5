-- ===== src/Core/Request.antt =====
-- `icap_send_msg` of src/icap.c, and the functions of both sides that send a message through it.
use icap.Prelude.{
  ℕ, ℤ, pos, neg, is_zero, to_s32, Bool, true, false, not, Option, none, some, [], ◌+◌, ◌%◌, ◌^◌,
  ◌==◌, ltb, take, if◌then◌else◌, Run, ◌>>=◌, returns,
}
use icap.Wire.{
  Bytes, MsgHeader, Cmd, code, SubdeviceFeatures, SubdeviceParams, BufDescriptor, BufFrags,
  BufOffsets, encode_u32, encode_params, encode_buf, encode_frags, encode_offsets, decode_msg,
  decode_features, u32_at, payload_size, msg, error_msg_len, error_invalid,
}
use icap.Core.Model.{State, Link}
use icap.Core.Reply.{header_for, transmit}

-- The transport's functions that wait for a response. `wait_for_response` is given the response's
-- 304 bytes of memory, or `none` for NULL, and gives them back as it leaves them.
pub record Waiter (T : Type 0) : Type 0 where
  pub prepare_wait : MsgHeader → State T → Run (ℤ × State T)
  pub wait_for_response : ℕ → Option Bytes → State T → Run (ℤ × Option Bytes × State T)

abbrev pub Request : Type 0 → Type 0
Request T = State T → Run (ℤ × State T)

-- The result of a call whose response carries a word: `response.payload.s32`.
abbrev pub word_of_response : ℤ → Option Bytes → ℤ
word_of_response ret none = ret
word_of_response ret (some response) =
    if not (is_zero ret)
    then ret
    else if not ((decode_msg response).header.payload_len == 4)
    then neg error_msg_len
    else to_s32 (u32_at (decode_msg response).payload 0)

-- The result of `icap_get_subdevice_features`, and what it leaves in `*features`.
abbrev pub features_of_response : SubdeviceFeatures → ℤ → Option Bytes → ℤ × SubdeviceFeatures
features_of_response features ret none = (ret, features)
features_of_response features ret (some response) =
    if not (is_zero ret)
    then (ret, features)
    else if not ((decode_msg response).header.payload_len == 28)
    then (neg error_msg_len, features)
    else (pos 0, decode_features (decode_msg response).payload)

module _ {T : Type 0} (link : Link T) (waiter : Waiter T) where
  -- From the header on: `icap->seq_num++` under the lock, and the exchange.
  unfoldable pub exchange :
      ℕ → Bytes → ℕ → Bool → Option Bytes → State T → Run (ℤ × Option Bytes × State T)
  unfolding header_for
  exchange cmd payload size sync response s =
      let seq_num = (s.icap.seq_num + 1) % 2 ^ 32 in
      let s₁ = record s { icap = record s.icap { seq_num = seq_num } } in
      let header = header_for seq_num cmd msg size in
      elim sync [
        | true ↦ waiter.prepare_wait header s₁ >>= λ (ret, s₂).
            if is_zero ret
            then waiter.wait_for_response seq_num response (transmit link header payload s₂).1
            else returns (ret, response, s₂)
        | false ↦ let (ret, s₂) = transmit link header payload s₁ in returns (ret, response, s₂)
      ]

  unfoldable pub send_msg :
      Cmd → Option Bytes → ℕ → Bool → Option Bytes → State T → Run (ℤ × Option Bytes × State T)
  unfolding exchange
  send_msg cmd none size sync response s = exchange (code cmd) [] 0 sync response s
  send_msg cmd (some bytes) size sync response s =
      if ltb payload_size size
      then returns (neg error_msg_len, response, s)
      else exchange (code cmd) (take size bytes) size sync response s

  -- A call with no place for the response.
  unfoldable pub send_only : Cmd → Bytes → ℕ → Bool → Request T
  unfolding send_msg
  send_only cmd bytes size sync s =
      send_msg cmd (some bytes) size sync none s >>= λ (ret, _, s'). returns (ret, s')

  -- The application's calls. `stack` is what the local `response` holds at first.
  unfoldable pub get_subdevices : Bytes → Request T
  unfolding send_msg
  get_subdevices stack s =
      send_msg Cmd.get_dev_num none 0 true (some stack) s >>= λ (ret, response, s').
      returns (word_of_response ret response, s')

  -- `*features` is given, and given back as the call leaves it.
  unfoldable pub get_subdevice_features :
      Bytes → ℕ → Option SubdeviceFeatures → State T → Run (ℤ × Option SubdeviceFeatures × State T)
  unfolding send_msg
  get_subdevice_features stack subdev_id none s = returns (neg error_invalid, none, s)
  get_subdevice_features stack subdev_id (some features) s =
      send_msg Cmd.get_dev_features (some (encode_u32 subdev_id)) 4 true (some stack) s
      >>= λ (ret, response, s').
          let (ret', features') = features_of_response features ret response in
          returns (ret', some features', s')

  unfoldable pub subdevice_init : Option SubdeviceParams → Request T
  unfolding send_only
  subdevice_init none s = returns (neg error_invalid, s)
  subdevice_init (some params) s = send_only Cmd.dev_init (encode_params params) 16 true s

  unfoldable pub subdevice_deinit : ℕ → Request T
  unfolding send_only
  subdevice_deinit subdev_id = send_only Cmd.dev_deinit (encode_u32 subdev_id) 4 true

  -- `icap_add_src` and `icap_add_dst` differ in the command alone.
  unfoldable pub add_buf : Cmd → Bytes → Option BufDescriptor → Request T
  unfolding send_msg
  add_buf cmd stack none s = returns (neg error_invalid, s)
  add_buf cmd stack (some buf) s =
      send_msg cmd (some (encode_buf buf)) 108 true (some stack) s >>= λ (ret, response, s').
      returns (word_of_response ret response, s')

  unfoldable pub add_src : Bytes → Option BufDescriptor → Request T
  unfolding add_buf
  add_src = add_buf Cmd.add_src

  unfoldable pub add_dst : Bytes → Option BufDescriptor → Request T
  unfolding add_buf
  add_dst = add_buf Cmd.add_dst

  unfoldable pub remove_src : ℕ → Request T
  unfolding send_only
  remove_src buf_id = send_only Cmd.remove_src (encode_u32 buf_id) 4 true

  unfoldable pub remove_dst : ℕ → Request T
  unfolding send_only
  remove_dst buf_id = send_only Cmd.remove_dst (encode_u32 buf_id) 4 true

  unfoldable pub start : ℕ → Request T
  unfolding send_only
  start subdev_id = send_only Cmd.start (encode_u32 subdev_id) 4 true

  unfoldable pub stop : ℕ → Request T
  unfolding send_only
  stop subdev_id = send_only Cmd.stop (encode_u32 subdev_id) 4 true

  unfoldable pub pause : ℕ → Request T
  unfolding send_only
  pause subdev_id = send_only Cmd.pause (encode_u32 subdev_id) 4 true

  unfoldable pub resume : ℕ → Request T
  unfolding send_only
  resume subdev_id = send_only Cmd.resume (encode_u32 subdev_id) 4 true

  unfoldable pub frags : Option BufOffsets → Request T
  unfolding send_only
  frags none s = returns (neg error_invalid, s)
  frags (some offsets) s = send_only Cmd.buf_offsets (encode_offsets offsets) 264 true s

  -- The device's calls, which do not wait.
  unfoldable pub frag_ready : Option BufFrags → Request T
  unfolding send_only
  frag_ready none s = returns (neg error_invalid, s)
  frag_ready (some f) s = send_only Cmd.frag_ready (encode_frags f) 8 false s

  unfoldable pub xrun : Option BufFrags → Request T
  unfolding send_only
  xrun none s = returns (neg error_invalid, s)
  xrun (some f) s = send_only Cmd.xrun (encode_frags f) 8 false s

  unfoldable pub error : ℕ → Request T
  unfolding send_only
  error code = send_only Cmd.error (encode_u32 code) 4 false
