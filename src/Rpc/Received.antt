-- ===== src/Rpc/Received.antt =====
-- Messages of the peer in receive buffers.
use icap.Prelude.{ℕ, ◌+◌, ◌^◌, ◌<◌, ◌≤◌, ◌≡◌, refl, ◌++◌, arith, length}
use icap.Wire.{Bytes, MsgHeader, Cmd, code, encode_msg}
use icap.Core.{header_for}
use icap.BareMetal.Transport.{RemoteMsg}
use icap.Core.Deliver.{Carries}

pub code-lt : (c : Cmd) → code c < 2 ^ 32
unfolding code
code-lt Cmd.get_dev_num = omega arith
code-lt _ = omega arith

-- A buffer that holds a message which the peer has sent.
abbrev pub Received : MsgHeader → Bytes → Bytes → RemoteMsg → Type 0
Received h payload rest m =
    (m.buffer.bytes ≡ encode_msg h (payload ++ rest)) × (m.size ≡ 40 + length payload)

pub header_for-Carries :
    (seq_num cmd type : ℕ) (payload rest : Bytes) (m : RemoteMsg)
    → seq_num < 2 ^ 32
    → cmd < 2 ^ 32
    → type < 2 ^ 32
    → length payload ≤ 264
    → Received (header_for seq_num cmd type (length payload)) payload rest m
    → Carries (header_for seq_num cmd type (length payload)) payload rest m.buffer.bytes m.size
unfolding header_for
header_for-Carries seq_num cmd type payload rest m a b c l r = record {
  content = r.0;
  extent = r.1;
  len = refl;
  version = refl;
  fits = omega arith;
  small = omega (arith, r.1);
}
