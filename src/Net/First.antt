-- ===== src/Net/First.antt =====
-- A device right after `icap_device_init`: the first message that it receives tells it who its peer is.
use icap.Prelude.{ℕ, pos, ◌≡◌, ◌≢◌, refl, sym, ap, ◌∙◌, ◌⊎◌, inl, inr, some, arith}
use icap.Wire.{Bytes, MsgHeader, SubdeviceFeatures}
use icap.Core.{DeviceCallbacks, device, State, set_transport, parse_msg, parse_with}
use icap.Core.Deliver.{Carries, parse_with-noted}
use icap.BareMetal.Transport.{Transport, Platform, no_addr}
use icap.BareMetal.Loop.{link, verify_remote}
use icap.BareMetal.Deliver.{verify_remote-known, parse_msg-dispatch}
use icap.Rpc.Server.{IsServer}

-- The state in which the sender is noted.
abbrev pub learns : ℕ → State Transport → State Transport
learns src s = set_transport (record s.icap.transport { remote_addr = src }) s

-- A device that has no peer yet, or this one.
pub record IsDevice (cb : DeviceCallbacks) (src : ℕ) (s : State Transport) : Type 0 where
  pub callbacks : s.icap.callbacks ≡ some (device cb)
  pub type : s.icap.type ≡ 1
  pub peer : (s.icap.transport.remote_addr ≡ no_addr) ⊎ (s.icap.transport.remote_addr ≡ src)
  pub known : src ≢ no_addr

pub learns-IsServer :
    (cb : DeviceCallbacks) (src : ℕ) (s : State Transport)
    → IsDevice cb src s
    → IsServer cb src (learns src s)
learns-IsServer cb src s v = record {
  callbacks = v.callbacks;
  type = v.type;
  knows = (refl, v.known);
}

verify_remote-learns :
    (t : Transport) (src : ℕ)
    → src ≢ no_addr
    → (t.remote_addr ≡ no_addr) ⊎ (t.remote_addr ≡ src)
    → verify_remote t src ≡ (pos 0, record t { remote_addr = src })
unfolding verify_remote
verify_remote-learns t src k (inl e) = ground arith
verify_remote-learns t src k (inr e) =
    verify_remote-known t src e k ∙ ap (λ a. (pos 0, record t { remote_addr = a })) e

module _ (p : Platform) (u : SubdeviceFeatures) (h : MsgHeader) (payload rest bytes : Bytes)
    (size : ℕ) (c : Carries h payload rest bytes size) where
  -- A message of the peer is handled as by a device that knows the peer.
  pub parse_msg-learns :
      (cb : DeviceCallbacks) (src : ℕ) (s : State Transport)
      → IsDevice cb src s
      → parse_msg (link p) u src bytes size s ≡ parse_msg (link p) u src bytes size (learns src s)
  unfolding link parse_msg
  parse_msg-learns cb src s v =
      ap (λ x. parse_with (link p) u x src bytes size s) v.callbacks
      ∙ parse_with-noted (link p) u h payload rest bytes size c (device cb) src s _
          (verify_remote-learns s.icap.transport src v.known v.peer) (omega (arith, c.small))
      ∙ sym (
          parse_msg-dispatch p u h payload rest bytes size c (device cb) src (learns src s)
            v.callbacks (refl, v.known))
