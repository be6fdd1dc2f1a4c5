-- ===== src/Net.antt =====
-- An application and a device over bare metal, and the messages between them: what `icap_send_msg` and
-- `icap_parse_msg` of src/icap.c do on two cores whose steps come in any order.
pub mod Whole
pub mod Takes
pub mod First
pub mod Sides
pub mod Inv
pub mod Asks
pub mod Connected
pub mod Started
pub mod Handled
pub mod Answers
pub mod Drained
pub mod Settles
use icap.Prelude.{
  Run, ℕ, suc, ℤ, pos, ◌≤◌, ◌≡◌, ◌≢◌, List, [], ◌∷◌, ◌++◌, length, false, returns, if◌then◌else◌,
  ◌==◌, ◌||◌,
}
use icap.Wire.{Bytes, Cmd, SubdeviceFeatures, decode_msg, msg, ack, nak}
use icap.Core.{Pointer, ApplicationCallbacks, DeviceCallbacks, State, History, Event, parse_msg}
use icap.Core.Request.{Waiter, send_only}
use icap.BareMetal.Transport.{Transport, Platform, no_addr}
use icap.BareMetal.Loop.{link}

-- `rpmsg_lite_send` finds a free buffer for every message.
abbrev pub Accepts : Platform → Type 0
Accepts p =
    (i ept : Pointer) (addr : ℕ) (bytes : Bytes) (h : History) → p.send i ept addr bytes h ≡ pos 0

-- What stays the same: what surrounds each core, its callbacks, and the address under which the other
-- core sees it. Without buffers to send in, messages would get lost.
pub record Setup : Type 0 where
  pub app_platform : Platform
  pub dev_platform : Platform
  pub app_sends : Accepts app_platform
  pub dev_sends : Accepts dev_platform
  pub app_features : SubdeviceFeatures
  pub dev_features : SubdeviceFeatures
  pub app_waiter : Waiter Transport
  pub dev_waiter : Waiter Transport
  pub app_callbacks : ApplicationCallbacks
  pub dev_callbacks : DeviceCallbacks
  pub app_addr : ℕ
  pub dev_addr : ℕ

-- The messages of a history, oldest first.
unfoldable pub sent_in : History → List Bytes
sent_in [] = []
sent_in (Event.sent a b ∷ h) = sent_in h ++ (b ∷ [])
sent_in (Event.called c ∷ h) = sent_in h
sent_in (Event.released b ∷ h) = sent_in h
sent_in (Event.ticked t ∷ h) = sent_in h
sent_in (Event.timed_out d c ∷ h) = sent_in h

-- The two instances, and the messages of the other side that each has handled, oldest first. The
-- others that were sent are in flight, in rpmsg or in the receiver's ring, which both keep their
-- order; none is refused by a full ring.
pub record Net : Type 0 where
  pub app : State Transport
  pub dev : State Transport
  pub at_app : List Bytes
  pub at_dev : List Bytes

-- `icap_send_msg` up to its wait.
abbrev pub send_call :
    Platform → Waiter Transport → Cmd → Bytes → State Transport → Run (ℤ × State Transport)
send_call p w c args s = send_only (link p) w c args (length args) false s

-- `icap_parse_msg` of a message, with any bytes behind it in the receive buffer.
abbrev pub handle_msg :
    Platform → SubdeviceFeatures → ℕ → Bytes → Bytes → State Transport → Run (ℤ × State Transport)
handle_msg p u src m rest s = parse_msg (link p) u src (m ++ rest) (length m) s

module _ (e : Setup) where
  -- A call sends its message, of any length; a wait for the response is a sequence of the
  -- application's steps. A device without a peer yet has nobody to report to. A message is
  -- handled with any bytes behind it in the receive buffer.
  pub data Step (s : Net) : Net → Type 0 where
    ask :
        {a : State Transport} (c : Cmd) (args : Bytes) (ret : ℤ)
        → send_call e.app_platform e.app_waiter c args s.app ≡ returns (ret, a)
        → Step s (record s { app = a })
    report :
        {d : State Transport} (c : Cmd) (args : Bytes) (ret : ℤ)
        → s.dev.icap.transport.remote_addr ≢ no_addr
        → send_call e.dev_platform e.dev_waiter c args s.dev ≡ returns (ret, d)
        → Step s (record s { dev = d })
    to_device :
        {d : State Transport} (m rest : Bytes) (more : List Bytes) (ret : ℤ)
        → sent_in s.app.history ≡ s.at_dev ++ (m ∷ more)
        → handle_msg e.dev_platform e.dev_features e.app_addr m rest s.dev ≡ returns (ret, d)
        → Step s (record s { dev = d; at_dev = s.at_dev ++ (m ∷ []) })
    to_application :
        {a : State Transport} (m rest : Bytes) (more : List Bytes) (ret : ℤ)
        → sent_in s.dev.history ≡ s.at_app ++ (m ∷ more)
        → handle_msg e.app_platform e.app_features e.dev_addr m rest s.app ≡ returns (ret, a)
        → Step s (record s { app = a; at_app = s.at_app ++ (m ∷ []) })

  -- Reachable with so many steps.
  pub data Reach (s₀ : Net) : ℕ → Net → Type 0 where
    start : Reach s₀ 0 s₀
    later : {n : ℕ} {s t : Net} → Reach s₀ n s → Step s t → Reach s₀ (suc n) t

-- A message's sequence number and command.
pub record Note : Type 0 where
  pub seq_num : ℕ
  pub cmd : ℕ

abbrev pub note_of : Bytes → Note
note_of m = let h = (decode_msg m).header in record { seq_num = h.seq_num; cmd = h.cmd }

-- The messages that want a response, and the responses.
unfoldable pub requests : List Bytes → List Note
requests [] = []
requests (m ∷ ms) =
    let rest = requests ms in if (decode_msg m).header.type == msg then note_of m ∷ rest else rest

unfoldable pub responses : List Bytes → List Note
responses [] = []
responses (m ∷ ms) =
    let rest = responses ms in
    let type = (decode_msg m).header.type in
    if type == ack || type == nak then note_of m ∷ rest else rest
