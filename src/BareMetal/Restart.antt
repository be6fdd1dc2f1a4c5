-- ===== src/BareMetal/Restart.antt =====
-- What an init of src/icap.c does to an instance that is in use, over bare metal.
use icap.Prelude.{arith, ◌≡◌, ◌≢◌, refl, pos, neg, Option, none, some}
use icap.Wire.{error_busy}
use icap.Core.{Pointer, State, Instance, Callbacks, ApplicationCallbacks, DeviceCallbacks, device}
use icap.Core.Init.{set_up, application_init, device_init}
use icap.BareMetal.Transport.{Transport, Platform, no_addr}
use icap.BareMetal.Fifo.{cleared}
use icap.BareMetal.Loop.{link, init_transport}
use icap.BareMetal.Keeps.{releases}
use icap.BareMetal.Sound.{buffers}

-- The instance that `icap_device_init` leaves.
abbrev pub as_device : Pointer → Pointer → DeviceCallbacks → Instance Transport → Instance Transport
as_device name priv dev icap = record {
  transport = record icap.transport { msg_fifo = cleared; remote_addr = no_addr };
  name = name;
  type = 1;
  priv = priv;
  callbacks = some (device dev);
  seq_num = 0;
}

module _ (p : Platform) where
  application_init-busy :
      (icap : Instance Transport) (o : Option Callbacks) (name priv : Pointer)
      (cb : ApplicationCallbacks)
      → icap.callbacks ≡ o
      → o ≢ none
      → application_init (link p) (some icap) name (some cb) priv ≡ (neg error_busy, some icap)
  unfolding application_init
  application_init-busy icap none name priv cb e h = absurd (h refl)
  application_init-busy icap (some c) name priv cb e h = ground arith

  -- For every instance in use, icap_application_init returns -ICAP_ERROR_BUSY and leaves it
  -- alone, but icap_device_init over bare metal returns 0, makes it a device without a peer, and
  -- of the receive buffers that were handed over only those that were already given back are
  -- accounted for: the buffers of the waiting messages are lost.
  pub device_init-forgets :
      (s : State Transport) (name priv : Pointer) (app : ApplicationCallbacks)
      (dev : DeviceCallbacks)
      → s.icap.callbacks ≢ none
      → (application_init (link p) (some s.icap) name (some app) priv
          ≡ (neg error_busy, some s.icap))
        × (device_init (link p) (some s.icap) name (some dev) priv
            ≡ (pos 0, some (as_device name priv dev s.icap)))
        × (buffers (record { icap = as_device name priv dev s.icap; history = s.history })
            ≡ releases s.history)
  unfolding device_init set_up link init_transport cleared
  device_init-forgets s name priv app dev h =
      (application_init-busy s.icap s.icap.callbacks name priv app refl h, refl, refl)
