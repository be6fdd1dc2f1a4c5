-- ===== src/Net/Started.antt =====
-- An application and a device right after icap_application_init and icap_device_init of src/icap.c, once
-- the application's code has set the device's address.
use icap.Prelude.{ℕ, pos, ◌≤◌, ◌≡◌, ◌≢◌, refl, inl, some, none, [], length}
use icap.Core.{Pointer, application, device, Callbacks, Instance}
use icap.Core.Init.{application_init, device_init, set_up}
use icap.BareMetal.Transport.{Transport, no_addr}
use icap.BareMetal.Fifo.{cleared}
use icap.BareMetal.Loop.{link, init_transport}
use icap.Net.{Setup, Net, sent_in}
use icap.Net.Connected.{Connected}

-- What an initialisation makes of an instance.
abbrev pub fresh : Callbacks → ℕ → Pointer → Pointer → Instance Transport → Instance Transport
fresh cb type name priv icap = record {
  transport = record icap.transport { msg_fifo = cleared; remote_addr = no_addr };
  name = name;
  type = type;
  priv = priv;
  callbacks = some cb;
  seq_num = 0;
}

abbrev pub started : ℕ → Instance Transport → Instance Transport → Net
started addr a d = record {
  app = record {
    icap = record a { transport = record a.transport { remote_addr = addr } };
    history = [];
  };
  dev = record { icap = d; history = [] };
  at_app = [];
  at_dev = [];
}

module _ (e : Setup) (a d : Instance Transport) (name₁ priv₁ name₂ priv₂ : Pointer) where
  pub init-Connected :
      a.callbacks ≡ none
      → 304 ≤ length a.transport.last_response
      → e.dev_addr ≢ no_addr
      → e.app_addr ≢ no_addr
      → let a' = fresh (application e.app_callbacks) 0 name₁ priv₁ a in
        let d' = fresh (device e.dev_callbacks) 1 name₂ priv₂ d in
        (application_init (link e.app_platform) (some a) name₁ (some e.app_callbacks) priv₁
          ≡ (pos 0, some a'))
        × (device_init (link e.dev_platform) (some d) name₂ (some e.dev_callbacks) priv₂
            ≡ (pos 0, some d'))
        × Connected e (started e.dev_addr a' d')
  unfolding application_init device_init link init_transport set_up sent_in
  init-Connected idle room k₁ k₂ = (
    rw idle refl,
    refl,
    record {
      app = record { callbacks = refl; type = refl; knows = (refl, k₁) };
      dev = record { callbacks = refl; type = refl; peer = inl refl; known = k₂ };
      room = room;
      app_silent = refl;
      dev_silent = refl;
      app_number = refl;
      dev_number = refl;
      app_fresh = refl;
      dev_fresh = refl;
    },
  )
