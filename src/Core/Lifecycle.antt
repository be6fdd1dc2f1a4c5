-- ===== src/Core/Lifecycle.antt =====
-- Sequences of initialisations and deinitialisations of one instance, over any transport.
use icap.Prelude.{Option, none, some, List, [], ◌∷◌}
use icap.Core.Model.{Pointer, ApplicationCallbacks, DeviceCallbacks, Instance, Link}
use icap.Core.Typed.{AllTyped, application_init-IsTyped, device_init-IsTyped, deinit-IsTyped}
use icap.Core.Init.{application_init, device_init, deinit}

-- What a program may do with an instance, in any order; a pointer that is NULL is `none`.
pub data Use : Type 0 where
  as_application : Pointer → Option ApplicationCallbacks → Pointer → Use
  as_device : Pointer → Option DeviceCallbacks → Pointer → Use
  shut_down : Use

module _ {T : Type 0} (link : Link T) where
  abbrev pub shut : Option (Instance T) → Option (Instance T)
  shut none = none
  shut (some icap) = some (deinit link icap).1

  unfoldable pub use_once : Use → Option (Instance T) → Option (Instance T)
  use_once (as_application name cb priv) icap = (application_init link icap name cb priv).1
  use_once (as_device name cb priv) icap = (device_init link icap name cb priv).1
  use_once shut_down icap = shut icap

  unfoldable pub use_all : List Use → Option (Instance T) → Option (Instance T)
  unfolding use_once
  use_all [] icap = icap
  use_all (o ∷ os) icap = use_all os (use_once o icap)

  use_once-AllTyped :
      (o : Use) (icap : Option (Instance T)) → AllTyped icap → AllTyped (use_once o icap)
  unfolding use_once
  use_once-AllTyped (as_application name cb priv) icap h =
      application_init-IsTyped link icap name priv cb h
  use_once-AllTyped (as_device name cb priv) icap h = device_init-IsTyped link icap name priv cb h
  use_once-AllTyped shut_down none h = h
  use_once-AllTyped shut_down (some icap) h = deinit-IsTyped link icap h

  -- Over every transport: if the callbacks of an instance, where it has any, are those of the
  -- side that its type names, then this holds after every sequence of initialisations as either
  -- side, also of an instance in use or with NULL pointers, and of deinitialisations.
  pub use_all-AllTyped :
      (os : List Use) (icap : Option (Instance T)) → AllTyped icap → AllTyped (use_all os icap)
  unfolding use_all
  use_all-AllTyped [] icap h = h
  use_all-AllTyped (o ∷ os) icap h =
      use_all-AllTyped os (use_once o icap) (use_once-AllTyped o icap h)
