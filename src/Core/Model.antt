-- ===== src/Core/Model.antt =====
-- The state of an ICAP instance (include/icap.h, include/icap_application.h,
-- include/icap_device.h), what happens around it, and the interface of the transport
-- (src/platform/icap_transport.h) as far as the message handlers of src/icap.c use it.
use icap.Prelude.{ℕ, ℤ, Option, List, ◌∷◌, Run}
use icap.Wire.{Bytes, BufDescriptor, BufFrags, BufOffsets, SubdeviceFeatures, SubdeviceParams}

-- A pointer that is only stored and handed on.
abbrev pub Pointer : Type 0
Pointer = ℕ

-- A call of one of the user's callbacks, with its arguments.
pub data Call : Type 0 where
  frag_ready xrun : BufFrags → Call
  error : ℤ → Call
  get_subdevices : Call
  get_subdevice_features : ℕ → Call
  subdevice_init : SubdeviceParams → Call
  subdevice_deinit : ℕ → Call
  add_src add_dst : BufDescriptor → Call
  remove_src remove_dst start stop pause resume : ℕ → Call
  frags : BufOffsets → Call
  frag_ready_response xrun_response error_response : ℤ → Call

-- What an instance does that others can see.
pub data Event : Type 0 where
  called : Call → Event
  sent : ℕ → Bytes → Event
  released : ℕ → Event
  ticked : ℕ → Event
  timed_out : ℕ → ℕ → Event

-- The latest event stands first. What the environment answers, a callback's result for one, may
-- depend on everything that has happened.
abbrev pub History : Type 0
History = List Event

abbrev pub Callback : Type 0 → Type 0
Callback A = Option (A → History → ℤ)

-- `none` is a NULL pointer.
pub record ApplicationCallbacks : Type 0 where
  pub frag_ready : Callback BufFrags
  pub xrun : Callback BufFrags
  pub error : Callback ℤ

-- `get_subdevice_features` writes the features beside its result.
pub record DeviceCallbacks : Type 0 where
  pub get_subdevices : Option (History → ℤ)
  pub get_subdevice_features : Option (ℕ → SubdeviceFeatures → History → ℤ × SubdeviceFeatures)
  pub subdevice_init : Callback SubdeviceParams
  pub subdevice_deinit : Callback ℕ
  pub add_src : Callback BufDescriptor
  pub add_dst : Callback BufDescriptor
  pub remove_src : Callback ℕ
  pub remove_dst : Callback ℕ
  pub start : Callback ℕ
  pub stop : Callback ℕ
  pub pause : Callback ℕ
  pub resume : Callback ℕ
  pub frags : Callback BufOffsets
  pub frag_ready_response : Callback ℤ
  pub xrun_response : Callback ℤ
  pub error_response : Callback ℤ

-- What the `void *callbacks` of an instance points to.
pub data Callbacks : Type 0 where
  application : ApplicationCallbacks → Callbacks
  device : DeviceCallbacks → Callbacks

-- `enum icap_instance_type`
abbrev pub application_instance : ℕ
application_instance = 0

abbrev pub device_instance : ℕ
device_instance = 1

-- `struct icap_instance`, over the transport's own state.
pub record Instance (T : Type 0) : Type 0 where
  pub transport : T
  pub name : Pointer
  pub type : ℕ
  pub priv : Pointer
  pub callbacks : Option Callbacks
  pub seq_num : ℕ

-- An instance with its history.
pub record State (T : Type 0) : Type 0 where
  pub icap : Instance T
  pub history : History

abbrev pub record_event : {T : Type 0} → Event → State T → State T
record_event e s = record s { history = e ∷ s.history }

abbrev pub set_transport : {T : Type 0} → T → State T → State T
set_transport t s = record s { icap = record s.icap { transport = t } }

-- The transport's functions that the handlers call. `size_mod` is the modulus of the core's
-- `size_t`.
pub record Link (T : Type 0) : Type 0 where
  pub size_mod : ℕ
  pub init_transport : T → ℤ × T
  pub deinit_transport : T → ℤ × T
  pub verify_remote : T → ℕ → ℤ × T
  pub send_platform : T → Bytes → History → ℤ × History
  pub response_notify : T → Bytes → Run (ℤ × T)
