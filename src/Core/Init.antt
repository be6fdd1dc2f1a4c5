-- ===== src/Core/Init.antt =====
-- `icap_application_init`, `icap_device_init` and their counterparts of src/icap.c.
use icap.Prelude.{ℕ, ℤ, pos, neg, Option, none, some}
use icap.Wire.{error_invalid, error_busy}
use icap.Core.Model.{
  Pointer, ApplicationCallbacks, DeviceCallbacks, Callbacks, application, device, Instance, Link,
  application_instance, device_instance,
}

module _ {T : Type 0} (link : Link T) where
  -- The assignments that both functions make, and `icap_init_transport`.
  unfoldable pub set_up : Pointer → ℕ → Callbacks → Pointer → Instance T → ℤ × Instance T
  set_up name type cb priv icap =
      let (ret, t) = link.init_transport icap.transport in
      (
        ret,
        record {
          transport = t;
          name = name;
          type = type;
          priv = priv;
          callbacks = some cb;
          seq_num = 0;
        },
      )

  -- `none` for `icap` or the callbacks is NULL.
  unfoldable pub application_init :
      Option (Instance T)
      → Pointer
      → Option ApplicationCallbacks
      → Pointer
      → ℤ × Option (Instance T)
  unfolding set_up
  application_init none name cb priv = (neg error_invalid, none)
  application_init (some icap) name none priv = (neg error_invalid, some icap)
  application_init (some icap) name (some cb) priv = elim icap.callbacks [
    | some _ ↦ (neg error_busy, some icap)
    | none ↦
        let (ret, icap') = set_up name application_instance (application cb) priv icap in
        (ret, some icap')
  ]

  unfoldable pub device_init :
      Option (Instance T) → Pointer → Option DeviceCallbacks → Pointer → ℤ × Option (Instance T)
  unfolding set_up
  device_init none name cb priv = (neg error_invalid, none)
  device_init (some icap) name none priv = (neg error_invalid, some icap)
  device_init (some icap) name (some cb) priv =
      let (ret, icap') = set_up name device_instance (device cb) priv icap in (ret, some icap')

  -- `icap_application_deinit` and `icap_device_deinit` have one body.
  unfoldable pub deinit : Instance T → ℤ × Instance T
  deinit icap = elim icap.callbacks [
    | none ↦ (pos 0, icap)
    | some _ ↦
        let (ret, t) = link.deinit_transport icap.transport in
        (ret, record icap { transport = t; callbacks = none })
  ]
