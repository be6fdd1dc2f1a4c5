-- ===== src/Core/Typed.antt =====
-- The `void *callbacks` of an instance points to callbacks of the instance's own side, so that the
-- casts of src/icap.c are right.
use icap.Prelude.{◌>>=◌, ℕ, ◌≡◌, refl, Option, none, some, arith, Run, returns, faults, runs_on}
use icap.Core.Model.{
  Pointer, ApplicationCallbacks, DeviceCallbacks, Callbacks, application, device, Instance, Link,
  application_instance, device_instance,
}
use icap.Core.Init.{application_init, device_init, deinit}

abbrev pub AgreesWith : Option Callbacks → ℕ → Type 0
AgreesWith none type = Unit {0}
AgreesWith (some (application cb)) type = type ≡ application_instance
AgreesWith (some (device cb)) type = type ≡ device_instance

abbrev pub IsTyped : {T : Type 0} → Instance T → Type 0
IsTyped icap = AgreesWith icap.callbacks icap.type

abbrev pub AllTyped : {T : Type 0} → Option (Instance T) → Type 0
AllTyped none = Unit {0}
AllTyped (some icap) = IsTyped icap

-- A property of what a computation returns; a computation that faults or runs on has none.
abbrev pub Returns {ℓ} : {A : Type ℓ} → Run A → (A → Type 0) → Type 0
Returns (returns a) P = P a
Returns faults P = ⊥
Returns runs_on P = ⊥

pub Returns-map {ℓ} :
    {A : Type ℓ} {P Q : A → Type 0} (r : Run A) → ((a : A) → P a → Q a) → Returns r P → Returns r Q
Returns-map (returns a) f h = f a h
Returns-map faults f h = h
Returns-map runs_on f h = h

pub Returns-bind {ℓ κ} :
    {A : Type ℓ} {B : Type κ} {P : A → Type 0} (Q : B → Type 0) (r : Run A) (f : A → Run B)
    → Returns r P
    → ((a : A) → P a → Returns (f a) Q)
    → Returns (r >>= f) Q
Returns-bind Q (returns a) f h g = g a h
Returns-bind Q faults f h g = h
Returns-bind Q runs_on f h g = h

module _ {T : Type 0} (link : Link T) where
  application_init-split :
      (icap : Instance T) (o : Option Callbacks) (name priv : Pointer) (cb : ApplicationCallbacks)
      → icap.callbacks ≡ o
      → IsTyped icap
      → AllTyped (application_init link (some icap) name (some cb) priv).1
  unfolding application_init
  application_init-split icap none name priv cb e h = rw (e, application_init) refl
  application_init-split icap (some _) name priv cb e h = rw (e, application_init) h

  -- Initialisation of either side and deinitialisation keep the pointer and the type together.
  pub application_init-IsTyped :
      (icap : Option (Instance T)) (name priv : Pointer) (cb : Option ApplicationCallbacks)
      → AllTyped icap
      → AllTyped (application_init link icap name cb priv).1
  unfolding application_init
  application_init-IsTyped none name priv cb h = tt
  application_init-IsTyped (some icap) name priv none h = h
  application_init-IsTyped (some icap) name priv (some cb) h =
      application_init-split icap icap.callbacks name priv cb refl h

  pub device_init-IsTyped :
      (icap : Option (Instance T)) (name priv : Pointer) (cb : Option DeviceCallbacks)
      → AllTyped icap
      → AllTyped (device_init link icap name cb priv).1
  unfolding device_init
  device_init-IsTyped none name priv cb h = tt
  device_init-IsTyped (some icap) name priv none h = h
  device_init-IsTyped (some icap) name priv (some cb) h = refl

  pub deinit-IsTyped : (icap : Instance T) → IsTyped icap → IsTyped (deinit link icap).1
  unfolding deinit
  deinit-IsTyped icap h = ground arith
