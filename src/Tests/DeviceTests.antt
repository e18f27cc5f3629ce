-- ===== src/Tests/DeviceTests.antt =====
-- src/device.rs: a registry with one device, and who may open and call it.
use mathlib.Core.Path.{◌≡◌, refl}
use mathlib.Core.List.{[], ◌∷◌}
use alani_kernel.Outcome.{ok}
use alani_kernel.Capability.{Capability, CapabilitySet, contains}
use alani_kernel.Device.{
  DeviceId, DeviceClass, DeviceLifecycle, DmaPolicy, DeviceOperation, DeviceDescriptor,
  DeviceRegistry, new, get, register, supports, authorize_open, authorize_call,
}
use alani_kernel.Device.Registry.{IsRegistry, register_all, register_all-new-IsRegistry}

-- A timer that answers queries and reads.
abbrev timer : DeviceDescriptor
timer = record {
  id = 5;
  class = DeviceClass.timer;
  lifecycle = DeviceLifecycle.registered;
  required_capabilities = record { bits = 16 };
  supported_operations = 3;
  max_input_len = 8;
  max_output_len = 16;
  dma_policy = DmaPolicy.no_dma;
}

abbrev with_timer : DeviceRegistry
with_timer = (register timer new).1

-- Listing, opening and calling devices.
abbrev user : CapabilitySet
user = record { bits = 112 }

register_all-new-IsRegistry_example : IsRegistry (register_all new (timer ∷ timer ∷ []))
register_all-new-IsRegistry_example = register_all-new-IsRegistry (timer ∷ timer ∷ [])

register-timer : (register timer new).0 ≡ ok tt
unfolding register get
register-timer = refl

authorize_open_test : authorize_open with_timer 5 user ≡ ok timer
unfolding authorize_open alani_kernel.Capability.require get register
    alani_kernel.Device.is_available alani_kernel.Capability.contains_all
authorize_open_test = refl

authorize_call_test : authorize_call with_timer 5 DeviceOperation.read user 8 16 ≡ ok timer
unfolding authorize_call alani_kernel.Capability.require get register
    alani_kernel.Device.is_available supports alani_kernel.Capability.contains_all
authorize_call_test = refl
