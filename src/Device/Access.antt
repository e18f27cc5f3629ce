-- ===== src/Device/Access.antt =====
-- src/device.rs, `authorize_open` and `authorize_call`: whom they let through.
use Prim.Native.Nat.{ℕ, ◌≤◌}
use mathlib.Core.Path.{◌≡◌}
use mathlib.Core.Logic.{◌↔◌}
use mathlib.Core.Bool.{true}
use mathlib.Core.Option.{some}
use native.Mathlib.Omega.{arith}
use alani_kernel.Outcome.{ok}
use alani_kernel.Capability.{Capability, CapabilitySet, contains, contains_all, require}
use alani_kernel.Device.{
  DeviceId, DeviceDescriptor, DeviceOperation, DeviceRegistry, get, supports, is_available,
  authorize_open, authorize_call,
}

-- The device is in the registry and available, and the caller has what it asks for.
abbrev pub IsOpenFor : DeviceRegistry → DeviceId → CapabilitySet → DeviceDescriptor → Type 0
IsOpenFor r id caller d =
    (get r id ≡ some d)
    × (is_available d ≡ true)
    × (contains_all caller d.required_capabilities ≡ true)

-- `authorize_open` lets a caller through, with the descriptor of the device, exactly if the caller has
-- `DeviceOpen`, the device is registered and available, and the caller has every capability that the
-- device requires.
authorize_open_iff :
    (r : DeviceRegistry) (id : DeviceId) (caller : CapabilitySet) (d : DeviceDescriptor)
    → (authorize_open r id caller ≡ ok d)
      ↔ ((contains caller Capability.device_open ≡ true) × IsOpenFor r id caller d)
unfolding authorize_open require
authorize_open_iff r id caller d = ground arith

-- `authorize_call` lets a caller through, with the descriptor of the device, exactly if the caller has
-- `DeviceCall`, the device is registered and available, it supports the operation, the caller has every
-- capability that the device requires, and both lengths are within the limits of the device.
pub authorize_call_iff :
    (r : DeviceRegistry) (id : DeviceId) (operation : DeviceOperation) (caller : CapabilitySet)
    (input_len output_len : ℕ) (d : DeviceDescriptor)
    → (authorize_call r id operation caller input_len output_len ≡ ok d) ↔ (
        (contains caller Capability.device_call ≡ true)
        × IsOpenFor r id caller d
        × (supports d operation ≡ true)
        × (input_len ≤ d.max_input_len)
        × (output_len ≤ d.max_output_len))
unfolding authorize_call require
authorize_call_iff r id operation caller input_len output_len d = ground arith
