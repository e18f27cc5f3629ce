-- ===== src/Device.antt =====
-- src/device.rs: descriptors of devices, the registry of at most 32 of them, and the authorization of
-- opens and calls. `Registry` holds the theorems on the table, `Access` those on authorization.
pub mod Registry
pub mod Access
use Prim.Native.Nat.{ℕ, ◌^◌, bit_and}
use mathlib.Core.Bool.{Bool, true, false, not, ◌&&◌, ◌||◌}
use mathlib.Core.Option
use mathlib.Core.Option.{Option, none, some}
use mathlib.Core.List.{List}
use alani_kernel.Common.Tests.{ltb, ◌==◌, if◌then◌else◌, is_some}
use alani_kernel.Common.Lists.{find, update_first, count, replicate}
use alani_kernel.Error.{KernelError}
use alani_kernel.Outcome
use alani_kernel.Outcome.{KernelResult, ok, err, reject_if, ok_or}
use alani_kernel.Method.{Method, try, ◌>>=◌, ◌>>◌, self, modify, throw_if, ok_or_throw}
use alani_kernel.Capability.{Capability, CapabilitySet, empty, contains_all, require}

-- `MAX_DEVICES`
abbrev pub max_devices : ℕ
max_devices = 32

-- `DeviceId`
abbrev pub DeviceId : Type 0
DeviceId = ℕ

-- `DeviceClass`
pub data DeviceClass : Type 0 where
  console timer block entropy network_sim sensor_sim accelerator memory audit_storage : DeviceClass

-- The `repr(u8)` discriminants: `class as u64`.
unfoldable pub class_code : DeviceClass → ℕ
class_code DeviceClass.console = 0
class_code DeviceClass.timer = 1
class_code DeviceClass.block = 2
class_code DeviceClass.entropy = 3
class_code DeviceClass.network_sim = 4
class_code DeviceClass.sensor_sim = 5
class_code DeviceClass.accelerator = 6
class_code DeviceClass.memory = 7
class_code DeviceClass.audit_storage = 8

-- `DeviceLifecycle`
pub data DeviceLifecycle : Type 0 where
  discovered probed registered configured opened suspended removed : DeviceLifecycle

-- `DmaPolicy`
pub data DmaPolicy : Type 0 where
  no_dma pinned_user kernel_only : DmaPolicy

-- `DeviceOperation`
pub data DeviceOperation : Type 0 where
  query read write submit cancel reset health : DeviceOperation

-- The `repr(u32)` discriminants: `operation as u32`.
unfoldable pub operation_code : DeviceOperation → ℕ
operation_code DeviceOperation.query = 0
operation_code DeviceOperation.read = 1
operation_code DeviceOperation.write = 2
operation_code DeviceOperation.submit = 3
operation_code DeviceOperation.cancel = 4
operation_code DeviceOperation.reset = 5
operation_code DeviceOperation.health = 6

-- `DeviceOperation::from_raw`
unfoldable pub operation_from_raw : ℕ → Option DeviceOperation
operation_from_raw raw =
    if raw == 0
    then some DeviceOperation.query
    else if raw == 1
    then some DeviceOperation.read
    else if raw == 2
    then some DeviceOperation.write
    else if raw == 3
    then some DeviceOperation.submit
    else if raw == 4
    then some DeviceOperation.cancel
    else if raw == 5
    then some DeviceOperation.reset
    else if raw == 6
    then some DeviceOperation.health
    else none

-- `DeviceDescriptor`
pub record DeviceDescriptor : Type 0 where
  pub id : DeviceId
  pub class : DeviceClass
  pub lifecycle : DeviceLifecycle
  pub required_capabilities : CapabilitySet
  pub supported_operations : ℕ
  pub max_input_len : ℕ
  pub max_output_len : ℕ
  pub dma_policy : DmaPolicy

-- `DeviceDescriptor::EMPTY`
abbrev pub empty_descriptor : DeviceDescriptor
empty_descriptor = record {
  id = 0;
  class = DeviceClass.console;
  lifecycle = DeviceLifecycle.removed;
  required_capabilities = empty;
  supported_operations = 0;
  max_input_len = 0;
  max_output_len = 0;
  dma_policy = DmaPolicy.no_dma;
}

unfoldable pub supports : DeviceDescriptor → DeviceOperation → Bool
unfolding operation_code
supports d operation = not (bit_and d.supported_operations (2 ^ operation_code operation) == 0)

-- The lifecycles in which a device may be called.
unfoldable pub is_available_in : DeviceLifecycle → Bool
is_available_in DeviceLifecycle.registered = true
is_available_in DeviceLifecycle.configured = true
is_available_in DeviceLifecycle.opened = true
is_available_in _ = false

-- `DeviceDescriptor::is_available`
unfoldable pub is_available : DeviceDescriptor → Bool
unfolding is_available_in
is_available d = is_available_in d.lifecycle

-- `DeviceSlot`
pub record DeviceSlot : Type 0 where
  pub occupied : Bool
  pub descriptor : DeviceDescriptor

-- `DeviceSlot::EMPTY`
abbrev pub empty_slot : DeviceSlot
empty_slot = record { occupied = false; descriptor = empty_descriptor }

-- `DeviceRegistry`
pub record DeviceRegistry : Type 0 where
  pub slots : List DeviceSlot

-- `DeviceRegistry::new`
abbrev pub new : DeviceRegistry
new = record { slots = replicate max_devices empty_slot }

-- The tests by which `register` chooses a slot and `get` finds a device.
abbrev pub is_vacant : DeviceSlot → Bool
is_vacant s = not s.occupied

abbrev pub holds_device : DeviceId → DeviceSlot → Bool
holds_device id s = s.occupied && s.descriptor.id == id

unfoldable pub get : DeviceRegistry → DeviceId → Option DeviceDescriptor
get r id = Option.map (λ s. s.descriptor) (find (holds_device id) r.slots)

unfoldable pub register : DeviceDescriptor → Method DeviceRegistry (Unit {0})
register descriptor = do
  throw_if (descriptor.id == 0) KernelError.invalid_argument
  r ← self
  throw_if (is_some (get r descriptor.id)) KernelError.duplicate
  slot ← ok_or_throw (find is_vacant r.slots) KernelError.capacity_exceeded
  modify (λ s. record s {
    slots =
        update_first is_vacant (λ _. record { occupied = true; descriptor = descriptor }) s.slots;
  })

unfoldable pub len : DeviceRegistry → ℕ
len r = count (λ s. s.occupied) r.slots

unfoldable pub is_empty : DeviceRegistry → Bool
unfolding len
is_empty r = len r == 0

unfoldable pub authorize_open :
    DeviceRegistry → DeviceId → CapabilitySet → KernelResult DeviceDescriptor
authorize_open r id caller = Outcome.◌>>◌ (require caller Capability.device_open) (
    Outcome.◌>>=◌ (ok_or (get r id) KernelError.not_found) λ d.
      Outcome.◌>>◌ (reject_if (not (is_available d)) KernelError.busy) (
        Outcome.◌>>◌
          (reject_if (not (contains_all caller d.required_capabilities))
            KernelError.missing_capability)
          (ok d)))

unfoldable pub authorize_call :
    DeviceRegistry
    → DeviceId
    → DeviceOperation
    → CapabilitySet
    → ℕ
    → ℕ
    → KernelResult DeviceDescriptor
authorize_call r id operation caller input_len output_len =
    Outcome.◌>>◌ (require caller Capability.device_call) (
      Outcome.◌>>=◌ (ok_or (get r id) KernelError.not_found) λ d.
        Outcome.◌>>◌ (reject_if (not (is_available d)) KernelError.busy) (
          Outcome.◌>>◌ (reject_if (not (supports d operation)) KernelError.invalid_argument) (
            Outcome.◌>>◌
              (reject_if (not (contains_all caller d.required_capabilities))
                KernelError.missing_capability)
              (Outcome.◌>>◌
                (reject_if (ltb d.max_input_len input_len || ltb d.max_output_len output_len)
                  KernelError.buffer_too_large)
                (ok d)))))
