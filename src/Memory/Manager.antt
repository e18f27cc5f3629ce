-- ===== src/Memory/Manager.antt =====
-- src/memory.rs, `MemoryManager`: the phases of the allocator, the validation of user ranges and
-- buffers, and the table of shared regions.
pub mod Settings
pub mod Ranges
pub mod Sharing
use Prim.Native.Nat.{ℕ, ◌+◌, ◌-◌, bit_and, bit_or}
use mathlib.Core.Bool.{Bool, true, false, not, ◌&&◌, ◌||◌}
use mathlib.Core.Option.{Option}
use mathlib.Core.List.{List}
use alani_kernel.Common.Tests.{ltb, leb, ◌==◌, if◌then◌else◌}
use alani_kernel.Common.Words.{u32_mod, u64_mod, checked_add, complement, is_power_of_two}
use alani_kernel.Common.Lists.{find, update_first, count, replicate}
use alani_kernel.Error.{KernelError}
use alani_kernel.Outcome.{KernelResult, ok, err, reject_if, ok_or}
use alani_kernel.Outcome
use alani_kernel.Method.{
  Method, try, ◌>>=◌, ◌>>◌, return, self, modify, query, throw_if, ok_or_throw, within,
}
use alani_kernel.Capability.{TaskId}
use alani_kernel.Abi.{UserBuffer, has_unknown_flags, user_buffer_read, user_buffer_write}
use alani_kernel.Memory.{
  MemoryPermissions, MemoryRegion, MemoryRegionKind, AllocatorPhase, BufferAccess,
  ValidatedUserBuffer, SharedMemoryHandle, SharedRegion, MemoryStats, invalid_shared,
  write_permission, sealed_permission, permits, default_user_lower_bound, default_user_upper_bound,
  default_max_user_buffer_len,
}
use alani_kernel.Memory.Map
use alani_kernel.Memory.Map.{MemoryMap, total_by_kind}

-- `MAX_SHARED_REGIONS`
abbrev pub max_shared_regions : ℕ
max_shared_regions = 32

-- `SharedRegion::EMPTY`
abbrev pub empty_shared : SharedRegion
empty_shared = record { handle = invalid_shared; start = 0; len = 0; sealed = true }

-- `MemoryManager`
pub record MemoryManager : Type 0 where
  pub map : MemoryMap
  pub allocator_phase : AllocatorPhase
  pub user_lower_bound : ℕ
  pub user_upper_bound : ℕ
  pub max_user_buffer_len : ℕ
  pub minimum_user_alignment : ℕ
  pub shared_regions : List SharedRegion
  pub next_shared_id : ℕ

-- `MemoryManager::new`
abbrev pub new : MemoryManager
new = record {
  map = Map.new;
  allocator_phase = AllocatorPhase.uninitialized;
  user_lower_bound = default_user_lower_bound;
  user_upper_bound = default_user_upper_bound;
  max_user_buffer_len = default_max_user_buffer_len;
  minimum_user_alignment = 1;
  shared_regions = replicate max_shared_regions empty_shared;
  next_shared_id = 1;
}

-- The transitions that `set_allocator_phase` accepts, the phase itself included.
unfoldable pub valid_phase_change : AllocatorPhase → AllocatorPhase → Bool
valid_phase_change AllocatorPhase.uninitialized AllocatorPhase.uninitialized = true
valid_phase_change AllocatorPhase.uninitialized AllocatorPhase.boot_bump = true
valid_phase_change AllocatorPhase.boot_bump AllocatorPhase.boot_bump = true
valid_phase_change AllocatorPhase.boot_bump AllocatorPhase.frame = true
valid_phase_change AllocatorPhase.frame AllocatorPhase.frame = true
valid_phase_change AllocatorPhase.frame AllocatorPhase.heap = true
valid_phase_change AllocatorPhase.heap AllocatorPhase.heap = true
valid_phase_change _ _ = false

unfoldable pub set_allocator_phase : AllocatorPhase → Method MemoryManager (Unit {0})
unfolding valid_phase_change
set_allocator_phase phase = do
  m ← self
  throw_if (not (valid_phase_change m.allocator_phase phase)) KernelError.invalid_state
  modify (λ n. record n { allocator_phase = phase })

unfoldable pub set_user_bounds : ℕ → ℕ → Method MemoryManager (Unit {0})
set_user_bounds lower upper = do
  throw_if (lower == 0 || leb upper lower) KernelError.invalid_argument
  modify (λ m. record m { user_lower_bound = lower; user_upper_bound = upper })

unfoldable pub set_max_user_buffer_len : ℕ → Method MemoryManager (Unit {0})
set_max_user_buffer_len max_len = do
  throw_if (max_len == 0) KernelError.invalid_argument
  modify (λ m. record m { max_user_buffer_len = max_len })

unfoldable pub set_minimum_user_alignment : ℕ → Method MemoryManager (Unit {0})
set_minimum_user_alignment alignment = do
  throw_if (alignment == 0 || not (is_power_of_two alignment)) KernelError.invalid_argument
  modify (λ m. record m { minimum_user_alignment = alignment })

-- The checks of a range once its end is known.
unfoldable pub validate_bounds : MemoryManager → ℕ → ℕ → KernelResult (Unit {0})
validate_bounds m ptr end =
    Outcome.◌>>◌
      (reject_if (ltb ptr m.user_lower_bound || ltb m.user_upper_bound end)
        KernelError.buffer_out_of_range)
      (reject_if (not (bit_and ptr (m.minimum_user_alignment - 1) == 0))
        KernelError.invalid_user_buffer)

unfoldable pub validate_user_range : MemoryManager → ℕ → ℕ → KernelResult (Unit {0})
unfolding validate_bounds
validate_user_range m ptr len =
    Outcome.◌>>◌ (reject_if (ptr == 0 || len == 0) KernelError.invalid_user_buffer) (
      Outcome.◌>>◌ (reject_if (ltb m.max_user_buffer_len len) KernelError.buffer_too_large) (
        Outcome.◌>>=◌ (ok_or (checked_add u64_mod ptr len) KernelError.invalid_user_buffer)
          (validate_bounds m ptr)))

-- The flags that an access asks for.
unfoldable pub required_flags : BufferAccess → ℕ
required_flags BufferAccess.read = user_buffer_read
required_flags BufferAccess.write = user_buffer_write
required_flags BufferAccess.read_write = bit_or user_buffer_read user_buffer_write

unfoldable pub validate_user_buffer :
    MemoryManager → UserBuffer → BufferAccess → KernelResult ValidatedUserBuffer
validate_user_buffer m buffer access =
    Outcome.◌>>◌
      (reject_if (not (buffer.reserved == 0) || has_unknown_flags buffer) KernelError.reserved_bits)
      (Outcome.◌>>◌
        (reject_if (not (bit_and buffer.flags (required_flags access) == required_flags access))
          KernelError.permission_denied)
        (Outcome.◌>>◌ (validate_user_range m buffer.ptr buffer.len)
          (ok (record { ptr = buffer.ptr; len = buffer.len; access = access }))))

-- The test by which `share_region` chooses a slot.
abbrev pub is_vacant : SharedRegion → Bool
is_vacant r = r.handle.id == 0

-- The test by which `seal_shared_region` and `shared_region` find a region.
abbrev pub is_shared_as : SharedMemoryHandle → SharedRegion → Bool
is_shared_as h r = r.handle.id == h.id && not (r.handle.id == 0)

unfoldable pub share_region :
    TaskId → ℕ → ℕ → MemoryPermissions → Method MemoryManager SharedMemoryHandle
share_region owner_task start len permissions = do
  query (λ m. validate_user_range m start len)
  throw_if (permits permissions sealed_permission) KernelError.sealed
  m ← self
  slot ← ok_or_throw (find is_vacant m.shared_regions) KernelError.capacity_exceeded
  let handle : SharedMemoryHandle = record {
    id = m.next_shared_id;
    owner_task = owner_task;
    permissions = permissions.bits;
  }
  next ← ok_or_throw (checked_add u64_mod m.next_shared_id 1) KernelError.internal
  modify (λ n. record n { next_shared_id = next })
  modify (λ n. record n {
    shared_regions =
        update_first is_vacant
          (λ _. record { handle = handle; start = start; len = len; sealed = false })
          n.shared_regions;
  })
  return handle

-- What sealing makes of a region: no writes, and the mark.
abbrev pub seal : SharedRegion → SharedRegion
seal r = record r {
  handle = record {
    id = r.handle.id;
    owner_task = r.handle.owner_task;
    permissions =
        bit_or (bit_and r.handle.permissions (complement u32_mod write_permission.bits))
          sealed_permission.bits;
  };
  sealed = true;
}

unfoldable pub seal_shared_region : SharedMemoryHandle → Method MemoryManager (Unit {0})
seal_shared_region handle = do
  m ← self
  found ← ok_or_throw (find (is_shared_as handle) m.shared_regions) KernelError.not_found
  modify
      (λ n. record n { shared_regions = update_first (is_shared_as handle) seal n.shared_regions })

unfoldable pub shared_region : MemoryManager → SharedMemoryHandle → KernelResult SharedRegion
shared_region m handle = ok_or (find (is_shared_as handle) m.shared_regions) KernelError.not_found

-- `MemoryManager::memory_map_mut`, for a method of the map.
abbrev pub on_map {ℓ} : {A : Type ℓ} → Method MemoryMap A → Method MemoryManager A
on_map = within (λ m. m.map) (λ map m. record m { map = map })

unfoldable pub stats : MemoryManager → MemoryStats
stats m = record {
  usable_bytes = total_by_kind m.map MemoryRegionKind.usable;
  region_count = m.map.len;
  shared_region_count = count (λ r. not (r.handle.id == 0)) m.shared_regions;
  allocator_phase = m.allocator_phase;
}
