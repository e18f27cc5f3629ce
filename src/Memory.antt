-- ===== src/Memory.antt =====
-- src/memory.rs, the vocabulary: kinds and permissions of regions, regions and the bounds of the
-- address space. `Map` is the boot memory map, `Manager` the memory manager.
pub mod Map
pub mod Manager
use Prim.Native.Nat.{ℕ, ◌+◌, ◌*◌, ◌-◌, ◌^◌, ◌%◌, bit_and, bit_or}
use mathlib.Core.Bool.{Bool, false, ◌&&◌}
use mathlib.Core.Option.{none, some}
use alani_kernel.Common.Tests.{ltb, leb, ◌==◌, if◌then◌else◌, is_some}
use alani_kernel.Common.Words.{u32_mod, u64_mod, checked_add, complement}
use alani_kernel.Error.{KernelError}
use alani_kernel.Outcome.{KernelResult, ok, err}
use alani_kernel.Capability.{TaskId}

-- `DEFAULT_USER_LOWER_BOUND`
abbrev pub default_user_lower_bound : ℕ
default_user_lower_bound = 0x0000_0000_0000_1000

-- `DEFAULT_USER_UPPER_BOUND`
abbrev pub default_user_upper_bound : ℕ
default_user_upper_bound = 0x0000_8000_0000_0000

-- `DEFAULT_MAX_USER_BUFFER_LEN`
abbrev pub default_max_user_buffer_len : ℕ
default_max_user_buffer_len = 16 * 1024 * 1024

-- `MemoryRegionKind`
pub data MemoryRegionKind : Type 0 where
  usable reserved kernel_text kernel_read_only kernel_data stack user mmio : MemoryRegionKind
  guard bootloader device : MemoryRegionKind

-- The `repr(u8)` discriminants, by which the derived `==` compares.
unfoldable pub kind_code : MemoryRegionKind → ℕ
kind_code MemoryRegionKind.usable = 0
kind_code MemoryRegionKind.reserved = 1
kind_code MemoryRegionKind.kernel_text = 2
kind_code MemoryRegionKind.kernel_read_only = 3
kind_code MemoryRegionKind.kernel_data = 4
kind_code MemoryRegionKind.stack = 5
kind_code MemoryRegionKind.user = 6
kind_code MemoryRegionKind.mmio = 7
kind_code MemoryRegionKind.guard = 8
kind_code MemoryRegionKind.bootloader = 9
kind_code MemoryRegionKind.device = 10

-- `MemoryPermissions`
pub record MemoryPermissions : Type 0 where
  pub bits : ℕ

-- `MemoryPermissions::READ` to `MemoryPermissions::SEALED`
abbrev pub read_permission : MemoryPermissions
read_permission = record { bits = 2 ^ 0 }

abbrev pub write_permission : MemoryPermissions
write_permission = record { bits = 2 ^ 1 }

abbrev pub execute_permission : MemoryPermissions
execute_permission = record { bits = 2 ^ 2 }

abbrev pub user_permission : MemoryPermissions
user_permission = record { bits = 2 ^ 3 }

abbrev pub device_permission : MemoryPermissions
device_permission = record { bits = 2 ^ 4 }

abbrev pub sealed_permission : MemoryPermissions
sealed_permission = record { bits = 2 ^ 5 }

-- `MemoryPermissions::empty`
abbrev pub no_permissions : MemoryPermissions
no_permissions = record { bits = 0 }

-- `MemoryPermissions::known_bits`
abbrev pub known_bits : ℕ
known_bits = bit_or read_permission.bits (
    bit_or write_permission.bits (
      bit_or execute_permission.bits
        (bit_or user_permission.bits (bit_or device_permission.bits sealed_permission.bits))))

-- `MemoryPermissions::from_bits`
unfoldable pub permissions_from_bits : ℕ → KernelResult MemoryPermissions
permissions_from_bits bits =
    if bit_and bits (complement u32_mod known_bits) == 0
    then ok (record { bits = bits })
    else err KernelError.reserved_bits

-- `MemoryPermissions::contains`
unfoldable pub permits : MemoryPermissions → MemoryPermissions → Bool
permits p other = bit_and p.bits other.bits == other.bits

-- `MemoryPermissions::union`
unfoldable pub union : MemoryPermissions → MemoryPermissions → MemoryPermissions
union p other = record { bits = bit_or p.bits other.bits }

unfoldable pub is_user_mapping : MemoryPermissions → Bool
unfolding permits
is_user_mapping p = permits p user_permission

-- `MemoryRegion`
pub record MemoryRegion : Type 0 where
  pub start : ℕ
  pub len : ℕ
  pub kind : MemoryRegionKind
  pub permissions : MemoryPermissions

-- `MemoryRegion::EMPTY`
abbrev pub empty_region : MemoryRegion
empty_region = record {
  start = 0;
  len = 0;
  kind = MemoryRegionKind.reserved;
  permissions = no_permissions;
}

-- `MemoryRegion::new`
unfoldable pub new_region : ℕ → ℕ → MemoryRegionKind → MemoryPermissions → KernelResult MemoryRegion
new_region start len kind permissions =
    if len == 0
    then err KernelError.invalid_argument
    else if is_some (checked_add u64_mod start len)
    then ok (record { start = start; len = len; kind = kind; permissions = permissions })
    else err KernelError.invalid_argument

-- `MemoryRegion::end`, which wraps for a region that `new` would refuse.
abbrev pub region_end : MemoryRegion → ℕ
region_end r = (r.start + r.len) % u64_mod

unfoldable pub overlaps : MemoryRegion → MemoryRegion → Bool
overlaps r other = ltb r.start (region_end other) && ltb other.start (region_end r)

unfoldable pub contains_range : MemoryRegion → ℕ → ℕ → Bool
contains_range r start len = elim (checked_add u64_mod start len) [
  | none ↦ false
  | some end ↦ leb r.start start && leb end (region_end r)
]

-- `AllocatorPhase`
pub data AllocatorPhase : Type 0 where
  uninitialized boot_bump frame heap : AllocatorPhase

-- `BufferAccess`
pub data BufferAccess : Type 0 where
  read write read_write : BufferAccess

-- `ValidatedUserBuffer`
pub record ValidatedUserBuffer : Type 0 where
  pub ptr : ℕ
  pub len : ℕ
  pub access : BufferAccess

-- `SharedMemoryHandle`
pub record SharedMemoryHandle : Type 0 where
  pub id : ℕ
  pub owner_task : TaskId
  pub permissions : ℕ

-- `SharedMemoryHandle::invalid`
abbrev pub invalid_shared : SharedMemoryHandle
invalid_shared = record { id = 0; owner_task = 0; permissions = 0 }

-- `SharedRegion`
pub record SharedRegion : Type 0 where
  pub handle : SharedMemoryHandle
  pub start : ℕ
  pub len : ℕ
  pub sealed : Bool

-- `MemoryStats`
pub record MemoryStats : Type 0 where
  pub usable_bytes : ℕ
  pub region_count : ℕ
  pub shared_region_count : ℕ
  pub allocator_phase : AllocatorPhase
