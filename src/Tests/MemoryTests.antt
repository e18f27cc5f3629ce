-- ===== src/Tests/MemoryTests.antt =====
-- src/memory.rs: a memory map, validated ranges and buffers, and a region that is shared and sealed.
use mathlib.Core.Path.{◌≡◌, refl}
use mathlib.Core.Logic.{◌↔◌}
use mathlib.Core.Bool.{false}
use mathlib.Core.List.{List, [], ◌∷◌}
use native.Mathlib.Omega.{arith}
use alani_kernel.Common.Lists.{All}
use alani_kernel.Outcome.{ok}
use alani_kernel.Abi.{user_buffer}
use alani_kernel.Memory.{
  MemoryRegion, MemoryRegionKind, MemoryPermissions, BufferAccess, SharedMemoryHandle, SharedRegion,
  read_permission, permits,
}
use alani_kernel.Memory.Map
use alani_kernel.Memory.Map.{MemoryMap, push, regions, find_containing}
use alani_kernel.Memory.Map.Disjoint.{
  IsLookup, IsRegion, IsMap, push_all, push_all-new-IsMap, find_containing_lem,
}
use alani_kernel.Memory.Manager.{
  MemoryManager, new, validate_user_range, validate_user_buffer, share_region, seal_shared_region,
  shared_region,
}
use alani_kernel.Memory.Manager.Settings.{new-IsConfigured}
use alani_kernel.Memory.Manager.Ranges.{
  IsUserRange, IsUserBuffer, validated, validate_user_range_iff, validate_user_buffer_iff,
}
use alani_kernel.Memory.Manager.Sharing.{Call, IsTable, run, run-new-IsTable}
use alani_kernel.Memory.Manager.Sharing.Sealing.{IsSealedAs, seal_forever}
use Call.{shares, seals}

abbrev low : MemoryRegion
low = record {
  start = 0x1000;
  len = 0x1000;
  kind = MemoryRegionKind.usable;
  permissions = read_permission;
}

abbrev high : MemoryRegion
high = record {
  start = 0x2000;
  len = 0x3000;
  kind = MemoryRegionKind.device;
  permissions = read_permission;
}

-- A region that overlaps both.
abbrev across : MemoryRegion
across = record {
  start = 0x1800;
  len = 0x1000;
  kind = MemoryRegionKind.usable;
  permissions = read_permission;
}

abbrev three : List MemoryRegion
three = low ∷ high ∷ across ∷ []

three-IsRegion : All IsRegion three
three-IsRegion =
    ((omega arith, omega arith), ((omega arith, omega arith), ((omega arith, omega arith), tt)))

push_all-new-IsMap_example : IsMap (push_all Map.new three)
push_all-new-IsMap_example = push_all-new-IsMap three three-IsRegion

find_containing_lem_example :
    IsLookup (push_all Map.new three) 0x2000 16 (find_containing (push_all Map.new three) 0x2000 16)
find_containing_lem_example =
    find_containing_lem (push_all Map.new three) 0x2000 16 push_all-new-IsMap_example (omega arith)

validate_user_range_iff_example :
    (validate_user_range new 0x4000 64 ≡ ok tt) ↔ IsUserRange new 0x4000 64
validate_user_range_iff_example = validate_user_range_iff new 0x4000 64 new-IsConfigured

validate_user_buffer_iff_example :
    (validate_user_buffer new (user_buffer 0x4000 64 3) BufferAccess.read_write
      ≡ ok (validated (user_buffer 0x4000 64 3) BufferAccess.read_write))
    ↔ (IsUserBuffer new (user_buffer 0x4000 64 3) BufferAccess.read_write
        × (validated (user_buffer 0x4000 64 3) BufferAccess.read_write
            ≡ validated (user_buffer 0x4000 64 3) BufferAccess.read_write))
validate_user_buffer_iff_example =
    validate_user_buffer_iff new (user_buffer 0x4000 64 3) BufferAccess.read_write
      (validated (user_buffer 0x4000 64 3) BufferAccess.read_write) new-IsConfigured (omega arith)

-- The permission to read, write and map for a user.
abbrev read_write_user : MemoryPermissions
read_write_user = record { bits = 11 }

abbrev shared : SharedMemoryHandle
shared = record { id = 1; owner_task = 7; permissions = 11 }

abbrev one_shared : MemoryManager
one_shared = (share_region 7 0x4000 64 read_write_user new).1

new-IsTable_test : IsTable new
unfolding run
new-IsTable_test = run-new-IsTable []

one_shared-IsTable : IsTable one_shared
unfolding run
one_shared-IsTable = run-new-IsTable (shares 7 0x4000 64 read_write_user ∷ [])

share_region-new : share_region 7 0x4000 64 read_write_user new ≡ (ok shared, one_shared)
unfolding share_region validate_user_range permits
share_region-new = refl

abbrev entry : SharedRegion
entry = record { handle = shared; start = 0x4000; len = 64; sealed = false }

shared_region-one_shared : shared_region one_shared shared ≡ ok entry
unfolding shared_region share_region validate_user_range permits
shared_region-one_shared = refl

run-new-IsTable_example : IsTable (run new (shares 7 0x4000 64 read_write_user ∷ seals shared ∷ []))
run-new-IsTable_example = run-new-IsTable (shares 7 0x4000 64 read_write_user ∷ seals shared ∷ [])

seal_forever_example :
    ((seal_shared_region shared one_shared).0 ≡ ok tt)
    × (s : SharedRegion) × (shared_region
          (run (seal_shared_region shared one_shared).1 (shares 8 0x8000 16 read_write_user ∷ []))
          shared
        ≡ ok s)
    × IsSealedAs entry s
seal_forever_example =
    seal_forever one_shared shared entry (shares 8 0x8000 16 read_write_user ∷ [])
      one_shared-IsTable shared_region-one_shared
