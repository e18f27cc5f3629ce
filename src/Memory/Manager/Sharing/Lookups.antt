-- ===== src/Memory/Manager/Sharing/Lookups.antt =====
-- src/memory.rs, `MemoryManager::share_region` and `shared_region`: regions and their handles.
use Prim.Native.Nat.{ℕ}
use mathlib.Core.Path.{◌≡◌}
use mathlib.Core.Bool.{true}
use mathlib.Core.Option.{some}
use native.Mathlib.Omega.{arith}
use alani_kernel.Common.Lists.{find}
use alani_kernel.Common.Search.{count_mono, find-update_first_hit}
use alani_kernel.Outcome.{ok}
use alani_kernel.Capability.{TaskId}
use alani_kernel.Memory.{MemoryPermissions, SharedMemoryHandle, SharedRegion}
use alani_kernel.Memory.Manager.{MemoryManager, is_vacant, is_shared_as, shared_region}
use alani_kernel.Memory.Manager.Sharing.{IsTable, bears, shared, entry, after_share}

pub find-shared :
    (m : MemoryManager) (h : SharedMemoryHandle) (r : SharedRegion)
    → shared_region m h ≡ ok r
    → find (is_shared_as h) m.shared_regions ≡ some r
unfolding shared_region
find-shared m h r e = ground arith

pub shared_region-found :
    (m : MemoryManager) (h : SharedMemoryHandle) {r : SharedRegion}
    → find (is_shared_as h) m.shared_regions ≡ some r
    → shared_region m h ≡ ok r
unfolding shared_region
shared_region-found m h e = rw e

pub is_shared_as→bears :
    (h : SharedMemoryHandle) (r : SharedRegion) → is_shared_as h r ≡ true → bears h.id r ≡ true
is_shared_as→bears h r e = ground arith

pub shared_region-after_share :
    (m : MemoryManager) (owner_task : TaskId) (start len : ℕ) (permissions : MemoryPermissions)
    (slot : SharedRegion)
    → IsTable m
    → find is_vacant m.shared_regions ≡ some slot
    → shared_region
        (after_share m owner_task start len permissions)
        (shared m owner_task permissions)
      ≡ ok (entry (shared m owner_task permissions) start len)
shared_region-after_share m owner_task start len permissions slot v e =
    shared_region-found (after_share m owner_task start len permissions) h (
      find-update_first_hit is_vacant (is_shared_as h) _ m.shared_regions e
        (ground (arith, v.id_pos))
        (omega (
          arith,
          v.fresh m.next_shared_id,
          count_mono (is_shared_as h) (bears h.id) m.shared_regions (is_shared_as→bears h),
        )))
  where
    h : SharedMemoryHandle
    h = shared m owner_task permissions
