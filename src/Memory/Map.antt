-- ===== src/Memory/Map.antt =====
-- src/memory.rs, `MemoryMap`: the boot memory map, an array of 64 regions of which the first `len` are
-- active. `Disjoint` holds the theorems.
pub mod Disjoint
pub mod Totals
use Prim.Native.Nat.{ℕ, ◌+◌, ◌%◌}
use mathlib.Core.Bool.{Bool}
use mathlib.Core.Option.{Option}
use mathlib.Core.List.{List, [], ◌∷◌}
use alani_kernel.Common.Tests.{◌==◌, if◌then◌else◌}
use alani_kernel.Common.Words.{u64_mod}
use alani_kernel.Common.Lists.{set, take, replicate, find, any}
use alani_kernel.Error.{KernelError}
use alani_kernel.Method.{Method, try, ◌>>=◌, ◌>>◌, self, modify, throw_if}
use alani_kernel.Memory.{
  MemoryRegion, MemoryRegionKind, empty_region, overlaps, contains_range, kind_code,
}

-- `MAX_MEMORY_REGIONS`
abbrev pub max_memory_regions : ℕ
max_memory_regions = 64

-- `MemoryMap`
pub record MemoryMap : Type 0 where
  pub slots : List MemoryRegion
  pub len : ℕ

-- `MemoryMap::new`
abbrev pub new : MemoryMap
new = record { slots = replicate max_memory_regions empty_region; len = 0 }

unfoldable pub is_empty : MemoryMap → Bool
is_empty m = m.len == 0

-- `MemoryMap::regions`
abbrev pub regions : MemoryMap → List MemoryRegion
regions m = take m.len m.slots

unfoldable pub push : MemoryRegion → Method MemoryMap (Unit {0})
push region = do
  m ← self
  throw_if (m.len == max_memory_regions) KernelError.capacity_exceeded
  throw_if (any (λ existing. overlaps existing region) (regions m)) KernelError.overlap
  modify (λ n. record n { slots = set n.slots n.len region })
  modify (λ n. record n { len = n.len + 1 })

unfoldable pub find_containing : MemoryMap → ℕ → ℕ → Option MemoryRegion
find_containing m start len = find (λ region. contains_range region start len) (regions m)

-- The `u64` sum of the lengths of the regions of one kind.
unfoldable pub sum_by_kind : MemoryRegionKind → List MemoryRegion → ℕ
sum_by_kind kind [] = 0
sum_by_kind kind (r ∷ rs) =
    ((if kind_code r.kind == kind_code kind then r.len else 0) + sum_by_kind kind rs) % u64_mod

unfoldable pub total_by_kind : MemoryMap → MemoryRegionKind → ℕ
unfolding sum_by_kind
total_by_kind m kind = sum_by_kind kind (regions m)
