-- ===== src/Memory/Map/Totals.antt =====
-- src/memory.rs, `MemoryMap::total_by_kind`: what the sum of the lengths of disjoint regions is.
use Prim.Native.Nat.{ℕ, zero, suc, ◌+◌, ◌-◌, ◌^◌, ◌≤◌, ◌<◌, min}
use mathlib.Core.Path.{◌≡◌, refl}
use mathlib.Core.List.{List, [], ◌∷◌}
use native.Mathlib.Nat.{mod-eq_of_lt}
use native.Mathlib.Omega.{arith}
use alani_kernel.Common.Tests.{◌==◌, if◌then◌else◌}
use alani_kernel.Common.Lists.{count, All}
use alani_kernel.Memory.{MemoryRegion, MemoryRegionKind, kind_code}
use alani_kernel.Memory.Map.{MemoryMap, regions, sum_by_kind, total_by_kind}
use alani_kernel.Memory.Map.Disjoint.{IsRegion, IsMap, covers}

-- How many addresses of the region lie below `n`.
abbrev below : ℕ → MemoryRegion → ℕ
below n r = min (r.start + r.len) n - min r.start n

abbrev all_below : ℕ → List MemoryRegion → ℕ
all_below n [] = 0
all_below n (r ∷ rs) = below n r + all_below n rs

all_below-zero : (rs : List MemoryRegion) → all_below 0 rs ≡ 0
all_below-zero [] = refl
all_below-zero (r ∷ rs) = omega (arith, all_below-zero rs)

-- The next address is one of as many regions as cover it.
all_below-suc :
    (n : ℕ) (rs : List MemoryRegion) → all_below (suc n) rs ≡ all_below n rs + count (covers n) rs
all_below-suc n [] = refl
all_below-suc n (r ∷ rs) = ground (arith, all_below-suc n rs)

-- Where no address is in two regions, there are no more of them below `n` than addresses.
all_below_bound :
    (n : ℕ) (rs : List MemoryRegion) → ((a : ℕ) → count (covers a) rs ≤ 1) → all_below n rs ≤ n
all_below_bound zero rs apart = omega (arith, all_below-zero rs)
all_below_bound (suc n) rs apart =
    omega (arith, all_below-suc n rs, all_below_bound n rs apart, apart n)

-- The sum of the lengths, without a bound; of one kind, and of all.
abbrev pub lengths_of : MemoryRegionKind → List MemoryRegion → ℕ
lengths_of kind [] = 0
lengths_of kind (r ∷ rs) =
    (if kind_code r.kind == kind_code kind then r.len else 0) + lengths_of kind rs

abbrev pub lengths : List MemoryRegion → ℕ
lengths [] = 0
lengths (r ∷ rs) = r.len + lengths rs

lengths-below :
    (n : ℕ) (rs : List MemoryRegion)
    → All IsRegion rs
    → 2 ^ 64 ≤ n + 1
    → lengths rs ≤ all_below n rs
lengths-below n [] h high = omega arith
lengths-below n (r ∷ rs) h high = omega (arith, h.0, lengths-below n rs h.1 high)

lengths_bound :
    (rs : List MemoryRegion)
    → All IsRegion rs
    → ((a : ℕ) → count (covers a) rs ≤ 1)
    → lengths rs < 2 ^ 64
lengths_bound rs h apart =
    let n : ℕ = 2 ^ 64 - 1 in
    omega (arith, lengths-below n rs h (omega arith), all_below_bound n rs apart)

lengths_of-le-lengths :
    (kind : MemoryRegionKind) (rs : List MemoryRegion) → lengths_of kind rs ≤ lengths rs
lengths_of-le-lengths kind [] = omega arith
lengths_of-le-lengths kind (r ∷ rs) = ground (arith, lengths_of-le-lengths kind rs)

-- A sum that stays below the word's end does not wrap.
sum_by_kind_exact :
    (kind : MemoryRegionKind) (rs : List MemoryRegion)
    → lengths rs < 2 ^ 64
    → sum_by_kind kind rs ≡ lengths_of kind rs
unfolding sum_by_kind
sum_by_kind_exact kind [] room = refl
sum_by_kind_exact kind (r ∷ rs) room =
    rw (sum_by_kind_exact kind rs (omega (arith, room)))
      (mod-eq_of_lt (omega (arith, room, lengths_of-le-lengths kind (r ∷ rs))))

-- In a map of regions that never overlap, the sum of all lengths is below 2 ^ 64, so that the `u64` sum
-- that `total_by_kind` computes is the exact total of the lengths of the regions of the kind.
pub total_by_kind_exact :
    (m : MemoryMap) (kind : MemoryRegionKind)
    → IsMap m
    → (lengths (regions m) < 2 ^ 64) × (total_by_kind m kind ≡ lengths_of kind (regions m))
unfolding total_by_kind
total_by_kind_exact m kind v =
    let room : lengths (regions m) < 2 ^ 64 = lengths_bound (regions m) v.sound v.apart in
    (room, sum_by_kind_exact kind (regions m) room)
