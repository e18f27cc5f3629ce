-- ===== src/Memory/Map/Disjoint.antt =====
-- src/memory.rs, `MemoryMap`: the regions that are pushed, and the lookup of a range in them.
use Prim.Native.Nat.{ℕ, ◌+◌, ◌^◌, ◌≤◌, ◌<◌}
use mathlib.Core.Path.{◌≡◌, refl, ◌∙◌, subst, sym}
use mathlib.Core.Logic.{◌↔◌, inl, inr}
use mathlib.Core.Bool.{Bool, true, false, ◌&&◌}
use mathlib.Core.Option.{Option, none, some}
use mathlib.Core.List.{List, [], ◌∷◌, ◌++◌}
use mathlib.Core.List.{Mem}
use native.Mathlib.Nat.{mod-eq_of_lt}
use native.Mathlib.Omega.{arith}
use alani_kernel.Common.Tests.{Option-cases, ◌==◌, leb, ltb, if◌then◌else◌, Bool-cases}
use alani_kernel.Common.Lists.{
  find_sound, find-All, find-Mem, set, any, count, length, length-set, All, take-set, count-append,
  All-append, count-any-false,
}
use alani_kernel.Common.Search.{count-find-some, count-find-none}
use alani_kernel.Error.{KernelError}
use alani_kernel.Outcome.{ok, err}
use alani_kernel.Memory.{
  MemoryRegion, MemoryRegionKind, MemoryPermissions, new_region, overlaps, contains_range,
}
use alani_kernel.Memory.Map.{MemoryMap, max_memory_regions, new, regions, push, find_containing}

-- A region that `MemoryRegion::new` makes: not empty, and its end is an address.
abbrev pub IsRegion : MemoryRegion → Type 0
IsRegion r = (0 < r.len) × (r.start + r.len < 2 ^ 64)

-- The address lies in the region.
abbrev pub covers : ℕ → MemoryRegion → Bool
covers a r = leb r.start a && ltb a (r.start + r.len)

-- `MemoryRegion::new` accepts exactly what is a region, as it is.
pub new_region_iff :
    (start len : ℕ) (kind : MemoryRegionKind) (permissions : MemoryPermissions)
    → let r : MemoryRegion = record {
      start = start;
      len = len;
      kind = kind;
      permissions = permissions;
    } in
      (new_region start len kind permissions ≡ ok r) ↔ IsRegion r
unfolding new_region
new_region_iff start len kind permissions = ground arith

-- Two regions overlap exactly if some address lies in both; the greater of the starts is one.
overlaps-covers :
    (r s : MemoryRegion) (a : ℕ)
    → IsRegion r
    → IsRegion s
    → covers a r ≡ true
    → covers a s ≡ true
    → overlaps r s ≡ true
unfolding overlaps
overlaps-covers r s a hr hs cr cs = ground (arith, mod-eq_of_lt hr.1, mod-eq_of_lt hs.1)

-- The active regions are regions, and no address lies in two of them.
pub record IsMap (m : MemoryMap) : Type 0 where
  pub size : length m.slots ≡ max_memory_regions
  pub bound : m.len ≤ max_memory_regions
  pub sound : All IsRegion (regions m)
  pub apart : (a : ℕ) → count (covers a) (regions m) ≤ 1

pub new-IsMap : IsMap new
new-IsMap = record { size = refl; bound = omega arith; sound = tt; apart = λ a. omega arith }

-- The map with one more region.
abbrev pub pushed : MemoryMap → MemoryRegion → MemoryMap
pushed m r = record { slots = set m.slots m.len r; len = m.len + 1 }

-- `push` fails on a full map, then on an overlap, and otherwise adds the region; a failure changes
-- nothing.
push_lem :
    (m : MemoryMap) (r : MemoryRegion)
    → push r m ≡ (
        if m.len == max_memory_regions
        then (err KernelError.capacity_exceeded, m)
        else if any (λ existing. overlaps existing r) (regions m)
        then (err KernelError.overlap, m)
        else (ok tt, pushed m r))
unfolding push
push_lem m r = ground arith

-- Where the new region overlaps none, no address gets into a second region.
pushed-apart :
    (m : MemoryMap) (r : MemoryRegion) (a : ℕ)
    → IsMap m
    → IsRegion r
    → any (λ existing. overlaps existing r) (regions m) ≡ false
    → count (covers a) (regions m ++ (r ∷ [])) ≤ 1
pushed-apart m r a v h free = elim (Bool-cases (covers a r)) [
  | inr outside ↦
      rw (count-append (covers a) (regions m) (r ∷ [])) (ground (arith, v.apart a, outside))
  | inl inside ↦ rw (count-append (covers a) (regions m) (r ∷ [])) (
      ground (
        arith,
        count-any-false IsRegion (λ existing. overlaps existing r) (covers a) (regions m) v.sound
            free λ x hx hit. overlaps-covers x r a hx h hit inside,
      ))
]

pushed-IsMap :
    (m : MemoryMap) (r : MemoryRegion)
    → IsMap m
    → IsRegion r
    → m.len < max_memory_regions
    → any (λ existing. overlaps existing r) (regions m) ≡ false
    → IsMap (pushed m r)
pushed-IsMap m r v h room free = record {
  size = length-set m.slots m.len r ∙ v.size;
  bound = omega arith;
  sound =
      subst (All IsRegion) (sym shape) (All-append IsRegion (regions m) (r ∷ []) v.sound (h, tt));
  apart = λ a. subst (λ rs. count (covers a) rs ≤ 1) (sym shape) (pushed-apart m r a v h free);
}
  where
    shape : regions (pushed m r) ≡ regions m ++ (r ∷ [])
    shape = take-set m.len r m.slots (omega (arith, v.size))

push-IsMap : (m : MemoryMap) (r : MemoryRegion) → IsMap m → IsRegion r → IsMap (push r m).1
push-IsMap m r v h = elim (Bool-cases (m.len == max_memory_regions)) [
  | inl full ↦ rw (push_lem m r) (rw full v)
  | inr room ↦ elim (Bool-cases (any (λ existing. overlaps existing r) (regions m))) [
    | inl crossed ↦ rw (push_lem m r) (rw room (rw crossed v))
    | inr free ↦
        rw (push_lem m r) (rw room (rw free (pushed-IsMap m r v h (ground (arith, v.bound)) free)))
  ]
]

-- The map after a sequence of pushes, failed ones included.
unfoldable pub push_all : MemoryMap → List MemoryRegion → MemoryMap
push_all m [] = m
push_all m (r ∷ rs) = push_all (push r m).1 rs

push_all-IsMap :
    (m : MemoryMap) (rs : List MemoryRegion) → IsMap m → All IsRegion rs → IsMap (push_all m rs)
unfolding push_all
push_all-IsMap m [] v h = v
push_all-IsMap m (r ∷ rs) v h = push_all-IsMap (push r m).1 rs (push-IsMap m r v h.0) h.1

-- However many regions that `MemoryRegion::new` accepts are pushed into a new memory map, whether the
-- pushes succeed or not, it has at most 64 active regions, and no address lies in two of them.
pub push_all-new-IsMap : (rs : List MemoryRegion) → All IsRegion rs → IsMap (push_all new rs)
push_all-new-IsMap rs h = push_all-IsMap new rs new-IsMap h

-- The range lies within the region.
abbrev pub Contains : MemoryRegion → ℕ → ℕ → Type 0
Contains r start len = (r.start ≤ start) × (start + len ≤ r.start + r.len)

contains_range_iff :
    (r : MemoryRegion) (start len : ℕ)
    → IsRegion r
    → (contains_range r start len ≡ true) ↔ Contains r start len
unfolding contains_range
contains_range_iff r start len h = ground (arith, mod-eq_of_lt h.1)

-- The count of a test that implies another on the entries that satisfy a predicate.
count_mono_All :
    (p q : MemoryRegion → Bool) (rs : List MemoryRegion)
    → All IsRegion rs
    → ((r : MemoryRegion) → IsRegion r → p r ≡ true → q r ≡ true)
    → count p rs ≤ count q rs
count_mono_All p q [] h imp = omega arith
count_mono_All p q (r ∷ rs) h imp = ground (arith, imp r h.0, count_mono_All p q rs h.1 imp)

contains_range-covers :
    (r : MemoryRegion) (start len : ℕ)
    → IsRegion r
    → 0 < len
    → contains_range r start len ≡ true
    → covers start r ≡ true
unfolding contains_range
contains_range-covers r start len h pos hit = ground (arith, mod-eq_of_lt h.1)

find_containing_parts :
    (m : MemoryMap) (start len : ℕ)
    → IsMap m
    → 0 < len
    → (count (λ r. contains_range r start len) (regions m) ≤ 1)
      × ((r : MemoryRegion) → find_containing m start len ≡ some r → Contains r start len)
      × (find_containing m start len ≡ none
          → count (λ r. contains_range r start len) (regions m) ≡ 0)
unfolding find_containing
find_containing_parts m start len v pos = (
  (omega (
    arith,
    v.apart start,
    count_mono_All (λ r. contains_range r start len) (covers start) (regions m) v.sound
        λ r h hit. contains_range-covers r start len h pos hit,
  )),
  (λ r e.
      (contains_range_iff r start len
          (find-All IsRegion (λ r. contains_range r start len) (regions m) v.sound e)).0
        (find_sound (λ r. contains_range r start len) (regions m) e)),
  λ e. count-find-none (λ r. contains_range r start len) (regions m) e,
)

-- What the lookup of a range is to be: the only region of the map that contains it, or nothing if none does.
abbrev pub IsLookup : MemoryMap → ℕ → ℕ → Option MemoryRegion → Type 0
IsLookup m start len none = count (λ r. contains_range r start len) (regions m) ≡ 0
IsLookup m start len (some r) =
    (Mem r (regions m))
    × (Contains r start len)
    × (count (λ r. contains_range r start len) (regions m) ≡ 1)

-- In a map of regions that never overlap, `find_containing` answers for a range that is not
-- empty with the one active region of the map that contains it, unchanged, and with nothing if no
-- region does, so that its answer does not depend on the order of the regions.
pub find_containing_lem :
    (m : MemoryMap) (start len : ℕ)
    → IsMap m
    → 0 < len
    → IsLookup m start len (find_containing m start len)
unfolding find_containing
find_containing_lem m start len v pos =
    let (one, sound, missing) = find_containing_parts m start len v pos in
    elim (Option-cases (find_containing m start len)) [
      | inl nothing ↦ subst (IsLookup m start len) (sym nothing) (missing nothing)
      | inr (r, e) ↦ subst (IsLookup m start len) (sym e) (
        find-Mem (λ r. contains_range r start len) (regions m) e,
        sound r e,
        omega (arith, one, count-find-some (λ r. contains_range r start len) (regions m) e),
      )
    ]
