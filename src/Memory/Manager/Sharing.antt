-- ===== src/Memory/Manager/Sharing.antt =====
-- src/memory.rs, `MemoryManager`: the table of shared regions and what its calls do to it. `Sealing`
-- follows one region through them.
pub mod Lookups
pub mod Sealing
use Prim.Native.Nat.{ℕ, zero, suc, ◌+◌, ◌-◌, ◌^◌, ◌≤◌, ◌<◌, min, max, bit_and, bit_or}
use mathlib.Core.Path.{◌≡◌, refl, ◌∙◌, ap, subst, sym}
use mathlib.Core.Logic.{◌≢◌, ◌↔◌, ◌⊎◌, inl, inr}
use mathlib.Core.Bool.{Bool, true, false, not, ◌&&◌, ◌||◌}
use mathlib.Core.Option.{Option, none, some}
use mathlib.Core.List.{List, [], ◌∷◌}
use native.Mathlib.Omega.{arith}
use alani_kernel.Common.Tests.{
  ◌==◌, leb, ltb, if◌then◌else◌, Option-cases, Bool-cases, ltb→lt, ==_refl,
}
use alani_kernel.Common.Words.{u32_mod, u64_mod, checked_add, complement}
use alani_kernel.Common.Lists.{
  find, find_sound, find-All, update_first, count, length, length-update_first, All,
}
use alani_kernel.Common.Search.{
  count-update_first, count-replicate, count_mono, find-none, find-update_first_hit,
  find-update_first_miss, find-update_first_self, tally,
}
use alani_kernel.Common.Bits.{
  bit_at, bit_at-le-one, bit_at-bit_and, bit_at-bit_or, bit_at-complement, bit_at-pow_self,
  bit_at-pow_ne,
}
use alani_kernel.Error.{KernelError}
use alani_kernel.Outcome.{KernelResult, ok, err, KernelResult-cases, ok-pair}
use alani_kernel.Capability.{TaskId}
use alani_kernel.Memory.{
  MemoryPermissions, SharedMemoryHandle, SharedRegion, permits, sealed_permission, write_permission,
}
use alani_kernel.Memory.Manager.{
  MemoryManager, new, max_shared_regions, empty_shared, is_vacant, is_shared_as,
  validate_user_range, share_region, seal, seal_shared_region, shared_region,
}

-- The region is shared under identifier `i`.
abbrev pub bears : ℕ → SharedRegion → Bool
bears i r = r.handle.id == i

-- No identifier is shared twice, and none from `next_shared_id` on is in use.
pub record IsTable (m : MemoryManager) : Type 0 where
  pub size : length m.shared_regions ≡ max_shared_regions
  pub id_pos : 0 < m.next_shared_id
  pub id_word : m.next_shared_id < 2 ^ 64
  pub unique : (i : ℕ) → 0 < i → count (bears i) m.shared_regions ≤ 1
  pub fresh : (i : ℕ) → m.next_shared_id ≤ i → count (bears i) m.shared_regions ≡ 0

pub new-IsTable : IsTable new
new-IsTable = record {
  size = refl;
  id_pos = omega arith;
  id_word = omega arith;
  unique = λ i pos. ground (arith, count-replicate (bears i) 32 empty_shared);
  fresh = λ i h. count-replicate (bears i) 32 empty_shared (ground arith);
}

-- The handle and the manager after a share.
abbrev pub shared : MemoryManager → TaskId → MemoryPermissions → SharedMemoryHandle
shared m owner_task permissions = record {
  id = m.next_shared_id;
  owner_task = owner_task;
  permissions = permissions.bits;
}

abbrev pub entry : SharedMemoryHandle → ℕ → ℕ → SharedRegion
entry handle start len = record { handle = handle; start = start; len = len; sealed = false }

abbrev pub after_share : MemoryManager → TaskId → ℕ → ℕ → MemoryPermissions → MemoryManager
after_share m owner_task start len permissions = record m {
  shared_regions =
      update_first is_vacant (λ _. entry (shared m owner_task permissions) start len)
        m.shared_regions;
  next_shared_id = m.next_shared_id + 1;
}

-- Either `share_region` fails and changes nothing, or the range was valid, the permissions not
-- sealed, a slot was vacant, and it wrote the new region there.
pub share_cases {ℓ} :
    (P : KernelResult SharedMemoryHandle × MemoryManager → Type ℓ) (m : MemoryManager)
    (owner_task : TaskId) (start len : ℕ) (permissions : MemoryPermissions)
    → ((e : KernelError) → P (err e, m))
    → ((slot : SharedRegion)
        → validate_user_range m start len ≡ ok tt
        → permits permissions sealed_permission ≡ false
        → find is_vacant m.shared_regions ≡ some slot
        → m.next_shared_id + 1 < 2 ^ 64
        → P (ok (shared m owner_task permissions), after_share m owner_task start len permissions))
    → P (share_region owner_task start len permissions m)
unfolding share_region
share_cases P m owner_task start len permissions failed done =
    elim (KernelResult-cases (validate_user_range m start len)) [
      | inr (e, refused) ↦ rw (refused, share_region) (failed e)
      | inl (tt, valid) ↦ elim (Bool-cases (permits permissions sealed_permission)) [
        | inl sealed ↦
            rw (valid, share_region) (rw (sealed, share_region) (failed KernelError.sealed))
        | inr unsealed ↦ elim (Option-cases (find is_vacant m.shared_regions)) [
          | inl full ↦
              rw (valid, share_region)
                (rw (unsealed, share_region)
                  (rw (full, share_region) (failed KernelError.capacity_exceeded)))
          | inr (slot, e) ↦ elim (Bool-cases (ltb (m.next_shared_id + 1) (2 ^ 64))) [
            | inl room ↦
                rw (valid, share_region)
                  (rw (unsealed, share_region)
                    (rw (e, share_region)
                      (rw (room, share_region) (done slot valid unsealed e (ltb→lt _ _ room)))))
            | inr last ↦
                rw (valid, share_region)
                  (rw (unsealed, share_region)
                    (rw (e, share_region) (rw (last, share_region) (failed KernelError.internal))))
          ]
        ]
      ]
    ]

-- The manager after a seal.
abbrev pub after_seal : MemoryManager → SharedMemoryHandle → MemoryManager
after_seal m handle = record m {
  shared_regions = update_first (is_shared_as handle) seal m.shared_regions;
}

-- Either no shared region has the identifier and nothing changes, or the one found is sealed.
pub seal_cases {ℓ} :
    (P : KernelResult (Unit {0}) × MemoryManager → Type ℓ) (m : MemoryManager)
    (handle : SharedMemoryHandle)
    → (find (is_shared_as handle) m.shared_regions ≡ none → P (err KernelError.not_found, m))
    → ((found : SharedRegion)
        → find (is_shared_as handle) m.shared_regions ≡ some found
        → P (ok tt, after_seal m handle))
    → P (seal_shared_region handle m)
unfolding seal_shared_region
seal_cases P m handle missing done =
    elim (Option-cases (find (is_shared_as handle) m.shared_regions)) [
      | inl gone ↦ rw (gone, seal_shared_region) (missing gone)
      | inr (found, e) ↦ rw (e, seal_shared_region) (done found e)
    ]

after_share-IsTable :
    (m : MemoryManager) (owner_task : TaskId) (start len : ℕ) (permissions : MemoryPermissions)
    (slot : SharedRegion)
    → IsTable m
    → find is_vacant m.shared_regions ≡ some slot
    → m.next_shared_id + 1 < 2 ^ 64
    → IsTable (after_share m owner_task start len permissions)
after_share-IsTable m owner_task start len permissions slot v e room = record {
  size = length-update_first is_vacant _ m.shared_regions ∙ v.size;
  id_pos = omega arith;
  id_word = room;
  unique = λ i pos. ground (arith, v.unique i pos, v.fresh i, traded i);
  fresh = λ i h. ground (arith, v.fresh i, traded i);
}
  where
    region : SharedRegion
    region = entry (shared m owner_task permissions) start len

    traded :
        (i : ℕ)
        → count (bears i) (update_first is_vacant (λ _. region) m.shared_regions)
            + tally (bears i slot)
          ≡ count (bears i) m.shared_regions + tally (bears i region)
    traded i = count-update_first is_vacant (bears i) (λ _. region) m.shared_regions e

count-after_seal :
    (m : MemoryManager) (handle : SharedMemoryHandle) (i : ℕ) {found : SharedRegion}
    → find (is_shared_as handle) m.shared_regions ≡ some found
    → count (bears i) (after_seal m handle).shared_regions ≡ count (bears i) m.shared_regions
count-after_seal m handle i {found} e =
    omega (arith, count-update_first (is_shared_as handle) (bears i) seal m.shared_regions e)

-- A call of one of the methods that change the table.
pub data Call : Type 0 where
  shares : TaskId → ℕ → ℕ → MemoryPermissions → Call
  seals : SharedMemoryHandle → Call

abbrev pub step : MemoryManager → Call → MemoryManager
step m (shares owner_task start len permissions) =
    (share_region owner_task start len permissions m).1
step m (seals handle) = (seal_shared_region handle m).1

unfoldable pub run : MemoryManager → List Call → MemoryManager
run m [] = m
run m (c ∷ cs) = run (step m c) cs

pub step-IsTable : (m : MemoryManager) (c : Call) → IsTable m → IsTable (step m c)
step-IsTable m (shares owner_task start len permissions) v =
    share_cases (λ out. IsTable out.1) m owner_task start len permissions (λ _. v)
      λ slot _ _ e room. after_share-IsTable m owner_task start len permissions slot v e room
step-IsTable m (seals handle) v =
    seal_cases (λ out. IsTable out.1) m handle (λ _. v)
      λ found e. record {
        size = length-update_first (is_shared_as handle) seal m.shared_regions ∙ v.size;
        id_pos = v.id_pos;
        id_word = v.id_word;
        unique = λ i pos. omega (arith, v.unique i pos, count-after_seal m handle i e);
        fresh = λ i h. omega (arith, v.fresh i h, count-after_seal m handle i e);
      }

pub run-IsTable : (m : MemoryManager) (cs : List Call) → IsTable m → IsTable (run m cs)
unfolding run
run-IsTable m [] v = v
run-IsTable m (c ∷ cs) v = run-IsTable (step m c) cs (step-IsTable m c v)

-- Whatever is shared and sealed, a new manager keeps its 32 slots and never gives an identifier to
-- two regions.
pub run-new-IsTable : (cs : List Call) → IsTable (run new cs)
run-new-IsTable cs = run-IsTable new cs new-IsTable

-- The manager but for its shared regions.
abbrev pub settings : MemoryManager → MemoryManager
settings m = record m { shared_regions = []; next_shared_id = 0 }

step-settings : (m : MemoryManager) (c : Call) → settings (step m c) ≡ settings m
step-settings m (shares owner_task start len permissions) =
    share_cases (λ out. settings out.1 ≡ settings m) m owner_task start len permissions (λ _. refl)
      λ _ _ _ _ _. refl
step-settings m (seals handle) =
    seal_cases (λ out. settings out.1 ≡ settings m) m handle (λ _. refl) λ _ _. refl

-- Sharing and sealing change nothing else of the manager.
pub run-settings : (m : MemoryManager) (cs : List Call) → settings (run m cs) ≡ settings m
unfolding run
run-settings m [] = refl
run-settings m (c ∷ cs) = run-settings (step m c) cs ∙ step-settings m c
