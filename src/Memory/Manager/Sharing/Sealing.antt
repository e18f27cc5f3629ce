-- ===== src/Memory/Manager/Sharing/Sealing.antt =====
-- src/memory.rs, `MemoryManager`: a region from the call that shares it to the call that seals it, and
-- after.
use Prim.Native.Nat.{ℕ, min, max, bit_and, bit_or}
use mathlib.Core.Path.{◌≡◌, refl, ◌∙◌, subst}
use mathlib.Core.Bool.{true, false, not, ◌&&◌}
use mathlib.Core.Option.{some}
use mathlib.Core.List.{List, [], ◌∷◌}
use native.Mathlib.Decide.{ℕ_discrete}
use native.Mathlib.Omega.{arith}
use alani_kernel.Common.Tests.{◌==◌}
use alani_kernel.Common.Words.{u32_mod, complement}
use alani_kernel.Common.Lists.{find, find_sound, update_first}
use alani_kernel.Common.Search.{
  count_mono, count-find-some, find-update_first_miss, find-update_first_self,
}
use alani_kernel.Common.Bits.{bit_at, bit_at-bit_and, bit_at-bit_or}
use alani_kernel.Outcome.{ok}
use alani_kernel.Capability.{TaskId}
use alani_kernel.Memory.{
  MemoryPermissions, SharedMemoryHandle, SharedRegion, sealed_permission, write_permission,
}
use alani_kernel.Memory.Manager.{
  MemoryManager, is_vacant, is_shared_as, share_region, seal, seal_shared_region, shared_region,
}
use alani_kernel.Memory.Manager.Sharing.{
  IsTable, bears, shared, entry, share_cases, after_seal, seal_cases, Call, shares, seals, step,
  run, step-IsTable,
}
use alani_kernel.Memory.Manager.Sharing.Lookups.{
  find-shared, shared_region-found, is_shared_as→bears,
}

-- What is asserted of a sealed region: its range is as it was, it is marked, and its permissions have
-- the seal and not the write bit.
pub record IsSealedAs (r s : SharedRegion) : Type 0 where
  pub same_start : s.start ≡ r.start
  pub same_len : s.len ≡ r.len
  pub marked : s.sealed ≡ true
  pub no_write : bit_at 1 s.handle.permissions ≡ 0
  pub seal_bit : bit_at 5 s.handle.permissions ≡ 1

seal-IsSealedAs : (r s : SharedRegion) → s.start ≡ r.start → s.len ≡ r.len → IsSealedAs r (seal s)
seal-IsSealedAs r s same_start same_len = record {
  same_start = same_start;
  same_len = same_len;
  marked = refl;
  no_write = omega (arith, bits 1, masked 1);
  seal_bit = omega (arith, bits 5);
}
  where
    mask : ℕ
    mask = complement u32_mod write_permission.bits

    bits :
        (k : ℕ)
        → bit_at k (bit_or (bit_and s.handle.permissions mask) sealed_permission.bits)
          ≡ max (bit_at k (bit_and s.handle.permissions mask)) (bit_at k sealed_permission.bits)
    bits k = bit_at-bit_or k _ _

    masked :
        (k : ℕ)
        → bit_at k (bit_and s.handle.permissions mask)
          ≡ min (bit_at k s.handle.permissions) (bit_at k mask)
    masked k = bit_at-bit_and k _ _

-- The region of a handle in the table, and what is asserted of it.
abbrev pub SealedIn : SharedMemoryHandle → SharedRegion → MemoryManager → Type 0
SealedIn h r m =
    (s : SharedRegion) × (find (is_shared_as h) m.shared_regions ≡ some s) × IsSealedAs r s

share-SealedIn :
    (m : MemoryManager) (h : SharedMemoryHandle) (r : SharedRegion) (owner_task : TaskId)
    (start len : ℕ) (permissions : MemoryPermissions)
    → IsTable m
    → SealedIn h r m
    → SealedIn h r (share_region owner_task start len permissions m).1
share-SealedIn m h r owner_task start len permissions v (s, found, sealed) =
    share_cases (λ out. SealedIn h r out.1) m owner_task start len permissions
      (λ _. (s, found, sealed))
      λ slot _ _ e room. (
        s,
        find-update_first_miss is_vacant (is_shared_as h) _ m.shared_regions
              (λ x vacant. (ground arith, other))
            ∙ found,
        sealed,
      )
  where
    other : is_shared_as h (entry (shared m owner_task permissions) start len) ≡ false
    other = ground (
      arith,
      v.fresh h.id,
      count-find-some (is_shared_as h) m.shared_regions found,
      count_mono (is_shared_as h) (bears h.id) m.shared_regions (is_shared_as→bears h),
    )

pub seal-SealedIn :
    (m : MemoryManager) (h k : SharedMemoryHandle) (r : SharedRegion)
    → SealedIn h r m
    → SealedIn h r (seal_shared_region k m).1
seal-SealedIn m h k r (s, found, sealed) =
    seal_cases (λ out. SealedIn h r out.1) m k (λ _. (s, found, sealed))
      λ x e. elim (ℕ_discrete h.id k.id) [
        | yes same ↦ (seal s, again same, seal-IsSealedAs r s sealed.same_start sealed.same_len)
        | no other ↦ (
          s,
          find-update_first_miss (is_shared_as k) (is_shared_as h) seal m.shared_regions
                (λ y hit. (ground arith, ground arith))
              ∙ found,
          sealed,
        )
      ]
  where
    again :
        h.id ≡ k.id
        → find (is_shared_as h) (update_first (is_shared_as k) seal m.shared_regions)
          ≡ some (seal s)
    again same =
        subst
          (λ (i : ℕ).
            find (is_shared_as h)
              (update_first (λ x. x.handle.id == i && not (x.handle.id == 0)) seal m.shared_regions)
            ≡ some (seal s))
          same
          (find-update_first_self (is_shared_as h) seal m.shared_regions found
            (find_sound (is_shared_as h) m.shared_regions found))

pub run-SealedIn :
    (m : MemoryManager) (h : SharedMemoryHandle) (r : SharedRegion) (cs : List Call)
    → IsTable m
    → SealedIn h r m
    → SealedIn h r (run m cs)
unfolding run
run-SealedIn m h r [] v s = s
run-SealedIn m h r (shares owner_task start len permissions ∷ cs) v s =
    run-SealedIn (step m (shares owner_task start len permissions)) h r cs
      (step-IsTable m (shares owner_task start len permissions) v)
      (share-SealedIn m h r owner_task start len permissions v s)
run-SealedIn m h r (seals k ∷ cs) v s =
    run-SealedIn (step m (seals k)) h r cs (step-IsTable m (seals k) v) (seal-SealedIn m h k r s)

-- A region that is found under a handle in a well-formed table can be sealed, and stays so:
-- whatever is shared and sealed afterwards, the handle finds it with the same range, marked,
-- with the seal bit and without the write bit.
pub seal_forever :
    (m : MemoryManager) (h : SharedMemoryHandle) (r : SharedRegion) (cs : List Call)
    → IsTable m
    → shared_region m h ≡ ok r
    → ((seal_shared_region h m).0 ≡ ok tt)
      × (s : SharedRegion) × (shared_region (run (seal_shared_region h m).1 cs) h ≡ ok s)
      × IsSealedAs r s
seal_forever m h r cs v e =
    seal_cases
      (λ out.
        IsTable out.1
        → (out.0 ≡ ok tt)
          × (s : SharedRegion) × (shared_region (run out.1 cs) h ≡ ok s)
          × IsSealedAs r s)
      m h (λ gone _. absurd (ground (arith, find-shared m h r e)))
      (λ x _ w.
        let now =
          find-update_first_self (is_shared_as h) seal m.shared_regions (find-shared m h r e)
            (find_sound (is_shared_as h) m.shared_regions (find-shared m h r e)) in
        let (s, found, sealed) =
          run-SealedIn (after_seal m h) h r cs w (seal r, now, seal-IsSealedAs r r refl refl) in
        (refl, s, shared_region-found (run (after_seal m h) cs) h found, sealed))
      (step-IsTable m (seals h) v)
