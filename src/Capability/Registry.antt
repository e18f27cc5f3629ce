-- ===== src/Capability/Registry.antt =====
-- src/capability.rs, `CapabilityHandle` and `CapabilityRegistry`: a table of at most 64 handles,
-- each with the rights it was issued with. `Invariant` and `Handles` hold the theorems.
pub mod Invariant
pub mod Handles
use Prim.Native.Nat.{ℕ}
use mathlib.Core.Bool.{Bool, true, false, not, ◌&&◌, ◌||◌}
use mathlib.Core.Option
use mathlib.Core.Option.{Option, none, some}
use mathlib.Core.List.{List}
use alani_kernel.Common.Tests.{◌==◌, if◌then◌else◌}
use alani_kernel.Common.Words.{u32_mod, u64_mod, checked_add}
use alani_kernel.Common.Lists.{find, update_first, replicate}
use alani_kernel.Error.{KernelError}
use alani_kernel.Outcome.{KernelResult, ok, err, reject_if, ok_or}
use alani_kernel.Outcome
use alani_kernel.Method.{
  Method, try, ◌>>=◌, ◌>>◌, return, self, modify, query, throw_if, ok_or_throw,
}
use alani_kernel.Capability.{TaskId, Capability, CapabilitySet, from_bits, contains, attenuate}

-- `MAX_CAPABILITY_RECORDS`
abbrev pub max_capability_records : ℕ
max_capability_records = 64

-- `CapabilityHandle`
pub record CapabilityHandle : Type 0 where
  pub id : ℕ
  pub rights : ℕ
  pub owner_task : TaskId
  pub generation : ℕ

-- `CapabilityHandle::invalid`
abbrev pub invalid : CapabilityHandle
invalid = record { id = 0; rights = 0; owner_task = 0; generation = 0 }

-- `CapabilityHandle::rights`
unfoldable pub handle_rights : CapabilityHandle → KernelResult CapabilitySet
unfolding from_bits
handle_rights h = from_bits h.rights

-- `CapabilityRecord`
pub record CapabilityRecord : Type 0 where
  pub handle : CapabilityHandle
  pub revoked : Bool

-- `CapabilityRecord::EMPTY`
abbrev pub empty_record : CapabilityRecord
empty_record = record { handle = invalid; revoked = true }

-- `CapabilityRegistry`
pub record CapabilityRegistry : Type 0 where
  pub records : List CapabilityRecord
  pub next_id : ℕ
  pub next_generation : ℕ

-- `CapabilityRegistry::new`
abbrev pub new : CapabilityRegistry
new = record {
  records = replicate max_capability_records empty_record;
  next_id = 1;
  next_generation = 1;
}

-- The test by which `issue` chooses a slot.
abbrev pub is_free : CapabilityRecord → Bool
is_free r = r.handle.id == 0 || r.revoked

-- The test by which `revoke` and `resolve` find the record of a handle.
abbrev pub is_live : CapabilityHandle → CapabilityRecord → Bool
is_live h r = not r.revoked && r.handle.id == h.id && r.handle.generation == h.generation

-- `next_generation.checked_add(1).unwrap_or(1)`
abbrev pub next_after : ℕ → ℕ
next_after g = Option.get_or (checked_add u32_mod g 1) 1

unfoldable pub issue : TaskId → CapabilitySet → Method CapabilityRegistry CapabilityHandle
issue owner_task rights = do
  r ← self
  slot ← ok_or_throw (find is_free r.records) KernelError.capacity_exceeded
  let handle : CapabilityHandle = record {
    id = r.next_id;
    rights = rights.bits;
    owner_task = owner_task;
    generation = r.next_generation;
  }
  next ← ok_or_throw (checked_add u64_mod r.next_id 1) KernelError.internal
  modify (λ s. record s { next_id = next; next_generation = next_after s.next_generation })
  modify (λ s. record s {
    records = update_first is_free (λ _. record { handle = handle; revoked = false }) s.records;
  })
  return handle

unfoldable pub resolve : CapabilityRegistry → CapabilityHandle → KernelResult CapabilitySet
resolve r handle =
    if handle.id == 0
    then err KernelError.not_found
    else Outcome.◌>>=◌ (ok_or (find (is_live handle) r.records) KernelError.not_found)
        λ found. from_bits found.handle.rights

-- `CapabilityRegistry::derive`
unfoldable pub derive :
    CapabilityHandle → TaskId → CapabilitySet → Method CapabilityRegistry CapabilityHandle
derive parent owner_task requested = do
  parent_rights ← query (λ r. resolve r parent)
  child_rights ← query (λ _. attenuate parent_rights requested)
  issue owner_task child_rights

unfoldable pub revoke : CapabilityHandle → Method CapabilityRegistry (Unit {0})
revoke handle = do
  r ← self
  found ← ok_or_throw (find (is_live handle) r.records) KernelError.not_found
  modify (λ s. record s {
    records = update_first (is_live handle) (λ e. record e { revoked = true }) s.records;
  })

unfoldable pub handle_contains :
    CapabilityRegistry → CapabilityHandle → Capability → KernelResult Bool
handle_contains r handle required =
    Outcome.◌>>=◌ (resolve r handle) λ rights. ok (contains rights required)
