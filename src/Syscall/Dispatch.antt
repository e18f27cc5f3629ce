-- ===== src/Syscall/Dispatch.antt =====
-- src/syscall.rs, `SyscallDispatcher`: lookups in the table, and what passes the validation.
use Prim.Native.Nat.{ℕ}
use Prim.Native.String.{String}
use mathlib.Core.Path.{◌≡◌, refl, ◌∙◌, subst}
use mathlib.Core.Logic.{◌↔◌, ◌⊎◌, inl, inr}
use mathlib.Core.Bool.{true, false}
use mathlib.Core.Option
use mathlib.Core.Option.{Option, none, some}
use native.Mathlib.Omega.{arith}
use alani_kernel.Common.Tests.{==→eq, bind-eq-some}
use alani_kernel.Common.Lists.{find, find_sound, find-All, All}
use alani_kernel.Outcome.{ok}
use alani_kernel.Capability.{Capability, CapabilitySet, contains, empty, require}
use alani_kernel.Capability.Sets.{contains-empty}
use alani_kernel.Abi.Numbers.{
  SyscallNumber, raw_number, number_eq, number_name, from_raw, raw_number-from_raw,
}
use alani_kernel.Syscall.Table.{SyscallDescriptor, syscall_descriptors}
use alani_kernel.Syscall.{SyscallFrame, DispatchContext, allows_context, lookup, validate}

-- The table has an entry for every system call, under its number and its name.
pub lookup-raw_number :
    (n : SyscallNumber)
    → Option.map {B = SyscallNumber × String} (λ d. (d.number, d.name)) (lookup (raw_number n))
      ≡ some (n, number_name n)
unfolding lookup number_name raw_number from_raw number_eq syscall_descriptors Option.bind
lookup-raw_number SyscallNumber.sys_info = refl
lookup-raw_number _ = refl

-- What `lookup` finds is the entry of the number that the raw value decodes to.
lookup-eq-some :
    (raw : ℕ) (d : SyscallDescriptor)
    → lookup raw ≡ some d
    → (n : SyscallNumber) × (from_raw raw ≡ some n)
      × (find (λ e. number_eq e.number n) syscall_descriptors ≡ some d)
unfolding lookup
lookup-eq-some raw d h =
    bind-eq-some (from_raw raw) (λ n. find (λ e. number_eq e.number n) syscall_descriptors) h

number_eq_sound : (m n : SyscallNumber) → number_eq m n ≡ true → raw_number m ≡ raw_number n
unfolding number_eq
number_eq_sound m n h = ==→eq (raw_number m) (raw_number n) h

-- A raw value that is looked up with success is the number of the descriptor found.
pub raw_number-lookup :
    (raw : ℕ) (d : SyscallDescriptor) → lookup raw ≡ some d → raw_number d.number ≡ raw
raw_number-lookup raw d h =
    let (n, known, found) = lookup-eq-some raw d h in
    number_eq_sound d.number n (find_sound (λ e. number_eq e.number n) syscall_descriptors found)
    ∙ raw_number-from_raw raw n known

-- The caller holds what a descriptor asks for.
abbrev pub IsAuthorized : CapabilitySet → SyscallDescriptor → Type 0
IsAuthorized held d =
    (d.required_capability ≡ none)
    ⊎ ((c : Capability) × (d.required_capability ≡ some c) × (contains held c ≡ true))

-- A frame passes exactly if its number is in the table, the context may make the call, and the caller
-- holds the capability that the descriptor asks for.
pub validate_ok_iff :
    (frame : SyscallFrame) (context : DispatchContext) (d : SyscallDescriptor)
    → (validate frame context ≡ ok d)
      ↔ (lookup frame.number ≡ some d)
        × (allows_context d context.execution ≡ true)
        × IsAuthorized context.capabilities d
unfolding validate require
validate_ok_iff frame context d = ground arith

IsAuthorized-empty : (d : SyscallDescriptor) → IsAuthorized empty d → d.required_capability ≡ none
IsAuthorized-empty d (inl free) = free
IsAuthorized-empty d (inr (c, asked, held)) = absurd (ground (arith, contains-empty c))

-- A caller with no capability passes only where none is asked for.
pub validate-empty :
    (frame : SyscallFrame) (context : DispatchContext) (d : SyscallDescriptor)
    → context.capabilities ≡ empty
    → validate frame context ≡ ok d
    → d.required_capability ≡ none
validate-empty frame context d h e =
    IsAuthorized-empty d
      (subst (λ held. IsAuthorized held d) h ((validate_ok_iff frame context d).0 e).2)

-- Either not for interrupts and early boot, or without privilege and audit.
abbrev IsUnprivileged : SyscallDescriptor → Type 0
IsUnprivileged d =
    (d.early_boot_safe ≡ d.interrupt_safe)
    × ((d.interrupt_safe ≡ false) ⊎ ((d.required_capability ≡ none) × (d.audit_event ≡ none)))

descriptors-IsUnprivileged : All IsUnprivileged syscall_descriptors
unfolding syscall_descriptors
descriptors-IsUnprivileged = ground arith

-- A call of the table may be made in early boot exactly if it may be made from an interrupt, and
-- then it asks for no capability and is not audited.
lookup_unprivileged :
    (raw : ℕ) (d : SyscallDescriptor)
    → lookup raw ≡ some d
    → (d.early_boot_safe ≡ d.interrupt_safe)
      × ((d.interrupt_safe ≡ false) ⊎ ((d.required_capability ≡ none) × (d.audit_event ≡ none)))
lookup_unprivileged raw d h =
    let (n, known, found) = lookup-eq-some raw d h in
    find-All IsUnprivileged (λ e. number_eq e.number n) syscall_descriptors
      descriptors-IsUnprivileged found
