-- ===== src/Tests/CapabilityTests.antt =====
-- src/capability.rs: a registry that issues, derives and revokes.
use Prim.Native.Nat.{◌<◌}
use mathlib.Core.Path.{◌≡◌, refl}
use mathlib.Core.List.{[], ◌∷◌}
use native.Mathlib.Omega.{arith}
use alani_kernel.Error.{KernelError}
use alani_kernel.Outcome.{ok, err}
use alani_kernel.Capability.{CapabilitySet, from_bits, attenuate}
use alani_kernel.Capability.Sets.{IsWithin}
use alani_kernel.Capability.Registry.{
  CapabilityHandle, CapabilityRegistry, new, issue, resolve, derive, revoke,
}
use alani_kernel.Capability.Registry.Invariant.{Call, IsValid, run, run-new-IsValid}
use alani_kernel.Capability.Registry.Handles.{revoke_forever, resolve-derive, resolve-issue}
use Call.{issues, derives, revokes}

-- The capabilities to open and to call a device, and to call one.
abbrev both : CapabilitySet
both = record { bits = 96 }

abbrev calling : CapabilitySet
calling = record { bits = 64 }

-- The first two handles of a registry.
abbrev first : CapabilityHandle
first = record { id = 1; rights = 96; owner_task = 7; generation = 1 }

abbrev second : CapabilityHandle
second = record { id = 2; rights = 64; owner_task = 8; generation = 2 }

abbrev one_issued : CapabilityRegistry
one_issued = (issue 7 both new).1

abbrev two_issued : CapabilityRegistry
two_issued = (derive first 8 calling one_issued).1

one_issued-IsValid : IsValid one_issued
unfolding run
one_issued-IsValid = run-new-IsValid (issues 7 both ∷ [])

two_issued-IsValid : IsValid two_issued
unfolding run
two_issued-IsValid = run-new-IsValid (issues 7 both ∷ derives first 8 calling ∷ [])

issue-new : issue 7 both new ≡ (ok first, one_issued)
unfolding issue
issue-new = refl

derive-one_issued : derive first 8 calling one_issued ≡ (ok second, two_issued)
unfolding derive resolve issue from_bits attenuate
derive-one_issued = refl

revoke-two_issued : revoke first two_issued ≡ (ok tt, (revoke first two_issued).1)
unfolding revoke derive resolve issue from_bits attenuate
revoke-two_issued = refl

run-new-IsValid_example : IsValid (run new (issues 7 both ∷ revokes first ∷ issues 7 both ∷ []))
run-new-IsValid_example = run-new-IsValid (issues 7 both ∷ revokes first ∷ issues 7 both ∷ [])

new-IsValid_test : IsValid new
unfolding run
new-IsValid_test = run-new-IsValid []

issued-below : first.id < one_issued.next_id
unfolding issue
issued-below = omega arith

resolve-issue_example : resolve one_issued first ≡ ok both
resolve-issue_example =
    resolve-issue new one_issued 7 both first new-IsValid_test (omega arith) issue-new

resolve-derive_example :
    (resolve two_issued second ≡ ok calling)
    × (held : CapabilitySet) × (resolve one_issued first ≡ ok held)
    × IsWithin calling held
resolve-derive_example =
    resolve-derive one_issued two_issued first second 8 calling one_issued-IsValid (omega arith)
      derive-one_issued

revoke_forever_example :
    resolve (run (revoke first two_issued).1 (issues 7 both ∷ revokes second ∷ [])) first
    ≡ err KernelError.not_found
revoke_forever_example =
    revoke_forever two_issued (revoke first two_issued).1 first
      (issues 7 both ∷ revokes second ∷ []) two_issued-IsValid revoke-two_issued
