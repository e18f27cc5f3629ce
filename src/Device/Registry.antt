-- ===== src/Device/Registry.antt =====
-- src/device.rs, `DeviceRegistry::register` and `get`: what holds of the table.
use Prim.Native.Nat.{◌+◌, ◌≤◌}
use mathlib.Core.Path.{subst, ◌≡◌, refl, ◌∙◌}
use mathlib.Core.Logic.{◌≢◌, inl, inr}
use mathlib.Core.Bool.{true}
use mathlib.Core.Option.{none, some}
use mathlib.Core.List.{List, [], ◌∷◌}
use native.Mathlib.Omega.{arith}
use alani_kernel.Common.Tests.{if◌then◌else◌, ==→eq, ==→ne, ◌==◌, Option-cases, Bool-cases, ==_refl}
use alani_kernel.Common.Lists.{find, update_first, count, length, length-update_first}
use alani_kernel.Common.Search.{
  tally, count-update_first, count-replicate, count-find-none, find-update_first_hit,
  find-update_first_miss,
}
use alani_kernel.Error.{KernelError}
use alani_kernel.Outcome.{KernelResult, ok, err}
use alani_kernel.Device.{
  DeviceId, DeviceDescriptor, DeviceSlot, DeviceRegistry, max_devices, empty_slot, new, is_vacant,
  holds_device, get, register,
}

-- The 32 slots hold devices with distinct identifiers, none of them zero.
pub record IsRegistry (r : DeviceRegistry) : Type 0 where
  pub size : length r.slots ≡ max_devices
  pub unique : (i : DeviceId) → count (holds_device i) r.slots ≤ 1
  pub no_zero : count (holds_device 0) r.slots ≡ 0

new-IsRegistry : IsRegistry new
new-IsRegistry = record {
  size = refl;
  unique = λ i. omega (arith, count-replicate (holds_device i) 32 empty_slot refl);
  no_zero = refl;
}

abbrev pub slot_of : DeviceDescriptor → DeviceSlot
slot_of d = record { occupied = true; descriptor = d }

abbrev pub registered : DeviceRegistry → DeviceDescriptor → DeviceRegistry
registered r d = record { slots = update_first is_vacant (λ _. slot_of d) r.slots }

-- Either `register` fails and changes nothing, or the identifier was new and not zero, and the
-- descriptor is written to a vacant slot.
pub register_cases {ℓ} :
    (P : KernelResult (Unit {0}) × DeviceRegistry → Type ℓ) (r : DeviceRegistry)
    (d : DeviceDescriptor)
    → ((e : KernelError) → P (err e, r))
    → ((slot : DeviceSlot)
        → d.id ≢ 0
        → find (holds_device d.id) r.slots ≡ none
        → find is_vacant r.slots ≡ some slot
        → P (ok tt, registered r d))
    → P (register d r)
unfolding register get
register_cases P r d failed done = elim (Bool-cases (d.id == 0)) [
  | inl zero_id ↦ rw (zero_id, register) (failed KernelError.invalid_argument)
  | inr some_id ↦ elim (Option-cases (find (holds_device d.id) r.slots)) [
    | inr (other, e) ↦ rw (some_id, register) (rw (e, register) (failed KernelError.duplicate))
    | inl unknown ↦ elim (Option-cases (find is_vacant r.slots)) [
      | inl full ↦
          rw (some_id, register)
            (rw (unknown, register) (rw (full, register) (failed KernelError.capacity_exceeded)))
      | inr (slot, e) ↦
          rw (some_id, register)
            (rw (unknown, register)
              (rw (e, register) (done slot (ground (arith, some_id)) unknown e)))
    ]
  ]
]

registered-IsRegistry :
    (r : DeviceRegistry) (d : DeviceDescriptor) (slot : DeviceSlot)
    → IsRegistry r
    → d.id ≢ 0
    → find (holds_device d.id) r.slots ≡ none
    → find is_vacant r.slots ≡ some slot
    → IsRegistry (registered r d)
registered-IsRegistry r d slot v pos unknown e = record {
  size = length-update_first is_vacant _ r.slots ∙ v.size;
  unique = λ i. elim (Bool-cases (d.id == i)) [
    | inl same ↦ ground (arith, absent, traded i)
    | inr other ↦ ground (arith, v.unique i, traded i)
  ];
  no_zero = ground (arith, v.no_zero, traded 0);
}
  where
    absent : count (holds_device d.id) r.slots ≡ 0
    absent = count-find-none (holds_device d.id) r.slots unknown

    traded :
        (i : DeviceId)
        → count (holds_device i) (registered r d).slots + tally (holds_device i slot)
          ≡ count (holds_device i) r.slots + tally (holds_device i (slot_of d))
    traded i = count-update_first is_vacant (holds_device i) (λ _. slot_of d) r.slots e

register-IsRegistry :
    (r : DeviceRegistry) (d : DeviceDescriptor) → IsRegistry r → IsRegistry (register d r).1
register-IsRegistry r d v =
    register_cases (λ out. IsRegistry out.1) r d (λ _. v)
      λ slot pos unknown e. registered-IsRegistry r d slot v pos unknown e

-- The registry after a sequence of registrations, failed ones included.
unfoldable pub register_all : DeviceRegistry → List DeviceDescriptor → DeviceRegistry
register_all r [] = r
register_all r (d ∷ ds) = register_all (register d r).1 ds

register_all-IsRegistry :
    (r : DeviceRegistry) (ds : List DeviceDescriptor)
    → IsRegistry r
    → IsRegistry (register_all r ds)
unfolding register_all
register_all-IsRegistry r [] v = v
register_all-IsRegistry r (d ∷ ds) v =
    register_all-IsRegistry (register d r).1 ds (register-IsRegistry r d v)

-- Whatever is registered in a new registry, successfully or not, it keeps its 32 slots, no two
-- devices have the same identifier, and none has identifier 0.
pub register_all-new-IsRegistry : (ds : List DeviceDescriptor) → IsRegistry (register_all new ds)
register_all-new-IsRegistry ds = register_all-IsRegistry new ds new-IsRegistry

get-register_parts :
    (r : DeviceRegistry) (d : DeviceDescriptor)
    → (register d r).0 ≡ ok tt
    → (d.id ≢ 0)
      × (get r d.id ≡ none)
      × (get (register d r).1 d.id ≡ some d)
      × ((i : DeviceId) → d.id ≢ i → get (register d r).1 i ≡ get r i)
unfolding get
get-register_parts r d =
    register_cases
      (λ out.
        out.0 ≡ ok tt
        → (d.id ≢ 0)
          × (get r d.id ≡ none)
          × (get out.1 d.id ≡ some d)
          × ((i : DeviceId) → d.id ≢ i → get out.1 i ≡ get r i))
      r d (λ e h. absurd (ground arith))
      λ slot pos unknown e _. (
        pos,
        rw unknown refl,
        rw
            (find-update_first_hit is_vacant (holds_device d.id) (λ _. slot_of d) r.slots e
              (ground (arith, ==_refl d.id)) (count-find-none (holds_device d.id) r.slots unknown))
            refl,
        λ i ne.
            rw
              (find-update_first_miss is_vacant (holds_device i) (λ _. slot_of d) r.slots
                λ x vacant. ground arith)
              refl,
      )

-- A device that was registered with success is found under its identifier as it was described,
-- every other identifier finds what it found before, and the identifier was not zero and found
-- nothing before.
pub get-register :
    (r : DeviceRegistry) (d : DeviceDescriptor) (i : DeviceId)
    → (register d r).0 ≡ ok tt
    → (d.id ≢ 0)
      × (get r d.id ≡ none)
      × (get (register d r).1 i ≡ (if d.id == i then some d else get r i))
get-register r d i done =
    let (pos, unknown, found, others) = get-register_parts r d done in
    (
      pos,
      unknown,
      elim (Bool-cases (d.id == i)) [
        | inl same ↦
            rw same (subst (λ k. get (register d r).1 k ≡ some d) (==→eq d.id i same) found)
        | inr other ↦ rw other (others i (==→ne d.id i other))
      ],
    )

-- A registration that fails leaves the registry as it was.
pub register-failed :
    (r : DeviceRegistry) (d : DeviceDescriptor) {e : KernelError}
    → (register d r).0 ≡ err e
    → (register d r).1 ≡ r
register-failed r d {e} =
    register_cases (λ out. out.0 ≡ err e → out.1 ≡ r) r d (λ _ _. refl)
      λ slot _ _ _ h. absurd (ground arith)
