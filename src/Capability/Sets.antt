-- ===== src/Capability/Sets.antt =====
-- src/capability.rs, `CapabilitySet`: the bit operations as operations on sets of authorities.
use Prim.Native.Nat.{ℕ, zero, suc, ◌*◌, ◌^◌, ◌≤◌, ◌<◌, max, bit_and}
use mathlib.Core.Path.{◌≡◌, refl, ap}
use mathlib.Core.Logic.{◌↔◌, ◌⊎◌}
use native.Mathlib.Decide.{ℕ_discrete}
use mathlib.Core.Bool.{true, false, not}
use native.Mathlib.Nat.{one-le-pow}
use native.Mathlib.Omega.{arith}
use alani_kernel.Common.Tests.{◌==◌, if◌then◌else◌, ltb, ==→eq, eq→==}
use alani_kernel.Common.Bits.{
  bit_at, bit_at-le-one, bit_at-zero, bit_at-bit_and, bit_at-bit_or, bit_and-pow, bit_at-pow_self,
  bit_at-pow_ne, eq_of_bits, bit_and-lt, bit_and-high,
}
use alani_kernel.Error.{KernelError}
use alani_kernel.Outcome.{ok, err}
use alani_kernel.Capability.{
  Capability, position, bit, CapabilitySet, empty, from_bits, contains, contains_all,
  with_capability, intersect, attenuate,
}

-- A set fits a `u64`.
abbrev pub Fits : CapabilitySet → Type 0
Fits s = s.bits < 2 ^ 64

-- The capability at position `k` is in the set.
abbrev pub HasBit : ℕ → CapabilitySet → Type 0
HasBit k s = bit_at k s.bits ≡ 1

set_digit : (b p : ℕ) → b ≤ 1 → 1 ≤ p → (not (b * p == 0) ≡ true) ↔ (b ≡ 1)
set_digit zero p h q = ground arith
set_digit (suc zero) p h q = ground arith
set_digit (suc (suc b)) p h q = absurd (omega arith)

-- `contains` tests the capability's bit.
pub contains_iff-HasBit :
    (s : CapabilitySet) (c : Capability) → (contains s c ≡ true) ↔ HasBit (position c) s
unfolding contains bit
contains_iff-HasBit s c = rw (bit_and-pow (position c) s.bits) (
    set_digit (bit_at (position c) s.bits) (2 ^ position c) (bit_at-le-one (position c) s.bits)
      (one-le-pow (position c) 2 (omega arith)))

-- Every bit of the first is a bit of the second.
abbrev pub IsWithin : CapabilitySet → CapabilitySet → Type 0
IsWithin s t = (k : ℕ) → bit_at k s.bits ≤ bit_at k t.bits

-- `contains_all` holds for a required set of 64 bits exactly if every bit of it is a bit of the
-- set.
pub contains_all_iff :
    (s required : CapabilitySet)
    → Fits required
    → (contains_all s required ≡ true) ↔ IsWithin required s
unfolding contains_all
contains_all_iff s required fits = (
  λ all k. omega (
    arith,
    bit_at-bit_and k s.bits required.bits,
    ap (bit_at k) (==→eq (bit_and s.bits required.bits) required.bits all),
  ),
  λ h. eq→== _ _ (
      eq_of_bits 64 _ _ (bit_and-lt 64 s.bits required.bits fits) fits
        λ k below. omega (arith, bit_at-bit_and k s.bits required.bits, h k)),
)

position-lt : (c : Capability) → position c < 15
unfolding position
position-lt c = ground arith

bit-lt : (c : Capability) → bit c < 2 ^ 64
unfolding bit
bit-lt c = ground arith

-- `from_bits` accepts exactly the masks with no bit above the fifteen that are known, and returns
-- them as they are.
pub from_bits_lem :
    (bits : ℕ)
    → bits < 2 ^ 64
    → from_bits bits
      ≡ (if ltb bits (2 ^ 15) then ok (record { bits = bits }) else err KernelError.reserved_bits)
unfolding from_bits
from_bits_lem bits h = ground (arith, bit_and-high 15 49 bits)

position-injective : (c d : Capability) → position c ≡ position d → c ≡ d
unfolding position
position-injective c d h = ground arith

max_one : (a b : ℕ) → a ≤ 1 → b ≤ 1 → (max a b ≡ 1) ↔ ((a ≡ 1) ⊎ (b ≡ 1))
max_one zero b p q = ground arith
max_one (suc a) b p q = ground arith

-- The bits of one capability.
HasBit-single : (k : ℕ) (c : Capability) → (bit_at k (bit c) ≡ 1) ↔ (k ≡ position c)
unfolding bit
HasBit-single k c = elim (ℕ_discrete k (position c)) [
  | yes e ↦ rw e (λ _. refl, λ _. bit_at-pow_self (position c))
  | no ne ↦ rw (bit_at-pow_ne k (position c) ne) ground arith
]

-- `with` adds the one capability, and keeps all others as they are.
pub contains-with_capability :
    (s : CapabilitySet) (c d : Capability)
    → (contains (with_capability s c) d ≡ true) ↔ ((contains s d ≡ true) ⊎ (d ≡ c))
unfolding with_capability
contains-with_capability s c d = ground (
  arith,
  contains_iff-HasBit (with_capability s c) d,
  contains_iff-HasBit s d,
  bit_at-bit_or (position d) s.bits (bit c),
  max_one (bit_at (position d) s.bits) (bit_at (position d) (bit c))
      (bit_at-le-one (position d) s.bits) (bit_at-le-one (position d) (bit c)),
  HasBit-single (position d) c,
  position-injective d c,
)

-- `intersect` holds exactly what both sets hold.
pub contains-intersect :
    (s t : CapabilitySet) (c : Capability)
    → (contains (intersect s t) c ≡ true) ↔ (contains s c ≡ true) × (contains t c ≡ true)
unfolding intersect
contains-intersect s t c = ground (
  arith,
  contains_iff-HasBit (intersect s t) c,
  contains_iff-HasBit s c,
  contains_iff-HasBit t c,
  bit_at-bit_and (position c) s.bits t.bits,
  bit_at-le-one (position c) s.bits,
  bit_at-le-one (position c) t.bits,
)

pub attenuate-ok :
    (s requested : CapabilitySet) {child : CapabilitySet}
    → attenuate s requested ≡ ok child
    → (contains_all s requested ≡ true) × (requested ≡ child)
unfolding attenuate
attenuate-ok s requested h = ground arith

contains_mono :
    (s t : CapabilitySet) (c : Capability)
    → IsWithin t s
    → contains t c ≡ true
    → contains s c ≡ true
contains_mono s t c inside h = (contains_iff-HasBit s c).1 (
    omega (
      arith,
      inside (position c),
      (contains_iff-HasBit t c).0 h,
      bit_at-le-one (position c) s.bits,
    ))

-- Deriving succeeds exactly when the requested set lies within the parent's, and returns it.
pub attenuate_lem :
    (s requested : CapabilitySet)
    → Fits requested
    → (attenuate s requested ≡ ok requested) ↔ IsWithin requested s
unfolding attenuate
attenuate_lem s requested fits = ground (arith, contains_all_iff s requested fits)

-- A derived set grants nothing that its parent does not.
pub attenuate-contains :
    (s requested child : CapabilitySet) (c : Capability)
    → Fits requested
    → attenuate s requested ≡ ok child
    → contains child c ≡ true
    → contains s c ≡ true
attenuate-contains s requested child c fits e h =
    let (all, same) = attenuate-ok s requested e in
    contains_mono s requested c ((contains_all_iff s requested fits).0 all)
      (rw (ap (λ t. contains t c) same) h)

-- The empty set grants nothing.
pub contains-empty : (c : Capability) → contains empty c ≡ false
contains-empty c = ground (arith, contains_iff-HasBit empty c, bit_at-zero (position c))
