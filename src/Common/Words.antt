-- ===== src/Common/Words.antt =====
-- Machine words as native numbers below a power of two: the checked, wrapping and saturating
-- additions of Rust's integers, its casts, its complement and `is_power_of_two`.
use Prim.Native.Nat.{ℕ, zero, suc, ◌+◌, ◌-◌, ◌%◌, ◌^◌, ◌<◌, min}
use mathlib.Core.Path.{◌≡◌}
use mathlib.Core.Logic.{inl, inr}
use mathlib.Core.Bool.{Bool, true, false, ◌||◌}
use mathlib.Core.Option.{Option, none, some}
use native.Mathlib.Omega.{arith}
use alani_kernel.Common.Tests.{ltb, ◌==◌, if◌then◌else◌, Bool-cases, ==→eq}

-- The number of values of each width.
abbrev pub u8_mod : ℕ
u8_mod = 2 ^ 8

abbrev pub u16_mod : ℕ
u16_mod = 2 ^ 16

abbrev pub u32_mod : ℕ
u32_mod = 2 ^ 32

abbrev pub u64_mod : ℕ
u64_mod = 2 ^ 64

-- `a.checked_add(b)` at the width that has `m` values.
abbrev pub checked_add : ℕ → ℕ → ℕ → Option ℕ
checked_add m a b = if ltb (a + b) m then some (a + b) else none

-- `a.wrapping_add(b)`
abbrev pub wrapping_add : ℕ → ℕ → ℕ → ℕ
wrapping_add m a b = (a + b) % m

-- `a.saturating_add(b)`
abbrev pub saturating_add : ℕ → ℕ → ℕ → ℕ
saturating_add m a b = min (a + b) (m - 1)

-- `!a`
abbrev pub complement : ℕ → ℕ → ℕ
complement m a = m - 1 - a

-- `a as u32` and the like: the low bits are kept.
abbrev pub cast : ℕ → ℕ → ℕ
cast m a = a % m

-- Whether `x` is one of 2 ^ 0, …, 2 ^ (n - 1).
unfoldable pub is_power_below : ℕ → ℕ → Bool
is_power_below zero x = false
is_power_below (suc n) x = (x == 2 ^ n) || is_power_below n x

-- `x.is_power_of_two()` on a `u64`.
unfoldable pub is_power_of_two : ℕ → Bool
unfolding is_power_below
is_power_of_two x = is_power_below 64 x

is_power_below_sound : (n x : ℕ) → is_power_below n x ≡ true → (k : ℕ) × (k < n) × (x ≡ 2 ^ k)
unfolding is_power_below
is_power_below_sound zero x h = absurd (ground arith)
is_power_below_sound (suc n) x h = elim (Bool-cases (x == 2 ^ n)) [
  | inl hit ↦ (n, omega arith, ==→eq x (2 ^ n) hit)
  | inr miss ↦ let (k, below, e) = is_power_below_sound n x (rw miss at h) in (k, omega arith, e)
]

-- A number that the test accepts is a power of two that a `u64` can hold.
pub is_power_of_two_sound : (x : ℕ) → is_power_of_two x ≡ true → (k : ℕ) × (k < 64) × (x ≡ 2 ^ k)
unfolding is_power_of_two
is_power_of_two_sound x h = is_power_below_sound 64 x h
