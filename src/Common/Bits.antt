-- ===== src/Common/Bits.antt =====
-- Bit sets as native numbers: the bits of `&`, `|` and `!`, at variables.
use Prim.Native.Nat.{
  ℕ, zero, suc, ◌+◌, ◌-◌, ◌*◌, ◌/◌, ◌%◌, ◌^◌, ◌≤◌, ◌<◌, min, max, bit_and, bit_or, digits,
  bit_and-bitwise, bit_or-bitwise,
}
use mathlib.Core.Path.{◌≡◌, refl, ◌∙◌, sym, ap}
use mathlib.Core.Logic.{◌≢◌}
use native.Mathlib.Nat.{
  pow-suc, one-le-pow, mod-add-div, div-div-eq-div-mul, mul_comm, div-one, mod-eq_of_lt,
}
use native.Mathlib.Omega.{arith}
use alani_kernel.Common.Words.{complement}

-- Induction by halving.
halving_fuel {ℓ} :
    (P : ℕ → Type ℓ) → P 0 → ((x : ℕ) → P (suc x / 2) → P (suc x)) → (fuel x : ℕ) → x ≤ fuel → P x
halving_fuel P base next fuel zero h = base
halving_fuel P base next zero (suc x) h = absurd (omega arith)
halving_fuel P base next (suc fuel) (suc x) h =
    next x (halving_fuel P base next fuel (suc x / 2) (omega arith))

halving {ℓ} : (P : ℕ → Type ℓ) → P 0 → ((x : ℕ) → P (suc x / 2) → P (suc x)) → (x : ℕ) → P x
halving P base next x = halving_fuel P base next x x (omega arith)

-- The definition that the native operations stand for, of any digit operation: the fuel does not
-- matter once it is enough.
module _ (rest : ℕ → ℕ) (digit : ℕ → ℕ → ℕ) where
  digits-zero : (fuel y : ℕ) → digits rest digit fuel 0 y ≡ rest y
  digits-zero zero y = refl
  digits-zero (suc fuel) y = refl

  digits-enough : (k l x y : ℕ) → x ≤ k → x ≤ l → digits rest digit k x y ≡ digits rest digit l x y
  digits-enough k l zero y below above = digits-zero k y ∙ sym (digits-zero l y)
  digits-enough zero l (suc x) y below above = absurd (omega arith)
  digits-enough (suc k) zero (suc x) y below above = absurd (omega arith)
  digits-enough (suc k) (suc l) (suc x) y below above =
      ap (λ (t : ℕ). t * 2 + digit (suc x % 2) (y % 2))
        (digits-enough k l (suc x / 2) (y / 2) (omega arith) (omega arith))

  digits-halves :
      (x y : ℕ)
      → digits rest digit (suc x) (suc x) y
        ≡ digits rest digit (suc x / 2) (suc x / 2) (y / 2) * 2 + digit (suc x % 2) (y % 2)
  digits-halves x y =
      ap (λ (t : ℕ). t * 2 + digit (suc x % 2) (y % 2))
        (digits-enough x (suc x / 2) (suc x / 2) (y / 2) (omega arith) (omega arith))

nothing-bit_and : (y : ℕ) → bit_and 0 y ≡ 0
nothing-bit_and y = bit_and-bitwise 0 y

nothing-bit_or : (y : ℕ) → bit_or 0 y ≡ y
nothing-bit_or y = bit_or-bitwise 0 y

-- Both operations work on the lowest digits and on the halves.
bit_and-halves : (x y : ℕ) → bit_and x y ≡ bit_and (x / 2) (y / 2) * 2 + min (x % 2) (y % 2)
bit_and-halves zero y = omega (arith, nothing-bit_and y, nothing-bit_and (y / 2))
bit_and-halves (suc x) y =
    bit_and-bitwise (suc x) y
    ∙ digits-halves (λ _. zero) min x y
    ∙ ap (λ (t : ℕ). t * 2 + min (suc x % 2) (y % 2)) (sym (bit_and-bitwise (suc x / 2) (y / 2)))

bit_or-halves : (x y : ℕ) → bit_or x y ≡ bit_or (x / 2) (y / 2) * 2 + max (x % 2) (y % 2)
bit_or-halves zero y = omega (arith, nothing-bit_or y, nothing-bit_or (y / 2))
bit_or-halves (suc x) y =
    bit_or-bitwise (suc x) y
    ∙ digits-halves (λ z. z) max x y
    ∙ ap (λ (t : ℕ). t * 2 + max (suc x % 2) (y % 2)) (sym (bit_or-bitwise (suc x / 2) (y / 2)))

pub bit_and-zero : (x : ℕ) → bit_and x 0 ≡ 0
bit_and-zero =
    halving (λ x. bit_and x 0 ≡ 0) (nothing-bit_and 0)
      λ x half. omega (arith, bit_and-halves (suc x) 0, half)

pub bit_or-zero : (x : ℕ) → bit_or x 0 ≡ x
bit_or-zero =
    halving (λ x. bit_or x 0 ≡ x) (nothing-bit_or 0)
      λ x half. omega (arith, bit_or-halves (suc x) 0, half)

bit_and-half : (a b : ℕ) → bit_and a b / 2 ≡ bit_and (a / 2) (b / 2)
bit_and-half a b = omega (arith, bit_and-halves a b)

bit_or-half : (a b : ℕ) → bit_or a b / 2 ≡ bit_or (a / 2) (b / 2)
bit_or-half a b = omega (arith, bit_or-halves a b)

-- Digit `k` of a number.
abbrev pub bit_at : ℕ → ℕ → ℕ
bit_at zero a = a % 2
bit_at (suc k) a = bit_at k (a / 2)

pub bit_at-le-one : (k a : ℕ) → bit_at k a ≤ 1
bit_at-le-one zero a = omega arith
bit_at-le-one (suc k) a = bit_at-le-one k (a / 2)

pub bit_at-bit_and : (k a b : ℕ) → bit_at k (bit_and a b) ≡ min (bit_at k a) (bit_at k b)
bit_at-bit_and zero a b = omega (arith, bit_and-halves a b)
bit_at-bit_and (suc k) a b = rw (bit_and-half a b) (bit_at-bit_and k (a / 2) (b / 2))

pub bit_at-bit_or : (k a b : ℕ) → bit_at k (bit_or a b) ≡ max (bit_at k a) (bit_at k b)
bit_at-bit_or zero a b = omega (arith, bit_or-halves a b)
bit_at-bit_or (suc k) a b = rw (bit_or-half a b) (bit_at-bit_or k (a / 2) (b / 2))

pub bit_at-zero : (k : ℕ) → bit_at k 0 ≡ 0
bit_at-zero zero = refl
bit_at-zero (suc k) = bit_at-zero k

-- A number is known by its bits below its width, and so is whether it is zero.
pub eq_of_bits :
    (n a b : ℕ) → a < 2 ^ n → b < 2 ^ n → ((k : ℕ) → k < n → bit_at k a ≡ bit_at k b) → a ≡ b
eq_of_bits zero a b ha hb h = omega arith
eq_of_bits (suc n) a b ha hb h = omega (
  arith,
  h 0 (omega arith),
  eq_of_bits n (a / 2) (b / 2) (omega (arith, pow-suc 2 n)) (omega (arith, pow-suc 2 n))
      (λ k below. h (suc k) (omega arith)),
)

half-pow-suc : (k : ℕ) → 2 ^ suc k / 2 ≡ 2 ^ k
half-pow-suc k = omega (arith, pow-suc 2 k)

pub bit_at-pow_self : (k : ℕ) → bit_at k (2 ^ k) ≡ 1
bit_at-pow_self zero = refl
bit_at-pow_self (suc k) = rw (half-pow-suc k) (bit_at-pow_self k)

pub bit_at-pow_ne : (j k : ℕ) → j ≢ k → bit_at j (2 ^ k) ≡ 0
bit_at-pow_ne zero zero h = absurd (h refl)
bit_at-pow_ne zero (suc k) h = omega (arith, pow-suc 2 k)
bit_at-pow_ne (suc j) zero h = bit_at-zero j
bit_at-pow_ne (suc j) (suc k) h = rw (half-pow-suc k) (bit_at-pow_ne j k (λ e. h (ap suc e)))

complement-half :
    (n a : ℕ) → a < 2 ^ suc n → complement (2 ^ suc n) a / 2 ≡ complement (2 ^ n) (a / 2)
complement-half n a h = omega (arith, pow-suc 2 n)

pub bit_at-complement :
    (n k a : ℕ) → a < 2 ^ n → k < n → bit_at k (complement (2 ^ n) a) ≡ 1 - bit_at k a
bit_at-complement zero k a h below = absurd (omega arith)
bit_at-complement (suc n) zero a h below = omega (arith, pow-suc 2 n)
bit_at-complement (suc n) (suc k) a h below =
    rw (complement-half n a h)
      (bit_at-complement n k (a / 2) (omega (arith, pow-suc 2 n)) (omega arith))

-- A mask of one bit tells whether that bit is set.
pub bit_and-pow : (k a : ℕ) → bit_and a (2 ^ k) ≡ bit_at k a * 2 ^ k
bit_and-pow zero a = omega (arith, bit_and-halves a 1, bit_and-zero (a / 2))
bit_and-pow (suc k) a = ground (
  arith,
  bit_and-halves a (2 ^ suc k),
  half-pow-suc k,
  pow-suc 2 k,
  bit_and-pow k (a / 2),
  ap (λ (t : ℕ). bit_at k (a / 2) * t) (pow-suc 2 k),
)

half-mask : (k : ℕ) → (2 ^ suc k - 1) / 2 ≡ 2 ^ k - 1
half-mask k = omega (arith, pow-suc 2 k, one-le-pow k 2)

mod-pow-suc : (k a : ℕ) → a % 2 ^ suc k ≡ (a / 2) % 2 ^ k * 2 + a % 2
mod-pow-suc k a = ground (
  arith,
  mod-add-div a (2 ^ suc k),
  mod-add-div (a / 2) (2 ^ k),
  div-div-eq-div-mul a 2 (2 ^ k),
  pow-suc 2 k,
  mul_comm 2 (2 ^ k),
  ap (λ (t : ℕ). t * (a / 2 / 2 ^ k)) (pow-suc 2 k),
)

-- A mask of low bits is a remainder.
pub bit_and_mask : (k a : ℕ) → bit_and a (2 ^ k - 1) ≡ a % 2 ^ k
bit_and_mask zero a = omega (arith, bit_and-zero a)
bit_and_mask (suc k) a = ground (
  arith,
  bit_and-halves a (2 ^ suc k - 1),
  pow-suc 2 k,
  one-le-pow k 2,
  half-mask k,
  bit_and_mask k (a / 2),
  mod-pow-suc k a,
)

pub bit_and-lt : (n a b : ℕ) → b < 2 ^ n → bit_and a b < 2 ^ n
bit_and-lt zero a zero h = omega (arith, bit_and-zero a)
bit_and-lt zero a (suc b) h = absurd (omega arith)
bit_and-lt (suc n) a b h = omega (
  arith,
  pow-suc 2 n,
  bit_and-halves a b,
  bit_and-lt n (a / 2) (b / 2) (omega (arith, pow-suc 2 n)),
)

pub bit_or-lt : (n a b : ℕ) → a < 2 ^ n → b < 2 ^ n → bit_or a b < 2 ^ n
bit_or-lt zero zero b ha hb = omega (arith, nothing-bit_or b)
bit_or-lt zero (suc a) b ha hb = absurd (omega arith)
bit_or-lt (suc n) a b ha hb = omega (
  arith,
  pow-suc 2 n,
  bit_or-halves a b,
  bit_or-lt n (a / 2) (b / 2) (omega (arith, pow-suc 2 n)) (omega (arith, pow-suc 2 n)),
)

mul-pow-suc : (m k : ℕ) → m * 2 ^ suc k ≡ m * 2 ^ k * 2
mul-pow-suc m k = omega (arith, ap (λ (t : ℕ). m * t) (pow-suc 2 k))

-- A mask above the low `k` bits looks at what is above them.
bit_and-shift : (k a m : ℕ) → bit_and a (m * 2 ^ k) ≡ bit_and (a / 2 ^ k) m * 2 ^ k
bit_and-shift zero a m = ground (arith, div-one a)
bit_and-shift (suc k) a m = ground (
  arith,
  bit_and-halves a (m * 2 ^ suc k),
  mul-pow-suc m k,
  mul-pow-suc (bit_and (a / 2 ^ suc k) m) k,
  bit_and-shift k (a / 2) m,
  div-div-eq-div-mul a 2 (2 ^ k),
  pow-suc 2 k,
  mul_comm 2 (2 ^ k),
)

-- The bits from `k` up to `k + j`, as the mask of a reserved field: none is set exactly in a small
-- number.
pub bit_and-high :
    (k j a : ℕ) → a / 2 ^ k < 2 ^ j → bit_and a ((2 ^ j - 1) * 2 ^ k) ≡ a / 2 ^ k * 2 ^ k
bit_and-high k j a h =
    rw (bit_and-shift k a (2 ^ j - 1), bit_and_mask j (a / 2 ^ k), mod-eq_of_lt h)
