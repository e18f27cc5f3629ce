-- ===== src/Outcome.antt =====
-- src/error.rs, `KernelResult`, with the `?` operator as the bind of a `do` block.
use mathlib.Core.Path.{◌≡◌, refl, ap}
use mathlib.Core.Bool.{Bool, true, false}
use mathlib.Core.Logic.{◌⊎◌, inl, inr}
use mathlib.Core.Option.{Option, none, some}
use alani_kernel.Error.{KernelError}

-- `KernelResult<T>`
pub data KernelResult {ℓ} (A : Type ℓ) : Type ℓ where
  ok : A → KernelResult A
  err : KernelError → KernelResult A

infixl 5 ◌>>=◌ ◌>>◌
abbrev pub ◌>>=◌ {ℓ κ} :
    {A : Type ℓ} {B : Type κ} → KernelResult A → (A → KernelResult B) → KernelResult B
ok a >>= f = f a
err e >>= f = err e

abbrev pub ◌>>◌ {ℓ} : {B : Type ℓ} → KernelResult (Unit {0}) → KernelResult B → KernelResult B
m >> k = m >>= λ _. k

-- `if failed { return Err(e); }`
abbrev pub reject_if : Bool → KernelError → KernelResult (Unit {0})
reject_if true e = err e
reject_if false e = ok tt

-- `option.ok_or(e)`
abbrev pub ok_or {ℓ} : {A : Type ℓ} → Option A → KernelError → KernelResult A
ok_or none e = err e
ok_or (some a) e = ok a

abbrev pub succeeds {ℓ} : {A : Type ℓ} → KernelResult A → Bool
succeeds (ok a) = true
succeeds (err e) = false

pub KernelResult-cases {ℓ} :
    {A : Type ℓ} (r : KernelResult A) → ((a : A) × (r ≡ ok a)) ⊎ ((e : KernelError) × (r ≡ err e))
KernelResult-cases (ok a) = inl (a, refl)
KernelResult-cases (err e) = inr (e, refl)

pub ok-pair {ℓ κ} :
    {A : Type ℓ} {S : Type κ} {a b : A} {s t : S}
    → ◌≡◌ {A = KernelResult A × S} (ok a, s) (ok b, t)
    → (a ≡ b) × (s ≡ t)
ok-pair {A} {S} {a} {b} {s} {t} p = (ap (λ q. value q.0) p, ap (λ q. q.1) p)
  where
    value : KernelResult A → A
    value (ok x) = x
    value (err e) = a
