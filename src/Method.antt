-- ===== src/Method.antt =====
-- A method that takes `&mut self`: from the state to a result and the state that it leaves, also
-- where it fails.
use mathlib.Core.Bool.{Bool}
use mathlib.Core.Option.{Option}
use alani_kernel.Error.{KernelError}
use alani_kernel.Outcome.{KernelResult, ok, err, reject_if, ok_or}

abbrev pub Method {ℓ κ} : Type ℓ → Type κ → Type (ℓ ⊔ κ)
Method S A = S → KernelResult A × S

-- What `?` does with the result of a call: an error is passed on with the state of that moment.
abbrev pub try {ℓ κ μ} :
    {S : Type ℓ} {A : Type κ} {B : Type μ}
    → KernelResult A
    → S
    → (A → Method S B)
    → KernelResult B × S
try (ok a) s f = f a s
try (err e) s f = (err e, s)

infixl 5 ◌>>=◌ ◌>>◌
abbrev pub ◌>>=◌ {ℓ κ μ} :
    {S : Type ℓ} {A : Type κ} {B : Type μ} → Method S A → (A → Method S B) → Method S B
◌>>=◌ m f s = try (m s).0 (m s).1 f

abbrev pub ◌>>◌ {ℓ κ} : {S : Type ℓ} {B : Type κ} → Method S (Unit {0}) → Method S B → Method S B
m >> k = m >>= λ _. k

abbrev pub return {ℓ κ} : {S : Type ℓ} {A : Type κ} → A → Method S A
return a s = (ok a, s)

-- `self` as it is now.
abbrev pub self {ℓ} : {S : Type ℓ} → Method S S
self s = (ok s, s)

abbrev pub modify {ℓ} : {S : Type ℓ} → (S → S) → Method S (Unit {0})
modify f s = (ok tt, f s)

-- A call that takes `&self`, with its `?`.
abbrev pub query {ℓ κ} : {S : Type ℓ} {A : Type κ} → (S → KernelResult A) → Method S A
query f s = (f s, s)

-- `if failed { return Err(e); }`
abbrev pub throw_if {ℓ} : {S : Type ℓ} → Bool → KernelError → Method S (Unit {0})
throw_if b e s = (reject_if b e, s)

-- `option.ok_or(e)?`
abbrev pub ok_or_throw {ℓ κ} : {S : Type ℓ} {A : Type κ} → Option A → KernelError → Method S A
ok_or_throw o e s = (ok_or o e, s)

-- A method of the field that `get` reads and `put` replaces.
abbrev pub within {ℓ κ μ} :
    {S : Type ℓ} {T : Type κ} {A : Type μ} → (S → T) → (T → S → S) → Method T A → Method S A
within get put m s = ((m (get s)).0, put (m (get s)).1 s)
