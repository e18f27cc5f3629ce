-- ===== src/Boot/Order.antt =====
-- src/boot.rs, `BootProgress`: attempts to complete phases, in any order.
use Prim.Native.Nat.{ℕ, zero, suc, ◌+◌, ◌≤◌, ◌<◌}
use mathlib.Core.Path.{◌≡◌, refl, ◌∙◌, ap, subst, sym}
use mathlib.Core.Logic.{◌≢◌, ◌↔◌, ◌⊎◌, inl, inr}
use mathlib.Core.Bool.{Bool, true, false}
use mathlib.Core.Option.{some}
use mathlib.Core.List.{List, [], ◌∷◌, ◌++◌}
use mathlib.Core.List.{append-nil, append_assoc}
use native.Mathlib.Decide.{ℕ_discrete}
use native.Mathlib.Omega.{arith}
use alani_kernel.Common.Tests.{◌==◌, ==→eq, eq→==, if◌then◌else◌, Option-cases, Bool-cases, ltb}
use alani_kernel.Common.Lists.{
  length, get_elem?, get_or, set, take, replicate, length-take, length-set, get_or-set_self,
  get_or-set_ne,
}
use alani_kernel.Error.{KernelError}
use alani_kernel.Outcome.{ok, err, succeeds}
use alani_kernel.Boot.{
  BootPhase, phase_index, phase_eq, boot_sequence, boot_phase_count, BootProgress, new,
  next_expected, complete, is_complete, completed_count,
}

phase_index-injective : (a b : BootPhase) → phase_index a ≡ phase_index b → a ≡ b
unfolding phase_index
phase_index-injective a b h = ground arith

phase_eq_iff : (a b : BootPhase) → (phase_eq a b ≡ true) ↔ (a ≡ b)
unfolding phase_eq
phase_eq_iff a b = ground (arith, phase_index-injective a b)

-- The tracker once the next phase is complete.
abbrev pub completing : BootProgress → BootProgress
completing p = record {
  completed = set p.completed p.next_index true;
  next_index = p.next_index + 1;
}

-- A call succeeds exactly for the phase that comes next in the order; otherwise it fails with
-- `InvalidState` and changes nothing.
pub complete_cases :
    (p : BootProgress) (phase : BootPhase)
    → ((next_expected p ≡ some phase) × (complete phase p ≡ (ok tt, completing p)))
      ⊎ ((next_expected p ≢ some phase) × (complete phase p ≡ (err KernelError.invalid_state, p)))
unfolding complete
complete_cases p phase = elim (Option-cases (next_expected p)) [
  | inl done ↦ inr (λ q. absurd (ground (arith, done, q)), rw (done, complete))
  | inr (expected, e) ↦ elim (Bool-cases (phase_eq expected phase)) [
    | inl same ↦
        inl (
          e ∙ ap some ((phase_eq_iff expected phase).0 same),
          rw (e, complete) (rw (same, complete)),
        )
    | inr other ↦ inr (
      λ q. absurd (ground (arith, e, q, other, phase_eq_iff expected phase)),
      rw (e, complete) (rw (other, complete)),
    )
  ]
]

-- The flags tell which phases are complete: those before the next.
record IsValid (p : BootProgress) : Type 0 where
  size : length p.completed ≡ boot_phase_count
  bound : p.next_index ≤ boot_phase_count
  flags : (i : ℕ) → get_or p.completed i false ≡ ltb i p.next_index

get_elem?-some_lt {ℓ} :
    {A : Type ℓ} (xs : List A) (n : ℕ) {x : A} → get_elem? xs n ≡ some x → n < length xs
get_elem?-some_lt [] n h = absurd (ground arith)
get_elem?-some_lt (y ∷ xs) zero h = omega arith
get_elem?-some_lt (y ∷ xs) (suc n) h = omega (arith, get_elem?-some_lt xs n h)

take-add_one {ℓ} :
    {A : Type ℓ} (xs : List A) (n : ℕ) {x : A}
    → get_elem? xs n ≡ some x
    → take (n + 1) xs ≡ take n xs ++ (x ∷ [])
take-add_one [] n h = absurd (ground arith)
take-add_one (y ∷ xs) zero h = ground arith
take-add_one (y ∷ xs) (suc n) h = ground (arith, take-add_one xs n h)

flags-set :
    (flags : List Bool) (n i : ℕ)
    → n < length flags
    → get_or flags i false ≡ ltb i n
    → get_or (set flags n true) i false ≡ ltb i (n + 1)
flags-set flags n i h e = elim (ℕ_discrete n i) [
  | yes same ↦ rw (← same, get_or-set_self flags n true false h) (ground arith)
  | no ne ↦ rw (get_or-set_ne flags n i true false ne) (ground arith)
]

complete-IsValid : (p : BootProgress) (phase : BootPhase) → IsValid p → IsValid (complete phase p).1
unfolding next_expected
complete-IsValid p phase v = elim (complete_cases p phase) [
  | inr (_, e) ↦ subst (λ r. IsValid r.1) (sym e) v
  | inl (next, e) ↦
      subst (λ r. IsValid r.1) (sym e)
        (record {
          size = length-set p.completed p.next_index true ∙ v.size;
          bound = omega (arith, get_elem?-some_lt boot_sequence p.next_index next);
          flags = λ i.
              flags-set p.completed p.next_index i
                (omega (arith, v.size, get_elem?-some_lt boot_sequence p.next_index next))
                (v.flags i);
        })
]

-- The tracker after a list of attempts, and the phases that were accepted, in their order.
unfoldable pub attempt : BootProgress → List BootPhase → List BootPhase × BootProgress
attempt p [] = ([], p)
attempt p (phase ∷ phases) =
    let (accepted, q) = attempt (complete phase p).1 phases in
    (if succeeds (complete phase p).0 then phase ∷ accepted else accepted, q)

-- What `attempt` owes to the tracker it starts from.
record Extends (p : BootProgress) (r : List BootPhase × BootProgress) : Type 0 where
  valid : IsValid r.1
  order : take p.next_index boot_sequence ++ r.0 ≡ take r.1.next_index boot_sequence

attempt-Extends :
    (p : BootProgress) (phases : List BootPhase) → IsValid p → Extends p (attempt p phases)
unfolding attempt next_expected
attempt-Extends p [] v = record { valid = v; order = append-nil (take p.next_index boot_sequence) }
attempt-Extends p (phase ∷ phases) v = elim (complete_cases p phase) [
  | inr (_, e) ↦ rw e (attempt-Extends p phases v)
  | inl (next, e) ↦
      let q : BootProgress = completing p in
      let later =
        attempt-Extends q phases (subst (λ r. IsValid r.1) e (complete-IsValid p phase v)) in
      rw e (record { valid = later.valid; order = extend _ _ next later.order })
]
  where
    extend :
        (accepted : List BootPhase) (final : ℕ)
        → get_elem? boot_sequence p.next_index ≡ some phase
        → take (p.next_index + 1) boot_sequence ++ accepted ≡ take final boot_sequence
        → take p.next_index boot_sequence ++ (phase ∷ accepted) ≡ take final boot_sequence
    extend accepted final next h =
        sym (append_assoc (take p.next_index boot_sequence) (phase ∷ []) accepted)
        ∙ ap (λ t. t ++ accepted) (sym (take-add_one boot_sequence p.next_index next))
        ∙ h

new-IsValid : IsValid new
new-IsValid = record { size = refl; bound = omega arith; flags = λ i. new-flags 14 i }
  where
    new-flags : (n i : ℕ) → get_or (replicate n false) i false ≡ ltb i 0
    new-flags zero i = ground arith
    new-flags (suc n) zero = refl
    new-flags (suc n) (suc i) = ground (arith, new-flags n i)

take-boot_sequence :
    (n : ℕ)
    → n ≤ boot_phase_count
    → ((n == boot_phase_count) ≡ true) ↔ (take n boot_sequence ≡ boot_sequence)
take-boot_sequence n h = (
  λ e. rw (==→eq n boot_phase_count e),
  λ e. eq→== n boot_phase_count (omega (arith, length-take n boot_sequence, ap length e)),
)

-- Whatever phases are attempted, in whatever order and however often, those that a new tracker
-- accepts are the first ones of the normative order, exactly the counted ones are flagged, and the
-- boot is complete exactly when all fourteen were accepted.
pub boot_order :
    (phases : List BootPhase) (i : ℕ)
    → let (accepted, p) = attempt new phases in
      (accepted ≡ take (completed_count p) boot_sequence)
      × (completed_count p ≤ boot_phase_count)
      × (get_or p.completed i false ≡ ltb i (completed_count p))
      × ((is_complete p ≡ true) ↔ (accepted ≡ boot_sequence))
unfolding is_complete
boot_order phases i =
    (r.order, r.valid.bound, r.valid.flags i, rw r.order (take-boot_sequence _ r.valid.bound))
  where
    r : Extends new (attempt new phases)
    r = attempt-Extends new phases new-IsValid
