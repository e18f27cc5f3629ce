-- ===== src/Kernel/Boot/Once.antt =====
-- src/lib.rs, `Kernel::initialize_host`: a second attempt to boot a kernel.
use Prim.Native.Nat.{ℕ, zero, suc, ◌≤◌}
use mathlib.Core.Path.{◌≡◌, subst, sym}
use mathlib.Core.Logic.{inl, inr}
use mathlib.Core.Bool.{true}
use mathlib.Core.List.{List, [], ◌∷◌}
use native.Mathlib.Omega.{arith}
use alani_kernel.Common.Lists.{set}
use alani_kernel.Error.{KernelError}
use alani_kernel.Outcome.{err, KernelResult-cases}
use alani_kernel.Method.{Method, ◌>>=◌, ◌>>◌, return}
use alani_kernel.Boot.{BootPhase, complete}
use alani_kernel.Boot.Order.{complete_cases}
use alani_kernel.Memory.{AllocatorPhase}
use alani_kernel.Memory.Manager.{set_allocator_phase}
use alani_kernel.Kernel.{
  Kernel, initialize_host, run_phases, enter_phase, on_boot, on_memory, on_scheduler,
}
use alani_kernel.Kernel.Boot.{initialize_host-again, later_phases}
use alani_kernel.Kernel.Boot.Attempts.{starting}
use alani_kernel.Kernel.Boot.First.{spawn_first}

-- A method after which a phase of the boot is still complete if one was.
abbrev Stays {ℓ} : {A : Type ℓ} → Method Kernel A → Type 0
Stays m = (k : Kernel) → 1 ≤ k.boot.next_index → 1 ≤ (m k).1.boot.next_index

>>=-Stays {ℓ κ} :
    {A : Type ℓ} {B : Type κ} (m : Method Kernel A) (f : A → Method Kernel B)
    → Stays m
    → ((a : A) → Stays (f a))
    → Stays (m >>= f)
>>=-Stays m f first second k h = elim (KernelResult-cases (m k).0) [
  | inl (a, went) ↦ rw went (second a (m k).1 (first k h))
  | inr (e, failed) ↦ rw failed (first k h)
]

abbrev grow : AllocatorPhase → Method Kernel (Unit {0})
grow phase = on_memory (set_allocator_phase phase)

enter_phase-Stays : (phase : BootPhase) → Stays (enter_phase phase)
unfolding enter_phase
enter_phase-Stays BootPhase.allocator =
    >>=-Stays (grow AllocatorPhase.boot_bump)
      (λ _. do grow AllocatorPhase.frame; grow AllocatorPhase.heap) (λ k h. h)
      λ _.
        >>=-Stays (grow AllocatorPhase.frame) (λ _. grow AllocatorPhase.heap) (λ k h. h) λ _ k h. h
enter_phase-Stays BootPhase.runtime_spawn =
    >>=-Stays (on_scheduler spawn_first) (λ _. return tt) (λ k h. h) λ _ k h. h
enter_phase-Stays _ = λ k h. h

complete-Stays : (phase : BootPhase) → Stays (on_boot (complete phase))
complete-Stays phase k h = elim (complete_cases k.boot phase) [
  | inl (_, done) ↦ rw done (omega arith)
  | inr (_, refused) ↦ rw refused h
]

run_phases-Stays : (phases : List BootPhase) → Stays (run_phases phases)
unfolding run_phases
run_phases-Stays [] = λ k h. h
run_phases-Stays (phase ∷ phases) =
    >>=-Stays (enter_phase phase) (λ _. do on_boot (complete phase); run_phases phases)
      (enter_phase-Stays phase)
      λ _.
        >>=-Stays (on_boot (complete phase)) (λ _. run_phases phases) (complete-Stays phase)
          λ _. run_phases-Stays phases

-- The boot from no complete phase completes the first, whatever happens later.
starting-Stays :
    (k : Kernel) → 1 ≤ (initialize_host (starting k 0 k.memory.allocator_phase)).1.boot.next_index
unfolding initialize_host complete
starting-Stays k =
    run_phases-Stays later_phases
      (record k { boot = record { completed = set k.boot.completed 0 true; next_index = 1 } })
      (omega arith)

-- A kernel is booted at most once: after an attempt to boot it, whether that succeeded or failed at whatever
-- phase, every further attempt fails with `InvalidState` and changes nothing.
pub initialize_host-once :
    (k : Kernel)
    → initialize_host (initialize_host k).1 ≡ (err KernelError.invalid_state, (initialize_host k).1)
initialize_host-once k = from k.boot.next_index
  where
    from :
        (n : ℕ)
        → let r = initialize_host (starting k n k.memory.allocator_phase) in
          initialize_host r.1 ≡ (err KernelError.invalid_state, r.1)
    from zero =
        initialize_host-again (initialize_host (starting k 0 k.memory.allocator_phase)).1
          (λ e. absurd (omega (arith, e, starting-Stays k)))
    from (suc n) =
        let k1 : Kernel = starting k (suc n) k.memory.allocator_phase in
        let again = initialize_host-again k1 (λ e. absurd (omega (arith, e))) in
        subst (λ r. initialize_host r.1 ≡ (err KernelError.invalid_state, r.1)) (sym again) again
