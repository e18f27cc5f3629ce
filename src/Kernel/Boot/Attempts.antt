-- ===== src/Kernel/Boot/Attempts.antt =====
-- src/lib.rs, `Kernel::initialize_host`: attempts to boot any kernel, whatever state its subsystems are in.
use Prim.Native.Nat.{ℕ, zero, suc}
use mathlib.Core.Path.{◌≡◌, refl, ◌∙◌, ap, subst, sym}
use mathlib.Core.Logic.{◌↔◌, ◌⊎◌, inl, inr}
use mathlib.Core.Bool.{Bool, true}
use mathlib.Core.List.{List, [], ◌∷◌}
use native.Mathlib.Omega.{arith}
use alani_kernel.Common.Lists.{replicate, set, length}
use alani_kernel.Error.{KernelError}
use alani_kernel.Outcome.{KernelResult, ok, err}
use alani_kernel.Method.{Method, ◌>>=◌, ◌>>◌, return}
use alani_kernel.Capability.{TaskId}
use alani_kernel.Boot.{BootPhase, boot_phase_count, complete}
use alani_kernel.Memory.{AllocatorPhase}
use alani_kernel.Memory.Manager.{set_allocator_phase}
use alani_kernel.Scheduler.Policy.{Scheduler}
use alani_kernel.Kernel.{Kernel, initialize_host, on_boot}
use alani_kernel.Kernel.Boot.{initialize_host-again}
use alani_kernel.Kernel.Boot.First.{CanSpawn, with_first, spawn_first, spawn_first_cases}

-- The flags after `n` phases are set, from the first on.
abbrev flagged : ℕ → List Bool → List Bool
flagged zero flags = flags
flagged (suc n) flags = set (flagged n flags) n true

flagged-cons :
    (n : ℕ) (b : Bool) (flags : List Bool) → flagged (suc n) (b ∷ flags) ≡ true ∷ flagged n flags
flagged-cons zero b flags = refl
flagged-cons (suc n) b flags = ap (λ fs. set fs (suc n) true) (flagged-cons n b flags)

flagged-length : (flags : List Bool) → flagged (length flags) flags ≡ replicate (length flags) true
flagged-length [] = refl
flagged-length (b ∷ flags) =
    flagged-cons (length flags) b flags ∙ ap (λ fs. true ∷ fs) (flagged-length flags)

-- A kernel at a phase of the boot and of the allocator.
abbrev pub starting : Kernel → ℕ → AllocatorPhase → Kernel
starting k n phase = record k {
  boot = record k.boot { next_index = n };
  memory = record k.memory { allocator_phase = phase };
}

-- The kernel before the last phase of its boot.
abbrev grown : Kernel → Kernel
grown k = record k {
  boot = record { completed = flagged 13 k.boot.completed; next_index = 13 };
  memory = record k.memory { allocator_phase = AllocatorPhase.heap };
}

-- The last phase, with what the spawn in it gives.
abbrev spawned_first : KernelResult TaskId × Scheduler → Method Kernel (Unit {0})
spawned_first out = do init ← (λ k. (out.0, record k { scheduler = out.1 })); return tt

abbrev last_phase : KernelResult TaskId × Scheduler → Method Kernel (Unit {0})
last_phase out = do spawned_first out; on_boot (complete BootPhase.runtime_spawn); return tt

initialize_host-uninitialized :
    (k : Kernel)
    → initialize_host (starting k 0 AllocatorPhase.uninitialized)
      ≡ last_phase (spawn_first k.scheduler) (grown k)
unfolding initialize_host complete set_allocator_phase
initialize_host-uninitialized k = refl

initialize_host-boot_bump :
    (k : Kernel)
    → initialize_host (starting k 0 AllocatorPhase.boot_bump)
      ≡ last_phase (spawn_first k.scheduler) (grown k)
unfolding initialize_host complete set_allocator_phase
initialize_host-boot_bump k = refl

initialize_host-frame :
    (k : Kernel)
    → (initialize_host (starting k 0 AllocatorPhase.frame)).0 ≡ err KernelError.invalid_state
unfolding initialize_host complete set_allocator_phase
initialize_host-frame k = refl

initialize_host-heap :
    (k : Kernel)
    → (initialize_host (starting k 0 AllocatorPhase.heap)).0 ≡ err KernelError.invalid_state
unfolding initialize_host complete set_allocator_phase
initialize_host-heap k = refl

-- The boot can run: no phase is complete, the allocator is before its frame phase, and the scheduler has
-- room for one more task.
abbrev pub IsBootable : Kernel → Type 0
IsBootable k =
    (k.boot.next_index ≡ 0)
    × ((k.memory.allocator_phase ≡ AllocatorPhase.uninitialized)
        ⊎ (k.memory.allocator_phase ≡ AllocatorPhase.boot_bump))
    × CanSpawn k.scheduler

-- The kernel after a boot that succeeds.
abbrev pub brought_up : Kernel → Kernel
brought_up k = record k {
  boot = record { completed = replicate boot_phase_count true; next_index = boot_phase_count };
  memory = record k.memory { allocator_phase = AllocatorPhase.heap };
  scheduler = with_first k.scheduler;
}

last_phase-brought_up :
    (k : Kernel)
    → length k.boot.completed ≡ boot_phase_count
    → last_phase (ok k.scheduler.next_task_id, with_first k.scheduler) (grown k)
      ≡ (ok tt, brought_up k)
unfolding complete
last_phase-brought_up k size =
    subst
      (λ flags. last_phase (ok k.scheduler.next_task_id, with_first k.scheduler) (grown k) ≡ (
        ok tt,
        record (brought_up k) {
          boot = record { completed = flags; next_index = boot_phase_count };
        },
      ))
      (subst (λ n. flagged n k.boot.completed ≡ replicate n true) size
        (flagged-length k.boot.completed))
      refl

last_phase-failed :
    (out : KernelResult TaskId × Scheduler) (k : Kernel) {e : KernelError}
    → out.0 ≡ err e
    → (last_phase out k).0 ≡ err e
last_phase-failed out k {e} failed =
    subst (λ r. (last_phase (r, out.1) k).0 ≡ err e) (sym failed) refl

last_phase_iff :
    (k l : Kernel)
    → length k.boot.completed ≡ boot_phase_count
    → (last_phase (spawn_first k.scheduler) (grown k) ≡ (ok tt, l))
      ↔ (CanSpawn k.scheduler × (l ≡ brought_up k))
last_phase_iff k l size = elim (spawn_first_cases k.scheduler) [
  | inl (can, e) ↦
      let done : last_phase (spawn_first k.scheduler) (grown k) ≡ (ok tt, brought_up k) =
        ap (λ out. last_phase out (grown k)) e ∙ last_phase-brought_up k size in
      (
        (λ answered. (can, ap (λ out. out.1) (sym answered ∙ done))),
        λ (_, same). done ∙ ap (λ x. (ok tt, x)) (sym same),
      )
  | inr (cannot, (e, failed)) ↦ (
    (λ answered.
        absurd
          (ground (arith, answered, last_phase-failed (spawn_first k.scheduler) (grown k) failed))),
    λ (can, _). absurd (cannot can),
  )
]

early_iff :
    (k l : Kernel) (phase : AllocatorPhase)
    → length k.boot.completed ≡ boot_phase_count
    → (phase ≡ AllocatorPhase.uninitialized) ⊎ (phase ≡ AllocatorPhase.boot_bump)
    → initialize_host (starting k 0 phase) ≡ last_phase (spawn_first k.scheduler) (grown k)
    → (initialize_host (starting k 0 phase) ≡ (ok tt, l))
      ↔ (IsBootable (starting k 0 phase) × (l ≡ brought_up k))
early_iff k l phase size early runs =
    let last = last_phase_iff k l size in
    (
      (λ booted. let (can, same) = last.0 (sym runs ∙ booted) in ((refl, early, can), same)),
      λ (bootable, same). runs ∙ last.1 (bootable.2, same),
    )

failing_iff :
    (k l : Kernel) {e : KernelError}
    → ¬ IsBootable k
    → (initialize_host k).0 ≡ err e
    → (initialize_host k ≡ (ok tt, l)) ↔ (IsBootable k × (l ≡ brought_up k))
failing_iff k l cannot failed =
    ((λ booted. absurd (ground (arith, booted, failed))), λ (bootable, _). absurd (cannot bootable))

-- The boot from a number of phases and a phase of the allocator.
starting_iff :
    (k l : Kernel) (n : ℕ) (phase : AllocatorPhase)
    → length k.boot.completed ≡ boot_phase_count
    → (initialize_host (starting k n phase) ≡ (ok tt, l))
      ↔ (IsBootable (starting k n phase) × (l ≡ brought_up k))
starting_iff k l zero AllocatorPhase.uninitialized size =
    early_iff k l AllocatorPhase.uninitialized size (inl refl) (initialize_host-uninitialized k)
starting_iff k l zero AllocatorPhase.boot_bump size =
    early_iff k l AllocatorPhase.boot_bump size (inr refl) (initialize_host-boot_bump k)
starting_iff k l zero AllocatorPhase.frame size =
    failing_iff (starting k zero AllocatorPhase.frame) l
      (λ bootable. absurd (ground (arith, bootable.1))) (initialize_host-frame k)
starting_iff k l zero AllocatorPhase.heap size =
    failing_iff (starting k zero AllocatorPhase.heap) l
      (λ bootable. absurd (ground (arith, bootable.1))) (initialize_host-heap k)
starting_iff k l (suc n) phase size =
    failing_iff (starting k (suc n) phase) l (λ bootable. absurd (omega (arith, bootable.0)))
      (ap (λ out. out.0)
        (initialize_host-again (starting k (suc n) phase) (λ e. absurd (omega (arith, e)))))

-- A boot of any kernel whose tracker has its fourteen flags succeeds exactly if no phase is complete, the allocator
-- is uninitialized or in its first phase, and the scheduler has a nonzero identifier left that no task has, and a
-- vacant slot. The kernel it leaves then has all fourteen phases flagged and counted, the allocator in its last
-- phase, and one more ready task, without capabilities and parent, under that identifier; all else is as it was.
pub initialize_host_iff :
    (k l : Kernel)
    → length k.boot.completed ≡ boot_phase_count
    → (initialize_host k ≡ (ok tt, l)) ↔ (IsBootable k × (l ≡ brought_up k))
initialize_host_iff k l size = starting_iff k l k.boot.next_index k.memory.allocator_phase size
