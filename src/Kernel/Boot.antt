-- ===== src/Kernel/Boot.antt =====
-- src/lib.rs, `Kernel::initialize_host`: from a kernel that is set up to one that has booted.
pub mod First
pub mod Attempts
pub mod Once
use Prim.Native.Nat.{ℕ, zero, suc, ◌<◌}
use mathlib.Core.Path.{◌≡◌, refl}
use mathlib.Core.Logic.{◌≢◌, inl, inr}
use mathlib.Core.Bool.{true}
use mathlib.Core.Option.{none, some}
use mathlib.Core.List.{List, [], ◌∷◌}
use native.Mathlib.Omega.{arith}
use alani_kernel.Common.Lists.{replicate, get_elem?, get_elem?-All, All}
use alani_kernel.Error.{KernelError}
use alani_kernel.Outcome.{ok, err}
use alani_kernel.Capability.{empty}
use alani_kernel.Boot as Phases
use alani_kernel.Boot.{
  BootPhase, BootProgress, phase_index, boot_sequence, boot_phase_count, complete, next_expected,
}
use alani_kernel.Boot.Order.{complete_cases}
use alani_kernel.Memory.{AllocatorPhase}
use alani_kernel.Memory.Manager.{set_allocator_phase}
use alani_kernel.Scheduler.{SchedulerClass, default_priority, unlimited, new_task}
use alani_kernel.Scheduler.Queue
use alani_kernel.Scheduler.Queue.{RunQueue, TaskSlot, empty_slot, insert}
use alani_kernel.Scheduler.Policy
use alani_kernel.Scheduler.Policy.{Scheduler, spawn}
use alani_kernel.Scheduler.Policy.Calls
use alani_kernel.Kernel.{Kernel, initialize_host, run_phases}

-- A kernel before the boot, with whatever configuration, memory map, devices, log and faults were set up.
abbrev pub unbooted : Kernel → Kernel
unbooted k = record k {
  boot = Phases.new;
  scheduler = Policy.new;
  memory = record k.memory { allocator_phase = AllocatorPhase.uninitialized };
}

-- The scheduler with its first task.
abbrev pub with_init : Scheduler
with_init = record {
  run_queue = record {
    slots =
        record {
          occupied = true;
          task = new_task 1 0 SchedulerClass.runtime default_priority empty unlimited;
        }
        ∷ replicate 63 empty_slot;
  };
  current_task = none;
  next_task_id = 2;
  tick = 0;
}

-- The kernel after the boot.
abbrev pub booted : Kernel → Kernel
booted k = record k {
  boot = record { completed = replicate boot_phase_count true; next_index = boot_phase_count };
  scheduler = with_init;
  memory = record k.memory { allocator_phase = AllocatorPhase.heap };
}

-- Whatever was set up, the boot of a kernel with a new tracker, a new scheduler and an allocator
-- that was not initialized succeeds, completes all fourteen phases, brings the allocator to its
-- last phase and spawns one ready task without capabilities, numbered 1; it changes nothing
-- else.
pub initialize_host_lem : (k : Kernel) → initialize_host (unbooted k) ≡ (ok tt, booted k)
unfolding initialize_host complete set_allocator_phase spawn insert Queue.get
initialize_host_lem k = refl

pub with_init-step :
    Calls.step Policy.new
      (Calls.Call.spawns 0 SchedulerClass.runtime default_priority empty unlimited)
    ≡ with_init
unfolding spawn insert Queue.get
with_init-step = refl

-- The phases after the first.
abbrev pub later_phases : List BootPhase
later_phases = elim boot_sequence [ [] ↦ [] | _ ∷ phases ↦ phases ]

later_phases-positive : All (λ phase. 0 < phase_index phase) later_phases
unfolding phase_index
later_phases-positive = ground arith

next_expected-other :
    (p : BootProgress) → p.next_index ≢ 0 → next_expected p ≢ some BootPhase.loader_handoff
unfolding next_expected phase_index
next_expected-other p h e = other p.next_index h e
  where
    other : (n : ℕ) → n ≢ 0 → get_elem? boot_sequence n ≢ some BootPhase.loader_handoff
    other zero h e = absurd (h refl)
    other (suc n) h e = absurd (
        omega (
          arith,
          get_elem?-All (λ phase. 0 < phase_index phase) later_phases n later_phases-positive e,
        ))

-- A kernel that has completed a boot phase cannot be booted: the attempt fails with
-- `InvalidState` and changes nothing.
pub initialize_host-again :
    (k : Kernel) → k.boot.next_index ≢ 0 → initialize_host k ≡ (err KernelError.invalid_state, k)
unfolding initialize_host run_phases
initialize_host-again k h = elim (complete_cases k.boot BootPhase.loader_handoff) [
  | inl (first, _) ↦ absurd (next_expected-other k.boot h first)
  | inr (_, refused) ↦ rw (refused, initialize_host) refl
]
