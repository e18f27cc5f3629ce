-- ===== src/Kernel/Boot/First.antt =====
-- src/scheduler.rs, `Scheduler::spawn`: the spawn in the last phase of the boot.
use Prim.Native.Nat.{◌+◌, ◌≤◌, ◌<◌, ◌^◌}
use mathlib.Core.Path.{◌≡◌, refl}
use mathlib.Core.Logic.{◌≢◌, ◌⊎◌, inl, inr}
use mathlib.Core.Bool.{true, false}
use mathlib.Core.Option.{none}
use native.Mathlib.Omega.{arith}
use alani_kernel.Common.Tests.{◌==◌, ltb, Option-cases}
use alani_kernel.Common.Lists.{count, find}
use alani_kernel.Common.Search.{find-none, count-find-none, count-find-some}
use alani_kernel.Error.{KernelError}
use alani_kernel.Outcome.{ok, err}
use alani_kernel.Method.{Method}
use alani_kernel.Capability.{TaskId, empty}
use alani_kernel.Scheduler.{TaskControlBlock, SchedulerClass, default_priority, unlimited, new_task}
use alani_kernel.Scheduler.Queue.{holds_task, is_vacant, get, insert}
use alani_kernel.Scheduler.Policy.{Scheduler, spawn}
use alani_kernel.Scheduler.Policy.Invariant.{inserted, numbered, spawn_cases}

-- The scheduler has another identifier to give, which no task has, and a vacant slot.
abbrev pub CanSpawn : Scheduler → Type 0
CanSpawn s =
    (s.next_task_id ≢ 0)
    × (s.next_task_id + 1 < 2 ^ 64)
    × (count (holds_task s.next_task_id) s.run_queue.slots ≡ 0)
    × (1 ≤ count is_vacant s.run_queue.slots)

-- The scheduler with the first task of the boot.
abbrev init_task : TaskId → TaskControlBlock
init_task id = new_task id 0 SchedulerClass.runtime default_priority empty unlimited

abbrev pub with_first : Scheduler → Scheduler
with_first s = record (numbered s) { run_queue = inserted s.run_queue (init_task s.next_task_id) }

abbrev pub spawn_first : Method Scheduler TaskId
spawn_first = spawn 0 SchedulerClass.runtime default_priority empty unlimited

spawn_first_lem : (s : Scheduler) → CanSpawn s → spawn_first s ≡ (ok s.next_task_id, with_first s)
unfolding spawn insert get
spawn_first_lem s (pos, room, fresh, vacant) =
    let below : ltb (s.next_task_id + 1) (2 ^ 64) ≡ true = ground (arith, room) in
    let some_id : (s.next_task_id == 0) ≡ false = ground (arith, pos) in
    let unknown : find (holds_task s.next_task_id) s.run_queue.slots ≡ none =
      find-none (holds_task s.next_task_id) s.run_queue.slots fresh in
    elim (Option-cases (find is_vacant s.run_queue.slots)) [
      | inl full ↦ absurd (omega (arith, vacant, count-find-none is_vacant s.run_queue.slots full))
      | inr (slot, e) ↦
          rw (below, spawn) (rw (some_id, insert) (rw (unknown, insert) (rw (e, insert) refl)))
    ]

-- The first spawn succeeds exactly if the scheduler can spawn.
pub spawn_first_cases :
    (s : Scheduler)
    → (CanSpawn s × (spawn_first s ≡ (ok s.next_task_id, with_first s)))
      ⊎ ((¬ CanSpawn s) × ((e : KernelError) × ((spawn_first s).0 ≡ err e)))
spawn_first_cases s = elim split [
  | inl can ↦ inl (can, spawn_first_lem s can)
  | inr (e, failed) ↦
      inr ((λ can. absurd (ground (arith, failed, spawn_first_lem s can))), (e, failed))
]
  where
    split : CanSpawn s ⊎ ((e : KernelError) × ((spawn_first s).0 ≡ err e))
    split =
        spawn_cases (λ out. CanSpawn s ⊎ ((e : KernelError) × (out.0 ≡ err e))) s 0
          SchedulerClass.runtime default_priority empty unlimited (inr (KernelError.internal, refl))
          (λ e _. inr (e, refl))
          λ slot room pos unknown e. inl (
            pos,
            room,
            count-find-none (holds_task s.next_task_id) s.run_queue.slots unknown,
            count-find-some is_vacant s.run_queue.slots e,
          )
