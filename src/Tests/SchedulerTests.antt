-- ===== src/Tests/SchedulerTests.antt =====
-- src/scheduler.rs: a scheduler with two tasks, one of which is cancelled.
use Prim.Native.Nat.{◌+◌}
use mathlib.Core.Path.{◌≡◌, refl}
use mathlib.Core.Logic.{◌≢◌}
use mathlib.Core.Bool.{true}
use mathlib.Core.Option.{some}
use mathlib.Core.List.{[], ◌∷◌}
use native.Mathlib.Omega.{arith}
use alani_kernel.Common.Lists.{replicate}
use alani_kernel.Error.{KernelError}
use alani_kernel.Outcome.{ok, err}
use alani_kernel.Capability.{empty}
use alani_kernel.Scheduler.{
  TaskControlBlock, TaskState, TaskStateTransition, SchedulerClass, BudgetAccount, new_task,
  unlimited, default_priority,
}
use alani_kernel.Scheduler.Queue.{RunQueue, TaskSlot, get, len, empty_slot}
use alani_kernel.Scheduler.Policy.{Scheduler, new, spawn, schedule_next, yield_current, cancel}
use alani_kernel.Scheduler.Policy.Invariant.{IsSchedule}
use alani_kernel.Scheduler.Policy.Calls.{Call, run, run-new-IsSchedule}
use alani_kernel.Scheduler.Policy.Running.{IsScheduled, schedule_next_lem}
use alani_kernel.Scheduler.Policy.Budget.{yield_current-spent_forever}
use alani_kernel.Scheduler.Policy.Capacity.{spawn-full_forever}
use alani_kernel.Scheduler.Policy.Cancelled.{state_of, cancel_forever}
use Call.{spawns, cancels, schedules, yields}

abbrev spawning : SchedulerClass → Call
spawning class = spawns 0 class default_priority empty unlimited

-- A background task, numbered 1, and an interactive one, numbered 2.
abbrev two_spawned : Scheduler
two_spawned =
    run new (spawning SchedulerClass.background ∷ spawning SchedulerClass.interactive ∷ [])

two_spawned-IsSchedule : IsSchedule two_spawned
two_spawned-IsSchedule =
    run-new-IsSchedule
      (spawning SchedulerClass.background ∷ spawning SchedulerClass.interactive ∷ [])

run-new-IsSchedule_example :
    IsSchedule (run new (spawning SchedulerClass.runtime ∷ schedules ∷ yields ∷ cancels 1 ∷ []))
run-new-IsSchedule_example =
    run-new-IsSchedule (spawning SchedulerClass.runtime ∷ schedules ∷ yields ∷ cancels 1 ∷ [])

schedule_next-two_spawned : (schedule_next two_spawned).0 ≡ ok (some 2)
unfolding schedule_next run spawn alani_kernel.Scheduler.Queue.insert get
    alani_kernel.Scheduler.Policy.run_selected alani_kernel.Scheduler.Policy.select
    alani_kernel.Scheduler.Policy.consider alani_kernel.Scheduler.is_runnable_in
    alani_kernel.Scheduler.Policy.score alani_kernel.Scheduler.boost
    alani_kernel.Scheduler.Policy.dispatch
schedule_next-two_spawned = refl

schedule_next_lem_example :
    ((schedule_next two_spawned).1.current_task ≡ some 2)
    × ((schedule_next two_spawned).1.tick ≡ two_spawned.tick + 1)
    × IsScheduled two_spawned (some 2) (schedule_next two_spawned).1
schedule_next_lem_example =
    schedule_next_lem two_spawned (some 2) two_spawned-IsSchedule schedule_next-two_spawned

abbrev ended : TaskStateTransition
ended = record { task_id = 2; from = TaskState.ready; to = TaskState.zombie }

cancel-two_spawned : (cancel 2 two_spawned).0 ≡ ok ended
unfolding cancel get run spawn alani_kernel.Scheduler.Queue.insert
    alani_kernel.Scheduler.Policy.is_terminal
cancel-two_spawned = refl

cancel_forever_example :
    (state_of (run (cancel 2 two_spawned).1 (schedules ∷ yields ∷ [])) 2 ≡ some TaskState.zombie)
    × ((schedule_next (run (cancel 2 two_spawned).1 (schedules ∷ yields ∷ []))).0 ≢ ok (some 2))
cancel_forever_example =
    cancel_forever two_spawned 2 (schedules ∷ yields ∷ []) two_spawned-IsSchedule cancel-two_spawned

-- A full table.
abbrev full : Scheduler
full = run new (replicate 64 (spawning SchedulerClass.background))

full-IsSchedule : IsSchedule full
full-IsSchedule = run-new-IsSchedule (replicate 64 (spawning SchedulerClass.background))

len-full : len full.run_queue ≡ 64
unfolding run len spawn alani_kernel.Scheduler.Queue.insert get
len-full = refl

spawn-full_forever_example :
    (e : KernelError) × ((spawn 0 SchedulerClass.runtime 32 empty unlimited
        (run full (cancels 1 ∷ cancels 2 ∷ []))).0
      ≡ err e)
spawn-full_forever_example =
    spawn-full_forever full (cancels 1 ∷ cancels 2 ∷ []) 0 SchedulerClass.runtime 32 empty unlimited
      full-IsSchedule len-full

-- A running task that has used its only tick.
abbrev spent : TaskControlBlock
spent = record (new_task 1 0 SchedulerClass.runtime 32 empty unlimited) {
  state = TaskState.running;
  budget = record { max_ticks = 1; remaining_ticks = 0; deadline_tick = 0 };
}

abbrev stuck : Scheduler
stuck = record {
  run_queue = record { slots = record { occupied = true; task = spent } ∷ replicate 63 empty_slot };
  current_task = some 1;
  next_task_id = 2;
  tick = 1;
}

get-stuck : get stuck.run_queue 1 ≡ some spent
unfolding get
get-stuck = refl

yield_current-spent_forever_example :
    (run stuck (replicate 5 yields) ≡ stuck)
    × ((yield_current (run stuck (replicate 5 yields))).0 ≡ err KernelError.deadline_exceeded)
yield_current-spent_forever_example =
    yield_current-spent_forever stuck 1 spent 5 refl get-stuck (omega arith) refl

abbrev waiting : TaskControlBlock
waiting = new_task 3 0 SchedulerClass.background 32 empty unlimited
