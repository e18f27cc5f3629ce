-- ===== src/Scheduler/Policy/Capacity.antt =====
-- src/scheduler.rs, `Scheduler`: how many slots of the table of tasks are taken.
use Prim.Native.Nat.{ℕ, ◌≤◌}
use mathlib.Core.Path.{◌≡◌, refl}
use mathlib.Core.List.{List, [], ◌∷◌}
use native.Mathlib.Omega.{arith}
use alani_kernel.Common.Lists.{length}
use alani_kernel.Common.Search.{count-update_first, count-find-some, count-complement}
use alani_kernel.Error.{KernelError}
use alani_kernel.Outcome.{err}
use alani_kernel.Capability.{TaskId, CapabilitySet}
use alani_kernel.Scheduler.{TaskState, SchedulerClass, BudgetAccount, new_task}
use alani_kernel.Scheduler.Queue.{is_vacant, len}
use alani_kernel.Scheduler.Policy.{Scheduler, spawn, schedule_next, step_back}
use alani_kernel.Scheduler.Policy.Dispatch.{count-dispatch}
use alani_kernel.Scheduler.Policy.Invariant.{
  IsSchedule, slot_of, put_state, rewritten, id_at, spawn_cases, transition_cases, cancel_cases,
  schedule_next_cases,
}
use alani_kernel.Scheduler.Policy.Calls.{
  Call, step, run, tallied-rewritten, yield_current_cases, run-IsSchedule,
}
use Call.{spawns, moves, cancels, schedules, yields}

len-rewritten :
    (s : Scheduler) (id : TaskId) (to : TaskState)
    → len (rewritten s id (put_state to)).run_queue ≡ len s.run_queue
unfolding len
len-rewritten s id to = tallied-rewritten (λ occupied _. occupied) s id (put_state to) (λ _. refl)

len-step_back :
    (s : Scheduler) (id : TaskId) (budget : BudgetAccount)
    → len (rewritten s id (step_back budget)).run_queue ≡ len s.run_queue
unfolding len
len-step_back s id budget =
    tallied-rewritten (λ occupied _. occupied) s id (step_back budget) (λ _. refl)

len-schedule_next : (s : Scheduler) → len (schedule_next s).1.run_queue ≡ len s.run_queue
unfolding len
len-schedule_next s =
    schedule_next_cases (λ out. len out.1.run_queue ≡ len s.run_queue) s (λ _. refl) (λ _ _. refl)
      (λ index _ _ _ _. count-dispatch (λ occupied _. occupied) (id_at s index) s.run_queue.slots)
      λ index _ _ _. count-dispatch (λ occupied _. occupied) (id_at s index) s.run_queue.slots

len-step : (s : Scheduler) (c : Call) → len s.run_queue ≤ len (step s c).run_queue
unfolding len
len-step s (spawns parent_id class priority capabilities budget) =
    spawn_cases (λ out. len s.run_queue ≤ len out.1.run_queue) s parent_id class priority
      capabilities budget (omega arith) (λ _ _. omega arith)
      λ slot _ _ _ e. ground (
        arith,
        count-update_first is_vacant (λ x. x.occupied)
            (λ _. slot_of (new_task s.next_task_id parent_id class priority capabilities budget))
            s.run_queue.slots e,
      )
len-step s (moves id to) =
    transition_cases (λ out. len s.run_queue ≤ len out.1.run_queue) s id to (λ _. omega arith)
      λ _ _ _. omega (arith, len-rewritten s id to)
len-step s (cancels id) =
    cancel_cases (λ out. len s.run_queue ≤ len out.1.run_queue) s id (λ _. omega arith)
      λ _ _ _. omega (arith, len-rewritten s id TaskState.zombie)
len-step s schedules = omega (arith, len-schedule_next s)
len-step s yields =
    yield_current_cases (λ out. len s.run_queue ≤ len out.1.run_queue) s (λ _. omega arith)
      (λ _. omega (arith, len-schedule_next s))
      λ id _ budget _ _ _.
        omega
          (arith, len-step_back s id budget, len-schedule_next (rewritten s id (step_back budget)))

len-run : (s : Scheduler) (cs : List Call) → len s.run_queue ≤ len (run s cs).run_queue
unfolding run
len-run s [] = omega arith
len-run s (c ∷ cs) = omega (arith, len-step s c, len-run (step s c) cs)

spawn-full :
    (s : Scheduler) (parent_id : TaskId) (class : SchedulerClass) (priority : ℕ)
    (capabilities : CapabilitySet) (budget : BudgetAccount)
    → length s.run_queue.slots ≤ len s.run_queue
    → (e : KernelError) × ((spawn parent_id class priority capabilities budget s).0 ≡ err e)
unfolding len
spawn-full s parent_id class priority capabilities budget full =
    spawn_cases (λ out. (e : KernelError) × (out.0 ≡ err e)) s parent_id class priority capabilities
      budget (KernelError.internal, refl) (λ e _. (e, refl))
      λ slot _ _ _ e. absurd (
        omega (
          arith,
          full,
          count-find-some is_vacant s.run_queue.slots e,
          count-complement (λ x. x.occupied) s.run_queue.slots,
        ))

-- Once all 64 slots of a well-formed scheduler are taken, no spawn succeeds after any further
-- calls, whatever tasks are cancelled or end in them.
pub spawn-full_forever :
    (s : Scheduler) (cs : List Call) (parent_id : TaskId) (class : SchedulerClass) (priority : ℕ)
    (capabilities : CapabilitySet) (budget : BudgetAccount)
    → IsSchedule s
    → len s.run_queue ≡ 64
    → (e : KernelError) × ((spawn parent_id class priority capabilities budget (run s cs)).0
        ≡ err e)
spawn-full_forever s cs parent_id class priority capabilities budget v full =
    spawn-full (run s cs) parent_id class priority capabilities budget
      (omega (arith, (run-IsSchedule s cs v).size, len-run s cs))
