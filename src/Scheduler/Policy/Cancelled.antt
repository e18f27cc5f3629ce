-- ===== src/Scheduler/Policy/Cancelled.antt =====
-- src/scheduler.rs, `Scheduler::cancel`: what becomes of a task that is cancelled.
use mathlib.Core.Path.{◌≡◌, refl, ap}
use mathlib.Core.Logic.{◌≢◌, inl, inr}
use mathlib.Core.Option
use mathlib.Core.Option.{Option, none, some}
use mathlib.Core.List.{List}
use native.Mathlib.Omega.{arith}
use alani_kernel.Common.Tests.{Option-cases}
use alani_kernel.Common.Lists.{find, find_sound}
use alani_kernel.Common.Search.{find-update_first_self}
use alani_kernel.Outcome.{ok}
use alani_kernel.Capability.{TaskId}
use alani_kernel.Scheduler.{TaskControlBlock, TaskState, TaskStateTransition}
use alani_kernel.Scheduler.Queue.{holds_task, get, update}
use alani_kernel.Scheduler.Policy.{Scheduler, schedule_next, cancel}
use alani_kernel.Scheduler.Policy.Invariant.{IsSchedule, put_state, rewritten, cancel_cases}
use alani_kernel.Scheduler.Policy.Running.{schedule_next_lem}
use alani_kernel.Scheduler.Policy.Calls.{Call, run, step-IsSchedule, run-IsSchedule}
use Call.{cancels}
use alani_kernel.Scheduler.Policy.Zombies.{IsZombie, schedule_next-IsZombie, run-IsZombie}

-- The state of a task, if the scheduler has it.
abbrev pub state_of : Scheduler → TaskId → Option TaskState
state_of s id = Option.map (λ t. t.state) (get s.run_queue id)

cancelled-IsZombie :
    (s : Scheduler) (id : TaskId) (t : TaskControlBlock)
    → get s.run_queue id ≡ some t
    → IsZombie id (rewritten s id (put_state TaskState.zombie))
unfolding get update
cancelled-IsZombie s id t found = elim (Option-cases (find (holds_task id) s.run_queue.slots)) [
  | inl gone ↦ absurd (ground (arith, found, gone))
  | inr (slot, e) ↦ (
    record slot { task = put_state TaskState.zombie slot.task },
    find-update_first_self (holds_task id)
        (λ x. record x { task = put_state TaskState.zombie x.task }) s.run_queue.slots e
        (find_sound (holds_task id) s.run_queue.slots e),
    refl,
  )
]

pub cancel-IsZombie :
    (s : Scheduler) (id : TaskId) {moved : TaskStateTransition}
    → (cancel id s).0 ≡ ok moved
    → IsZombie id (cancel id s).1
cancel-IsZombie s id {moved} =
    cancel_cases (λ out. out.0 ≡ ok moved → IsZombie id out.1) s id (λ _ h. absurd (ground arith))
      λ t found _ _. cancelled-IsZombie s id t found

pub state_of-zombie :
    (s : Scheduler) (id : TaskId) → IsZombie id s → state_of s id ≡ some TaskState.zombie
unfolding get
state_of-zombie s id (slot, e, h) = rw e (ap some h)

-- A task that is cancelled with success in a well-formed scheduler is a zombie from then on,
-- whatever is called afterwards, and `schedule_next` does not return it.
pub cancel_forever :
    (s : Scheduler) (id : TaskId) (cs : List Call) {moved : TaskStateTransition}
    → IsSchedule s
    → (cancel id s).0 ≡ ok moved
    → (state_of (run (cancel id s).1 cs) id ≡ some TaskState.zombie)
      × ((schedule_next (run (cancel id s).1 cs)).0 ≢ ok (some id))
cancel_forever s id cs {moved} v done = (state_of-zombie later id z, λ chosen. never chosen)
  where
    later : Scheduler
    later = run (cancel id s).1 cs

    w : IsSchedule later
    w = run-IsSchedule (cancel id s).1 cs (step-IsSchedule s (cancels id) v)

    z : IsZombie id later
    z =
        run-IsZombie id (cancel id s).1 cs (step-IsSchedule s (cancels id) v)
          (cancel-IsZombie s id done)

    never : (schedule_next later).0 ≢ ok (some id)
    never chosen =
        let running : state_of (schedule_next later).1 id ≡ some TaskState.running =
          (schedule_next_lem later (some id) w chosen).2.4 in
        let ended : state_of (schedule_next later).1 id ≡ some TaskState.zombie =
          state_of-zombie (schedule_next later).1 id (schedule_next-IsZombie id later w z) in
        absurd (ground (arith, running, ended))
