-- ===== src/Scheduler/Policy/Patience/Passing.antt =====
-- src/scheduler.rs, `Scheduler::schedule_next`: the state and the age of a task after one round.
use Prim.Native.Nat.{◌+◌, ◌≤◌}
use mathlib.Core.Path.{◌≡◌, refl}
use mathlib.Core.Bool.{true, false}
use mathlib.Core.List.{List, [], ◌∷◌}
use native.Mathlib.Omega.{arith}
use alani_kernel.Common.Lists.{length}
use alani_kernel.Capability.{TaskId}
use alani_kernel.Scheduler.{TaskControlBlock, is_running, is_ready}
use alani_kernel.Scheduler.Queue.{TaskSlot, holds_task}
use alani_kernel.Scheduler.Policy.{pass_over}
use alani_kernel.Scheduler.Policy.Dispatch.{written, rewrite_all}
use alani_kernel.Scheduler.Policy.Patience.{max_age}

pub length-rewrite_all :
    (id : TaskId) (slots : List TaskSlot) → length (rewrite_all id slots) ≡ length slots
length-rewrite_all id [] = refl
length-rewrite_all id (slot ∷ slots) = omega (arith, length-rewrite_all id slots)

-- One round makes a ready task one older.
pub pass_over-older :
    (t : TaskControlBlock)
    → is_ready t.state ≡ true
    → t.age ≤ max_age
    → ((pass_over t).age ≡ t.age + 1) × (is_ready (pass_over t).state ≡ true)
unfolding pass_over is_running is_ready
pass_over-older t ready h = ground (arith, ready)

-- A task that a round makes ready was running.
pub pass_over-interrupted :
    (t : TaskControlBlock)
    → is_ready t.state ≡ false
    → is_ready (pass_over t).state ≡ true
    → (is_running t.state ≡ true) × ((pass_over t).age ≡ t.age)
unfolding pass_over is_running is_ready
pass_over-interrupted t unready h = ground (arith, unready, h)

-- The two ways of a round past a slot in use.
pub written-selected :
    (selected : TaskId) (slot : TaskSlot)
    → holds_task selected slot ≡ true
    → (written selected slot).task.age ≡ 0
written-selected selected slot h = ground (arith, h)

pub written-passed :
    (selected : TaskId) (slot : TaskSlot)
    → slot.occupied ≡ true
    → holds_task selected slot ≡ false
    → (written selected slot).task ≡ pass_over slot.task
written-passed selected slot used h = ground (arith, used, h)
