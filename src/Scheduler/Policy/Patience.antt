-- ===== src/Scheduler/Policy/Patience.antt =====
-- src/scheduler.rs, the ageing of ready tasks in `Scheduler::schedule_next`: how long a task can be passed
-- over. `Rounds` and `Writes` hold what
-- the methods do, `Calls` their sequences.
pub mod Passing
pub mod Rounds
pub mod Writes
pub mod Calls
pub mod Waiting
pub mod Still
pub mod Ages
use Prim.Native.Nat.{ℕ, ◌+◌, ◌/◌, ◌%◌, ◌≤◌, ◌<◌, min}
use mathlib.Core.Path.{◌≡◌, refl}
use mathlib.Core.Logic.{◌⊎◌, inl, inr}
use mathlib.Core.Bool.{Bool, true, false, not, ◌&&◌}
use mathlib.Core.Option.{Option, none, some}
use mathlib.Core.List.{List, [], ◌∷◌}
use native.Mathlib.Omega.{arith}
use alani_kernel.Common.Tests.{◌==◌, leb, ltb, if◌then◌else◌}
use alani_kernel.Common.Words.{u8_mod}
use alani_kernel.Common.Lists.{count, find, get_or, All}
use alani_kernel.Common.Search.{count-get_or}
use alani_kernel.Capability.{TaskId}
use alani_kernel.Scheduler.{
  TaskControlBlock, BudgetAccount, is_running, is_ready, is_runnable_in, boost, deadline_expired,
}
use alani_kernel.Scheduler.Queue.{TaskSlot, holds_task, empty_slot}
use alani_kernel.Scheduler.Policy.{score, pass_over, start}
use alani_kernel.Scheduler.Policy.Selection.{eligible}
use alani_kernel.Scheduler.Policy.Dispatch.{written, rewrite_all}
use alani_kernel.Scheduler.Policy.Entries.{IsStable}

-- The most by which the score of a task can be above its age: the largest priority, the weight, the
-- largest boost, and the bonus of an expired deadline.
abbrev pub head_start : ℕ
head_start = 480

-- The most rounds that a task can be passed over: until its age is above the head start, and then once for
-- each slot.
abbrev pub max_age : ℕ
max_age = 545

-- The priority is what the base priority and the age make it, within its eight bits, and the weight is
-- that of a new task or of an empty slot.
abbrev pub IsFit : TaskSlot → Type 0
IsFit slot =
    (slot.task.base_priority < u8_mod)
    × (slot.task.weight ≤ 1)
    × (slot.task.dynamic_priority ≡ min (slot.task.base_priority + slot.task.age / 4 % u8_mod) 255)

pub IsFit-IsStable : IsStable IsFit
unfolding pass_over
IsFit-IsStable = record {
  moved = λ slot to h. h;
  started = λ slot n h. (h.0, h.1, ground (arith, h.0));
  passed_over = λ slot h. ground (arith, h.0, h.1, h.2);
  stepped_back = λ slot budget _ h. h;
}

-- A task other than the one that may be chosen before a task of age `a`.
abbrev pub rivals : TaskId → ℕ → TaskSlot → Bool
rivals id a slot = eligible slot && (not (slot.task.id == id) && leb a (slot.task.age + head_start))

pub score-age : (tick : ℕ) (t : TaskControlBlock) → t.age ≤ score tick t
unfolding score
score-age tick t = omega arith

pub score-head_start :
    (tick : ℕ) (slot : TaskSlot) → IsFit slot → score tick slot.task ≤ slot.task.age + head_start
unfolding score boost deadline_expired
score-head_start tick slot h = ground (arith, h.1, h.2)

-- After a round in which another task was selected, the rivals of a task one older are rivals from before.
rivals-written :
    (id selected : TaskId) (a : ℕ) (slot : TaskSlot)
    → head_start ≤ a
    → rivals id (a + 1) (written selected slot) ≡ true
    → (rivals id a slot ≡ true) × (holds_task selected slot ≡ false)
unfolding pass_over is_running is_ready is_runnable_in
rivals-written id selected a slot old h = ground (arith, h)

pub count-rivals-rewrite_all :
    (id selected : TaskId) (a : ℕ) (slots : List TaskSlot)
    → head_start ≤ a
    → count (rivals id (a + 1)) (rewrite_all selected slots)
        + count (λ slot. rivals id a slot && holds_task selected slot) slots
      ≤ count (rivals id a) slots
count-rivals-rewrite_all id selected a [] old = omega arith
count-rivals-rewrite_all id selected a (slot ∷ slots) old =
    ground (
      arith,
      rivals-written id selected a slot old,
      count-rivals-rewrite_all id selected a slots old,
    )
