-- ===== src/Scheduler/Policy/Patience/Ages.antt =====
-- src/scheduler.rs, `TaskControlBlock::age` and `dynamic_priority`: their bounds in a whole table.
use Prim.Native.Nat.{◌+◌, ◌/◌, ◌≤◌, min}
use mathlib.Core.Path.{◌≡◌, refl}
use mathlib.Core.Bool.{Bool, true, false, not, ◌&&◌, ◌||◌}
use mathlib.Core.Option.{some}
use mathlib.Core.List.{List, [], ◌∷◌}
use native.Mathlib.Omega.{arith}
use alani_kernel.Common.Tests.{◌==◌, ltb}
use alani_kernel.Common.Lists.{count, find, find-All}
use alani_kernel.Common.Search.{count-find-some}
use alani_kernel.Capability.{TaskId}
use alani_kernel.Scheduler.{is_ready, is_running, is_runnable_in}
use alani_kernel.Scheduler.Queue.{TaskSlot, holds_task}
use alani_kernel.Scheduler.Policy.{Scheduler}
use alani_kernel.Scheduler.Policy.Selection.{eligible}
use alani_kernel.Scheduler.Policy.Patience.{IsFit, max_age}
use alani_kernel.Scheduler.Policy.Patience.Rounds.{IsPatient}
use alani_kernel.Scheduler.Policy.Patience.Calls.{IsFair}

-- What fails no entry that a search for its identifier finds, and no vacant one, fails none, where no
-- identifier is that of two.
count-found :
    (q : TaskSlot → Bool) (slots : List TaskSlot)
    → ((i : TaskId) → count (holds_task i) slots ≤ 1)
    → ((slot : TaskSlot) → q slot ≡ true → slot.occupied ≡ true)
    → ((i : TaskId) (slot : TaskSlot) → find (holds_task i) slots ≡ some slot → q slot ≡ false)
    → count q slots ≡ 0
count-found q [] one used h = refl
count-found q (slot ∷ slots) one used h = ground (
  arith,
  used slot,
  h slot.task.id slot,
  count-found q slots (λ i. ground (arith, one i)) used
      (λ i x found.
        h i x (ground (arith, found, one i, count-find-some (holds_task i) slots found))),
)

-- A task that may run, is older than a task can get, or has not the priority of its age.
abbrev pub is_misjudged : TaskSlot → Bool
is_misjudged slot =
    eligible slot
    && (ltb max_age slot.task.age
        || not
            (slot.task.dynamic_priority == min (slot.task.base_priority + slot.task.age / 4) 255))

well_judged :
    (s : Scheduler) (i : TaskId) (slot : TaskSlot)
    → IsFair s
    → find (holds_task i) s.run_queue.slots ≡ some slot
    → is_misjudged slot ≡ false
unfolding is_runnable_in is_ready is_running
well_judged s i slot v found =
    let p : IsPatient i s.run_queue.slots slot.task = v.patient i slot found in
    let f : IsFit slot = find-All IsFit (holds_task i) s.run_queue.slots v.fit found in
    ground (arith, p.rested, p.waited, f.2)

pub none_misjudged : (s : Scheduler) → IsFair s → count is_misjudged s.run_queue.slots ≡ 0
none_misjudged s v =
    count-found is_misjudged s.run_queue.slots v.schedule.unique (λ slot h. ground arith)
      λ i slot found. well_judged s i slot v found
