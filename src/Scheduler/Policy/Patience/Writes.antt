-- ===== src/Scheduler/Policy/Patience/Writes.antt =====
-- src/scheduler.rs, `Scheduler`: the age of a ready task, and the tasks that may still be chosen before it,
-- when another is spawned, cancelled or steps back.
use Prim.Native.Nat.{ℕ, ◌≤◌, ◌<◌}
use mathlib.Core.Path.{◌≡◌, refl, ap, subst, sym, ◌∙◌}
use mathlib.Core.Logic.{◌⊎◌, inl, inr}
use mathlib.Core.Bool.{true, false, ◌&&◌}
use mathlib.Core.Option.{some}
use mathlib.Core.List.{List}
use native.Mathlib.Omega.{arith}
use alani_kernel.Common.Tests.{◌==◌, leb, Bool-cases, some-injective}
use alani_kernel.Common.Lists.{count, find}
use alani_kernel.Common.Search.{
  count-update_first, count-update_first_le, find-update_first_keep, find-update_first_miss,
  find-update_first_hit,
}
use alani_kernel.Capability.{TaskId}
use alani_kernel.Scheduler.{
  TaskControlBlock, TaskState, BudgetAccount, is_running, is_ready, is_runnable_in,
}
use alani_kernel.Scheduler.Queue.{TaskSlot, holds_task, is_vacant, update}
use alani_kernel.Scheduler.Policy.{Scheduler, new, step_back}
use alani_kernel.Scheduler.Policy.Invariant.{IsSchedule, slot_of, inserted, put_state, rewritten}
use alani_kernel.Scheduler.Policy.Patience.{head_start, rivals}
use alani_kernel.Scheduler.Policy.Patience.Rounds.{IsPatient, ArePatient, IsPatient-young}

-- A table in which no task has more rivals.
IsPatient-fewer :
    (id : TaskId) (before after : List TaskSlot) (t : TaskControlBlock)
    → ((a : ℕ) → head_start < a → count (rivals id a) after ≤ count (rivals id a) before)
    → IsPatient id before t
    → IsPatient id after t
IsPatient-fewer id before after t fewer h = record {
  rested = h.rested;
  waited = λ ready. elim (Bool-cases (leb t.age head_start)) [
    | inl young ↦ inl (ground (arith, young))
    | inr old ↦ elim (h.waited ready) [
      | inl young ↦ inl young
      | inr few ↦ inr (ground (arith, few, old, fewer t.age))
    ]
  ];
}

-- A write that ages no task, leaves none running, and makes none eligible.
pub record IsGentle (f : TaskControlBlock → TaskControlBlock) : Type 0 where
  pub same_id : (t : TaskControlBlock) → (f t).id ≡ t.id
  pub same_age : (t : TaskControlBlock) → (f t).age ≡ t.age
  pub idle : (t : TaskControlBlock) → is_running (f t).state ≡ false
  pub able :
      (t : TaskControlBlock)
      → is_ready (f t).state ≡ true
      → (is_ready t.state ≡ true) ⊎ (is_running t.state ≡ true)

IsPatient-gentle :
    (id : TaskId) (slots : List TaskSlot) (t : TaskControlBlock)
    (f : TaskControlBlock → TaskControlBlock)
    → IsGentle f
    → IsPatient id slots t
    → IsPatient id slots (f t)
IsPatient-gentle id slots t f g h = record {
  rested = λ runs. absurd (ground (arith, runs, g.idle t));
  waited = λ ready. elim (g.able t ready) [
    | inl before ↦ rw (g.same_age t) (h.waited before)
    | inr ran ↦ inl (omega (arith, g.same_age t, h.rested ran))
  ];
}

runnable-cases :
    (state : TaskState)
    → is_runnable_in state ≡ true
    → (is_ready state ≡ true) ⊎ (is_running state ≡ true)
unfolding is_runnable_in is_ready is_running
runnable-cases state h = ground arith

rivals-gentle :
    (id : TaskId) (a : ℕ) (f : TaskControlBlock → TaskControlBlock) (slot : TaskSlot)
    → IsGentle f
    → rivals id a (record slot { task = f slot.task }) ≡ true
    → rivals id a slot ≡ true
unfolding is_runnable_in is_ready is_running
rivals-gentle id a f slot g h =
    ground (arith, h, g.same_id slot.task, g.same_age slot.task, g.idle slot.task, g.able slot.task)

pub rewritten-ArePatient :
    (s : Scheduler) (j : TaskId) (f : TaskControlBlock → TaskControlBlock)
    → IsGentle f
    → ArePatient s.run_queue.slots
    → ArePatient (rewritten s j f).run_queue.slots
unfolding update
rewritten-ArePatient s j f g h id after found =
    let (slot, before, same) =
      find-update_first_keep (holds_task j) (holds_task id) write s.run_queue.slots {y = after}
        (λ x. ap (λ i. x.occupied && i == id) (g.same_id x.task)) found in
    let still : IsPatient id (rewritten s j f).run_queue.slots slot.task =
      IsPatient-fewer id s.run_queue.slots (rewritten s j f).run_queue.slots slot.task
        (λ a _.
          count-update_first_le (holds_task j) (rivals id a) write s.run_queue.slots
            (λ x. rivals-gentle id a f x g))
        (h id slot before) in
    elim same [
      | inl kept ↦
          subst (λ x. IsPatient id (rewritten s j f).run_queue.slots x.task) (sym kept) still
      | inr (_, changed) ↦
          subst (λ x. IsPatient id (rewritten s j f).run_queue.slots x.task) (sym changed)
            (IsPatient-gentle id (rewritten s j f).run_queue.slots slot.task f g still)
    ]
  where
    write : TaskSlot → TaskSlot
    write x = record x { task = f x.task }

pub cancelled-IsGentle : IsGentle (put_state TaskState.zombie)
unfolding is_running is_ready
cancelled-IsGentle = record {
  same_id = λ t. refl;
  same_age = λ t. refl;
  idle = λ t. refl;
  able = λ t ready. absurd (ground arith);
}

pub step_back-IsGentle : (budget : BudgetAccount) → IsGentle (step_back budget)
unfolding is_running is_ready
step_back-IsGentle budget = record {
  same_id = λ t. refl;
  same_age = λ t. refl;
  idle = λ t. ground arith;
  able = λ t ready. ground arith;
}

-- A task that is spawned is young, and no rival of one that is not.
pub spawned-ArePatient :
    (s : Scheduler) (t : TaskControlBlock) (slot : TaskSlot)
    → IsSchedule s
    → t.id ≡ s.next_task_id
    → t.age ≡ 0
    → find is_vacant s.run_queue.slots ≡ some slot
    → ArePatient s.run_queue.slots
    → ArePatient (inserted s.run_queue t).slots
spawned-ArePatient s t slot v numbered young vacant h id after found =
    elim (Bool-cases (t.id == id)) [
      | inl new ↦ IsPatient-young id (inserted s.run_queue t).slots after.task (
          ap (λ x. x.task.age)
            (some-injective (
              sym found
              ∙ (find-update_first_hit is_vacant (holds_task id) (λ _. slot_of t) s.run_queue.slots
                  vacant new (v.fresh id (ground (arith, new, numbered))))))
          ∙ young)
      | inr other ↦
          IsPatient-fewer id s.run_queue.slots (inserted s.run_queue t).slots after.task
            (λ a old. ground (
              arith,
              old,
              young,
              count-update_first is_vacant (rivals id a) (λ _. slot_of t) s.run_queue.slots vacant,
            ))
            (h id after (
              sym (
                find-update_first_miss is_vacant (holds_task id) (λ _. slot_of t) s.run_queue.slots
                  (λ x free. (ground (arith, free), other)))
              ∙ found))
    ]
