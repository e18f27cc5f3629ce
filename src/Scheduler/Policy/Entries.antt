-- ===== src/Scheduler/Policy/Entries.antt =====
-- src/scheduler.rs, `Scheduler`: what each call keeps of every entry of the table.
use Prim.Native.Nat.{ℕ, ◌+◌}
use mathlib.Core.Path.{◌≡◌}
use mathlib.Core.Logic.{inl, inr}
use mathlib.Core.Bool.{not, ◌&&◌}
use mathlib.Core.Option.{some}
use mathlib.Core.List.{List, [], ◌∷◌}
use native.Mathlib.Omega.{arith}
use alani_kernel.Common.Tests.{◌==◌, if-both, Bool-cases, Option-cases}
use alani_kernel.Common.Lists.{All, All-update_first, All-update_first_at, find, find-All}
use alani_kernel.Outcome.{ok}
use alani_kernel.Capability.{TaskId}
use alani_kernel.Scheduler.{TaskControlBlock, TaskState, BudgetAccount, new_task, consume_tick}
use alani_kernel.Scheduler.Queue.{TaskSlot, holds_task, is_vacant, get, update}
use alani_kernel.Scheduler.Policy.{Scheduler, start, dispatch, pass_over, schedule_next, step_back}
use alani_kernel.Scheduler.Policy.Dispatch.{
  is_saturated, written, dispatch-cons_failed, dispatch-cons,
}
use alani_kernel.Scheduler.Policy.Invariant.{
  slot_of, put_state, spawn_cases, transition_cases, cancel_cases, schedule_next_cases, id_at,
  rewritten,
}
use alani_kernel.Scheduler.Policy.Calls.{Call, step, run, yield_current_cases}
use Call.{spawns, moves, cancels, schedules, yields}

-- A predicate that none of the scheduler's writes to a slot breaks.
pub record IsStable (P : TaskSlot → Type 0) : Type 0 where
  pub moved :
      (slot : TaskSlot) (to : TaskState)
      → P slot
      → P (record slot { task = put_state to slot.task })
  pub started :
      (slot : TaskSlot) (n : ℕ)
      → P slot
      → P (record slot { task = record (start slot.task) { context_switches = n } })
  pub passed_over : (slot : TaskSlot) → P slot → P (record slot { task = pass_over slot.task })
  pub stepped_back :
      (slot : TaskSlot) (budget : BudgetAccount)
      → consume_tick slot.task.budget ≡ ok budget
      → P slot
      → P (record slot { task = step_back budget slot.task })

-- The call spawns no task but such as the predicate allows.
abbrev pub Admits : (TaskSlot → Type 0) → Call → Type 0
Admits P (spawns parent_id class priority capabilities budget) =
    (id : TaskId) → P (slot_of (new_task id parent_id class priority capabilities budget))
Admits P _ = Unit

module _ (P : TaskSlot → Type 0) (stable : IsStable P) where
  written-stable : (selected : TaskId) (slot : TaskSlot) → P slot → P (written selected slot)
  written-stable selected slot h = if-both P (not slot.occupied) h (
      if-both P (slot.task.id == selected) (stable.started slot (slot.task.context_switches + 1) h)
        (stable.passed_over slot h))

  pub dispatch-stable :
      (selected : TaskId) (slots : List TaskSlot) → All P slots → All P (dispatch selected slots).1
  unfolding dispatch
  dispatch-stable selected [] h = tt
  dispatch-stable selected (slot ∷ slots) h =
      elim (Bool-cases (holds_task selected slot && is_saturated slot)) [
        | inl stops ↦
            rw (dispatch-cons_failed selected slot slots stops)
              (stable.started slot slot.task.context_switches h.0, h.1)
        | inr goes_on ↦
            rw (dispatch-cons selected slot slots goes_on)
              (written-stable selected slot h.0, dispatch-stable selected slots h.1)
      ]

  schedule_next-stable :
      (s : Scheduler) → All P s.run_queue.slots → All P (schedule_next s).1.run_queue.slots
  schedule_next-stable s h =
      schedule_next_cases (λ out. All P out.1.run_queue.slots) s (λ _. h) (λ _ _. h)
        (λ index _ _ _ _. dispatch-stable (id_at s index) s.run_queue.slots h)
        λ index _ _ _. dispatch-stable (id_at s index) s.run_queue.slots h

  moved-stable :
      (s : Scheduler) (id : TaskId) (to : TaskState)
      → All P s.run_queue.slots
      → All P (rewritten s id (put_state to)).run_queue.slots
  unfolding update
  moved-stable s id to h =
      All-update_first P (holds_task id) _ s.run_queue.slots (λ slot. stable.moved slot to) h

  pub stepped_back-stable :
      (s : Scheduler) (id : TaskId) (t : TaskControlBlock) (budget : BudgetAccount)
      → get s.run_queue id ≡ some t
      → consume_tick t.budget ≡ ok budget
      → All P s.run_queue.slots
      → All P (rewritten s id (step_back budget)).run_queue.slots
  unfolding update get
  stepped_back-stable s id t budget found paid h =
      elim (Option-cases (find (holds_task id) s.run_queue.slots)) [
        | inl gone ↦ absurd (ground (arith, found, gone))
        | inr (slot, e) ↦
            All-update_first_at P (holds_task id) _ s.run_queue.slots e
              (stable.stepped_back slot budget (ground (arith, found, e, paid))
                (find-All P (holds_task id) s.run_queue.slots h e))
              h
      ]

  pub step-stable :
      (s : Scheduler) (c : Call)
      → Admits P c
      → All P s.run_queue.slots
      → All P (step s c).run_queue.slots
  step-stable s (spawns parent_id class priority capabilities budget) fit h =
      spawn_cases (λ out. All P out.1.run_queue.slots) s parent_id class priority capabilities
        budget h (λ _ _. h)
        λ slot _ _ _ _.
          All-update_first P is_vacant _ s.run_queue.slots (λ _ _. fit s.next_task_id) h
  step-stable s (moves id to) fit h =
      transition_cases (λ out. All P out.1.run_queue.slots) s id to (λ _. h)
        λ _ _ _. moved-stable s id to h
  step-stable s (cancels id) fit h =
      cancel_cases (λ out. All P out.1.run_queue.slots) s id (λ _. h)
        λ _ _ _. moved-stable s id TaskState.zombie h
  step-stable s schedules fit h = schedule_next-stable s h
  step-stable s yields fit h =
      yield_current_cases (λ out. All P out.1.run_queue.slots) s (λ _. h)
        (λ _. schedule_next-stable s h)
        λ id t budget _ found paid.
          schedule_next-stable (rewritten s id (step_back budget))
            (stepped_back-stable s id t budget found paid h)

  pub run-stable :
      (s : Scheduler) (cs : List Call)
      → All (Admits P) cs
      → All P s.run_queue.slots
      → All P (run s cs).run_queue.slots
  unfolding run
  run-stable s [] fit h = h
  run-stable s (c ∷ cs) fit h = run-stable (step s c) cs fit.1 (step-stable s c fit.0 h)
