-- ===== src/Scheduler/Policy/Dispatch.antt =====
-- src/scheduler.rs, the update loop of `Scheduler::schedule_next`: what it leaves of the tasks.
use Prim.Native.Nat.{suc, ◌+◌}
use mathlib.Core.Path.{◌≡◌, refl, ap}
use mathlib.Core.Logic.{inl, inr}
use mathlib.Core.Bool.{Bool, true, false, not, ◌&&◌}
use mathlib.Core.Option
use mathlib.Core.Option.{Option, none, some}
use mathlib.Core.List.{List, [], ◌∷◌}
use native.Mathlib.Omega.{arith}
use alani_kernel.Common.Tests.{◌==◌, ltb, if◌then◌else◌, Bool-cases}
use alani_kernel.Common.Words.{u64_mod}
use alani_kernel.Common.Lists.{count, length, find}
use alani_kernel.Error.{KernelError}
use alani_kernel.Outcome.{ok, err}
use alani_kernel.Capability.{TaskId}
use alani_kernel.Scheduler.{TaskControlBlock, is_running, is_ready}
use alani_kernel.Scheduler.Queue.{TaskSlot, holds_task}
use alani_kernel.Scheduler.Policy.{dispatch, pass_over, start}

-- The slot's task is running.
abbrev pub runs : TaskSlot → Bool
runs slot = slot.occupied && is_running slot.task.state

-- The slot's task has been switched to as often as can be counted.
abbrev pub is_saturated : TaskSlot → Bool
is_saturated slot = slot.occupied && not (ltb (slot.task.context_switches + 1) u64_mod)

-- What the loop makes of a slot, the selected task's count of switches apart.
abbrev pub written : TaskId → TaskSlot → TaskSlot
written selected slot =
    if not slot.occupied
    then slot
    else if slot.task.id == selected
    then record slot {
      task = record (start slot.task) { context_switches = slot.task.context_switches + 1 };
    }
    else record slot { task = pass_over slot.task }

abbrev pub rewrite_all : TaskId → List TaskSlot → List TaskSlot
rewrite_all selected [] = []
rewrite_all selected (slot ∷ slots) = written selected slot ∷ rewrite_all selected slots

-- One round: the overflow of the count stops the loop, anything else goes on.
pub dispatch-cons_failed :
    (selected : TaskId) (slot : TaskSlot) (slots : List TaskSlot)
    → holds_task selected slot && is_saturated slot ≡ true
    → dispatch selected (slot ∷ slots)
      ≡ (err KernelError.internal, record slot { task = start slot.task } ∷ slots)
unfolding dispatch
dispatch-cons_failed selected slot slots h = ground arith

pub dispatch-cons :
    (selected : TaskId) (slot : TaskSlot) (slots : List TaskSlot)
    → holds_task selected slot && is_saturated slot ≡ false
    → dispatch selected (slot ∷ slots)
      ≡ ((dispatch selected slots).0, written selected slot ∷ (dispatch selected slots).1)
unfolding dispatch
dispatch-cons selected slot slots h = ground arith

pub pass_over-id : (t : TaskControlBlock) → (pass_over t).id ≡ t.id
unfolding pass_over
pass_over-id t = ground arith

pub pass_over-stops : (t : TaskControlBlock) → is_running (pass_over t).state ≡ false
unfolding pass_over is_running is_ready
pass_over-stops t = ground arith

-- The loop neither moves a task to another slot nor changes an identifier, even where it stops.
pub count-dispatch :
    (q : Bool → TaskId → Bool) (selected : TaskId) (slots : List TaskSlot)
    → count (λ s. q s.occupied s.task.id) (dispatch selected slots).1
      ≡ count (λ s. q s.occupied s.task.id) slots
unfolding dispatch
count-dispatch q selected [] = refl
count-dispatch q selected (slot ∷ slots) =
    elim (Bool-cases (holds_task selected slot && is_saturated slot)) [
      | inl stops ↦ rw (dispatch-cons_failed selected slot slots stops) refl
      | inr goes_on ↦
          rw (dispatch-cons selected slot slots goes_on)
            (ground (arith, count-dispatch q selected slots, pass_over-id slot.task))
    ]

pub length-dispatch :
    (selected : TaskId) (slots : List TaskSlot) → length (dispatch selected slots).1 ≡ length slots
unfolding dispatch
length-dispatch selected [] = refl
length-dispatch selected (slot ∷ slots) =
    elim (Bool-cases (holds_task selected slot && is_saturated slot)) [
      | inl stops ↦ rw (dispatch-cons_failed selected slot slots stops) refl
      | inr goes_on ↦
          rw (dispatch-cons selected slot slots goes_on) (ap suc (length-dispatch selected slots))
    ]

-- The loop succeeds, and then rewrites every slot, where the selected task can be counted.
pub dispatch-rewrite_all :
    (selected : TaskId) (slots : List TaskSlot)
    → count (λ s. holds_task selected s && is_saturated s) slots ≡ 0
    → dispatch selected slots ≡ (ok tt, rewrite_all selected slots)
unfolding dispatch
dispatch-rewrite_all selected [] h = refl
dispatch-rewrite_all selected (slot ∷ slots) h =
    elim (Bool-cases (holds_task selected slot && is_saturated slot)) [
      | inl stops ↦ absurd (ground (arith, stops))
      | inr goes_on ↦
          rw (dispatch-cons selected slot slots goes_on)
            (rw (dispatch-rewrite_all selected slots (ground (arith, goes_on))) refl)
    ]

-- Where it reports success, no count overflowed.
pub dispatch-ok :
    (selected : TaskId) (slots : List TaskSlot)
    → (dispatch selected slots).0 ≡ ok tt
    → count (λ s. holds_task selected s && is_saturated s) slots ≡ 0
unfolding dispatch
dispatch-ok selected [] h = refl
dispatch-ok selected (slot ∷ slots) h =
    elim (Bool-cases (holds_task selected slot && is_saturated slot)) [
      | inl stops ↦
          absurd (ground (arith, ap (λ o. o.0) (dispatch-cons_failed selected slot slots stops)))
      | inr goes_on ↦ ground (
        arith,
        goes_on,
        dispatch-ok selected slots (rw (dispatch-cons selected slot slots goes_on) at h),
      )
    ]

pub runs-written :
    (selected : TaskId) (slot : TaskSlot) → runs (written selected slot) ≡ holds_task selected slot
unfolding is_running
runs-written selected slot = ground (arith, pass_over-stops slot.task)

-- After it exactly the slots of the selected task run.
pub count-runs-rewrite_all :
    (selected : TaskId) (slots : List TaskSlot)
    → count runs (rewrite_all selected slots) ≡ count (holds_task selected) slots
count-runs-rewrite_all selected [] = refl
count-runs-rewrite_all selected (slot ∷ slots) =
    ground (arith, count-runs-rewrite_all selected slots, runs-written selected slot)

pub find-rewrite_all :
    (i selected : TaskId) (slots : List TaskSlot)
    → find (holds_task i) (rewrite_all selected slots)
      ≡ Option.map (written selected) (find (holds_task i) slots)
find-rewrite_all i selected [] = refl
find-rewrite_all i selected (slot ∷ slots) =
    ground (arith, find-rewrite_all i selected slots, pass_over-id slot.task)
