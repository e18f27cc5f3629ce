-- ===== src/Scheduler/Policy/Running.antt =====
-- src/scheduler.rs, `Scheduler::schedule_next`: the task it returns, and which task runs after it.
use Prim.Native.Nat.{ℕ, ◌+◌}
use mathlib.Core.Path.{◌≡◌, refl, ◌∙◌, subst, ap}
use mathlib.Core.Bool.{true}
use mathlib.Core.Option
use mathlib.Core.Option.{Option, none, some}
use mathlib.Core.List.{List}
use native.Mathlib.Omega.{arith}
use alani_kernel.Common.Lists.{count, find, find_sound, get_or}
use alani_kernel.Common.Search.{count-get_or, find-count}
use alani_kernel.Outcome.{KernelResult, ok, err}
use alani_kernel.Capability.{TaskId}
use alani_kernel.Scheduler.{TaskState}
use alani_kernel.Scheduler.Queue.{TaskSlot, holds_task, empty_slot, get}
use alani_kernel.Scheduler.Policy.{Scheduler, dispatch, schedule_next}
use alani_kernel.Scheduler.Policy.Selection.{IsChoice, eligible, select-IsChoice}
use alani_kernel.Scheduler.Policy.Dispatch.{
  runs, rewrite_all, dispatch-rewrite_all, dispatch-ok, count-runs-rewrite_all, find-rewrite_all,
}
use alani_kernel.Scheduler.Policy.Invariant.{
  IsSchedule, dispatched, id_at, choice, schedule_next_cases,
}

-- Nothing was eligible, or the task at `index` was the first of the best, and it alone now runs.
abbrev pub IsScheduled : Scheduler → Option TaskId → Scheduler → Type 0
IsScheduled s none after = count eligible s.run_queue.slots ≡ 0
IsScheduled s (some id) after =
    (index : ℕ) × (IsChoice (s.tick + 1) s.run_queue.slots (some index))
    × (id_at s index ≡ id)
    × (count runs after.run_queue.slots ≡ 1)
    × (Option.map (λ t. t.state) (get after.run_queue id) ≡ some TaskState.running)

-- The choice that the loop makes, for what it is.
pub choice-IsChoice :
    (s : Scheduler) {o : Option ℕ} → choice s ≡ o → IsChoice (s.tick + 1) s.run_queue.slots o
choice-IsChoice s e =
    subst (IsChoice (s.tick + 1) s.run_queue.slots) e
      (select-IsChoice (s.tick + 1) s.run_queue.slots)

-- Exactly one slot holds the task that is chosen.
count-chosen :
    (s : Scheduler) (index : ℕ)
    → IsSchedule s
    → eligible (get_or s.run_queue.slots index empty_slot) ≡ true
    → count (holds_task (id_at s index)) s.run_queue.slots ≡ 1
count-chosen s index v h = ground (
  arith,
  v.unique (id_at s index),
  count-get_or (holds_task (id_at s index)) s.run_queue.slots index empty_slot refl (ground arith),
)

-- The selected task runs after the loop.
running-rewrite_all :
    (id : TaskId) (slots : List TaskSlot)
    → count (holds_task id) slots ≡ 1
    → Option.map (λ t. t.state) (get (record { slots = rewrite_all id slots }) id)
      ≡ some TaskState.running
unfolding get
running-rewrite_all id slots one =
    let found : (slot : TaskSlot) × (find (holds_task id) slots ≡ some slot) =
      find-count (holds_task id) slots (omega (arith, one)) in
    rw (find-rewrite_all id id slots)
      (rw found.1 (ground (arith, find_sound (holds_task id) slots found.1)))

dispatch-running :
    (s : Scheduler) (index : ℕ)
    → IsSchedule s
    → choice s ≡ some index
    → (dispatch (id_at s index) s.run_queue.slots).0 ≡ ok tt
    → IsScheduled s
        (some (id_at s index))
        (record (dispatched s index) { current_task = some (id_at s index) })
dispatch-running s index v e works = (
  index,
  choice-IsChoice s e,
  refl,
  (rw (ap (λ o. o.1) rewrites) (count-runs-rewrite_all (id_at s index) s.run_queue.slots ∙ one)),
  rw (ap (λ o. o.1) rewrites) (running-rewrite_all (id_at s index) s.run_queue.slots one),
)
  where
    one : count (holds_task (id_at s index)) s.run_queue.slots ≡ 1
    one = count-chosen s index v (choice-IsChoice s e).0

    rewrites :
        dispatch (id_at s index) s.run_queue.slots
        ≡ (ok tt, rewrite_all (id_at s index) s.run_queue.slots)
    rewrites =
        dispatch-rewrite_all (id_at s index) s.run_queue.slots
          (dispatch-ok (id_at s index) s.run_queue.slots works)

-- When `schedule_next` succeeds on a well-formed scheduler, the tick has advanced by one and the
-- current task is what it returns: nothing if no task was ready or running, and otherwise the
-- first in the table of the ready or running tasks with the highest score at the new tick, which
-- is then the only task that runs.
pub schedule_next_lem :
    (s : Scheduler) (o : Option TaskId)
    → IsSchedule s
    → (schedule_next s).0 ≡ ok o
    → ((schedule_next s).1.current_task ≡ o)
      × ((schedule_next s).1.tick ≡ s.tick + 1)
      × IsScheduled s o (schedule_next s).1
schedule_next_lem s o v =
    schedule_next_cases
      (λ out.
        out.0 ≡ ok o → (out.1.current_task ≡ o) × (out.1.tick ≡ s.tick + 1) × IsScheduled s o out.1)
      s (λ _ h. absurd (ground arith))
      (λ _ nothing h.
        subst
          (λ o.
            (none ≡ o)
            × (s.tick + 1 ≡ s.tick + 1)
            × IsScheduled s o (record s { tick = s.tick + 1; current_task = none }))
          (result-eq h) (refl, refl, choice-IsChoice s nothing))
      (λ index e _ _ _ h. absurd (ground arith))
      λ index _ e works h.
        subst
          (λ o.
            (some (id_at s index) ≡ o)
            × (s.tick + 1 ≡ s.tick + 1)
            × IsScheduled s o (record (dispatched s index) { current_task = some (id_at s index) }))
          (result-eq h) (refl, refl, dispatch-running s index v e works)
  where
    result-eq : {a b : Option TaskId} → ◌≡◌ {A = KernelResult (Option TaskId)} (ok a) (ok b) → a ≡ b
    result-eq {a} p = ap value p
      where
        value : KernelResult (Option TaskId) → Option TaskId
        value (ok x) = x
        value (err _) = a
