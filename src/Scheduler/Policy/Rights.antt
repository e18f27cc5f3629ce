-- ===== src/Scheduler/Policy/Rights.antt =====
-- src/scheduler.rs, `Scheduler`: the capabilities and the budgets of the tasks.
use mathlib.Core.Path.{◌≡◌, ◌∙◌, ap}
use mathlib.Core.List.{List}
use native.Mathlib.Omega.{arith}
use alani_kernel.Common.Lists.{All, All-map}
use alani_kernel.Outcome.{ok}
use alani_kernel.Capability.{empty}
use alani_kernel.Scheduler.{BudgetAccount, TaskControlBlock, consume_tick}
use alani_kernel.Scheduler.Queue.{TaskSlot}
use alani_kernel.Scheduler.Policy.{Scheduler, pass_over}
use alani_kernel.Scheduler.Policy.Entries.{IsStable, Admits, run-stable}
use alani_kernel.Scheduler.Policy.Calls.{Call, run}
use Call.{spawns, moves, cancels, schedules, yields}

-- The call gives no task a capability, or a bounded budget.
abbrev pub GrantsNothing : Call → Type 0
GrantsNothing (spawns _ _ _ capabilities _) = capabilities ≡ empty
GrantsNothing _ = Unit

abbrev pub MetersNothing : Call → Type 0
MetersNothing (spawns _ _ _ _ budget) = budget.max_ticks ≡ 0
MetersNothing _ = Unit

-- The slot's task has no capability.
abbrev pub IsPowerless : TaskSlot → Type 0
IsPowerless slot = slot.task.capabilities ≡ empty

-- The slot's task never runs out of ticks.
abbrev pub IsUnmetered : TaskSlot → Type 0
IsUnmetered slot = slot.task.budget.max_ticks ≡ 0

pass_over-capabilities : (t : TaskControlBlock) → (pass_over t).capabilities ≡ t.capabilities
unfolding pass_over
pass_over-capabilities t = ground arith

pass_over-budget : (t : TaskControlBlock) → (pass_over t).budget ≡ t.budget
unfolding pass_over
pass_over-budget t = ground arith

consume_tick-max_ticks : (b c : BudgetAccount) → consume_tick b ≡ ok c → c.max_ticks ≡ b.max_ticks
unfolding consume_tick
consume_tick-max_ticks b c h = ground (arith, h)

IsPowerless-IsStable : IsStable IsPowerless
IsPowerless-IsStable = record {
  moved = λ slot to h. h;
  started = λ slot n h. h;
  passed_over = λ slot h. pass_over-capabilities slot.task ∙ h;
  stepped_back = λ slot budget _ h. h;
}

pub IsUnmetered-IsStable : IsStable IsUnmetered
IsUnmetered-IsStable = record {
  moved = λ slot to h. h;
  started = λ slot n h. h;
  passed_over = λ slot h. ap (λ b. b.max_ticks) (pass_over-budget slot.task) ∙ h;
  stepped_back = λ slot budget paid h. consume_tick-max_ticks slot.task.budget budget paid ∙ h;
}

-- Where no task has a capability and no spawn gives any, none has one after the calls.
pub run-IsPowerless :
    (s : Scheduler) (cs : List Call)
    → All GrantsNothing cs
    → All IsPowerless s.run_queue.slots
    → All IsPowerless (run s cs).run_queue.slots
run-IsPowerless s cs nothing h =
    run-stable IsPowerless IsPowerless-IsStable s cs (All-map admitted cs nothing) h
  where
    admitted : (c : Call) → GrantsNothing c → Admits IsPowerless c
    admitted (spawns _ _ _ _ _) none_given = λ id. none_given
    admitted (moves _ _) _ = tt
    admitted (cancels _) _ = tt
    admitted schedules _ = tt
    admitted yields _ = tt

-- Where no budget is bounded and no spawn bounds one, none is bounded after the calls.
pub run-IsUnmetered :
    (s : Scheduler) (cs : List Call)
    → All MetersNothing cs
    → All IsUnmetered s.run_queue.slots
    → All IsUnmetered (run s cs).run_queue.slots
run-IsUnmetered s cs nothing h =
    run-stable IsUnmetered IsUnmetered-IsStable s cs (All-map admitted cs nothing) h
  where
    admitted : (c : Call) → MetersNothing c → Admits IsUnmetered c
    admitted (spawns _ _ _ _ _) unbounded = λ id. unbounded
    admitted (moves _ _) _ = tt
    admitted (cancels _) _ = tt
    admitted schedules _ = tt
    admitted yields _ = tt
