-- ===== src/Scheduler/Policy/Budget.antt =====
-- src/scheduler.rs, `BudgetAccount::consume_tick` and `Scheduler::yield_current`: what a yield costs, and
-- what happens when the budget is spent.
use Prim.Native.Nat.{ℕ, zero, suc, ◌-◌}
use mathlib.Core.Path.{◌≡◌, refl, ap, sym, subst}
use mathlib.Core.Logic.{◌≢◌, inl, inr}
use mathlib.Core.Option.{some}
use native.Mathlib.Omega.{arith}
use alani_kernel.Common.Tests.{◌==◌, leb, if◌then◌else◌, Bool-cases}
use alani_kernel.Common.Lists.{replicate}
use alani_kernel.Error.{KernelError}
use alani_kernel.Outcome.{KernelResult, ok, err}
use alani_kernel.Capability.{TaskId}
use alani_kernel.Scheduler.{TaskControlBlock, BudgetAccount, consume_tick}
use alani_kernel.Scheduler.Queue.{get}
use alani_kernel.Scheduler.Policy.{Scheduler, yield_task, yield_current}
use alani_kernel.Scheduler.Policy.Calls.{Call, run, yield_from}
use Call.{yields}

-- The budget after so many ticks, while they can be paid for.
unfoldable pub consume : ℕ → BudgetAccount → KernelResult BudgetAccount
consume zero b = ok b
consume (suc n) b = elim (consume_tick b) [ ok c ↦ consume n c | err e ↦ err e ]

-- A bounded budget pays for exactly as many ticks as remain: any number up to that leaves the rest, and
-- any greater number fails with `DeadlineExceeded`.
pub consume_lem :
    (n : ℕ) (b : BudgetAccount)
    → b.max_ticks ≢ 0
    → consume n b ≡ (
        if leb n b.remaining_ticks
        then ok (record b { remaining_ticks = b.remaining_ticks - n })
        else err KernelError.deadline_exceeded)
unfolding consume consume_tick
consume_lem zero b bounded = ground arith
consume_lem (suc n) b bounded = elim (Bool-cases (b.remaining_ticks == 0)) [
  | inl spent ↦ ground (arith, spent)
  | inr left ↦
      ground
        (arith, left, consume_lem n (record b { remaining_ticks = b.remaining_ticks - 1 }) bounded)
]

-- A current task whose bounded budget is spent cannot yield.
yield_current-spent :
    (s : Scheduler) (id : TaskId) (t : TaskControlBlock)
    → s.current_task ≡ some id
    → get s.run_queue id ≡ some t
    → consume_tick t.budget ≡ err KernelError.deadline_exceeded
    → yield_current s ≡ (err KernelError.deadline_exceeded, s)
unfolding yield_current yield_task
yield_current-spent s id t current found spent =
    subst (λ c. yield_from c s ≡ (err KernelError.deadline_exceeded, s)) (sym current)
      (rw found (rw spent refl))

-- If the current task is in the table and its bounded budget is spent, any number of yields
-- changes nothing, and the next one fails with `DeadlineExceeded`: the task stays the current
-- one, and no other is scheduled.
pub yield_current-spent_forever :
    (s : Scheduler) (id : TaskId) (t : TaskControlBlock) (n : ℕ)
    → s.current_task ≡ some id
    → get s.run_queue id ≡ some t
    → t.budget.max_ticks ≢ 0
    → t.budget.remaining_ticks ≡ 0
    → (run s (replicate n yields) ≡ s)
      × ((yield_current (run s (replicate n yields))).0 ≡ err KernelError.deadline_exceeded)
unfolding run consume_tick
yield_current-spent_forever s id t n current found bounded nothing = (
  stuck n,
  subst (λ u. (yield_current u).0 ≡ err KernelError.deadline_exceeded) (sym (stuck n))
      (ap (λ r. r.0) fails),
)
  where
    fails : yield_current s ≡ (err KernelError.deadline_exceeded, s)
    fails = yield_current-spent s id t current found (ground (arith, bounded, nothing))

    stuck : (m : ℕ) → run s (replicate m yields) ≡ s
    stuck zero = refl
    stuck (suc m) =
        subst (λ u. run u (replicate m yields) ≡ s) (sym (ap (λ r. r.1) fails)) (stuck m)
