-- ===== src/Scheduler/Policy/Patience/Waiting.antt =====
-- src/scheduler.rs, `Scheduler::schedule_next` and `yield_current`: what becomes of a ready task while it
-- is not chosen.
use Prim.Native.Nat.{ℕ, ◌+◌, ◌≤◌}
use mathlib.Core.Path.{◌≡◌, refl, ap, subst, sym, ◌∙◌}
use mathlib.Core.Logic.{◌⊎◌, ◌≢◌, inl, inr}
use mathlib.Core.Bool.{true}
use mathlib.Core.Option
use mathlib.Core.Option.{Option, none, some}
use mathlib.Core.List.{List}
use native.Mathlib.Omega.{arith}
use alani_kernel.Common.Tests.{◌==◌, Bool-cases, ==→eq, ==→ne}
use alani_kernel.Common.Lists.{count, find, find_sound, update_first}
use alani_kernel.Common.Search.{find-update_first_miss, find-update_first_self, find-fails}
use alani_kernel.Error.{KernelError}
use alani_kernel.Outcome.{ok, err, KernelResult}
use alani_kernel.Capability.{TaskId}
use alani_kernel.Scheduler.{TaskControlBlock, BudgetAccount, is_running, is_ready, is_runnable_in}
use alani_kernel.Scheduler.Queue.{TaskSlot, holds_task, update}
use alani_kernel.Scheduler.Policy.{Scheduler, schedule_next, yield_current, pass_over, step_back}
use alani_kernel.Scheduler.Policy.Selection.{eligible}
use alani_kernel.Scheduler.Policy.Dispatch.{
  written, rewrite_all, dispatch-rewrite_all, dispatch-ok, find-rewrite_all,
}
use alani_kernel.Scheduler.Policy.Invariant.{id_at, rewritten, schedule_next_cases}
use alani_kernel.Scheduler.Policy.Running.{choice-IsChoice}
use alani_kernel.Scheduler.Policy.Switches.{dispatch-counted}
use alani_kernel.Scheduler.Policy.Calls.{yield_current_cases}
use alani_kernel.Scheduler.Policy.Patience.{max_age}
use alani_kernel.Scheduler.Policy.Patience.Passing.{pass_over-older, written-passed}
use alani_kernel.Scheduler.Policy.Patience.Calls.{IsFair, stepped_back-IsFair}

-- The task is ready, and of this age.
abbrev pub IsReadyIn : TaskId → ℕ → List TaskSlot → Type 0
IsReadyIn id a slots =
    (slot : TaskSlot) × (find (holds_task id) slots ≡ some slot)
    × (is_ready slot.task.state ≡ true)
    × (slot.task.age ≡ a)

abbrev pub IsWaiting : TaskId → ℕ → Scheduler → Type 0
IsWaiting id a s = IsReadyIn id a s.run_queue.slots

-- A ready task of a fair scheduler has not been passed over too often.
pub IsWaiting-age :
    (id : TaskId) (a : ℕ) (s : Scheduler) → IsFair s → IsWaiting id a s → a ≤ max_age
IsWaiting-age id a s v (slot, found, ready, aged) =
    ground (arith, aged, (v.patient id slot found).waited ready)

-- A round in which another task is selected makes it one older.
IsWaiting-rewrite_all :
    (id selected : TaskId) (a : ℕ) (slots : List TaskSlot) (slot : TaskSlot)
    → find (holds_task id) slots ≡ some slot
    → is_ready slot.task.state ≡ true
    → slot.task.age ≡ a
    → a ≤ max_age
    → selected ≢ id
    → IsReadyIn id (a + 1) (rewrite_all selected slots)
IsWaiting-rewrite_all id selected a slots slot found ready aged bound other =
    let held : holds_task id slot ≡ true = find_sound (holds_task id) slots found in
    let passed : (written selected slot).task ≡ pass_over slot.task =
      written-passed selected slot (ground (arith, held)) (ground (arith, held, other)) in
    let older : ((pass_over slot.task).age ≡ slot.task.age + 1)
        × (is_ready (pass_over slot.task).state ≡ true) =
      pass_over-older slot.task ready (omega (arith, aged, bound)) in
    (
      written selected slot,
      find-rewrite_all id selected slots ∙ ap (Option.map (written selected)) found,
      ap (λ t. is_ready t.state) passed ∙ older.1,
      ap (λ t. t.age) passed ∙ older.0 ∙ ap (λ n. n + 1) aged,
    )

-- What `schedule_next` does to a ready task: it is chosen, or one older, or nothing happens.
abbrev pub IsServed : TaskId → ℕ → KernelResult (Option TaskId) × Scheduler → Type 0
IsServed id a out =
    (out.0 ≡ ok (some id))
    ⊎ ((o : Option TaskId) × (out.0 ≡ ok o) × IsWaiting id (a + 1) out.1)
    ⊎ ((e : KernelError) × (out.0 ≡ err e) × IsWaiting id a out.1)

eligible-waiting :
    (id : TaskId) (s : Scheduler) (slot : TaskSlot)
    → find (holds_task id) s.run_queue.slots ≡ some slot
    → is_ready slot.task.state ≡ true
    → count eligible s.run_queue.slots ≢ 0
unfolding is_ready is_runnable_in
eligible-waiting id s slot found ready none_able = ground (
  arith,
  ready,
  find_sound (holds_task id) s.run_queue.slots found,
  find-fails (holds_task id) eligible s.run_queue.slots none_able found,
)

pub schedule_next-IsServed :
    (id : TaskId) (a : ℕ) (s : Scheduler)
    → IsFair s
    → IsWaiting id a s
    → IsServed id a (schedule_next s)
schedule_next-IsServed id a s v w =
    let (slot, found, ready, aged) = w in
    schedule_next_cases (IsServed id a) s (λ _. inr (inr (_, refl, w)))
      (λ _ nothing. absurd (eligible-waiting id s slot found ready (choice-IsChoice s nothing)))
      (λ index e room _ fails.
        absurd (ground (arith, fails, dispatch-counted s index room v.counted)))
      λ index _ chosen works. elim (Bool-cases (id_at s index == id)) [
        | inl mine ↦ inl (ap (λ i. ok (some i)) (==→eq (id_at s index) id mine))
        | inr other ↦ inr (
            inl (
              _,
              refl,
              subst (IsReadyIn id (a + 1))
                  (sym (
                    ap (λ out. out.1)
                      (dispatch-rewrite_all (id_at s index) s.run_queue.slots
                        (dispatch-ok (id_at s index) s.run_queue.slots works))))
                  (IsWaiting-rewrite_all id (id_at s index) a s.run_queue.slots slot found ready
                    aged (IsWaiting-age id a s v w) (==→ne (id_at s index) id other)),
            ))
      ]

-- A write to a task leaves another one, or the task as written.
pub find-rewritten :
    (id j : TaskId) (f : TaskControlBlock → TaskControlBlock) (slots : List TaskSlot)
    (slot : TaskSlot)
    → ((t : TaskControlBlock) → (f t).id ≡ t.id)
    → find (holds_task id) slots ≡ some slot
    → (after : TaskSlot) × (find
          (holds_task id)
          (update_first (holds_task j) (λ x. record x { task = f x.task }) slots)
        ≡ some after)
      × ((after ≡ slot) ⊎ (after ≡ record slot { task = f slot.task }))
find-rewritten id j f slots slot keeps found = elim (Bool-cases (j == id)) [
  | inl same ↦
      let self : j ≡ id = ==→eq j id same in
      (
        record slot { task = f slot.task },
        subst
            (λ i.
              find (holds_task id)
                (update_first (holds_task i) (λ x. record x { task = f x.task }) slots)
              ≡ some (record slot { task = f slot.task }))
            (sym self)
            (find-update_first_self (holds_task id) (λ x. record x { task = f x.task }) slots found
              (ground (arith, keeps slot.task, find_sound (holds_task id) slots found))),
        inr refl,
      )
  | inr other ↦ (
    slot,
    find-update_first_miss (holds_task j) (holds_task id) (λ x. record x { task = f x.task }) slots
          (λ x h. (ground (arith, h, other), ground (arith, h, other, keeps x.task)))
        ∙ found,
    inl refl,
  )
]

-- A step back leaves a ready task ready and as old as it was.
step_back-IsWaiting :
    (id j : TaskId) (a : ℕ) (budget : BudgetAccount) (s : Scheduler)
    → IsWaiting id a s
    → IsWaiting id a (rewritten s j (step_back budget))
unfolding update is_ready is_running
step_back-IsWaiting id j a budget s (slot, found, ready, aged) =
    let (after, still, same) =
      find-rewritten id j (step_back budget) s.run_queue.slots slot (λ _. refl) found in
    elim same [
      | inl kept ↦ (
        after,
        still,
        ap (λ x. is_ready x.task.state) kept ∙ ready,
        ap (λ x. x.task.age) kept ∙ aged,
      )
      | inr changed ↦ (
        after,
        still,
        ap (λ x. is_ready x.task.state) changed ∙ ground (arith, ready),
        ap (λ x. x.task.age) changed ∙ aged,
      )
    ]

-- The same of a yield.
pub yield_current-IsServed :
    (id : TaskId) (a : ℕ) (s : Scheduler)
    → IsFair s
    → IsWaiting id a s
    → IsServed id a (yield_current s)
yield_current-IsServed id a s v w =
    yield_current_cases (IsServed id a) s (λ e. inr (inr (e, refl, w)))
      (λ _. schedule_next-IsServed id a s v w)
      λ j t budget _ found paid.
        schedule_next-IsServed id a (rewritten s j (step_back budget))
          (stepped_back-IsFair s j t budget found paid v) (step_back-IsWaiting id j a budget s w)
