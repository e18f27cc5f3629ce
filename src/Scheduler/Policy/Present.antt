-- ===== src/Scheduler/Policy/Present.antt =====
-- src/scheduler.rs, `Scheduler::yield_current`: that the current task is in the table, and when a yield
-- succeeds.
use Prim.Native.Nat.{ℕ, ◌+◌, ◌≤◌, ◌<◌, ◌^◌}
use mathlib.Core.Path.{◌≡◌, refl, ap, ◌∙◌, sym, subst}
use mathlib.Core.Logic.{inl, inr}
use mathlib.Core.Bool.{true, not}
use mathlib.Core.Option.{Option, none, some}
use mathlib.Core.List.{List, [], ◌∷◌}
use native.Mathlib.Omega.{arith}
use alani_kernel.Common.Tests.{◌==◌, is_some, if-both, Option-cases}
use alani_kernel.Common.Lists.{All, count, find, find-All, find_sound}
use alani_kernel.Common.Search.{
  count-update_first, count-update_first_keep, count-get_or, count-find-some, find-count,
}
use alani_kernel.Outcome.{ok}
use alani_kernel.Capability.{TaskId}
use alani_kernel.Scheduler.{
  BudgetAccount, TaskControlBlock, TaskState, is_running, is_runnable_in, consume_tick,
}
use alani_kernel.Scheduler.Queue.{TaskSlot, holds_task, is_vacant, empty_slot, get, update}
use alani_kernel.Scheduler.Policy.{
  Scheduler, schedule_next, yield_current, yield_task, step_back, dispatch,
}
use alani_kernel.Scheduler.Policy.Selection.{eligible}
use alani_kernel.Scheduler.Policy.Dispatch.{count-dispatch}
use alani_kernel.Scheduler.Policy.Invariant.{
  choice, slot_of, inserted, put_state, without, spawn_cases, transition_cases, cancel_cases,
  schedule_next_cases, id_at, rewritten,
}
use alani_kernel.Scheduler.Policy.Running.{choice-IsChoice}
use alani_kernel.Scheduler.Policy.Switches.{AreCounted, IsTimely, rewritten-AreCounted, early}
use alani_kernel.Scheduler.Policy.Rights.{IsUnmetered}
use alani_kernel.Scheduler.Policy.Calls.{
  Call, step, run, bears, tallied-rewritten, yield_from, yield_current_cases,
}
use Call.{spawns, moves, cancels, schedules, yields}

-- The task is in the table, if there is one.
abbrev pub IsIn : Option TaskId → List TaskSlot → Type 0
IsIn none slots = Unit
IsIn (some id) slots = 1 ≤ count (holds_task id) slots

abbrev pub IsPresent : Scheduler → Type 0
IsPresent s = IsIn s.current_task s.run_queue.slots

-- A table that loses no task keeps it.
IsIn-mono :
    (o : Option TaskId) (before after : List TaskSlot)
    → ((i : TaskId) → count (holds_task i) before ≤ count (holds_task i) after)
    → IsIn o before
    → IsIn o after
IsIn-mono none before after grows h = tt
IsIn-mono (some id) before after grows h = omega (arith, grows id, h)

-- What `without` leaves is in the table if what it was given is.
IsIn-without :
    (o : Option TaskId) (id : TaskId) (slots : List TaskSlot)
    → IsIn o slots
    → IsIn (without o id) slots
IsIn-without none id slots h = h
IsIn-without (some current) id slots h = if-both (λ o. IsIn o slots) (current == id) tt h

-- A task that the table finds is in it.
get-IsIn :
    (s : Scheduler) (id : TaskId) {t : TaskControlBlock}
    → get s.run_queue id ≡ some t
    → IsIn (some id) s.run_queue.slots
unfolding get
get-IsIn s id {t} found = elim (Option-cases (find (holds_task id) s.run_queue.slots)) [
  | inl gone ↦ absurd (ground (arith, found, gone))
  | inr (slot, e) ↦ count-find-some (holds_task id) s.run_queue.slots e
]

rewritten-IsIn :
    (o : Option TaskId) (s : Scheduler) (id : TaskId) (f : TaskControlBlock → TaskControlBlock)
    → ((t : TaskControlBlock) → (f t).id ≡ t.id)
    → IsIn o s.run_queue.slots
    → IsIn o (rewritten s id f).run_queue.slots
rewritten-IsIn o s id f keeps =
    IsIn-mono o s.run_queue.slots (rewritten s id f).run_queue.slots
      λ i. omega (arith, tallied-rewritten (bears i) s id f keeps)

spawned-IsIn :
    (o : Option TaskId) (s : Scheduler) (t : TaskControlBlock) {slot : TaskSlot}
    → find is_vacant s.run_queue.slots ≡ some slot
    → IsIn o s.run_queue.slots
    → IsIn o (inserted s.run_queue t).slots
spawned-IsIn o s t {slot} e = IsIn-mono o s.run_queue.slots (inserted s.run_queue t).slots λ i.
    ground (
      arith,
      find_sound is_vacant s.run_queue.slots e,
      count-update_first is_vacant (holds_task i) (λ _. slot_of t) s.run_queue.slots e,
    )

-- The task at an index that was selected.
selected-IsIn :
    (s : Scheduler) (index : ℕ)
    → choice s ≡ some index
    → IsIn (some (id_at s index)) (dispatch (id_at s index) s.run_queue.slots).1
selected-IsIn s index chosen = omega (
  arith,
  count-dispatch (bears (id_at s index)) (id_at s index) s.run_queue.slots,
  count-get_or (holds_task (id_at s index)) s.run_queue.slots index empty_slot refl
      (ground (arith, (choice-IsChoice s chosen).0)),
)

schedule_next-IsPresent : (s : Scheduler) → IsPresent s → IsPresent (schedule_next s).1
schedule_next-IsPresent s h =
    schedule_next_cases (λ out. IsPresent out.1) s (λ _. h) (λ _ _. tt)
      (λ index _ _ _ _.
        IsIn-mono s.current_task s.run_queue.slots (dispatch (id_at s index) s.run_queue.slots).1
          (λ i. omega (arith, count-dispatch (bears i) (id_at s index) s.run_queue.slots)) h)
      λ index _ chosen _. selected-IsIn s index chosen

step-IsPresent : (s : Scheduler) (c : Call) → IsPresent s → IsPresent (step s c)
step-IsPresent s (spawns parent_id class priority capabilities budget) h =
    spawn_cases (λ out. IsPresent out.1) s parent_id class priority capabilities budget h (λ _ _. h)
      λ slot _ _ _ e. spawned-IsIn s.current_task s _ e h
step-IsPresent s (moves id to) h =
    transition_cases (λ out. IsPresent out.1) s id to (λ _. h)
      λ t found _.
        if-both (λ o. IsIn o (rewritten s id (put_state to)).run_queue.slots) (is_running to)
          (rewritten-IsIn (some id) s id (put_state to) (λ _. refl) (get-IsIn s id found))
          (rewritten-IsIn (without s.current_task id) s id (put_state to) (λ _. refl)
            (IsIn-without s.current_task id s.run_queue.slots h))
step-IsPresent s (cancels id) h =
    cancel_cases (λ out. IsPresent out.1) s id (λ _. h)
      λ t found _.
        rewritten-IsIn (without s.current_task id) s id (put_state TaskState.zombie) (λ _. refl)
          (IsIn-without s.current_task id s.run_queue.slots h)
step-IsPresent s schedules h = schedule_next-IsPresent s h
step-IsPresent s yields h =
    yield_current_cases (λ out. IsPresent out.1) s (λ _. h) (λ _. schedule_next-IsPresent s h)
      λ id _ budget _ _ _.
        schedule_next-IsPresent (rewritten s id (step_back budget))
          (rewritten-IsIn s.current_task s id (step_back budget) (λ _. refl) h)

pub run-IsPresent : (s : Scheduler) (cs : List Call) → IsPresent s → IsPresent (run s cs)
unfolding run
run-IsPresent s [] h = h
run-IsPresent s (c ∷ cs) h = run-IsPresent (step s c) cs (step-IsPresent s c h)

-- A yield costs nothing where budgets are not bounded.
IsUnmetered-consume_tick : (b : BudgetAccount) → b.max_ticks ≡ 0 → consume_tick b ≡ ok b
unfolding consume_tick
IsUnmetered-consume_tick b h = ground (arith, h)

-- What the outcome of `yield_current` is to be, where nothing keeps the current task from yielding.
abbrev pub IsTimelyYield : Scheduler → Type 0
IsTimelyYield s =
    (o : Option TaskId) × ((yield_current s).0 ≡ ok o)
    × (is_some o ≡ not (count eligible s.run_queue.slots == 0))
    × ((yield_current s).1.current_task ≡ o)

eligible-step_back :
    (s : Scheduler) (id : TaskId) (budget : BudgetAccount)
    → count eligible (rewritten s id (step_back budget)).run_queue.slots
      ≡ count eligible s.run_queue.slots
unfolding update is_running is_runnable_in
eligible-step_back s id budget =
    count-update_first_keep (holds_task id) eligible _ s.run_queue.slots λ slot. ground arith

yield_current-idle : (s : Scheduler) → s.current_task ≡ none → yield_current s ≡ schedule_next s
unfolding yield_current yield_task
yield_current-idle s nobody = subst (λ c. yield_from c s ≡ schedule_next s) (sym nobody) refl

yield_current-paid :
    (s : Scheduler) (id : TaskId) (t : TaskControlBlock) (budget : BudgetAccount)
    → s.current_task ≡ some id
    → get s.run_queue id ≡ some t
    → consume_tick t.budget ≡ ok budget
    → yield_current s ≡ schedule_next (rewritten s id (step_back budget))
unfolding yield_current yield_task
yield_current-paid s id t budget current found paid =
    subst (λ c. yield_from c s ≡ schedule_next (rewritten s id (step_back budget))) (sym current)
      (rw found (rw paid refl))

-- The current task of a table in which it is, and what it pays.
pub present-pays :
    (s : Scheduler) (id : TaskId)
    → s.current_task ≡ some id
    → IsPresent s
    → All IsUnmetered s.run_queue.slots
    → (t : TaskControlBlock) × (get s.run_queue id ≡ some t) × (consume_tick t.budget ≡ ok t.budget)
unfolding get
present-pays s id current present free =
    let (slot, e) : (slot : TaskSlot) × (find (holds_task id) s.run_queue.slots ≡ some slot) =
      find-count (holds_task id) s.run_queue.slots
        (subst (λ o. IsIn o s.run_queue.slots) current present) in
    (
      slot.task,
      rw e refl,
      IsUnmetered-consume_tick slot.task.budget
          (find-All IsUnmetered (holds_task id) s.run_queue.slots free e),
    )

-- A yield is then a call of `schedule_next` on a scheduler with the same eligible tasks.
pub yield_current-schedules :
    (s : Scheduler)
    → IsPresent s
    → AreCounted s
    → All IsUnmetered s.run_queue.slots
    → (u : Scheduler) × (yield_current s ≡ schedule_next u)
      × AreCounted u
      × (u.tick ≡ s.tick)
      × (count eligible u.run_queue.slots ≡ count eligible s.run_queue.slots)
yield_current-schedules s present counted free = elim (Option-cases s.current_task) [
  | inl nobody ↦ (s, yield_current-idle s nobody, counted, refl, refl)
  | inr (id, current) ↦
      let (t, found, paid) = present-pays s id current present free in
      (
        rewritten s id (step_back t.budget),
        yield_current-paid s id t t.budget current found paid,
        rewritten-AreCounted s id (step_back t.budget) (λ _. refl) counted,
        refl,
        eligible-step_back s id t.budget,
      )
]

-- Before the last tick, where no budget is bounded, a yield succeeds.
pub yield_current_ok :
    (s : Scheduler)
    → IsPresent s
    → AreCounted s
    → All IsUnmetered s.run_queue.slots
    → s.tick + 1 < 2 ^ 64
    → IsTimelyYield s
yield_current_ok s present counted free room =
    let (u, same, counted_u, tick_u, able) = yield_current-schedules s present counted free in
    let (o, returned, chosen, current) : IsTimely true u =
      early u counted_u (omega (arith, tick_u, room)) in
    (
      o,
      ap (λ r. r.0) same ∙ returned,
      rw (sym able) chosen,
      ap (λ r. r.1.current_task) same ∙ current,
    )
