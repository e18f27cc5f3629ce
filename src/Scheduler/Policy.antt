-- ===== src/Scheduler/Policy.antt =====
-- src/scheduler.rs, `Scheduler`: spawning, transitions, yielding, the choice of the next task and
-- cancelling.
pub mod Selection
pub mod Dispatch
pub mod Invariant
pub mod Calls
pub mod Running
pub mod Ageing
pub mod Entries
pub mod Rights
pub mod Budget
pub mod Capacity
pub mod Zombies
pub mod Cancelled
pub mod Switches
pub mod Exclusive
pub mod Present
pub mod System
pub mod Patience
use Prim.Native.Nat.{ℕ, suc, ◌+◌, ◌/◌, ◌%◌}
use mathlib.Core.Bool.{Bool, true, false, not, ◌&&◌, ◌||◌}
use mathlib.Core.Option.{Option, none, some}
use mathlib.Core.List.{List, [], ◌∷◌}
use alani_kernel.Common.Tests.{ltb, ◌==◌, if◌then◌else◌, is_some}
use alani_kernel.Common.Words.{u8_mod, u16_mod, u64_mod, checked_add, saturating_add, cast}
use alani_kernel.Common.Lists.{get_or}
use alani_kernel.Error.{KernelError}
use alani_kernel.Outcome.{KernelResult, ok, err, ok_or, reject_if}
use alani_kernel.Method.{
  Method, try, ◌>>=◌, ◌>>◌, return, self, modify, query, throw_if, ok_or_throw, within,
}
use alani_kernel.Capability.{TaskId, CapabilitySet}
use alani_kernel.Scheduler.{
  TaskState, SchedulerClass, BudgetAccount, TaskControlBlock, TaskStateTransition, new_task, boost,
  deadline_expired, consume_tick, is_runnable_in, is_running, is_ready,
}
use alani_kernel.Scheduler.Queue
use alani_kernel.Scheduler.Queue.{RunQueue, TaskSlot, empty_slot, get, update, insert}

-- `Scheduler`
pub record Scheduler : Type 0 where
  pub run_queue : RunQueue
  pub current_task : Option TaskId
  pub next_task_id : TaskId
  pub tick : ℕ

-- `Scheduler::new`
abbrev pub new : Scheduler
new = record { run_queue = Queue.new; current_task = none; next_task_id = 1; tick = 0 }

-- A method of the run queue.
abbrev pub on_queue {ℓ} : {A : Type ℓ} → Method RunQueue A → Method Scheduler A
on_queue = within (λ s. s.run_queue) (λ q s. record s { run_queue = q })

unfoldable pub spawn :
    TaskId → SchedulerClass → ℕ → CapabilitySet → BudgetAccount → Method Scheduler TaskId
spawn parent_id class priority capabilities budget = do
  s ← self
  next ← ok_or_throw (checked_add u64_mod s.next_task_id 1) KernelError.internal
  modify (λ t. record t { next_task_id = next })
  on_queue (insert (new_task s.next_task_id parent_id class priority capabilities budget))
  return s.next_task_id

-- `Scheduler::valid_transition`
unfoldable pub valid_transition : TaskState → TaskState → Bool
valid_transition TaskState.fresh TaskState.ready = true
valid_transition TaskState.ready TaskState.running = true
valid_transition TaskState.running TaskState.ready = true
valid_transition TaskState.running TaskState.blocked = true
valid_transition TaskState.running TaskState.sleeping = true
valid_transition TaskState.ready TaskState.suspended = true
valid_transition TaskState.suspended TaskState.ready = true
valid_transition TaskState.blocked TaskState.ready = true
valid_transition TaskState.sleeping TaskState.ready = true
valid_transition TaskState.running TaskState.exiting = true
valid_transition _ TaskState.zombie = true
valid_transition _ _ = false

-- `self.current_task == Some(task_id)`
abbrev pub is_current : Option TaskId → TaskId → Bool
is_current none id = false
is_current (some current) id = current == id

-- What `transition` does to the current task.
abbrev pub current_after : Option TaskId → TaskId → TaskState → Option TaskId
current_after current id to =
    if is_running to then some id else if is_current current id then none else current

unfoldable pub transition : TaskId → TaskState → Method Scheduler TaskStateTransition
transition task_id to = do
  s ← self
  task ← ok_or_throw (get s.run_queue task_id) KernelError.not_found
  throw_if (not (valid_transition task.state to)) KernelError.invalid_state
  modify (λ t. record t { run_queue = update task_id (λ b. record b { state = to }) t.run_queue })
  modify (λ t. record t { current_task = current_after t.current_task task_id to })
  return (record { task_id = task_id; from = task.state; to = to })

-- `Scheduler::score`; the fields are of at most 16 bits, so no `u32` sum overflows.
unfoldable pub score : ℕ → TaskControlBlock → ℕ
unfolding deadline_expired
score tick t =
    t.dynamic_priority
    + t.weight
    + boost t.class
    + t.age
    + (if deadline_expired t.budget tick then 128 else 0)

-- The best index and score so far.
pub record Best : Type 0 where
  pub index : Option ℕ
  pub best_score : ℕ

-- One round of the selection loop.
unfoldable pub consider : ℕ → ℕ → TaskSlot → Best → Best
consider tick index slot best =
    if not slot.occupied || not (is_runnable_in slot.task.state)
    then best
    else if not (is_some best.index) || ltb best.best_score (score tick slot.task)
    then record { index = some index; best_score = score tick slot.task }
    else best

-- The selection loop, from an index on.
unfoldable pub select : ℕ → ℕ → List TaskSlot → Best → Best
select tick index [] best = best
select tick index (slot ∷ slots) best =
    select tick (suc index) slots (consider tick index slot best)

-- A ready task that is passed over: its age, and from it the boost of its priority.
abbrev pub grow_old : TaskControlBlock → TaskControlBlock
grow_old t =
    let age : ℕ = saturating_add u16_mod t.age 1 in
    record t {
      age = age;
      dynamic_priority = saturating_add u8_mod t.base_priority (cast u8_mod (age / 4));
    }

-- A task that is not selected.
unfoldable pub pass_over : TaskControlBlock → TaskControlBlock
pass_over t =
    if is_running t.state
    then record t { state = TaskState.ready }
    else if is_ready t.state
    then grow_old t
    else t

-- The selected task, its count of switches apart.
abbrev pub start : TaskControlBlock → TaskControlBlock
start t = record t { state = TaskState.running; age = 0; dynamic_priority = t.base_priority }

-- The update loop; an overflow of the count of switches stops it, with what was written so far.
unfoldable pub dispatch : TaskId → Method (List TaskSlot) (Unit {0})
dispatch selected [] = (ok tt, [])
dispatch selected (slot ∷ slots) =
    let rest = dispatch selected slots in
    if not slot.occupied
    then (rest.0, slot ∷ rest.1)
    else if slot.task.id == selected
    then elim (checked_add u64_mod slot.task.context_switches 1) [
      | none ↦ (err KernelError.internal, record slot { task = start slot.task } ∷ slots)
      | some switches ↦ (
        rest.0,
        record slot { task = record (start slot.task) { context_switches = switches } } ∷ rest.1,
      )
    ]
    else (rest.0, record slot { task = pass_over slot.task } ∷ rest.1)

-- A method of the slots.
abbrev pub on_slots {ℓ} : {A : Type ℓ} → Method (List TaskSlot) A → Method Scheduler A
on_slots =
    within (λ s. s.run_queue.slots) (λ slots s. record s { run_queue = record { slots = slots } })

-- What follows the selection.
unfoldable pub run_selected : Option ℕ → Method Scheduler (Option TaskId)
run_selected none = do modify (λ s. record s { current_task = none }); return none
run_selected (some index) = do
  s ← self
  let selected = (get_or s.run_queue.slots index empty_slot).task.id
  on_slots (dispatch selected)
  modify (λ t. record t { current_task = some selected })
  return (some selected)

unfoldable pub schedule_next : Method Scheduler (Option TaskId)
schedule_next = do
  s ← self
  tick ← ok_or_throw (checked_add u64_mod s.tick 1) KernelError.internal
  modify (λ t. record t { tick = tick })
  run_selected (select tick 0 s.run_queue.slots (record { index = none; best_score = 0 })).index

-- What `yield_current` does to the current task once a tick is paid for.
abbrev pub step_back : BudgetAccount → TaskControlBlock → TaskControlBlock
step_back budget t = record t {
  budget = budget;
  state = if is_running t.state then TaskState.ready else t.state;
}

-- The first part of `yield_current`.
unfoldable pub yield_task : Option TaskId → Method Scheduler (Unit {0})
yield_task none = return tt
yield_task (some current) = do
  s ← self
  task ← ok_or_throw (get s.run_queue current) KernelError.not_found
  budget ← query (λ _. consume_tick task.budget)
  modify (λ t. record t { run_queue = update current (step_back budget) t.run_queue })

unfoldable pub yield_current : Method Scheduler (Option TaskId)
yield_current = do s ← self; yield_task s.current_task; schedule_next

-- The states in which `cancel` refuses.
unfoldable pub is_terminal : TaskState → Bool
is_terminal TaskState.zombie = true
is_terminal TaskState.exiting = true
is_terminal _ = false

unfoldable pub cancel : TaskId → Method Scheduler TaskStateTransition
cancel task_id = do
  s ← self
  task ← ok_or_throw (get s.run_queue task_id) KernelError.not_found
  throw_if (is_terminal task.state) KernelError.invalid_state
  modify (λ t. record t {
    run_queue = update task_id (λ b. record b { state = TaskState.zombie }) t.run_queue;
  })
  modify (λ t. record t {
    current_task = if is_current t.current_task task_id then none else t.current_task;
  })
  return (record { task_id = task_id; from = task.state; to = TaskState.zombie })
