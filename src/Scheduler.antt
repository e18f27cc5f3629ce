-- ===== src/Scheduler.antt =====
-- src/scheduler.rs, tasks and their budgets: states, classes, control blocks. `Queue` is the bounded
-- table of tasks, `Policy` the scheduler.
pub mod Queue
pub mod Policy
use Prim.Native.Nat.{ℕ, ◌+◌, ◌-◌}
use mathlib.Core.Bool.{Bool, true, false, not, ◌&&◌}
use alani_kernel.Common.Tests.{leb, ◌==◌, if◌then◌else◌}
use alani_kernel.Error.{KernelError}
use alani_kernel.Outcome.{KernelResult, ok, err}
use alani_kernel.Capability.{TaskId, CapabilitySet, empty}

-- `MAX_TASKS`
abbrev pub max_tasks : ℕ
max_tasks = 64

-- `DEFAULT_PRIORITY`
abbrev pub default_priority : ℕ
default_priority = 32

-- `TaskState`
pub data TaskState : Type 0 where
  fresh ready running blocked sleeping suspended exiting zombie : TaskState

-- The `repr(u8)` discriminants: `state as u64`.
unfoldable pub state_code : TaskState → ℕ
state_code TaskState.fresh = 0
state_code TaskState.ready = 1
state_code TaskState.running = 2
state_code TaskState.blocked = 3
state_code TaskState.sleeping = 4
state_code TaskState.suspended = 5
state_code TaskState.exiting = 6
state_code TaskState.zombie = 7

unfoldable pub is_running : TaskState → Bool
is_running TaskState.running = true
is_running _ = false

unfoldable pub is_ready : TaskState → Bool
is_ready TaskState.ready = true
is_ready _ = false

-- `SchedulerClass`
pub data SchedulerClass : Type 0 where
  kernel runtime interactive cognitive background audit : SchedulerClass

-- `SchedulerClass::boost`
unfoldable pub boost : SchedulerClass → ℕ
boost SchedulerClass.audit = 96
boost SchedulerClass.kernel = 80
boost SchedulerClass.runtime = 48
boost SchedulerClass.interactive = 32
boost SchedulerClass.cognitive = 16
boost SchedulerClass.background = 0

-- `BudgetAccount`
pub record BudgetAccount : Type 0 where
  pub max_ticks : ℕ
  pub remaining_ticks : ℕ
  pub deadline_tick : ℕ

-- `BudgetAccount::unlimited`
abbrev pub unlimited : BudgetAccount
unlimited = record { max_ticks = 0; remaining_ticks = 0; deadline_tick = 0 }

-- `BudgetAccount::bounded`
unfoldable pub bounded : ℕ → ℕ → KernelResult BudgetAccount
bounded max_ticks deadline_tick =
    if max_ticks == 0 && deadline_tick == 0
    then err KernelError.invalid_argument
    else ok (record {
      max_ticks = max_ticks;
      remaining_ticks = max_ticks;
      deadline_tick = deadline_tick;
    })

unfoldable pub is_unbounded : BudgetAccount → Bool
is_unbounded b = b.max_ticks == 0 && b.deadline_tick == 0

unfoldable pub deadline_expired : BudgetAccount → ℕ → Bool
deadline_expired b now = not (b.deadline_tick == 0) && leb b.deadline_tick now

-- `BudgetAccount::consume_tick`
unfoldable pub consume_tick : BudgetAccount → KernelResult BudgetAccount
consume_tick b =
    if b.max_ticks == 0
    then ok b
    else if b.remaining_ticks == 0
    then err KernelError.deadline_exceeded
    else ok (record b { remaining_ticks = b.remaining_ticks - 1 })

-- `TaskControlBlock`
pub record TaskControlBlock : Type 0 where
  pub id : TaskId
  pub parent_id : TaskId
  pub state : TaskState
  pub class : SchedulerClass
  pub base_priority : ℕ
  pub dynamic_priority : ℕ
  pub weight : ℕ
  pub age : ℕ
  pub budget : BudgetAccount
  pub capabilities : CapabilitySet
  pub context_switches : ℕ

-- `TaskControlBlock::EMPTY`
abbrev pub empty_task : TaskControlBlock
empty_task = record {
  id = 0;
  parent_id = 0;
  state = TaskState.zombie;
  class = SchedulerClass.background;
  base_priority = 0;
  dynamic_priority = 0;
  weight = 0;
  age = 0;
  budget = unlimited;
  capabilities = empty;
  context_switches = 0;
}

-- `TaskControlBlock::new`
abbrev pub new_task :
    TaskId → TaskId → SchedulerClass → ℕ → CapabilitySet → BudgetAccount → TaskControlBlock
new_task id parent_id class priority capabilities budget = record {
  id = id;
  parent_id = parent_id;
  state = TaskState.ready;
  class = class;
  base_priority = priority;
  dynamic_priority = priority;
  weight = 1;
  age = 0;
  budget = budget;
  capabilities = capabilities;
  context_switches = 0;
}

-- The states in which a task is eligible to run.
unfoldable pub is_runnable_in : TaskState → Bool
is_runnable_in TaskState.ready = true
is_runnable_in TaskState.running = true
is_runnable_in _ = false

-- `TaskControlBlock::is_runnable`
abbrev pub is_runnable : TaskControlBlock → Bool
is_runnable t = is_runnable_in t.state

-- `TaskStateTransition`
pub record TaskStateTransition : Type 0 where
  pub task_id : TaskId
  pub from : TaskState
  pub to : TaskState
