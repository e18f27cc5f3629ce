-- ===== src/Scheduler/Queue.antt =====
-- src/scheduler.rs, `RunQueue`: a table of 64 slots, each empty or holding a task.
use Prim.Native.Nat.{ℕ}
use mathlib.Core.Bool.{Bool, true, false, not, ◌&&◌}
use mathlib.Core.Option
use mathlib.Core.Option.{Option}
use mathlib.Core.List.{List, [], ◌∷◌}
use alani_kernel.Common.Tests.{◌==◌, if◌then◌else◌, is_some}
use alani_kernel.Common.Lists.{find, update_first, count, replicate}
use alani_kernel.Error.{KernelError}
use alani_kernel.Method.{Method, ◌>>=◌, ◌>>◌, self, modify, throw_if, ok_or_throw}
use alani_kernel.Capability.{TaskId}
use alani_kernel.Scheduler.{TaskControlBlock, empty_task, max_tasks}

-- `TaskSlot`
pub record TaskSlot : Type 0 where
  pub occupied : Bool
  pub task : TaskControlBlock

-- `TaskSlot::EMPTY`
abbrev pub empty_slot : TaskSlot
empty_slot = record { occupied = false; task = empty_task }

-- `RunQueue`
pub record RunQueue : Type 0 where
  pub slots : List TaskSlot

-- `RunQueue::new`
abbrev pub new : RunQueue
new = record { slots = replicate max_tasks empty_slot }

-- The tests by which `insert` chooses a slot and `get` finds a task.
abbrev pub is_vacant : TaskSlot → Bool
is_vacant s = not s.occupied

abbrev pub holds_task : TaskId → TaskSlot → Bool
holds_task id s = s.occupied && s.task.id == id

unfoldable pub get : RunQueue → TaskId → Option TaskControlBlock
get q id = Option.map (λ s. s.task) (find (holds_task id) q.slots)

-- A write through the reference that `RunQueue::get_mut` returns.
unfoldable pub update : TaskId → (TaskControlBlock → TaskControlBlock) → RunQueue → RunQueue
update id f q = record {
  slots = update_first (holds_task id) (λ s. record s { task = f s.task }) q.slots;
}

unfoldable pub insert : TaskControlBlock → Method RunQueue (Unit {0})
insert task = do
  throw_if (task.id == 0) KernelError.invalid_argument
  q ← self
  throw_if (is_some (get q task.id)) KernelError.duplicate
  slot ← ok_or_throw (find is_vacant q.slots) KernelError.capacity_exceeded
  modify (λ r. record {
    slots = update_first is_vacant (λ _. record { occupied = true; task = task }) r.slots;
  })

unfoldable pub len : RunQueue → ℕ
len q = count (λ s. s.occupied) q.slots

unfoldable pub is_empty : RunQueue → Bool
unfolding len
is_empty q = len q == 0

-- `RunQueue::tasks`
unfoldable pub tasks : List TaskSlot → List TaskControlBlock
tasks [] = []
tasks (s ∷ ss) = if s.occupied then s.task ∷ tasks ss else tasks ss
