-- ===== src/Kernel/Entry/Yields.antt =====
-- src/lib.rs, `Kernel::handle_syscall`: yields in a row.
use Prim.Native.Nat.{ℕ, zero, suc, ◌+◌, ◌≤◌, ◌<◌, ◌^◌}
use mathlib.Core.Path.{◌≡◌, refl, ap, subst, sym}
use mathlib.Core.Logic.{inl, inr, ◌≢◌}
use mathlib.Core.Bool.{true, false, not, ◌&&◌}
use mathlib.Core.Option.{some}
use native.Mathlib.Omega.{arith}
use alani_kernel.Common.Tests.{◌==◌, if-both, Option-cases}
use alani_kernel.Common.Lists.{All, All-update_first, find, find-All, find_sound, length, replicate}
use alani_kernel.Error.{KernelStatus, is_ok}
use alani_kernel.Capability.{TaskId}
use alani_kernel.Scheduler.{BudgetAccount, TaskState, is_running, is_ready}
use alani_kernel.Scheduler.Queue.{TaskSlot, holds_task, get, update}
use alani_kernel.Scheduler.Policy.{
  Scheduler, dispatch, schedule_next, yield_current, step_back, pass_over, start, is_terminal,
}
use alani_kernel.Scheduler.Policy.Dispatch.{written}
use alani_kernel.Scheduler.Policy.Invariant.{schedule_next_cases, id_at, rewritten}
use alani_kernel.Scheduler.Policy.Switches.{All-dispatch}
use alani_kernel.Scheduler.Policy.Calls.{yield_current_cases}
use alani_kernel.Scheduler.Policy.Cancelled.{state_of}
use alani_kernel.Syscall.{SyscallFrame, DispatchContext}
use alani_kernel.Kernel.{Kernel}
use alani_kernel.Kernel.Handlers.{Reply}
use alani_kernel.Kernel.Entry.{handle_syscall}
use alani_kernel.Kernel.Entry.History.{IsKernel, run, handle_syscall-IsKernel}
use alani_kernel.Kernel.Entry.Tasks.{
  IsYieldCall, IsYieldAnswer, handle_syscall-yield, yielded-IsYieldAnswer,
}
use alani_kernel.Kernel.Entry.Turns.{turns}
use alani_kernel.Kernel.Entry.Answers.{is_turn-yield}

schedule_next-tick : (s : Scheduler) → (schedule_next s).1.tick ≤ s.tick + 1
schedule_next-tick s =
    schedule_next_cases (λ out. out.1.tick ≤ s.tick + 1) s (λ _. omega arith) (λ _ _. omega arith)
      (λ _ _ _ _ _. omega arith) λ _ _ _ _. omega arith

yield_current-tick : (s : Scheduler) → (yield_current s).1.tick ≤ s.tick + 1
yield_current-tick s =
    yield_current_cases (λ out. out.1.tick ≤ s.tick + 1) s (λ _. omega arith)
      (λ _. schedule_next-tick s)
      λ id _ budget _ _ _. schedule_next-tick (rewritten s id (step_back budget))

answered-ok : (status : KernelStatus) → status ≡ KernelStatus.ok → is_ok status ≡ true
unfolding is_ok
answered-ok status h = rw h refl

-- So many calls that yield are all answered with success, while the tick can count them.
pub length-turns :
    (n : ℕ) (frame : SyscallFrame) (context : DispatchContext) (k : Kernel)
    → IsKernel k
    → IsYieldCall frame context
    → k.scheduler.tick + n < 2 ^ 64
    → length (turns k (replicate n (frame, context))) ≡ n
length-turns zero frame context k v call room = refl
length-turns (suc n) frame context k v call room =
    let r : Reply = handle_syscall frame context k in
    let yield = handle_syscall-yield frame context k call in
    let answered : IsYieldAnswer k.scheduler r.0 =
      subst (IsYieldAnswer k.scheduler) (sym yield.0)
        (yielded-IsYieldAnswer k.scheduler v.tasks (omega (arith, room))) in
    let later : length (turns r.1 (replicate n (frame, context))) ≡ n =
      length-turns n frame context r.1 (handle_syscall-IsKernel frame context k v) call
        (omega (arith, room, ap (λ s. s.tick) yield.1, yield_current-tick k.scheduler)) in
    ground (arith, is_turn-yield frame r.0 true call.0 (answered-ok r.0.status answered.0), later)

-- No task of the table has ended.
abbrev pub IsLive : TaskSlot → Type 0
IsLive slot = (slot.occupied && is_terminal slot.task.state) ≡ false

pass_over-IsLive :
    (slot : TaskSlot) → IsLive slot → IsLive (record slot { task = pass_over slot.task })
unfolding pass_over is_running is_ready is_terminal
pass_over-IsLive slot h = ground (arith, h)

started-IsLive :
    (slot : TaskSlot) (n : ℕ)
    → IsLive (record slot { task = record (start slot.task) { context_switches = n } })
unfolding is_terminal
started-IsLive slot n = ground arith

written-IsLive :
    (selected : TaskId) (slot : TaskSlot) → IsLive slot → IsLive (written selected slot)
written-IsLive selected slot h = if-both IsLive (not slot.occupied) h (
    if-both IsLive (slot.task.id == selected) (started-IsLive slot (slot.task.context_switches + 1))
      (pass_over-IsLive slot h))

schedule_next-IsLive :
    (s : Scheduler) → All IsLive s.run_queue.slots → All IsLive (schedule_next s).1.run_queue.slots
schedule_next-IsLive s h =
    schedule_next_cases (λ out. All IsLive out.1.run_queue.slots) s (λ _. h) (λ _ _. h)
      (λ index _ _ _ _. moved (id_at s index)) λ index _ _ _. moved (id_at s index)
  where
    moved : (id : TaskId) → All IsLive (dispatch id s.run_queue.slots).1
    moved id =
        All-dispatch IsLive IsLive id s.run_queue.slots (λ _ live. live)
          (λ slot _. started-IsLive slot slot.task.context_switches) (written-IsLive id) h

step_back-IsLive :
    (budget : BudgetAccount) (slot : TaskSlot)
    → IsLive slot
    → IsLive (record slot { task = step_back budget slot.task })
unfolding is_running is_terminal
step_back-IsLive budget slot h = ground (arith, h)

yield_current-IsLive :
    (s : Scheduler) → All IsLive s.run_queue.slots → All IsLive (yield_current s).1.run_queue.slots
unfolding update
yield_current-IsLive s h =
    yield_current_cases (λ out. All IsLive out.1.run_queue.slots) s (λ _. h)
      (λ _. schedule_next-IsLive s h)
      λ id _ budget _ _ _.
        schedule_next-IsLive (rewritten s id (step_back budget))
          (All-update_first IsLive (holds_task id) _ s.run_queue.slots (step_back-IsLive budget) h)

-- Yields end no task.
pub yields-IsLive :
    (n : ℕ) (frame : SyscallFrame) (context : DispatchContext) (k : Kernel)
    → IsYieldCall frame context
    → All IsLive k.scheduler.run_queue.slots
    → All IsLive (run k (replicate n (frame, context))).scheduler.run_queue.slots
unfolding run
yields-IsLive zero frame context k call h = h
yields-IsLive (suc n) frame context k call h =
    yields-IsLive n frame context (handle_syscall frame context k).1 call (
      subst (λ s. All IsLive s.run_queue.slots) (sym (handle_syscall-yield frame context k call).1)
        (yield_current-IsLive k.scheduler h))

pub IsLive-state_of :
    (id : TaskId) (s : Scheduler)
    → All IsLive s.run_queue.slots
    → state_of s id ≢ some TaskState.zombie
unfolding get is_terminal
IsLive-state_of id s h ended = elim (Option-cases (find (holds_task id) s.run_queue.slots)) [
  | inl gone ↦ absurd (ground (arith, ended, gone))
  | inr (slot, found) ↦ absurd (
      ground (
        arith,
        ended,
        found,
        find_sound (holds_task id) s.run_queue.slots found,
        find-All IsLive (holds_task id) s.run_queue.slots h found,
      ))
]
