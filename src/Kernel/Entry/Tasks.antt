-- ===== src/Kernel/Entry/Tasks.antt =====
-- src/lib.rs, `Kernel::handle_syscall`: what a caller of `sys_yield` is answered, and which task runs.
use Prim.Native.Nat.{◌+◌, ◌≤◌, ◌<◌, ◌^◌}
use mathlib.Core.Path.{◌≡◌, refl, ◌∙◌, subst}
use mathlib.Core.Bool.{true, false, not}
use mathlib.Core.Option
use mathlib.Core.Option.{Option, none, some}
use mathlib.Core.List.{List}
use native.Mathlib.Omega.{arith}
use alani_kernel.Common.Tests.{◌==◌, is_some, ne→==}
use alani_kernel.Common.Lists.{count}
use alani_kernel.Error.{KernelStatus}
use alani_kernel.Outcome.{ok}
use alani_kernel.Capability.{TaskId}
use alani_kernel.Abi.Numbers.{SyscallNumber, raw_number, from_raw, number_eq}
use alani_kernel.Scheduler.Queue.{holds_task}
use alani_kernel.Scheduler.Policy.{Scheduler, yield_current}
use alani_kernel.Scheduler.Policy.Selection.{eligible}
use alani_kernel.Scheduler.Policy.Dispatch.{runs}
use alani_kernel.Scheduler.Policy.Exclusive.{strays, count-runs, IsExclusive}
use alani_kernel.Scheduler.Policy.Present.{IsIn, yield_current_ok}
use alani_kernel.Scheduler.Policy.Patience.Ages.{is_misjudged, none_misjudged}
use alani_kernel.Scheduler.Policy.System.{IsSystem, step-IsSystem}
use alani_kernel.Scheduler.Policy.Calls.{Call}
use Call.{yields}
use alani_kernel.Syscall.Table.{SyscallDescriptor, syscall_descriptors}
use alani_kernel.Syscall.{
  SyscallFrame, DispatchContext, ExecutionContext, SyscallResult, lookup, validate, allows_context,
}
use alani_kernel.Kernel.{Kernel, initialize_host}
use alani_kernel.Kernel.Boot.{unbooted}
use alani_kernel.Kernel.Handlers.{dispatch_validated, sys_yield, yielded, reply_with}
use alani_kernel.Kernel.Entry.{handle_syscall, record_outcome}
use alani_kernel.Kernel.Entry.History.{IsNew, run, run-initialize_host-IsKernel}

-- A call of `sys_yield` by a task.
abbrev pub IsYieldCall : SyscallFrame → DispatchContext → Type 0
IsYieldCall frame context =
    (frame.number ≡ raw_number SyscallNumber.sys_yield)
    × (context.execution ≡ ExecutionContext.task)

abbrev yield_descriptor : SyscallDescriptor
yield_descriptor = record {
  number = SyscallNumber.sys_yield;
  name = "sys_yield";
  required_capability = none;
  audit_event = none;
  early_boot_safe = false;
  interrupt_safe = false;
}

validate-yield :
    (frame : SyscallFrame) (context : DispatchContext)
    → IsYieldCall frame context
    → (d : SyscallDescriptor) × (validate frame context ≡ ok d)
      × (d.number ≡ SyscallNumber.sys_yield)
unfolding validate lookup raw_number from_raw number_eq syscall_descriptors Option.bind
    allows_context
validate-yield frame context (yield, task) =
    (yield_descriptor, rw (yield, validate) (rw (task, validate) refl), refl)

-- What a call of `sys_yield` by a task does: its answer, and the scheduler that it leaves.
pub handle_syscall-yield :
    (frame : SyscallFrame) (context : DispatchContext) (k : Kernel)
    → IsYieldCall frame context
    → let r = handle_syscall frame context k in
      (r.0 ≡ reply_with yielded (yield_current k.scheduler).0)
      × (r.1.scheduler ≡ (yield_current k.scheduler).1)
unfolding handle_syscall record_outcome dispatch_validated sys_yield
handle_syscall-yield frame context k call =
    let (d, passed, named) = validate-yield frame context call in
    rw (passed, handle_syscall) (rw named (refl, refl))

-- After the boot of a kernel and any sequence of system calls, at most one task runs, and no task runs
-- that is not the current one.
pub one_task_runs :
    (k : Kernel) (calls : List (SyscallFrame × DispatchContext))
    → IsNew k
    → let s = (run (initialize_host (unbooted k)).1 calls).scheduler in
      (count runs s.run_queue.slots ≤ 1) × (count (strays s.current_task) s.run_queue.slots ≡ 0)
one_task_runs k calls new =
    let v : IsExclusive (run (initialize_host (unbooted k)).1 calls).scheduler =
      (run-initialize_host-IsKernel k calls new).tasks.exclusive in
    (count-runs _ _ v.schedule.unique v.no_stray, v.no_stray)

-- After the boot of a kernel and any sequence of system calls, every ready or running task has an age of
-- at most 545, and its dynamic priority is its base priority and a quarter of its age, up to 255.
pub ages_bounded :
    (k : Kernel) (calls : List (SyscallFrame × DispatchContext))
    → IsNew k
    → count is_misjudged (run (initialize_host (unbooted k)).1 calls).scheduler.run_queue.slots ≡ 0
ages_bounded k calls new =
    none_misjudged (run (initialize_host (unbooted k)).1 calls).scheduler
      (run-initialize_host-IsKernel k calls new).tasks.fair

-- The answer that a yield is to have: success, and as its value a task that is not zero exactly if a task
-- is ready or running, and otherwise zero.
abbrev pub IsYieldAnswer : Scheduler → SyscallResult → Type 0
IsYieldAnswer s reply =
    (reply.status ≡ KernelStatus.ok)
    × ((reply.value == 0) ≡ (count eligible s.run_queue.slots == 0))

-- The current task of such a table is not zero.
current-ne-zero :
    (s : Scheduler) (id : TaskId) → IsSystem s → s.current_task ≡ some id → (id == 0) ≡ false
current-ne-zero s id v current =
    let held : 1 ≤ count (holds_task id) s.run_queue.slots =
      subst (λ o. IsIn o s.run_queue.slots) current v.present in
    ne→== id 0 (λ zero_id. absurd (
      omega (
        arith,
        v.exclusive.schedule.no_zero,
        subst (λ i. 1 ≤ count (holds_task i) s.run_queue.slots) zero_id held,
      )))

pub yielded-IsYieldAnswer :
    (s : Scheduler)
    → IsSystem s
    → s.tick + 1 < 2 ^ 64
    → IsYieldAnswer s (reply_with yielded (yield_current s).0)
yielded-IsYieldAnswer s v room =
    let (o, returned, able, current) =
      yield_current_ok s v.present v.exclusive.counted v.unmetered room in
    rw returned (answered o able current)
  where
    answered :
        (o : Option TaskId)
        → is_some o ≡ not (count eligible s.run_queue.slots == 0)
        → (yield_current s).1.current_task ≡ o
        → IsYieldAnswer s (yielded o)
    answered none able current = (refl, ground (arith, able))
    answered (some id) able current = (
      refl,
      (current-ne-zero (yield_current s).1 id (step-IsSystem true s yields refl v) current
          ∙ ground (arith, able)),
    )

-- After the boot of a kernel and any sequence of system calls, while the tick is not at the end of its
-- 64 bits, every `sys_yield` that a task calls succeeds, whatever it holds, and its value is a task other
-- than zero exactly if one is ready or running.
pub yield_answered :
    (k : Kernel) (calls : List (SyscallFrame × DispatchContext)) (frame : SyscallFrame)
    (context : DispatchContext)
    → IsNew k
    → IsYieldCall frame context
    → (run (initialize_host (unbooted k)).1 calls).scheduler.tick + 1 < 2 ^ 64
    → let l = run (initialize_host (unbooted k)).1 calls in
      IsYieldAnswer l.scheduler (handle_syscall frame context l).0
yield_answered k calls frame context new call room =
    let l : Kernel = run (initialize_host (unbooted k)).1 calls in
    rw (handle_syscall-yield frame context l call).0
      (yielded-IsYieldAnswer l.scheduler (run-initialize_host-IsKernel k calls new).tasks room)
