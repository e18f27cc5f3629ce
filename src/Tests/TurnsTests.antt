-- ===== src/Tests/TurnsTests.antt =====
-- src/lib.rs and src/scheduler.rs: the theorems on which task runs, at concrete kernels and schedulers.
use Prim.Native.Nat.{ℕ, ◌+◌, ◌≤◌, ◌<◌, ◌^◌}
use mathlib.Core.Path.{◌≡◌, refl, ap, subst, sym}
use mathlib.Core.Option.{some}
use mathlib.Core.List.{List, [], ◌∷◌}
use native.Mathlib.Omega.{arith}
use alani_kernel.Common.Tests.{ltb}
use alani_kernel.Common.Lists.{All, All-replicate, count, length, replicate}
use alani_kernel.Capability.{empty}
use alani_kernel.Abi.{empty_trace}
use alani_kernel.Abi.Numbers.{raw_number}
use alani_kernel.Memory.Manager.Sharing
use alani_kernel.Scheduler.{SchedulerClass, TaskState, unlimited}
use alani_kernel.Scheduler.Queue.{empty_slot, get}
use alani_kernel.Scheduler.Policy
use alani_kernel.Scheduler.Policy.{Scheduler, is_terminal}
use alani_kernel.Scheduler.Policy.Dispatch.{runs}
use alani_kernel.Scheduler.Policy.Calls
use alani_kernel.Scheduler.Policy.Calls.{Call}
use Call.{spawns, moves, cancels, schedules, yields}
use alani_kernel.Scheduler.Policy.Cancelled.{state_of}
use alani_kernel.Scheduler.Policy.Switches.{IsTimely, schedule_next-run-IsTimely}
use alani_kernel.Scheduler.Policy.Exclusive.{strays}
use alani_kernel.Scheduler.Policy.Patience.Ages.{is_misjudged}
use alani_kernel.Syscall.{SyscallFrame, DispatchContext, task_context}
use alani_kernel.Kernel.{Kernel, new, initialize_host}
use alani_kernel.Kernel.Boot.{unbooted, booted, initialize_host_lem}
use alani_kernel.Kernel.Entry.{handle_syscall}
use alani_kernel.Kernel.Entry.History.{IsNew, run, run-initialize_host-IsKernel}
use alani_kernel.Kernel.Entry.Tasks.{
  IsYieldCall, IsYieldAnswer, one_task_runs, ages_bounded, yield_answered,
}
use alani_kernel.Kernel.Entry.Turns.{turns, turns_of, ready_task_runs}
use alani_kernel.Kernel.Entry.Yields.{IsLive, length-turns, yields-IsLive, IsLive-state_of}

abbrev yield_frame : SyscallFrame
yield_frame = record {
  number = 1;
  args = record { arg0 = 0; arg1 = 0; arg2 = 0; arg3 = 0; arg4 = 0; arg5 = 0 };
  trace = empty_trace;
}

-- Yields of the first task, which holds nothing.
abbrev plain_yield : SyscallFrame × DispatchContext
plain_yield = (yield_frame, task_context 1 empty)

abbrev yield_calls : ℕ → List (SyscallFrame × DispatchContext)
yield_calls n = replicate n plain_yield

-- A spawn by a task with the right to it, and two yields.
abbrev spawn_call : SyscallFrame × DispatchContext
spawn_call = (record yield_frame { number = 0x0100 }, task_context 1 (record { bits = 1 }))

abbrev some_calls : List (SyscallFrame × DispatchContext)
some_calls = spawn_call ∷ plain_yield ∷ plain_yield ∷ []

new-IsNew : IsNew new
unfolding alani_kernel.Audit.Log.appended alani_kernel.Fault.Reporter.reported
new-IsNew = record { table = Sharing.new-IsTable; log = ([], refl); reporter = ([], refl) }

-- The kernel after the boot, which no call has reached.
abbrev fresh_kernel : Kernel
fresh_kernel = run (initialize_host (unbooted new)).1 []

fresh_kernel-booted : fresh_kernel ≡ booted new
unfolding run
fresh_kernel-booted = ap (λ out. out.1) (initialize_host_lem new)

fresh_kernel-ready : state_of fresh_kernel.scheduler 1 ≡ some TaskState.ready
unfolding get
fresh_kernel-ready =
    subst (λ k. state_of k.scheduler 1 ≡ some TaskState.ready) (sym fresh_kernel-booted) refl

fresh_kernel-IsLive : All IsLive fresh_kernel.scheduler.run_queue.slots
unfolding is_terminal
fresh_kernel-IsLive =
    subst (λ k. All IsLive k.scheduler.run_queue.slots) (sym fresh_kernel-booted)
      (refl, All-replicate IsLive 63 empty_slot refl)

plain_yield-IsYieldCall : IsYieldCall plain_yield.0 plain_yield.1
unfolding raw_number
plain_yield-IsYieldCall = (refl, refl)

many_turns : length (turns fresh_kernel (yield_calls 546)) ≡ 546
many_turns =
    length-turns 546 plain_yield.0 plain_yield.1 fresh_kernel
      (run-initialize_host-IsKernel new [] new-IsNew) plain_yield-IsYieldCall
      (subst (λ k. k.scheduler.tick + 546 < 2 ^ 64) (sym fresh_kernel-booted) (omega arith))

ready_task_runs_example : 1 ≤ turns_of 1 fresh_kernel (yield_calls 546)
ready_task_runs_example =
    ready_task_runs new [] (yield_calls 546) 1 new-IsNew fresh_kernel-ready
      (IsLive-state_of 1 (run fresh_kernel (yield_calls 546)).scheduler (
        yields-IsLive 546 plain_yield.0 plain_yield.1 fresh_kernel plain_yield-IsYieldCall
          fresh_kernel-IsLive))
      (omega (arith, many_turns))

one_task_runs_example :
    let s = (run (initialize_host (unbooted new)).1 some_calls).scheduler in
    (count runs s.run_queue.slots ≤ 1) × (count (strays s.current_task) s.run_queue.slots ≡ 0)
one_task_runs_example = one_task_runs new some_calls new-IsNew

ages_bounded_example :
    count is_misjudged (run (initialize_host (unbooted new)).1 some_calls).scheduler.run_queue.slots
    ≡ 0
ages_bounded_example = ages_bounded new some_calls new-IsNew

yield_answered_example :
    IsYieldAnswer fresh_kernel.scheduler (handle_syscall plain_yield.0 plain_yield.1 fresh_kernel).0
yield_answered_example =
    yield_answered new [] plain_yield.0 plain_yield.1 new-IsNew plain_yield-IsYieldCall
      (subst (λ k. k.scheduler.tick + 1 < 2 ^ 64) (sym fresh_kernel-booted) (omega arith))

abbrev some_scheduler_calls : List Call
some_scheduler_calls =
    spawns 0 SchedulerClass.runtime 32 empty unlimited
    ∷ spawns 1 SchedulerClass.kernel 32 empty unlimited
    ∷ schedules
    ∷ yields
    ∷ cancels 2
    ∷ []

schedule_next-run-IsTimely_example :
    IsTimely
      (ltb ((Calls.run Policy.new some_scheduler_calls).tick + 1) (2 ^ 64))
      (Calls.run Policy.new some_scheduler_calls)
schedule_next-run-IsTimely_example = schedule_next-run-IsTimely some_scheduler_calls

-- A direct transition to `Running` leaves the task that ran before it running.
abbrev two_running : Scheduler
two_running = Calls.run Policy.new (
    spawns 0 SchedulerClass.runtime 32 empty unlimited
    ∷ spawns 0 SchedulerClass.runtime 32 empty unlimited
    ∷ moves 1 TaskState.running
    ∷ moves 2 TaskState.running
    ∷ [])

two_running-runs :
    (count runs two_running.run_queue.slots ≡ 2) × (two_running.current_task ≡ some 2)
unfolding Calls.run Policy.transition get Policy.spawn alani_kernel.Scheduler.Queue.insert
    Policy.valid_transition alani_kernel.Scheduler.Queue.update alani_kernel.Scheduler.is_running
two_running-runs = (refl, refl)
