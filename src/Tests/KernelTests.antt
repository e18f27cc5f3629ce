-- ===== src/Tests/KernelTests.antt =====
-- src/lib.rs: the boot, a spawn by a task that may spawn, and one by a task that may not.
use mathlib.Core.Path.{◌≡◌, refl}
use mathlib.Core.Logic.{◌↔◌, inl}
use mathlib.Core.Bool.{true, false}
use mathlib.Core.Option.{Option, none, some}
use mathlib.Core.List.{[], ◌∷◌}
use native.Mathlib.Omega.{arith}
use alani_kernel.Error.{KernelError, KernelStatus}
use alani_kernel.Outcome.{ok, err}
use alani_kernel.Capability.{Capability, CapabilitySet, contains, empty, single}
use alani_kernel.Abi.Numbers.{SyscallNumber}
use alani_kernel.Abi.{empty_trace}
use alani_kernel.Audit.{AuditEvent, AuditEventKind, append}
use alani_kernel.Fault.{FaultRecord, report}
use alani_kernel.Syscall.Table.{SyscallDescriptor}
use alani_kernel.Syscall.{
  Args, SyscallFrame, DispatchContext, ExecutionContext, fail, raw_frame, task_context,
  allows_context, lookup,
}
use alani_kernel.Syscall.Dispatch.{IsAuthorized}
use alani_kernel.Memory.Manager.Sharing as Sharing
use alani_kernel.Scheduler.{SchedulerClass, unlimited}
use alani_kernel.Scheduler.Policy
use alani_kernel.Scheduler.Policy.{spawn}
use alani_kernel.Kernel.{Kernel, new, initialize_host}
use alani_kernel.Kernel.Boot.{unbooted, booted}
use alani_kernel.Kernel.Entry.{handle_syscall}
use alani_kernel.Kernel.Entry.Denial.{
  denial_event, denial_fault, effect-IsAuthorized, handle_syscall-denied,
}
use alani_kernel.Kernel.Entry.Cases.{IsUntouched}
use alani_kernel.Kernel.Entry.Evidence.{
  IsFaultOf, IsEventOf, faults_after, handle_syscall-faults, handle_syscall-audited,
}
use alani_kernel.Kernel.Entry.History.{IsNew, IsKernel, run, run-initialize_host-IsKernel}
use alani_kernel.Kernel.Boot.Attempts.{IsBootable, brought_up, initialize_host_iff}
use alani_kernel.Kernel.Boot.Once.{initialize_host-once}
use alani_kernel.Kernel.Entry.Spawns.{IsMadeBy, spawn_call_lem}
use alani_kernel.Kernel.Entry.Fixed.{IsFixed, run-IsFixed}

abbrev no_args : Args
no_args = record { arg0 = 0; arg1 = 0; arg2 = 0; arg3 = 0; arg4 = 0; arg5 = 0 }

-- A spawn without a manifest, at the default priority.
abbrev spawn_frame : SyscallFrame
spawn_frame = record { number = 0x0100; args = no_args; trace = empty_trace }

abbrev spawn_descriptor : SyscallDescriptor
spawn_descriptor = record {
  number = SyscallNumber.sys_task_spawn;
  name = "sys_task_spawn";
  required_capability = some Capability.task_spawn;
  audit_event = some AuditEventKind.task_spawn;
  interrupt_safe = false;
  early_boot_safe = false;
}

-- The set with `TaskSpawn` alone.
abbrev spawner : DispatchContext
spawner = task_context 1 (record { bits = 1 })

abbrev stranger : DispatchContext
stranger = task_context 2 empty

lookup-spawn : lookup spawn_frame.number ≡ some spawn_descriptor
unfolding lookup mathlib.Core.Option.bind alani_kernel.Abi.Numbers.from_raw
    alani_kernel.Syscall.Table.syscall_descriptors alani_kernel.Abi.Numbers.number_eq
lookup-spawn = refl

allows_context-spawn : allows_context spawn_descriptor stranger.execution ≡ true
unfolding allows_context
allows_context-spawn = refl

contains-stranger : contains stranger.capabilities Capability.task_spawn ≡ false
unfolding contains
contains-stranger = refl

handle_syscall-spawner :
    (handle_syscall spawn_frame spawner (booted new)).0.status ≡ KernelStatus.ok
unfolding handle_syscall alani_kernel.Syscall.validate lookup mathlib.Core.Option.bind
    alani_kernel.Abi.Numbers.from_raw alani_kernel.Syscall.Table.syscall_descriptors
    alani_kernel.Abi.Numbers.number_eq allows_context alani_kernel.Capability.require
    alani_kernel.Kernel.Handlers.dispatch_validated alani_kernel.Kernel.Handlers.sys_task_spawn
    alani_kernel.Kernel.Handlers.check_manifest alani_kernel.Kernel.Handlers.requested_priority
    alani_kernel.Scheduler.Policy.spawn alani_kernel.Scheduler.Queue.insert
    alani_kernel.Scheduler.Queue.get
handle_syscall-spawner = refl

effect-IsAuthorized_example :
    (d : SyscallDescriptor) × (lookup 0x0100 ≡ some d)
    × (allows_context d ExecutionContext.task ≡ true)
    × IsAuthorized spawner.capabilities d
effect-IsAuthorized_example =
    effect-IsAuthorized spawn_frame spawner (booted new) (inl handle_syscall-spawner)

handle_syscall-denied_example :
    ((handle_syscall spawn_frame stranger (booted new)).0 ≡ fail KernelError.missing_capability)
    × IsUntouched (booted new) (handle_syscall spawn_frame stranger (booted new)).1
    × ((handle_syscall spawn_frame stranger (booted new)).1.audit
        ≡ append (denial_event spawn_descriptor spawn_frame stranger) (booted new).audit)
    × ((handle_syscall spawn_frame stranger (booted new)).1.faults
        ≡ report (denial_fault spawn_frame stranger) (booted new).faults)
handle_syscall-denied_example =
    handle_syscall-denied spawn_frame stranger (booted new) spawn_descriptor Capability.task_spawn
      lookup-spawn allows_context-spawn refl contains-stranger

handle_syscall-audited_example :
    (event : AuditEvent) × IsEventOf AuditEventKind.task_spawn spawn_descriptor spawn_frame spawner
      (handle_syscall spawn_frame spawner (booted new)).0.status
      event
    × ((handle_syscall spawn_frame spawner (booted new)).1.audit ≡ append event (booted new).audit)
handle_syscall-audited_example =
    handle_syscall-audited spawn_frame spawner (booted new) spawn_descriptor
      AuditEventKind.task_spawn lookup-spawn refl

handle_syscall-faults_example :
    (fault : FaultRecord) × IsFaultOf spawn_frame stranger
      (handle_syscall spawn_frame stranger (booted new)).0.status
      fault
    × ((handle_syscall spawn_frame stranger (booted new)).1.faults
        ≡ faults_after
            (handle_syscall spawn_frame stranger (booted new)).0.status
            fault
            (booted new).faults)
handle_syscall-faults_example = handle_syscall-faults spawn_frame stranger (booted new)

new-IsNew : IsNew new
unfolding alani_kernel.Audit.Log.appended alani_kernel.Fault.Reporter.reported
new-IsNew = record { table = Sharing.new-IsTable; log = ([], refl); reporter = ([], refl) }

run-initialize_host-IsKernel_example :
    IsKernel (
      run
        (initialize_host (unbooted new)).1
        ((spawn_frame, spawner) ∷ (spawn_frame, stranger) ∷ []))
run-initialize_host-IsKernel_example =
    run-initialize_host-IsKernel new ((spawn_frame, spawner) ∷ (spawn_frame, stranger) ∷ [])
      new-IsNew

run-IsFixed_example : IsFixed (booted new) (run (booted new) ((spawn_frame, spawner) ∷ []))
run-IsFixed_example = run-IsFixed (booted new) ((spawn_frame, spawner) ∷ [])

-- A kernel that was given a task before its boot, and the boot of it.
abbrev early_task : Kernel
early_task = record new {
  scheduler = (spawn 0 SchedulerClass.kernel 40 empty unlimited Policy.new).1;
}

initialize_host_iff_example :
    (initialize_host early_task ≡ (ok tt, brought_up early_task))
    ↔ (IsBootable early_task × (brought_up early_task ≡ brought_up early_task))
initialize_host_iff_example = initialize_host_iff early_task (brought_up early_task) refl

early_task-IsBootable : IsBootable early_task
unfolding spawn alani_kernel.Scheduler.Queue.insert alani_kernel.Scheduler.Queue.get
early_task-IsBootable = (refl, inl refl, (omega arith, omega arith, refl, omega arith))

early_task-boots : initialize_host early_task ≡ (ok tt, brought_up early_task)
early_task-boots =
    (initialize_host_iff early_task (brought_up early_task) refl).1 (early_task-IsBootable, refl)

initialize_host-once_example :
    initialize_host (initialize_host early_task).1
    ≡ (err KernelError.invalid_state, (initialize_host early_task).1)
initialize_host-once_example = initialize_host-once early_task

spawn_call_lem_example :
    let r = handle_syscall spawn_frame spawner (booted new) in
    (spawner.execution ≡ ExecutionContext.task)
    × (contains spawner.capabilities Capability.task_spawn ≡ true)
    × IsMadeBy spawn_frame spawner (booted new).scheduler r.0 r.1.scheduler
unfolding alani_kernel.Abi.Numbers.raw_number
spawn_call_lem_example = spawn_call_lem spawn_frame spawner (booted new) refl handle_syscall-spawner
