-- ===== src/Kernel/Entry/Spawns.antt =====
-- src/lib.rs, `Kernel::handle_syscall`: the task that a `sys_task_spawn` makes.
use Prim.Native.Nat.{ℕ, ◌<◌}
use mathlib.Core.Path.{◌≡◌, refl, ap, subst, sym, ◌∙◌}
use mathlib.Core.Logic.{◌≢◌, inl, inr}
use mathlib.Core.Bool.{true, false}
use mathlib.Core.Option
use mathlib.Core.Option.{Option, none, some}
use native.Mathlib.Omega.{arith}
use alani_kernel.Common.Tests.{◌==◌, if◌then◌else◌, leb, Bool-cases}
use alani_kernel.Common.Lists.{find}
use alani_kernel.Common.Search.{find-update_first_hit, find-update_first_miss, count-find-none}
use alani_kernel.Error.{KernelError, KernelStatus}
use alani_kernel.Outcome.{ok, KernelResult-cases}
use alani_kernel.Capability
use alani_kernel.Capability.{Capability, CapabilitySet, TaskId, contains}
use alani_kernel.Abi.Numbers.{SyscallNumber, raw_number, from_raw, number_eq}
use alani_kernel.Audit.{AuditEventKind}
use alani_kernel.Scheduler.{
  BudgetAccount, SchedulerClass, TaskControlBlock, new_task, unlimited, default_priority,
}
use alani_kernel.Scheduler.Queue.{TaskSlot, get, holds_task, is_vacant}
use alani_kernel.Scheduler.Policy.{Scheduler, spawn}
use alani_kernel.Scheduler.Policy.Invariant.{spawn_cases, slot_of, inserted, numbered}
use alani_kernel.Syscall.Table.{SyscallDescriptor, syscall_descriptors}
use alani_kernel.Syscall.{
  SyscallFrame, SyscallResult, DispatchContext, ExecutionContext, lookup, succeed,
}
use alani_kernel.Syscall.Dispatch.{validate_ok_iff, raw_number-lookup}
use alani_kernel.Kernel.{Kernel}
use alani_kernel.Kernel.Handlers.{
  dispatch_validated, sys_task_spawn, requested_priority, check_manifest, reply_with,
}
use alani_kernel.Kernel.Entry.{handle_syscall, record_outcome}
use alani_kernel.Kernel.Entry.Cases.{handle_syscall_cases, status-ne-ok}
use alani_kernel.Kernel.Entry.Success.{IsTaskCall, known_call_ok_iff}

-- The scheduler has the task after, and no task of its identifier before; other tasks are as they were.
abbrev pub IsMadeIn : TaskControlBlock → Scheduler → Scheduler → Type 0
IsMadeIn t before after =
    (get before.run_queue t.id ≡ none)
    × (get after.run_queue t.id ≡ some t)
    × ((j : TaskId) → j ≢ t.id → get after.run_queue j ≡ get before.run_queue j)

inserted-IsMadeIn :
    (s : Scheduler) (t : TaskControlBlock) {slot : TaskSlot}
    → find (holds_task t.id) s.run_queue.slots ≡ none
    → find is_vacant s.run_queue.slots ≡ some slot
    → IsMadeIn t s (record (numbered s) { run_queue = inserted s.run_queue t })
unfolding get
inserted-IsMadeIn s t unknown vacant = (
  ap (Option.map (λ x. x.task)) unknown,
  ap (Option.map (λ x. x.task)) (
      find-update_first_hit is_vacant (holds_task t.id) (λ _. slot_of t) s.run_queue.slots vacant
        (ground arith) (count-find-none (holds_task t.id) s.run_queue.slots unknown)),
  λ j other. ap (Option.map (λ x. x.task)) (
      find-update_first_miss is_vacant (holds_task j) (λ _. slot_of t) s.run_queue.slots
        λ x empty. (ground (arith, empty), ground (arith, other))),
)

spawn-IsMadeIn :
    (s : Scheduler) (parent_id : TaskId) (class : SchedulerClass) (priority : ℕ)
    (capabilities : CapabilitySet) (budget : BudgetAccount) (id : TaskId)
    → let out = spawn parent_id class priority capabilities budget s in
      out.0 ≡ ok id → IsMadeIn (new_task id parent_id class priority capabilities budget) s out.1
spawn-IsMadeIn s parent_id class priority capabilities budget id =
    let task_of : TaskId → TaskControlBlock =
      λ i. new_task i parent_id class priority capabilities budget in
    spawn_cases (λ out. out.0 ≡ ok id → IsMadeIn (task_of id) s out.1) s parent_id class priority
      capabilities budget (λ h. absurd (ground arith)) (λ e _ h. absurd (ground arith))
      λ slot _ _ unknown vacant h.
        subst
          (λ i.
            IsMadeIn (task_of i) s
              (record (numbered s) { run_queue = inserted s.run_queue (task_of s.next_task_id) }))
          (ground (arith, h)) (inserted-IsMadeIn s (task_of s.next_task_id) unknown vacant)

-- What a spawn makes of its frame and its caller: with no right, and with the default priority for zero.
abbrev pub asked_task : SyscallFrame → DispatchContext → TaskId → TaskControlBlock
asked_task frame context id =
    new_task id context.task_id SchedulerClass.runtime
      (if frame.args.arg3 == 0 then default_priority else frame.args.arg3) Capability.empty
      unlimited

-- The task that a spawn makes, if it succeeds.
abbrev pub IsMadeBy :
    SyscallFrame → DispatchContext → Scheduler → SyscallResult → Scheduler → Type 0
IsMadeBy frame context before reply after =
    (frame.args.arg3 < 256) × IsMadeIn (asked_task frame context reply.value) before after

answered-IsMadeBy :
    (frame : SyscallFrame) (context : DispatchContext) (s : Scheduler)
    → frame.args.arg3 < 256
    → let out =
        spawn context.task_id SchedulerClass.runtime
          (if frame.args.arg3 == 0 then default_priority else frame.args.arg3)
          Capability.empty
          unlimited
          s in
      let reply = reply_with (λ id. succeed id 0) out.0 in
      reply.status ≡ KernelStatus.ok → IsMadeBy frame context s reply out.1
answered-IsMadeBy frame context s small =
    let priority : ℕ = if frame.args.arg3 == 0 then default_priority else frame.args.arg3 in
    let out = spawn context.task_id SchedulerClass.runtime priority Capability.empty unlimited s in
    elim (KernelResult-cases out.0) [
      | inr (e, failed) ↦ rw failed (λ answered. absurd (status-ne-ok e answered))
      | inl (id, went) ↦ λ _. (
        small,
        subst
            (λ r.
              IsMadeIn (asked_task frame context (reply_with (λ i. succeed i 0) r).value) s out.1)
            (sym went)
            (spawn-IsMadeIn s context.task_id SchedulerClass.runtime priority Capability.empty
              unlimited id went),
      )
    ]

dispatched-IsMadeBy :
    (frame : SyscallFrame) (context : DispatchContext) (k : Kernel)
    → (sys_task_spawn frame context k).0.status ≡ KernelStatus.ok
    → IsMadeBy frame context k.scheduler
        (sys_task_spawn frame context k).0
        (sys_task_spawn frame context k).1.scheduler
unfolding sys_task_spawn requested_priority
dispatched-IsMadeBy frame context k = elim (KernelResult-cases (check_manifest k frame)) [
  | inr (e, refused) ↦ rw (refused, sys_task_spawn) (λ answered. absurd (status-ne-ok e answered))
  | inl (tt, checked) ↦ elim (Bool-cases (leb frame.args.arg3 255)) [
    | inr large ↦
        rw (checked, sys_task_spawn)
          (rw large (λ answered. absurd (status-ne-ok KernelError.invalid_argument answered)))
    | inl small ↦
        rw (checked, sys_task_spawn)
          (rw small (answered-IsMadeBy frame context k.scheduler (ground (arith, small))))
  ]
]

abbrev spawn_call_descriptor : SyscallDescriptor
spawn_call_descriptor = record {
  number = SyscallNumber.sys_task_spawn;
  name = "sys_task_spawn";
  required_capability = some Capability.task_spawn;
  audit_event = some AuditEventKind.task_spawn;
  early_boot_safe = false;
  interrupt_safe = false;
}

lookup-task_spawn : lookup (raw_number SyscallNumber.sys_task_spawn) ≡ some spawn_call_descriptor
unfolding lookup raw_number from_raw number_eq syscall_descriptors Option.bind
lookup-task_spawn = refl

raw_number-spawn :
    (n : SyscallNumber)
    → raw_number n ≡ raw_number SyscallNumber.sys_task_spawn
    → n ≡ SyscallNumber.sys_task_spawn
unfolding raw_number
raw_number-spawn n h = ground arith

handle_syscall-IsMadeBy :
    (frame : SyscallFrame) (context : DispatchContext) (k : Kernel)
    → frame.number ≡ raw_number SyscallNumber.sys_task_spawn
    → (handle_syscall frame context k).0.status ≡ KernelStatus.ok
    → IsMadeBy frame context k.scheduler
        (handle_syscall frame context k).0
        (handle_syscall frame context k).1.scheduler
unfolding record_outcome dispatch_validated
handle_syscall-IsMadeBy frame context k named =
    handle_syscall_cases
      (λ r. r.0.status ≡ KernelStatus.ok → IsMadeBy frame context k.scheduler r.0 r.1.scheduler)
      frame context k (λ e _ answered. absurd (status-ne-ok e answered))
      λ d passed.
        subst
          (λ n.
            (dispatch_validated n frame context k).0.status ≡ KernelStatus.ok
            → IsMadeBy frame context k.scheduler (dispatch_validated n frame context k).0
                (dispatch_validated n frame context k).1.scheduler)
          (sym (
            raw_number-spawn d.number (
              raw_number-lookup frame.number d ((validate_ok_iff frame context d).0 passed).0
              ∙ named)))
          (dispatched-IsMadeBy frame context k)

-- If a `sys_task_spawn` is answered with success, then a task that holds `TaskSpawn` made it, the value of the
-- answer is an identifier that no task had before, and after the call its task is ready, with the caller as
-- parent, without any capability, with no limit, and with the priority asked for, which is less than 256, or the
-- default one if zero was; every other task is as it was.
pub spawn_call_lem :
    (frame : SyscallFrame) (context : DispatchContext) (k : Kernel)
    → frame.number ≡ raw_number SyscallNumber.sys_task_spawn
    → (handle_syscall frame context k).0.status ≡ KernelStatus.ok
    → let r = handle_syscall frame context k in
      (context.execution ≡ ExecutionContext.task)
      × (contains context.capabilities Capability.task_spawn ≡ true)
      × IsMadeBy frame context k.scheduler r.0 r.1.scheduler
spawn_call_lem frame context k named answered =
    let known : IsTaskCall frame context k spawn_call_descriptor Capability.task_spawn =
      known_call_ok_iff frame context k spawn_call_descriptor Capability.task_spawn
        (subst (λ n. lookup n ≡ some spawn_call_descriptor) (sym named) lookup-task_spawn) refl refl
        refl in
    let (task, holds, _) = known.0 answered in
    (task, holds, handle_syscall-IsMadeBy frame context k named answered)
