-- ===== src/Kernel/Entry/Shares.antt =====
-- src/lib.rs, `Kernel::handle_syscall`: the region that a `sys_mem_share` shares.
use Prim.Native.Nat.{◌%◌, ◌^◌, bit_and}
use mathlib.Core.Path.{◌≡◌, refl, subst, sym, ◌∙◌}
use mathlib.Core.Logic.{inl, inr}
use mathlib.Core.Bool.{true, false}
use mathlib.Core.Option
use mathlib.Core.Option.{some}
use mathlib.Core.List.{List}
use native.Mathlib.Omega.{arith}
use alani_kernel.Common.Tests.{◌==◌, Bool-cases}
use alani_kernel.Common.Words.{u32_mod, complement}
use alani_kernel.Error.{KernelError, KernelStatus}
use alani_kernel.Outcome.{ok, KernelResult-cases}
use alani_kernel.Capability.{Capability, TaskId, contains}
use alani_kernel.Abi.Numbers.{SyscallNumber, raw_number, from_raw, number_eq}
use alani_kernel.Audit.{AuditEventKind}
use alani_kernel.Memory.{
  MemoryPermissions, SharedMemoryHandle, permissions_from_bits, permits, sealed_permission,
  known_bits,
}
use alani_kernel.Memory.Manager.{MemoryManager, share_region, shared_region, validate_user_range}
use alani_kernel.Memory.Manager.Sharing.{IsTable, shared, after_share, share_cases}
use alani_kernel.Memory.Manager.Sharing.Lookups.{shared_region-after_share}
use alani_kernel.Syscall.Table.{SyscallDescriptor, syscall_descriptors}
use alani_kernel.Syscall.{
  SyscallFrame, SyscallResult, DispatchContext, ExecutionContext, lookup, succeed,
}
use alani_kernel.Syscall.Dispatch.{validate_ok_iff, raw_number-lookup}
use alani_kernel.Kernel.{Kernel, initialize_host}
use alani_kernel.Kernel.Boot.{unbooted}
use alani_kernel.Kernel.Handlers.{dispatch_validated, sys_mem_share, reply_with}
use alani_kernel.Kernel.Entry.{handle_syscall, record_outcome}
use alani_kernel.Kernel.Entry.Cases.{handle_syscall_cases, status-ne-ok}
use alani_kernel.Kernel.Entry.Success.{IsTaskCall, known_call_ok_iff}
use alani_kernel.Kernel.Entry.History.{IsNew, IsKernel, run, run-initialize_host-IsKernel}

-- The permissions that a share asks for, the lower 32 bits of an argument.
abbrev pub asked_permissions : SyscallFrame → MemoryPermissions
asked_permissions frame = record { bits = frame.args.arg2 % 2 ^ 32 }

-- The range was valid and the permissions not those of a seal; afterwards the handle that a seal would make of
-- the value of the answer finds the region as it was asked for, and the detail is its permissions.
abbrev pub IsSharedBy :
    SyscallFrame → DispatchContext → MemoryManager → SyscallResult → MemoryManager → Type 0
IsSharedBy frame context before reply after =
    (validate_user_range before frame.args.arg0 frame.args.arg1 ≡ ok tt)
    × (permits (asked_permissions frame) sealed_permission ≡ false)
    × (reply.detail ≡ frame.args.arg2 % 2 ^ 32)
    × (shared_region after
          (record { id = reply.value; owner_task = context.task_id; permissions = 0 })
        ≡ ok (record {
          handle = record {
            id = reply.value;
            owner_task = context.task_id;
            permissions = frame.args.arg2 % 2 ^ 32;
          };
          start = frame.args.arg0;
          len = frame.args.arg1;
          sealed = false;
        }))

shared-IsSharedBy :
    (frame : SyscallFrame) (context : DispatchContext) (m : MemoryManager) (h : SharedMemoryHandle)
    → IsTable m
    → let out =
        share_region context.task_id frame.args.arg0 frame.args.arg1 (asked_permissions frame) m in
      out.0 ≡ ok h → IsSharedBy frame context m (succeed h.id h.permissions) out.1
unfolding shared_region
shared-IsSharedBy frame context m h v =
    let owner : TaskId = context.task_id in
    let permissions : MemoryPermissions = asked_permissions frame in
    let after : MemoryManager = after_share m owner frame.args.arg0 frame.args.arg1 permissions in
    share_cases
      (λ out. out.0 ≡ ok h → IsSharedBy frame context m (succeed h.id h.permissions) out.1) m owner
      frame.args.arg0 frame.args.arg1 permissions (λ e refused. absurd (ground arith))
      λ slot valid unsealed vacant _ p.
        subst
          (λ (g : SharedMemoryHandle).
            IsSharedBy frame context m (succeed g.id g.permissions) after)
          {x = shared m owner permissions} {y = h} (ground (arith, p))
          (
            valid,
            unsealed,
            refl,
            shared_region-after_share m owner frame.args.arg0 frame.args.arg1 permissions slot v
                vacant,
          )

answered-IsSharedBy :
    (frame : SyscallFrame) (context : DispatchContext) (m : MemoryManager)
    → IsTable m
    → let out =
        share_region context.task_id frame.args.arg0 frame.args.arg1 (asked_permissions frame) m in
      let reply = reply_with (λ h. succeed h.id h.permissions) out.0 in
      reply.status ≡ KernelStatus.ok → IsSharedBy frame context m reply out.1
answered-IsSharedBy frame context m v =
    let out =
      share_region context.task_id frame.args.arg0 frame.args.arg1 (asked_permissions frame) m in
    elim (KernelResult-cases out.0) [
      | inr (e, failed) ↦ rw failed (λ answered. absurd (status-ne-ok e answered))
      | inl (h, went) ↦ λ _.
          subst
            (λ r. IsSharedBy frame context m (reply_with (λ g. succeed g.id g.permissions) r) out.1)
            (sym went) (shared-IsSharedBy frame context m h v went)
    ]

dispatched-IsSharedBy :
    (frame : SyscallFrame) (context : DispatchContext) (k : Kernel)
    → IsTable k.memory
    → let r = sys_mem_share frame context.task_id k in
      r.0.status ≡ KernelStatus.ok → IsSharedBy frame context k.memory r.0 r.1.memory
unfolding sys_mem_share permissions_from_bits
dispatched-IsSharedBy frame context k v =
    elim (Bool-cases (bit_and (frame.args.arg2 % 2 ^ 32) (complement u32_mod known_bits) == 0)) [
      | inr unknown ↦
          rw (unknown, sys_mem_share)
            (λ answered. absurd (status-ne-ok KernelError.reserved_bits answered))
      | inl known ↦ rw (known, sys_mem_share) (answered-IsSharedBy frame context k.memory v)
    ]

abbrev share_descriptor : SyscallDescriptor
share_descriptor = record {
  number = SyscallNumber.sys_mem_share;
  name = "sys_mem_share";
  required_capability = some Capability.memory_share;
  audit_event = some AuditEventKind.memory_share;
  early_boot_safe = false;
  interrupt_safe = false;
}

lookup-mem_share : lookup (raw_number SyscallNumber.sys_mem_share) ≡ some share_descriptor
unfolding lookup raw_number from_raw number_eq syscall_descriptors Option.bind
lookup-mem_share = refl

raw_number-share :
    (n : SyscallNumber)
    → raw_number n ≡ raw_number SyscallNumber.sys_mem_share
    → n ≡ SyscallNumber.sys_mem_share
unfolding raw_number
raw_number-share n h = ground arith

handle_syscall-IsSharedBy :
    (frame : SyscallFrame) (context : DispatchContext) (k : Kernel)
    → frame.number ≡ raw_number SyscallNumber.sys_mem_share
    → IsTable k.memory
    → let r = handle_syscall frame context k in
      r.0.status ≡ KernelStatus.ok → IsSharedBy frame context k.memory r.0 r.1.memory
unfolding record_outcome dispatch_validated
handle_syscall-IsSharedBy frame context k named v =
    handle_syscall_cases
      (λ r. r.0.status ≡ KernelStatus.ok → IsSharedBy frame context k.memory r.0 r.1.memory) frame
      context k (λ e _ answered. absurd (status-ne-ok e answered))
      λ d passed.
        subst
          (λ n.
            (dispatch_validated n frame context k).0.status ≡ KernelStatus.ok
            → IsSharedBy frame context k.memory (dispatch_validated n frame context k).0
                (dispatch_validated n frame context k).1.memory)
          (sym (
            raw_number-share d.number (
              raw_number-lookup frame.number d ((validate_ok_iff frame context d).0 passed).0
              ∙ named)))
          (dispatched-IsSharedBy frame context k v)

-- After the boot of a kernel and any sequence of system calls, if a `sys_mem_share` is answered with success,
-- then a task that holds `MemoryShare` made it, its range was a valid user range and its permissions were not
-- those of a seal, and afterwards the value of the answer is a handle under which the region is found as it
-- was asked for, owned by the caller and not sealed.
pub share_call_lem :
    (k : Kernel) (before : List (SyscallFrame × DispatchContext)) (frame : SyscallFrame)
    (context : DispatchContext)
    → IsNew k
    → frame.number ≡ raw_number SyscallNumber.sys_mem_share
    → (handle_syscall frame context (run (initialize_host (unbooted k)).1 before)).0.status
      ≡ KernelStatus.ok
    → let l = run (initialize_host (unbooted k)).1 before in
      let r = handle_syscall frame context l in
      (context.execution ≡ ExecutionContext.task)
      × (contains context.capabilities Capability.memory_share ≡ true)
      × IsSharedBy frame context l.memory r.0 r.1.memory
share_call_lem k before frame context new named answered =
    let l : Kernel = run (initialize_host (unbooted k)).1 before in
    let known : IsTaskCall frame context l share_descriptor Capability.memory_share =
      known_call_ok_iff frame context l share_descriptor Capability.memory_share
        (subst (λ n. lookup n ≡ some share_descriptor) (sym named) lookup-mem_share) refl refl
        refl in
    let (task, holds, _) = known.0 answered in
    let v : IsKernel l = run-initialize_host-IsKernel k before new in
    (task, holds, handle_syscall-IsSharedBy frame context l named v.table answered)
