-- ===== src/Kernel/Handlers.antt =====
-- src/lib.rs, the handlers of the system calls: from the frame and the kernel to the result and the
-- kernel left.
use Prim.Native.Nat.{ℕ, ◌-◌}
use mathlib.Core.Option.{Option, none, some}
use alani_kernel.Common.Tests.{leb, ◌==◌, if◌then◌else◌}
use alani_kernel.Common.Words.{u32_mod, cast}
use alani_kernel.Error.{KernelError}
use alani_kernel.Outcome.{KernelResult, ok, err}
use alani_kernel.Method.{Method}
use alani_kernel.Capability
use alani_kernel.Capability.{TaskId, CapabilitySet}
use alani_kernel.Abi.{alani_abi_version, packed, user_buffer, user_buffer_read, user_buffer_write}
use alani_kernel.Abi.Numbers.{SyscallNumber}
use alani_kernel.Audit
use alani_kernel.Syscall.{SyscallFrame, DispatchContext, SyscallResult, succeed, fail}
use alani_kernel.Memory.{BufferAccess, SharedMemoryHandle, permissions_from_bits}
use alani_kernel.Memory.Manager.{
  validate_user_buffer, validate_user_range, share_region, seal_shared_region, stats,
}
use alani_kernel.Device
use alani_kernel.Device.{operation_from_raw, authorize_open, authorize_call, class_code}
use alani_kernel.Scheduler.{SchedulerClass, default_priority, unlimited, state_code}
use alani_kernel.Scheduler.Queue
use alani_kernel.Scheduler.Policy.{spawn, yield_current, cancel}
use alani_kernel.Kernel.{Kernel, on_memory, on_scheduler}

-- A result, and the kernel that the call leaves.
abbrev pub Reply : Type 0
Reply = SyscallResult × Kernel

-- `match result { Ok(a) => f(a), Err(error) => SyscallResult::error(error) }`
abbrev pub reply_with {ℓ} : {A : Type ℓ} → (A → SyscallResult) → KernelResult A → SyscallResult
reply_with f (ok a) = f a
reply_with f (err error) = fail error

-- The same for a method, with the kernel it leaves.
abbrev pub answer {ℓ} : {A : Type ℓ} → (A → SyscallResult) → Method Kernel A → Kernel → Reply
answer f m k = (reply_with f (m k).0, (m k).1)

-- `size_of::<SyscallTableInfo>()`: two versions of 8 bytes, a `u64` and two `u32`.
abbrev pub size_of_table_info : ℕ
size_of_table_info = 32

unfoldable pub sys_info : Kernel → SyscallFrame → SyscallResult
sys_info k frame =
    reply_with (λ _. succeed (packed alani_abi_version) size_of_table_info)
      (validate_user_buffer k.memory
        (user_buffer frame.args.arg0 frame.args.arg1 (cast u32_mod frame.args.arg2))
        BufferAccess.write)

-- The value of a yield: the task that runs next, or zero.
abbrev pub yielded : Option TaskId → SyscallResult
yielded (some task_id) = succeed task_id 0
yielded none = succeed 0 0

unfoldable pub sys_yield : Kernel → Reply
sys_yield = answer yielded (on_scheduler yield_current)

unfoldable pub sys_exit : TaskId → Kernel → Reply
sys_exit task_id = answer (λ _. succeed task_id 0) (on_scheduler (cancel task_id))

-- The check of the manifest buffer, which is passed over at length zero.
unfoldable pub check_manifest : Kernel → SyscallFrame → KernelResult (Unit {0})
check_manifest k frame =
    if frame.args.arg1 == 0
    then ok tt
    else elim (validate_user_buffer k.memory
        (user_buffer frame.args.arg0 frame.args.arg1 user_buffer_read) BufferAccess.read) [
          | ok buffer ↦ ok tt
          | err error ↦ err error
        ]

-- The priority that a spawn asks for, with zero for the default.
unfoldable pub requested_priority : SyscallFrame → KernelResult ℕ
requested_priority frame =
    if leb frame.args.arg3 255
    then ok (if frame.args.arg3 == 0 then default_priority else frame.args.arg3)
    else err KernelError.invalid_argument

unfoldable pub sys_task_spawn : SyscallFrame → DispatchContext → Kernel → Reply
sys_task_spawn frame context k = elim (check_manifest k frame) [
  | err error ↦ (fail error, k)
  | ok checked ↦ elim (requested_priority frame) [
    | err error ↦ (fail error, k)
    | ok priority ↦
        answer (λ task_id. succeed task_id 0)
          (on_scheduler
            (spawn context.task_id SchedulerClass.runtime priority Capability.empty unlimited))
          k
  ]
]

unfoldable pub sys_task_cancel : SyscallFrame → Kernel → Reply
sys_task_cancel frame =
    answer (λ _. succeed frame.args.arg0 0) (on_scheduler (cancel frame.args.arg0))

unfoldable pub sys_task_status : Kernel → SyscallFrame → SyscallResult
sys_task_status k frame = elim (Queue.get k.scheduler.run_queue frame.args.arg0) [
  | some task ↦ succeed (state_code task.state) task.context_switches
  | none ↦ fail KernelError.not_found
]

unfoldable pub sys_mem_range : Kernel → SyscallFrame → SyscallResult
sys_mem_range k frame =
    reply_with (λ _. succeed frame.args.arg0 frame.args.arg1)
      (validate_user_range k.memory frame.args.arg0 frame.args.arg1)

unfoldable pub sys_mem_query : Kernel → SyscallResult
sys_mem_query k = succeed (stats k.memory).usable_bytes (stats k.memory).region_count

unfoldable pub sys_mem_share : SyscallFrame → TaskId → Kernel → Reply
sys_mem_share frame task_id k = elim (permissions_from_bits (cast u32_mod frame.args.arg2)) [
  | err error ↦ (fail error, k)
  | ok permissions ↦
      answer (λ handle. succeed handle.id handle.permissions)
        (on_memory (share_region task_id frame.args.arg0 frame.args.arg1 permissions)) k
]

-- The handle that `sys_mem_seal` makes of its argument.
abbrev pub handle_of : SyscallFrame → TaskId → SharedMemoryHandle
handle_of frame task_id = record { id = frame.args.arg0; owner_task = task_id; permissions = 0 }

unfoldable pub sys_mem_seal : SyscallFrame → TaskId → Kernel → Reply
sys_mem_seal frame task_id =
    answer (λ _. succeed frame.args.arg0 0)
      (on_memory (seal_shared_region (handle_of frame task_id)))

unfoldable pub sys_device_open : Kernel → SyscallFrame → CapabilitySet → SyscallResult
sys_device_open k frame capabilities =
    reply_with (λ d. succeed d.id (class_code d.class))
      (authorize_open k.devices frame.args.arg0 capabilities)

unfoldable pub sys_device_call : Kernel → SyscallFrame → CapabilitySet → SyscallResult
sys_device_call k frame capabilities = elim (operation_from_raw frame.args.arg1) [
  | none ↦ fail KernelError.invalid_argument
  | some operation ↦
      reply_with (λ _. succeed 0 0)
        (authorize_call k.devices frame.args.arg0 operation capabilities frame.args.arg3
          frame.args.arg5)
]

unfoldable pub sys_infer : SyscallFrame → SyscallResult
sys_infer frame = if frame.args.arg3 == 0 then fail KernelError.deadline_exceeded else succeed 0 0

unfoldable pub sys_random : Kernel → SyscallFrame → SyscallResult
sys_random k frame =
    reply_with (λ buffer. succeed 0 buffer.len)
      (validate_user_buffer k.memory (user_buffer frame.args.arg0 frame.args.arg1 user_buffer_write)
        BufferAccess.write)

-- `Kernel::dispatch_validated`
unfoldable pub dispatch_validated : SyscallNumber → SyscallFrame → DispatchContext → Kernel → Reply
dispatch_validated SyscallNumber.sys_info frame context k = (sys_info k frame, k)
dispatch_validated SyscallNumber.sys_yield frame context k = sys_yield k
dispatch_validated SyscallNumber.sys_exit frame context k = sys_exit context.task_id k
dispatch_validated SyscallNumber.sys_time frame context k = (succeed k.scheduler.tick 0, k)
dispatch_validated SyscallNumber.sys_trace_context frame context k =
    (succeed frame.trace.trace_id frame.trace.span_id, k)
dispatch_validated SyscallNumber.sys_task_spawn frame context k = sys_task_spawn frame context k
dispatch_validated SyscallNumber.sys_task_join frame context k = (succeed frame.args.arg0 0, k)
dispatch_validated SyscallNumber.sys_task_cancel frame context k = sys_task_cancel frame k
dispatch_validated SyscallNumber.sys_task_status frame context k = (sys_task_status k frame, k)
dispatch_validated SyscallNumber.sys_mem_map frame context k = (sys_mem_range k frame, k)
dispatch_validated SyscallNumber.sys_mem_unmap frame context k = (sys_mem_range k frame, k)
dispatch_validated SyscallNumber.sys_mem_query frame context k = (sys_mem_query k, k)
dispatch_validated SyscallNumber.sys_mem_share frame context k =
    sys_mem_share frame context.task_id k
dispatch_validated SyscallNumber.sys_mem_seal frame context k = sys_mem_seal frame context.task_id k
dispatch_validated SyscallNumber.sys_device_list frame context k =
    (succeed (Device.len k.devices) 0, k)
dispatch_validated SyscallNumber.sys_device_open frame context k =
    (sys_device_open k frame context.capabilities, k)
dispatch_validated SyscallNumber.sys_device_call frame context k =
    (sys_device_call k frame context.capabilities, k)
dispatch_validated SyscallNumber.sys_device_close frame context k = (succeed frame.args.arg0 0, k)
dispatch_validated SyscallNumber.sys_model_list frame context k = (succeed 0 0, k)
dispatch_validated SyscallNumber.sys_model_open frame context k = (succeed frame.args.arg0 0, k)
dispatch_validated SyscallNumber.sys_infer frame context k = (sys_infer frame, k)
dispatch_validated SyscallNumber.sys_memory_query frame context k = (succeed 0 0, k)
dispatch_validated SyscallNumber.sys_memory_put frame context k = (succeed 0 0, k)
dispatch_validated SyscallNumber.sys_cap_derive frame context k = (succeed 0 0, k)
dispatch_validated SyscallNumber.sys_cap_revoke frame context k = (succeed 0 0, k)
dispatch_validated SyscallNumber.sys_attest frame context k =
    (succeed (packed alani_abi_version) 0, k)
dispatch_validated SyscallNumber.sys_random frame context k = (sys_random k frame, k)
dispatch_validated SyscallNumber.sys_audit_append frame context k =
    (succeed k.audit.next_sequence 0, k)
dispatch_validated SyscallNumber.sys_audit_query frame context k =
    (succeed (Audit.len k.audit) 0, k)
dispatch_validated SyscallNumber.sys_audit_verify frame context k =
    (succeed (k.audit.next_sequence - 1) 0, k)
