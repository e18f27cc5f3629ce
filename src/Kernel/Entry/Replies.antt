-- ===== src/Kernel/Entry/Replies.antt =====
-- src/lib.rs, `Kernel::handle_syscall`: which calls of a device and of a range of memory succeed.
use Prim.Native.Nat.{◌≤◌}
use mathlib.Core.Path.{◌≡◌, refl, subst, sym}
use mathlib.Core.Logic.{◌↔◌, inl, inr}
use mathlib.Core.Bool.{true, false}
use mathlib.Core.Option
use mathlib.Core.Option.{Option, none, some}
use alani_kernel.Common.Tests.{Option-cases}
use alani_kernel.Error.{KernelError, KernelStatus}
use alani_kernel.Outcome.{KernelResult, KernelResult-cases}
use alani_kernel.Capability.{Capability, CapabilitySet, contains}
use alani_kernel.Abi.Numbers.{SyscallNumber, raw_number, from_raw, number_eq}
use alani_kernel.Audit.{AuditEventKind}
use alani_kernel.Device.{
  DeviceDescriptor, DeviceOperation, DeviceRegistry, operation_from_raw, supports, authorize_call,
}
use alani_kernel.Device.Access.{IsOpenFor, authorize_call_iff}
use alani_kernel.Memory.Manager.{validate_user_range}
use alani_kernel.Memory.Manager.Settings.{IsConfigured}
use alani_kernel.Memory.Manager.Ranges.{IsUserRange, validate_user_range_iff}
use alani_kernel.Syscall.Table.{SyscallDescriptor, syscall_descriptors}
use alani_kernel.Syscall.{SyscallFrame, DispatchContext, ExecutionContext, lookup}
use alani_kernel.Kernel.{Kernel}
use alani_kernel.Kernel.Handlers.{dispatch_validated, sys_device_call, sys_mem_range}
use alani_kernel.Kernel.Entry.{handle_syscall}
use alani_kernel.Kernel.Entry.Cases.{status-ne-ok}
use alani_kernel.Kernel.Entry.Success.{IsTaskCall, known_call_ok_iff}

-- The entries of the two calls.
abbrev device_call_descriptor : SyscallDescriptor
device_call_descriptor = record {
  number = SyscallNumber.sys_device_call;
  name = "sys_device_call";
  required_capability = some Capability.device_call;
  audit_event = some AuditEventKind.device_call;
  early_boot_safe = false;
  interrupt_safe = false;
}

abbrev mem_map_descriptor : SyscallDescriptor
mem_map_descriptor = record {
  number = SyscallNumber.sys_mem_map;
  name = "sys_mem_map";
  required_capability = some Capability.memory_map;
  audit_event = some AuditEventKind.memory_map;
  early_boot_safe = false;
  interrupt_safe = false;
}

lookup-device_call : lookup (raw_number SyscallNumber.sys_device_call) ≡ some device_call_descriptor
unfolding lookup raw_number from_raw number_eq syscall_descriptors Option.bind
lookup-device_call = refl

lookup-mem_map : lookup (raw_number SyscallNumber.sys_mem_map) ≡ some mem_map_descriptor
unfolding lookup raw_number from_raw number_eq syscall_descriptors Option.bind
lookup-mem_map = refl

-- What a call of a device needs: an operation that the argument decodes to, and a device that is open for
-- the caller, supports it, and allows both lengths.
abbrev pub IsDeviceCall : DeviceRegistry → SyscallFrame → CapabilitySet → Type 0
IsDeviceCall devices frame caller =
    (operation : DeviceOperation) × (d : DeviceDescriptor) × (operation_from_raw frame.args.arg1
      ≡ some operation)
    × IsOpenFor devices frame.args.arg0 caller d
    × (supports d operation ≡ true)
    × (frame.args.arg3 ≤ d.max_input_len)
    × (frame.args.arg5 ≤ d.max_output_len)

sys_device_call_iff :
    (k : Kernel) (frame : SyscallFrame) (caller : CapabilitySet)
    → contains caller Capability.device_call ≡ true
    → ((sys_device_call k frame caller).status ≡ KernelStatus.ok)
      ↔ IsDeviceCall k.devices frame caller
unfolding sys_device_call
sys_device_call_iff k frame caller holds = (forward, backward)
  where
    answer_of : DeviceOperation → KernelResult DeviceDescriptor
    answer_of operation =
        authorize_call k.devices frame.args.arg0 operation caller frame.args.arg3 frame.args.arg5

    forward :
        (sys_device_call k frame caller).status ≡ KernelStatus.ok
        → IsDeviceCall k.devices frame caller
    forward answered = elim (Option-cases (operation_from_raw frame.args.arg1)) [
      | inl unknown ↦
          absurd
            (status-ne-ok KernelError.invalid_argument (rw (unknown, sys_device_call) at answered))
      | inr (operation, decoded) ↦ elim (KernelResult-cases (answer_of operation)) [
        | inr (e, refused) ↦
            absurd (status-ne-ok e (rw refused at (rw (decoded, sys_device_call) at answered)))
        | inl (d, passed) ↦
            let (_, open_for, able, short_in, short_out) =
              (authorize_call_iff k.devices frame.args.arg0 operation caller frame.args.arg3
                  frame.args.arg5 d).0
                passed in
            (operation, d, decoded, open_for, able, short_in, short_out)
      ]
    ]

    backward :
        IsDeviceCall k.devices frame caller
        → (sys_device_call k frame caller).status ≡ KernelStatus.ok
    backward (operation, d, decoded, open_for, able, short_in, short_out) =
        rw (decoded, sys_device_call)
          (rw
            ((authorize_call_iff k.devices frame.args.arg0 operation caller frame.args.arg3
                frame.args.arg5 d).1
              (holds, open_for, able, short_in, short_out))
            refl)

-- A `sys_device_call` is answered with success exactly if a task makes it, the task holds `DeviceCall`, its
-- second argument is the number of an operation, and its first is the identifier of a device that is
-- registered and available, supports the operation, requires nothing that the task does not hold, and
-- allows the two lengths.
pub device_call_ok_iff :
    (frame : SyscallFrame) (context : DispatchContext) (k : Kernel)
    → frame.number ≡ raw_number SyscallNumber.sys_device_call
    → ((handle_syscall frame context k).0.status ≡ KernelStatus.ok) ↔ (
        (context.execution ≡ ExecutionContext.task)
        × (contains context.capabilities Capability.device_call ≡ true)
        × IsDeviceCall k.devices frame context.capabilities)
unfolding dispatch_validated
device_call_ok_iff frame context k named = (
  (λ answered.
      let (task, holds, went) = known.0 answered in
      (task, holds, (sys_device_call_iff k frame context.capabilities holds).0 went)),
  λ (task, holds, call).
      known.1 (task, holds, (sys_device_call_iff k frame context.capabilities holds).1 call),
)
  where
    known : IsTaskCall frame context k device_call_descriptor Capability.device_call
    known =
        known_call_ok_iff frame context k device_call_descriptor Capability.device_call
          (subst (λ n. lookup n ≡ some device_call_descriptor) (sym named) lookup-device_call) refl
          refl refl

sys_mem_range_iff :
    (k : Kernel) (frame : SyscallFrame)
    → IsConfigured k.memory
    → ((sys_mem_range k frame).status ≡ KernelStatus.ok)
      ↔ IsUserRange k.memory frame.args.arg0 frame.args.arg1
unfolding sys_mem_range
sys_mem_range_iff k frame v = (
  (λ answered.
      elim (KernelResult-cases (validate_user_range k.memory frame.args.arg0 frame.args.arg1)) [
        | inl (tt, valid) ↦
            (validate_user_range_iff k.memory frame.args.arg0 frame.args.arg1 v).0 valid
        | inr (e, refused) ↦ absurd (status-ne-ok e (rw (refused, sys_mem_range) at answered))
      ]),
  λ range.
      rw
        (
          (validate_user_range_iff k.memory frame.args.arg0 frame.args.arg1 v).1 range,
          sys_mem_range,
        )
        refl,
)

-- With the memory manager as its setters leave it, a `sys_mem_map` is answered with success exactly if a task
-- makes it, the task holds `MemoryMap`, and its arguments are a range within the user bounds that is not
-- empty, null, misaligned or longer than the limit, and does not wrap.
pub mem_map_ok_iff :
    (frame : SyscallFrame) (context : DispatchContext) (k : Kernel)
    → frame.number ≡ raw_number SyscallNumber.sys_mem_map
    → IsConfigured k.memory
    → ((handle_syscall frame context k).0.status ≡ KernelStatus.ok) ↔ (
        (context.execution ≡ ExecutionContext.task)
        × (contains context.capabilities Capability.memory_map ≡ true)
        × IsUserRange k.memory frame.args.arg0 frame.args.arg1)
unfolding dispatch_validated
mem_map_ok_iff frame context k named v = (
  (λ answered.
      let (task, holds, went) = known.0 answered in
      (task, holds, (sys_mem_range_iff k frame v).0 went)),
  λ (task, holds, range). known.1 (task, holds, (sys_mem_range_iff k frame v).1 range),
)
  where
    known : IsTaskCall frame context k mem_map_descriptor Capability.memory_map
    known =
        known_call_ok_iff frame context k mem_map_descriptor Capability.memory_map
          (subst (λ n. lookup n ≡ some mem_map_descriptor) (sym named) lookup-mem_map) refl refl
          refl
