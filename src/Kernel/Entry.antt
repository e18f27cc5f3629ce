-- ===== src/Kernel/Entry.antt =====
-- src/lib.rs, `Kernel::handle_syscall`: validation, dispatch, the audit of the outcome and the report of
-- its failure. The children hold the theorems.
pub mod Effects
pub mod Cases
pub mod Denial
pub mod Evidence
pub mod History
pub mod Fixed
pub mod Tasks
pub mod Answers
pub mod Turns
pub mod Yields
pub mod Exits
pub mod Seals
pub mod Success
pub mod Shares
pub mod Spawns
pub mod Replies
pub mod Dues
pub mod Testimony
use mathlib.Core.Bool.{Bool, not}
use mathlib.Core.Option.{Option, none, some}
use Prim.Native.String.{String}
use alani_kernel.Common.Tests.{if◌then◌else◌}
use alani_kernel.Error
use alani_kernel.Error.{KernelError, KernelStatus, is_ok, status_eq}
use alani_kernel.Outcome.{ok, err}
use alani_kernel.Audit.{AuditEventKind, AuditLog, record_syscall}
use alani_kernel.Fault.{FaultKind, FaultSeverity, FaultPhase, FaultReporter, record_error}
use alani_kernel.Syscall.Table.{SyscallDescriptor}
use alani_kernel.Syscall.{
  SyscallFrame, DispatchContext, ExecutionContext, SyscallResult, fail, lookup, validate,
}
use alani_kernel.Kernel.{Kernel}
use alani_kernel.Kernel.Handlers.{Reply, dispatch_validated}

-- `Kernel::fault_kind_for_status`
unfoldable pub fault_kind_for_status : KernelStatus → FaultKind
fault_kind_for_status KernelStatus.permission_denied = FaultKind.capability_denied
fault_kind_for_status _ = FaultKind.invariant_violation

-- `Kernel::error_for_status`
unfoldable pub error_for_status : KernelStatus → KernelError
error_for_status KernelStatus.ok = KernelError.internal
error_for_status KernelStatus.invalid_argument = KernelError.invalid_argument
error_for_status KernelStatus.permission_denied = KernelError.permission_denied
error_for_status KernelStatus.not_found = KernelError.not_found
error_for_status KernelStatus.busy = KernelError.busy
error_for_status KernelStatus.deadline_exceeded = KernelError.deadline_exceeded
error_for_status KernelStatus.internal = KernelError.internal

-- The audit event kind of a rejection, if it leaves one.
unfoldable pub rejection_event : SyscallDescriptor → KernelStatus → Option AuditEventKind
rejection_event d status = elim d.audit_event [
  | some kind ↦ some kind
  | none ↦
      if status_eq status KernelStatus.permission_denied
      then some AuditEventKind.security_decision
      else none
]

-- The audit log after a rejected call.
unfoldable pub audit_rejection : SyscallFrame → DispatchContext → KernelError → AuditLog → AuditLog
audit_rejection frame context error log = elim (lookup frame.number) [
  | none ↦ log
  | some d ↦ elim (rejection_event d (Error.status error)) [
    | none ↦ log
    | some kind ↦
        record_syscall kind context.task_id d.number (Error.status error) frame.trace
          (Error.reason error) log
  ]
]

-- The fault kind of a rejection.
unfoldable pub rejection_fault : KernelError → FaultKind
rejection_fault KernelError.unknown_syscall = FaultKind.invalid_syscall
rejection_fault KernelError.missing_capability = FaultKind.capability_denied
rejection_fault KernelError.permission_denied = FaultKind.capability_denied
rejection_fault _ = FaultKind.invariant_violation

unfoldable pub rejection_severity : KernelError → FaultSeverity
rejection_severity error =
    if status_eq (Error.status error) KernelStatus.permission_denied
    then FaultSeverity.error
    else FaultSeverity.warning

unfoldable pub rejection_phase : ExecutionContext → FaultPhase
rejection_phase ExecutionContext.early_boot = FaultPhase.boot
rejection_phase _ = FaultPhase.runtime

-- `Kernel::record_rejected_syscall`
unfoldable pub record_rejected_syscall :
    SyscallFrame → DispatchContext → KernelError → Kernel → Kernel
record_rejected_syscall frame context error k = record k {
  audit = audit_rejection frame context error k.audit;
  faults =
      record_error (rejection_fault error) (rejection_severity error) context.task_id error
        (rejection_phase context.execution) frame.trace k.faults;
}

-- The reason label of an audited outcome.
unfoldable pub outcome_reason : KernelStatus → String
outcome_reason status = if is_ok status then "ok" else "syscall_failed"

-- The audit log after a call that was dispatched.
unfoldable pub audit_outcome :
    SyscallDescriptor → SyscallFrame → DispatchContext → KernelStatus → AuditLog → AuditLog
audit_outcome d frame context status log = elim d.audit_event [
  | none ↦ log
  | some kind ↦
      record_syscall kind context.task_id d.number status frame.trace (outcome_reason status) log
]

-- The faults after a call that was dispatched.
unfoldable pub report_failure :
    SyscallFrame → DispatchContext → KernelStatus → FaultReporter → FaultReporter
report_failure frame context status faults =
    if is_ok status
    then faults
    else record_error (fault_kind_for_status status) FaultSeverity.warning context.task_id
        (error_for_status status) FaultPhase.runtime frame.trace faults

-- The kernel after a call that was dispatched.
unfoldable pub record_outcome :
    SyscallDescriptor → SyscallFrame → DispatchContext → KernelStatus → Kernel → Kernel
record_outcome d frame context status k = record k {
  audit = audit_outcome d frame context status k.audit;
  faults = report_failure frame context status k.faults;
}

unfoldable pub handle_syscall : SyscallFrame → DispatchContext → Kernel → Reply
handle_syscall frame context k = elim (validate frame context) [
  | err error ↦ (fail error, record_rejected_syscall frame context error k)
  | ok d ↦
      let reply = dispatch_validated d.number frame context k in
      (reply.0, record_outcome d frame context reply.0.status reply.1)
]
