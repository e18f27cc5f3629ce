-- ===== src/Kernel/Entry/Denial.antt =====
-- src/lib.rs, `Kernel::handle_syscall`: the calls that the validation rejects.
use mathlib.Core.Path.{◌≡◌, refl, ◌∙◌}
use mathlib.Core.Logic.{◌⊎◌, ◌≢◌, inl, inr}
use mathlib.Core.Bool.{true, false}
use mathlib.Core.Option.{none, some}
use native.Mathlib.Omega.{arith}
use alani_kernel.Common.Tests.{Option-cases}
use alani_kernel.Error
use alani_kernel.Error.{KernelError, KernelStatus, is_ok, status_eq, status_code}
use alani_kernel.Outcome.{err}
use alani_kernel.Capability.{Capability, contains, require}
use alani_kernel.Audit.{
  AuditEvent, AuditLog, AuditEventKind, AuditSeverity, DataClass, append, record_syscall,
  syscall_event, severity_of,
}
use alani_kernel.Fault.{
  FaultKind, FaultRecord, FaultReporter, FaultSeverity, report, record_error, from_error,
}
use alani_kernel.Syscall.Table.{SyscallDescriptor}
use alani_kernel.Syscall.{SyscallFrame, DispatchContext, fail, allows_context, lookup, validate}
use alani_kernel.Syscall.Dispatch.{IsAuthorized, validate_ok_iff}
use alani_kernel.Kernel.{Kernel}
use alani_kernel.Kernel.Entry.{
  handle_syscall, record_rejected_syscall, audit_rejection, rejection_event, rejection_fault,
  rejection_severity, rejection_phase,
}
use alani_kernel.Kernel.Entry.Cases.{
  handle_syscall_cases, IsUntouched, rejected-IsUntouched, status-ne-ok,
}

-- A call answered with success, or one that changes the scheduler or the memory manager, was in the
-- table, allowed in its context, and made by a caller with the capability that its descriptor asks for.
pub effect-IsAuthorized :
    (frame : SyscallFrame) (context : DispatchContext) (k : Kernel)
    → (let r = handle_syscall frame context k in
        (r.0.status ≡ KernelStatus.ok) ⊎ (r.1.scheduler ≢ k.scheduler) ⊎ (r.1.memory ≢ k.memory))
    → (d : SyscallDescriptor) × (lookup frame.number ≡ some d)
      × (allows_context d context.execution ≡ true)
      × IsAuthorized context.capabilities d
effect-IsAuthorized frame context k =
    handle_syscall_cases
      (λ r.
        (r.0.status ≡ KernelStatus.ok) ⊎ (r.1.scheduler ≢ k.scheduler) ⊎ (r.1.memory ≢ k.memory)
        → (d : SyscallDescriptor) × (lookup frame.number ≡ some d)
          × (allows_context d context.execution ≡ true)
          × IsAuthorized context.capabilities d)
      frame context k
      (λ e refused effect.
        let same : IsUntouched k (record_rejected_syscall frame context e k) =
          rejected-IsUntouched frame context e k in
        elim effect [
          | inl succeeded ↦ absurd (status-ne-ok e succeeded)
          | inr (inl scheduled) ↦ absurd (scheduled same.same_scheduler)
          | inr (inr shared) ↦ absurd (shared same.same_memory)
        ])
      λ d passed _.
        let admitted : (lookup frame.number ≡ some d)
            × (allows_context d context.execution ≡ true)
            × IsAuthorized context.capabilities d =
          (validate_ok_iff frame context d).0 passed in
        (d, admitted.0, admitted.1, admitted.2)

-- The event that a denial leaves: the kind of the call, or `SecurityDecision` where it has none.
abbrev pub denial_event : SyscallDescriptor → SyscallFrame → DispatchContext → AuditEvent
denial_event d frame context = record {
  sequence = 0;
  kind = elim d.audit_event [ some kind ↦ kind | none ↦ AuditEventKind.security_decision ];
  severity = AuditSeverity.critical;
  task_id = context.task_id;
  syscall = some d.number;
  status = KernelStatus.permission_denied;
  trace = frame.trace;
  data_class = DataClass.operational;
  reason = Error.reason KernelError.missing_capability;
}

-- The fault that a denial leaves.
abbrev pub denial_fault : SyscallFrame → DispatchContext → FaultRecord
denial_fault frame context = record {
  sequence = 0;
  kind = FaultKind.capability_denied;
  severity = FaultSeverity.error;
  task_id = context.task_id;
  address = 0;
  status = KernelStatus.permission_denied;
  phase = rejection_phase context.execution;
  trace = frame.trace;
  reason = Error.reason KernelError.missing_capability;
}

validate-denied :
    (frame : SyscallFrame) (context : DispatchContext) (d : SyscallDescriptor) (c : Capability)
    → lookup frame.number ≡ some d
    → allows_context d context.execution ≡ true
    → d.required_capability ≡ some c
    → contains context.capabilities c ≡ false
    → validate frame context ≡ err KernelError.missing_capability
unfolding validate require
validate-denied frame context d c found allowed asked lacks = ground arith

-- What a rejection adds to the audit log, if anything.
pub audit-rejected :
    (frame : SyscallFrame) (context : DispatchContext) (e : KernelError) (d : SyscallDescriptor)
    (kind : AuditEventKind) (l : AuditLog)
    → lookup frame.number ≡ some d
    → rejection_event d (Error.status e) ≡ some kind
    → audit_rejection frame context e l
      ≡ record_syscall kind context.task_id d.number (Error.status e) frame.trace (Error.reason e) l
unfolding audit_rejection
audit-rejected frame context e d kind l found some_event =
    rw (found, audit_rejection) (rw some_event refl)

rejection_event-denied :
    (d : SyscallDescriptor)
    → rejection_event d KernelStatus.permission_denied
      ≡ some (elim d.audit_event [ some kind ↦ kind | none ↦ AuditEventKind.security_decision ])
unfolding rejection_event status_eq status_code
rejection_event-denied d = elim (Option-cases d.audit_event) [
  | inl quiet ↦ rw quiet refl
  | inr (kind, audited) ↦ rw audited refl
]

record_syscall-denied :
    (frame : SyscallFrame) (context : DispatchContext) (d : SyscallDescriptor) (l : AuditLog)
    → record_syscall
        (denial_event d frame context).kind
        context.task_id
        d.number
        KernelStatus.permission_denied
        frame.trace
        (Error.reason KernelError.missing_capability)
        l
      ≡ append (denial_event d frame context) l
unfolding record_syscall syscall_event severity_of is_ok status_eq status_code
record_syscall-denied frame context d l = refl

report-denied :
    (frame : SyscallFrame) (context : DispatchContext) (r : FaultReporter)
    → record_error
        (rejection_fault KernelError.missing_capability)
        (rejection_severity KernelError.missing_capability)
        context.task_id
        KernelError.missing_capability
        (rejection_phase context.execution)
        frame.trace
        r
      ≡ report (denial_fault frame context) r
unfolding record_error from_error rejection_fault rejection_severity Error.status status_eq
    status_code
report-denied frame context r = refl

pub handle_syscall-rejected :
    (frame : SyscallFrame) (context : DispatchContext) (k : Kernel) (e : KernelError)
    → validate frame context ≡ err e
    → handle_syscall frame context k ≡ (fail e, record_rejected_syscall frame context e k)
unfolding handle_syscall
handle_syscall-rejected frame context k e refused = rw (refused, handle_syscall) refl

rejected-denied :
    (frame : SyscallFrame) (context : DispatchContext) (k : Kernel) (d : SyscallDescriptor)
    → lookup frame.number ≡ some d
    → let l = record_rejected_syscall frame context KernelError.missing_capability k in
      (l.audit ≡ append (denial_event d frame context) k.audit)
      × (l.faults ≡ report (denial_fault frame context) k.faults)
unfolding record_rejected_syscall Error.status
rejected-denied frame context k d found = (
  (audit-rejected frame context KernelError.missing_capability d (denial_event d frame context).kind
        k.audit found (rejection_event-denied d)
      ∙ record_syscall-denied frame context d k.audit),
  report-denied frame context k.faults,
)

-- A call of the table that is allowed in its context, by a caller without the capability that it
-- needs, is answered with `MissingCapability`, leaves the configuration, the boot progress, the
-- memory, the scheduler and the devices as they were, and adds to the audit log and to the
-- faults exactly one critical event and one `CapabilityDenied` fault, both with the caller's
-- task and trace.
pub handle_syscall-denied :
    (frame : SyscallFrame) (context : DispatchContext) (k : Kernel) (d : SyscallDescriptor)
    (c : Capability)
    → lookup frame.number ≡ some d
    → allows_context d context.execution ≡ true
    → d.required_capability ≡ some c
    → contains context.capabilities c ≡ false
    → let r = handle_syscall frame context k in
      (r.0 ≡ fail KernelError.missing_capability)
      × IsUntouched k r.1
      × (r.1.audit ≡ append (denial_event d frame context) k.audit)
      × (r.1.faults ≡ report (denial_fault frame context) k.faults)
handle_syscall-denied frame context k d c found allowed asked lacks =
    rw
      (handle_syscall-rejected frame context k KernelError.missing_capability
        (validate-denied frame context d c found allowed asked lacks))
      (let evidence = rejected-denied frame context k d found in
        (
          refl,
          rejected-IsUntouched frame context KernelError.missing_capability k,
          evidence.0,
          evidence.1,
        ))
