-- ===== src/Kernel/Entry/Evidence.antt =====
-- src/lib.rs, `Kernel::handle_syscall`: the audit event and the fault that a call leaves.
use Prim.Native.String.{String}
use mathlib.Core.Path.{◌≡◌, refl, ◌∙◌, ap, subst, sym}
use mathlib.Core.Option.{some}
use alani_kernel.Common.Tests.{if◌then◌else◌, some-injective}
use alani_kernel.Error
use alani_kernel.Error.{KernelError, KernelStatus, is_ok}
use alani_kernel.Audit.{AuditEvent, AuditEventKind, AuditLog, append, record_syscall, syscall_event}
use alani_kernel.Fault.{FaultRecord, FaultReporter, empty_fault, report, record_error, from_error}
use alani_kernel.Syscall.Table.{SyscallDescriptor}
use alani_kernel.Syscall.{SyscallFrame, DispatchContext, lookup}
use alani_kernel.Syscall.Dispatch.{validate_ok_iff}
use alani_kernel.Kernel.{Kernel}
use alani_kernel.Kernel.Handlers.{Reply, dispatch_validated}
use alani_kernel.Kernel.Entry.{
  handle_syscall, record_rejected_syscall, record_outcome, rejection_event, report_failure,
  audit_outcome, outcome_reason, error_for_status,
}
use alani_kernel.Kernel.Entry.Effects.{may_yield, IsStep, dispatch_validated-IsStep}
use alani_kernel.Kernel.Entry.Denial.{audit-rejected}
use alani_kernel.Kernel.Entry.Cases.{handle_syscall_cases}

-- The fault tells of the caller, its trace and the status of the reply.
abbrev pub IsFaultOf : SyscallFrame → DispatchContext → KernelStatus → FaultRecord → Type 0
IsFaultOf frame context status fault =
    (fault.task_id ≡ context.task_id) × (fault.trace ≡ frame.trace) × (fault.status ≡ status)

-- The faults after a reply: one more exactly if the reply is no success.
abbrev pub faults_after : KernelStatus → FaultRecord → FaultReporter → FaultReporter
faults_after status fault faults = if is_ok status then faults else report fault faults

rejected-faults :
    (frame : SyscallFrame) (context : DispatchContext) (e : KernelError) (k : Kernel)
    → (fault : FaultRecord) × IsFaultOf frame context (Error.status e) fault
      × ((record_rejected_syscall frame context e k).faults
          ≡ faults_after (Error.status e) fault k.faults)
unfolding record_rejected_syscall record_error from_error Error.status is_ok
rejected-faults frame context KernelError.unknown_syscall k = (_, (refl, refl, refl), refl)
rejected-faults frame context _ k = (_, (refl, refl, refl), refl)

reported-faults :
    (frame : SyscallFrame) (context : DispatchContext) (status : KernelStatus) (r : FaultReporter)
    → (fault : FaultRecord) × IsFaultOf frame context status fault
      × (report_failure frame context status r ≡ faults_after status fault r)
unfolding report_failure record_error from_error Error.status is_ok error_for_status
reported-faults frame context KernelStatus.ok r = (
  record empty_fault { task_id = context.task_id; trace = frame.trace; status = KernelStatus.ok },
  (refl, refl, refl),
  refl,
)
reported-faults frame context _ r = (_, (refl, refl, refl), refl)

-- Every call that is not answered with success leaves exactly one more fault, with the caller's task and
-- trace and the status of the answer; a call that is answered with success leaves the faults as they were.
pub handle_syscall-faults :
    (frame : SyscallFrame) (context : DispatchContext) (k : Kernel)
    → let r = handle_syscall frame context k in
      (fault : FaultRecord) × IsFaultOf frame context r.0.status fault
      × (r.1.faults ≡ faults_after r.0.status fault k.faults)
unfolding record_outcome
handle_syscall-faults frame context k =
    handle_syscall_cases
      (λ r.
        (fault : FaultRecord) × IsFaultOf frame context r.0.status fault
        × (r.1.faults ≡ faults_after r.0.status fault k.faults))
      frame context k (λ e _. rejected-faults frame context e k)
      λ d _.
        let reply : Reply = dispatch_validated d.number frame context k in
        let moved : IsStep (may_yield d.number) k reply.1 =
          dispatch_validated-IsStep d.number frame context k in
        subst
          (λ faults.
            (fault : FaultRecord) × IsFaultOf frame context reply.0.status fault
            × (report_failure frame context reply.0.status reply.1.faults
                ≡ faults_after reply.0.status fault faults))
          moved.same_faults (reported-faults frame context reply.0.status reply.1.faults)

-- The event tells of the call, its caller and the status of the reply.
abbrev pub IsEventOf :
    AuditEventKind
    → SyscallDescriptor
    → SyscallFrame
    → DispatchContext
    → KernelStatus
    → AuditEvent
    → Type 0
IsEventOf kind d frame context status event =
    (event.kind ≡ kind)
    × (event.syscall ≡ some d.number)
    × (event.task_id ≡ context.task_id)
    × (event.trace ≡ frame.trace)
    × (event.status ≡ status)

pub recorded :
    (kind : AuditEventKind) (d : SyscallDescriptor) (frame : SyscallFrame)
    (context : DispatchContext) (status : KernelStatus) (reason : String) (l : AuditLog)
    → (event : AuditEvent) × IsEventOf kind d frame context status event
      × (record_syscall kind context.task_id d.number status frame.trace reason l ≡ append event l)
unfolding record_syscall syscall_event
recorded kind d frame context status reason l = (_, (refl, refl, refl, refl, refl), refl)

pub rejection_event-audited :
    (d : SyscallDescriptor) (kind : AuditEventKind) (status : KernelStatus)
    → d.audit_event ≡ some kind
    → rejection_event d status ≡ some kind
unfolding rejection_event
rejection_event-audited d kind status h = rw (h, rejection_event) refl

pub audit_outcome-audited :
    (d : SyscallDescriptor) (kind : AuditEventKind) (frame : SyscallFrame)
    (context : DispatchContext) (status : KernelStatus) (l : AuditLog)
    → d.audit_event ≡ some kind
    → audit_outcome d frame context status l
      ≡ record_syscall kind context.task_id d.number status frame.trace (outcome_reason status) l
unfolding audit_outcome
audit_outcome-audited d kind frame context status l h = rw (h, audit_outcome) refl

-- A call whose descriptor names an audit event leaves exactly one more event in the log, of that kind,
-- with the call's number, the caller's task and trace and the status of the answer, whether it was
-- rejected, failed or succeeded.
pub handle_syscall-audited :
    (frame : SyscallFrame) (context : DispatchContext) (k : Kernel) (d : SyscallDescriptor)
    (kind : AuditEventKind)
    → lookup frame.number ≡ some d
    → d.audit_event ≡ some kind
    → let r = handle_syscall frame context k in
      (event : AuditEvent) × IsEventOf kind d frame context r.0.status event
      × (r.1.audit ≡ append event k.audit)
unfolding record_outcome record_rejected_syscall
handle_syscall-audited frame context k d kind found audited =
    handle_syscall_cases
      (λ r.
        (event : AuditEvent) × IsEventOf kind d frame context r.0.status event
        × (r.1.audit ≡ append event k.audit))
      frame context k
      (λ e _.
        let (event, told, logged) =
          recorded kind d frame context (Error.status e) (Error.reason e) k.audit in
        (
          event,
          told,
          audit-rejected frame context e d kind k.audit found
                (rejection_event-audited d kind (Error.status e) audited)
              ∙ logged,
        ))
      λ f passed.
        let same : f ≡ d =
          some-injective (sym ((validate_ok_iff frame context f).0 passed).0 ∙ found) in
        let reply : Reply = dispatch_validated f.number frame context k in
        let moved : IsStep (may_yield f.number) k reply.1 =
          dispatch_validated-IsStep f.number frame context k in
        let (event, told, logged) =
          recorded kind f frame context reply.0.status (outcome_reason reply.0.status)
            reply.1.audit in
        (
          event,
          subst (λ g. IsEventOf kind g frame context reply.0.status event) same told,
          audit_outcome-audited f kind frame context reply.0.status reply.1.audit
                (ap (λ g. g.audit_event) same ∙ audited)
              ∙ logged
              ∙ ap (append event) moved.same_audit,
        )
