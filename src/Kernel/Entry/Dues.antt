-- ===== src/Kernel/Entry/Dues.antt =====
-- src/lib.rs, `Kernel::audit_outcome` and `record_rejected_syscall`: what one call is to leave in the audit
-- log.
use mathlib.Core.Path.{◌≡◌, refl, ◌∙◌, ap, sym}
use mathlib.Core.Logic.{inl, inr}
use mathlib.Core.Bool.{Bool, true, false, ◌||◌}
use mathlib.Core.Option.{Option, none, some}
use mathlib.Core.List.{List, [], ◌∷◌, map}
use native.Mathlib.Omega.{arith}
use alani_kernel.Common.Tests.{is_some, if◌then◌else◌, Option-cases}
use alani_kernel.Error
use alani_kernel.Error.{KernelError, KernelStatus, status_eq}
use alani_kernel.Outcome.{KernelResult, ok, err}
use alani_kernel.Capability.{TaskId}
use alani_kernel.Abi.{TraceContext}
use alani_kernel.Abi.Numbers.{SyscallNumber}
use alani_kernel.Audit.{AuditEvent, AuditEventKind, AuditLog, append}
use alani_kernel.Syscall.Table.{SyscallDescriptor}
use alani_kernel.Syscall.{SyscallFrame, DispatchContext, lookup, validate}
use alani_kernel.Syscall.Dispatch.{validate_ok_iff}
use alani_kernel.Kernel.Entry.{audit_rejection, rejection_event, audit_outcome, outcome_reason}
use alani_kernel.Kernel.Entry.Denial.{audit-rejected}
use alani_kernel.Kernel.Entry.Evidence.{IsEventOf, recorded, audit_outcome-audited}

-- What an event of the log says of a call.
pub record Testimony : Type 0 where
  pub syscall : Option SyscallNumber
  pub task_id : TaskId
  pub status : KernelStatus
  pub trace : TraceContext

abbrev pub testimony : AuditEvent → Testimony
testimony e = record {
  syscall = e.syscall;
  task_id = e.task_id;
  status = e.status;
  trace = e.trace;
}

-- The calls that must leave an event: those whose descriptor names one, and those of the table that are
-- denied for want of a permission.
abbrev pub is_denial : KernelResult SyscallDescriptor → Bool
is_denial (ok _) = false
is_denial (err e) = status_eq (Error.status e) KernelStatus.permission_denied

abbrev pub must_audit : SyscallFrame → DispatchContext → Option SyscallDescriptor → Bool
must_audit frame context none = false
must_audit frame context (some d) = is_some d.audit_event || is_denial (validate frame context)

-- What a call is to leave in the log, given its answer.
abbrev pub due :
    SyscallFrame → DispatchContext → KernelStatus → Option SyscallDescriptor → List Testimony
due frame context status none = []
due frame context status (some d) =
    if must_audit frame context (some d)
    then record {
      syscall = some d.number;
      task_id = context.task_id;
      status = status;
      trace = frame.trace;
    }
      ∷ []
    else []

-- The log after events, the oldest first.
abbrev pub append_all : List AuditEvent → AuditLog → AuditLog
append_all [] l = l
append_all (e ∷ es) l = append_all es (append e l)

-- The log `after` has exactly the events that are due beyond those of `before`.
abbrev pub Testifies : List Testimony → AuditLog → AuditLog → Type 0
Testifies due before after =
    (es : List AuditEvent) × (after ≡ append_all es before) × (map testimony es ≡ due)

rejection_event-some :
    (d : SyscallDescriptor) (status : KernelStatus)
    → is_some (rejection_event d status)
      ≡ (is_some d.audit_event || status_eq status KernelStatus.permission_denied)
unfolding rejection_event
rejection_event-some d status = ground arith

-- The testimony that a call is due to leave, if it is.
abbrev testimony_of : SyscallFrame → DispatchContext → KernelStatus → SyscallDescriptor → Testimony
testimony_of frame context status d = record {
  syscall = some d.number;
  task_id = context.task_id;
  status = status;
  trace = frame.trace;
}

due-audited :
    (frame : SyscallFrame) (context : DispatchContext) (status : KernelStatus)
    (d : SyscallDescriptor) (b : Bool)
    → lookup frame.number ≡ some d
    → must_audit frame context (some d) ≡ b
    → due frame context status (lookup frame.number)
      ≡ (if b then testimony_of frame context status d ∷ [] else [])
due-audited frame context status d b found h =
    rw found (ap (λ c. if c then testimony_of frame context status d ∷ [] else []) h)

testimony-event :
    (kind : AuditEventKind) (d : SyscallDescriptor) (frame : SyscallFrame)
    (context : DispatchContext) (status : KernelStatus) (event : AuditEvent)
    → IsEventOf kind d frame context status event
    → testimony event ≡ testimony_of frame context status d
testimony-event kind d frame context status event (_, number, caller, trace, answer) = cc

must_audit-rejected :
    (frame : SyscallFrame) (context : DispatchContext) (e : KernelError) (d : SyscallDescriptor)
    → validate frame context ≡ err e
    → must_audit frame context (some d) ≡ is_some (rejection_event d (Error.status e))
must_audit-rejected frame context e d refused =
    ap (λ v. is_some d.audit_event || is_denial v) refused
    ∙ sym (rejection_event-some d (Error.status e))

audit_rejection-quiet :
    (frame : SyscallFrame) (context : DispatchContext) (e : KernelError) (d : SyscallDescriptor)
    (l : AuditLog)
    → lookup frame.number ≡ some d
    → rejection_event d (Error.status e) ≡ none
    → audit_rejection frame context e l ≡ l
unfolding audit_rejection
audit_rejection-quiet frame context e d l found quiet = rw (found, audit_rejection) (rw quiet refl)

pub rejected-Testifies :
    (frame : SyscallFrame) (context : DispatchContext) (e : KernelError) (l : AuditLog)
    → validate frame context ≡ err e
    → Testifies
        (due frame context (Error.status e) (lookup frame.number))
        l
        (audit_rejection frame context e l)
unfolding audit_rejection
rejected-Testifies frame context e l refused = elim (Option-cases (lookup frame.number)) [
  | inl unknown ↦ rw (unknown, audit_rejection) ([], refl, refl)
  | inr (d, found) ↦ elim (Option-cases (rejection_event d (Error.status e))) [
    | inl quiet ↦ (
      [],
      audit_rejection-quiet frame context e d l found quiet,
      sym (
          due-audited frame context (Error.status e) d false found
            (must_audit-rejected frame context e d refused ∙ ap is_some quiet)),
    )
    | inr (kind, audited) ↦
        let (event, told, logged) =
          recorded kind d frame context (Error.status e) (Error.reason e) l in
        (
          event ∷ [],
          audit-rejected frame context e d kind l found audited ∙ logged,
          ap (λ t. t ∷ []) (testimony-event kind d frame context (Error.status e) event told)
              ∙ sym (
                  due-audited frame context (Error.status e) d true found
                    (must_audit-rejected frame context e d refused ∙ ap is_some audited)),
        )
  ]
]

must_audit-accepted :
    (frame : SyscallFrame) (context : DispatchContext) (d : SyscallDescriptor) (b : Bool)
    → validate frame context ≡ ok d
    → is_some d.audit_event ≡ b
    → must_audit frame context (some d) ≡ b
must_audit-accepted frame context d b passed h =
    ap (λ v. is_some d.audit_event || is_denial v) passed ∙ ground (arith, h)

audit_outcome-quiet :
    (d : SyscallDescriptor) (frame : SyscallFrame) (context : DispatchContext)
    (status : KernelStatus) (l : AuditLog)
    → d.audit_event ≡ none
    → audit_outcome d frame context status l ≡ l
unfolding audit_outcome
audit_outcome-quiet d frame context status l quiet = rw (quiet, audit_outcome) refl

pub accepted-Testifies :
    (frame : SyscallFrame) (context : DispatchContext) (d : SyscallDescriptor)
    (status : KernelStatus) (l : AuditLog)
    → validate frame context ≡ ok d
    → Testifies
        (due frame context status (lookup frame.number))
        l
        (audit_outcome d frame context status l)
accepted-Testifies frame context d status l passed =
    let found : lookup frame.number ≡ some d = ((validate_ok_iff frame context d).0 passed).0 in
    elim (Option-cases d.audit_event) [
      | inl quiet ↦ (
        [],
        audit_outcome-quiet d frame context status l quiet,
        sym (
            due-audited frame context status d false found
              (must_audit-accepted frame context d false passed (ap is_some quiet))),
      )
      | inr (kind, audited) ↦
          let (event, told, logged) =
            recorded kind d frame context status (outcome_reason status) l in
          (
            event ∷ [],
            audit_outcome-audited d kind frame context status l audited ∙ logged,
            ap (λ t. t ∷ []) (testimony-event kind d frame context status event told)
                ∙ sym (
                    due-audited frame context status d true found
                      (must_audit-accepted frame context d true passed (ap is_some audited))),
          )
    ]
