-- ===== src/Kernel/Entry/Testimony.antt =====
-- src/lib.rs, `Kernel::handle_syscall`: the audit log after a whole history of system calls.
use mathlib.Core.Path.{◌≡◌, refl, ◌∙◌, ap, ap₂, subst, sym}
use mathlib.Core.List.{List, [], ◌∷◌, ◌++◌, map-append}
use alani_kernel.Audit.{AuditEvent, AuditLog, append}
use alani_kernel.Syscall.{SyscallFrame, DispatchContext, lookup}
use alani_kernel.Kernel.{Kernel}
use alani_kernel.Kernel.Handlers.{Reply, dispatch_validated}
use alani_kernel.Kernel.Entry.{
  handle_syscall, record_rejected_syscall, record_outcome, audit_outcome,
}
use alani_kernel.Kernel.Entry.Effects.{may_yield, IsStep, dispatch_validated-IsStep}
use alani_kernel.Kernel.Entry.Cases.{handle_syscall_cases}
use alani_kernel.Kernel.Entry.History.{run}
use alani_kernel.Kernel.Entry.Dues.{
  Testimony, testimony, due, append_all, Testifies, rejected-Testifies, accepted-Testifies,
}

handle_syscall-Testifies :
    (frame : SyscallFrame) (context : DispatchContext) (k : Kernel)
    → let r = handle_syscall frame context k in
      Testifies (due frame context r.0.status (lookup frame.number)) k.audit r.1.audit
unfolding record_rejected_syscall record_outcome
handle_syscall-Testifies frame context k =
    handle_syscall_cases
      (λ r. Testifies (due frame context r.0.status (lookup frame.number)) k.audit r.1.audit) frame
      context k (λ e refused. rejected-Testifies frame context e k.audit refused)
      λ d passed.
        let reply : Reply = dispatch_validated d.number frame context k in
        let moved : IsStep (may_yield d.number) k reply.1 =
          dispatch_validated-IsStep d.number frame context k in
        subst
          (λ l.
            Testifies (due frame context reply.0.status (lookup frame.number)) l
              (audit_outcome d frame context reply.0.status reply.1.audit))
          moved.same_audit (accepted-Testifies frame context d reply.0.status reply.1.audit passed)

-- What the calls of a history are to leave in the log, the oldest first.
abbrev pub history : Kernel → List (SyscallFrame × DispatchContext) → List Testimony
history k [] = []
history k ((frame, context) ∷ calls) =
    let r = handle_syscall frame context k in
    due frame context r.0.status (lookup frame.number) ++ history r.1 calls

append_all-append :
    (es fs : List AuditEvent) (l : AuditLog)
    → append_all (es ++ fs) l ≡ append_all fs (append_all es l)
append_all-append [] fs l = refl
append_all-append (e ∷ es) fs l = append_all-append es fs (append e l)

-- However many system calls are made, the audit log becomes what it was with exactly one event appended for
-- each call that must be audited, in the order of the calls, with the number of the call, the caller's task
-- and trace and the status of the answer: calls whose descriptor names an audit event, however they end, and
-- other calls of the table if they are denied for want of a permission. For no other call an event is
-- appended.
pub run-Testifies :
    (k : Kernel) (calls : List (SyscallFrame × DispatchContext))
    → Testifies (history k calls) k.audit (run k calls).audit
unfolding run
run-Testifies k [] = ([], refl, refl)
run-Testifies k ((frame, context) ∷ calls) =
    let r : Reply = handle_syscall frame context k in
    let (es, now, told) = handle_syscall-Testifies frame context k in
    let (fs, later, rest) = run-Testifies r.1 calls in
    (
      es ++ fs,
      later ∙ ap (append_all fs) now ∙ sym (append_all-append es fs k.audit),
      map-append testimony es fs ∙ ap₂ (λ a b. a ++ b) told rest,
    )
