-- ===== src/Kernel/Entry/History.antt =====
-- src/lib.rs, `Kernel`: what holds of the whole kernel through every sequence of system calls.
use mathlib.Core.Path.{◌≡◌, refl, ap, subst, sym}
use mathlib.Core.Logic.{inl, inr}
use mathlib.Core.Bool.{Bool, false}
use mathlib.Core.List.{List, [], ◌∷◌}
use native.Mathlib.Omega.{arith}
use alani_kernel.Common.Tests.{Option-cases, Bool-cases}
use alani_kernel.Error
use alani_kernel.Error.{KernelError, KernelStatus, is_ok}
use alani_kernel.Audit.{AuditEvent, AuditLog, append, record_syscall}
use alani_kernel.Audit.Log.{appended}
use alani_kernel.Fault.{FaultRecord, FaultReporter, report}
use alani_kernel.Fault.Reporter.{reported}
use alani_kernel.Memory.Manager.Sharing.{IsTable, run-IsTable}
use alani_kernel.Capability.{empty}
use alani_kernel.Scheduler.{SchedulerClass, default_priority, unlimited}
use alani_kernel.Scheduler.Policy
use alani_kernel.Scheduler.Policy.Calls
use alani_kernel.Scheduler.Policy.System.{IsSystem, new-IsSystem, step-IsSystem, run-IsSystem}
use alani_kernel.Syscall.Table.{SyscallDescriptor}
use alani_kernel.Syscall.{SyscallFrame, DispatchContext, lookup}
use alani_kernel.Kernel.{Kernel, initialize_host}
use alani_kernel.Kernel.Boot.{unbooted, booted, with_init-step, initialize_host_lem}
use alani_kernel.Kernel.Handlers.{Reply, dispatch_validated}
use alani_kernel.Kernel.Entry.{
  handle_syscall, record_rejected_syscall, record_outcome, audit_rejection, audit_outcome,
  rejection_event,
}
use alani_kernel.Kernel.Entry.Effects.{may_yield, IsStep, dispatch_validated-IsStep}
use alani_kernel.Kernel.Entry.Cases.{handle_syscall_cases}
use alani_kernel.Kernel.Entry.Evidence.{faults_after, handle_syscall-faults}

-- The log is what some events leave of an empty one; likewise the faults.
abbrev pub IsLog : AuditLog → Type 0
IsLog l = (es : List AuditEvent) × (l ≡ appended es)

abbrev pub IsReporter : FaultReporter → Type 0
IsReporter r = (fs : List FaultRecord) × (r ≡ reported fs)

-- The table of tasks and that of shared regions are well formed, no task has a capability, and the audit
-- log and the faults are buffers that only their own methods wrote.
pub record IsKernel (k : Kernel) : Type 0 where
  pub tasks : IsSystem k.scheduler
  pub table : IsTable k.memory
  pub log : IsLog k.audit
  pub reporter : IsReporter k.faults

append-IsLog : (e : AuditEvent) (l : AuditLog) → IsLog l → IsLog (append e l)
unfolding appended
append-IsLog e l (es, h) = (e ∷ es, ap (append e) h)

report-IsReporter : (f : FaultRecord) (r : FaultReporter) → IsReporter r → IsReporter (report f r)
unfolding reported
report-IsReporter f r (fs, h) = (f ∷ fs, ap (report f) h)

faults_after-IsReporter :
    (status : KernelStatus) (f : FaultRecord) (r : FaultReporter)
    → IsReporter r
    → IsReporter (faults_after status f r)
faults_after-IsReporter status f r h = elim (Bool-cases (is_ok status)) [
  | inl fine ↦ rw fine h
  | inr failed ↦ rw failed (report-IsReporter f r h)
]

audit_rejection-IsLog :
    (frame : SyscallFrame) (context : DispatchContext) (e : KernelError) (l : AuditLog)
    → IsLog l
    → IsLog (audit_rejection frame context e l)
unfolding audit_rejection record_syscall
audit_rejection-IsLog frame context e l h = elim (Option-cases (lookup frame.number)) [
  | inl unknown ↦ rw (unknown, audit_rejection) h
  | inr (d, found) ↦ elim (Option-cases (rejection_event d (Error.status e))) [
    | inl quiet ↦ rw (found, audit_rejection) (rw quiet h)
    | inr (kind, audited) ↦ rw (found, audit_rejection) (rw audited (append-IsLog _ l h))
  ]
]

audit_outcome-IsLog :
    (d : SyscallDescriptor) (frame : SyscallFrame) (context : DispatchContext)
    (status : KernelStatus) (l : AuditLog)
    → IsLog l
    → IsLog (audit_outcome d frame context status l)
unfolding audit_outcome record_syscall
audit_outcome-IsLog d frame context status l h = elim (Option-cases d.audit_event) [
  | inl quiet ↦ rw (quiet, audit_outcome) h
  | inr (kind, audited) ↦ rw (audited, audit_outcome) (append-IsLog _ l h)
]

-- A step of the handlers keeps the invariant.
step-IsKernel : (b : Bool) (k l : Kernel) → IsStep b k l → IsKernel k → IsKernel l
step-IsKernel b k l s v =
    let (cs, scheduled, own) = s.scheduling in
    let (ms, shared) = s.sharing in
    record {
      tasks = subst IsSystem (sym scheduled) (run-IsSystem b k.scheduler cs own v.tasks);
      table = subst IsTable (sym shared) (run-IsTable k.memory ms v.table);
      log = subst IsLog (sym s.same_audit) v.log;
      reporter = subst IsReporter (sym s.same_faults) v.reporter;
    }

handle_syscall-IsReporter :
    (frame : SyscallFrame) (context : DispatchContext) (k : Kernel)
    → IsReporter k.faults
    → IsReporter (handle_syscall frame context k).1.faults
handle_syscall-IsReporter frame context k h =
    let (fault, told, left) = handle_syscall-faults frame context k in
    subst IsReporter (sym left)
      (faults_after-IsReporter (handle_syscall frame context k).0.status fault k.faults h)

-- With the faults left to `handle_syscall-IsReporter`.
pub handle_syscall-IsKernel :
    (frame : SyscallFrame) (context : DispatchContext) (k : Kernel)
    → IsKernel k
    → IsKernel (handle_syscall frame context k).1
unfolding record_rejected_syscall record_outcome
handle_syscall-IsKernel frame context k v =
    handle_syscall_cases (λ r. IsReporter r.1.faults → IsKernel r.1) frame context k
      (λ e _ reporter. record {
        tasks = v.tasks;
        table = v.table;
        log = audit_rejection-IsLog frame context e k.audit v.log;
        reporter = reporter;
      })
      (λ d _ reporter.
        let reply : Reply = dispatch_validated d.number frame context k in
        let w : IsKernel reply.1 =
          step-IsKernel (may_yield d.number) k reply.1
            (dispatch_validated-IsStep d.number frame context k) v in
        record {
          tasks = w.tasks;
          table = w.table;
          log = audit_outcome-IsLog d frame context reply.0.status reply.1.audit w.log;
          reporter = reporter;
        })
      (handle_syscall-IsReporter frame context k v.reporter)

-- The kernel after system calls, each with the context it is made in.
unfoldable pub run : Kernel → List (SyscallFrame × DispatchContext) → Kernel
run k [] = k
run k ((frame, context) ∷ calls) = run (handle_syscall frame context k).1 calls

-- Whatever system calls are made, by whomever and with whatever arguments, the kernel keeps its tables of
-- tasks and of shared regions well formed, and no system call gives a task a capability.
pub run-IsKernel :
    (k : Kernel) (calls : List (SyscallFrame × DispatchContext))
    → IsKernel k
    → IsKernel (run k calls)
unfolding run
run-IsKernel k [] v = v
run-IsKernel k ((frame, context) ∷ calls) v =
    run-IsKernel (handle_syscall frame context k).1 calls
      (handle_syscall-IsKernel frame context k v)

-- A kernel before its first use, whose memory manager and buffers are new.
pub record IsNew (k : Kernel) : Type 0 where
  pub table : IsTable k.memory
  pub log : IsLog k.audit
  pub reporter : IsReporter k.faults

booted-IsKernel : (k : Kernel) → IsNew k → IsKernel (booted k)
booted-IsKernel k h = record {
  tasks = subst IsSystem with_init-step (
      step-IsSystem false Policy.new
        (Calls.Call.spawns 0 SchedulerClass.runtime default_priority empty unlimited)
        (refl, refl, omega arith) new-IsSystem);
  table = record {
    size = h.table.size;
    id_pos = h.table.id_pos;
    id_word = h.table.id_word;
    unique = h.table.unique;
    fresh = h.table.fresh;
  };
  log = h.log;
  reporter = h.reporter;
}

-- After the boot of a kernel with any configuration, memory map and devices, a well-formed table
-- of shared regions and a log and faults that only their own methods wrote, and any sequence of
-- system calls, the tables of tasks and of shared regions are well formed, no task has a
-- capability, and the log and the faults are still as only their own methods write them.
pub run-initialize_host-IsKernel :
    (k : Kernel) (calls : List (SyscallFrame × DispatchContext))
    → IsNew k
    → IsKernel (run (initialize_host (unbooted k)).1 calls)
run-initialize_host-IsKernel k calls h =
    rw (initialize_host_lem k) (run-IsKernel (booted k) calls (booted-IsKernel k h))
