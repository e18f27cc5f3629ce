-- ===== src/Kernel/Entry/Success.antt =====
-- src/lib.rs, `Kernel::handle_syscall`: when a call succeeds.
use mathlib.Core.Path.{◌≡◌, ◌∙◌, subst, sym}
use mathlib.Core.Logic.{◌↔◌, inl, inr}
use mathlib.Core.Bool.{true, false}
use mathlib.Core.Option.{some}
use native.Mathlib.Omega.{arith}
use alani_kernel.Common.Tests.{some-injective}
use alani_kernel.Error.{KernelStatus}
use alani_kernel.Capability.{Capability, contains}
use alani_kernel.Syscall.Table.{SyscallDescriptor}
use alani_kernel.Syscall.{SyscallFrame, DispatchContext, ExecutionContext, lookup, allows_context}
use alani_kernel.Syscall.Dispatch.{IsAuthorized, validate_ok_iff}
use alani_kernel.Kernel.{Kernel}
use alani_kernel.Kernel.Handlers.{dispatch_validated}
use alani_kernel.Kernel.Entry.{handle_syscall}
use alani_kernel.Kernel.Entry.Cases.{handle_syscall_cases, status-ne-ok}

-- A call succeeds exactly if its descriptor is found, its context and its caller are admitted, and its
-- handler succeeds.
pub handle_syscall_ok_iff :
    (frame : SyscallFrame) (context : DispatchContext) (k : Kernel)
    → ((handle_syscall frame context k).0.status ≡ KernelStatus.ok) ↔ (
        (d : SyscallDescriptor) × (lookup frame.number ≡ some d)
        × (allows_context d context.execution ≡ true)
        × IsAuthorized context.capabilities d
        × ((dispatch_validated d.number frame context k).0.status ≡ KernelStatus.ok))
unfolding handle_syscall
handle_syscall_ok_iff frame context k = (
  handle_syscall_cases
      (λ r.
        r.0.status ≡ KernelStatus.ok
        → (d : SyscallDescriptor) × (lookup frame.number ≡ some d)
          × (allows_context d context.execution ≡ true)
          × IsAuthorized context.capabilities d
          × ((dispatch_validated d.number frame context k).0.status ≡ KernelStatus.ok))
      frame context k (λ e _ answered. absurd (status-ne-ok e answered))
      (λ d passed answered.
        let admitted = (validate_ok_iff frame context d).0 passed in
        (d, admitted.0, admitted.1, admitted.2, answered)),
  λ (d, found, allowed, holds, answered).
      rw ((validate_ok_iff frame context d).1 (found, allowed, holds), handle_syscall) answered,
)

allows_context-task :
    (d : SyscallDescriptor) (execution : ExecutionContext)
    → d.early_boot_safe ≡ false
    → d.interrupt_safe ≡ false
    → (allows_context d execution ≡ true) ↔ (execution ≡ ExecutionContext.task)
unfolding allows_context
allows_context-task d execution early interrupt = ground (arith, early, interrupt)

-- The call succeeds exactly if a task with the capability makes it and the handler succeeds.
abbrev pub IsTaskCall :
    SyscallFrame → DispatchContext → Kernel → SyscallDescriptor → Capability → Type 0
IsTaskCall frame context k d c = ((handle_syscall frame context k).0.status ≡ KernelStatus.ok) ↔ (
    (context.execution ≡ ExecutionContext.task)
    × (contains context.capabilities c ≡ true)
    × ((dispatch_validated d.number frame context k).0.status ≡ KernelStatus.ok))

-- A call with a known entry that only a task with one capability may make.
pub known_call_ok_iff :
    (frame : SyscallFrame) (context : DispatchContext) (k : Kernel) (d : SyscallDescriptor)
    (c : Capability)
    → lookup frame.number ≡ some d
    → d.required_capability ≡ some c
    → d.early_boot_safe ≡ false
    → d.interrupt_safe ≡ false
    → IsTaskCall frame context k d c
known_call_ok_iff frame context k d c found asked early interrupt = (
  (λ answered.
      let (e, found_e, allowed, holds, went) = (handle_syscall_ok_iff frame context k).0 answered in
      let same : e ≡ d = some-injective (sym found_e ∙ found) in
      (
        (allows_context-task d context.execution early interrupt).0
            (subst (λ x. allows_context x context.execution ≡ true) same allowed),
        held (subst (IsAuthorized context.capabilities) same holds),
        subst (λ x. (dispatch_validated x.number frame context k).0.status ≡ KernelStatus.ok) same
            went,
      )),
  λ (task, holds, went). (handle_syscall_ok_iff frame context k).1 (
    d,
    found,
    (allows_context-task d context.execution early interrupt).1 task,
    inr (c, asked, holds),
    went,
  ),
)
  where
    held : IsAuthorized context.capabilities d → contains context.capabilities c ≡ true
    held (inl free) = absurd (ground (arith, free, asked))
    held (inr (other, asked_other, holds)) =
        subst (λ x. contains context.capabilities x ≡ true)
          (some-injective (sym asked_other ∙ asked)) holds
