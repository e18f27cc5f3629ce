-- ===== src/Kernel/Entry/Cases.antt =====
-- src/lib.rs, `Kernel::handle_syscall`: its two outcomes, and what a rejected call leaves as it was.
use mathlib.Core.Path.{◌≡◌, refl}
use mathlib.Core.Logic.{◌≢◌, inl, inr}
use native.Mathlib.Omega.{arith}
use alani_kernel.Error
use alani_kernel.Error.{KernelError, KernelStatus, is_ok, status_eq, status_code}
use alani_kernel.Outcome.{ok, err, KernelResult-cases}
use alani_kernel.Syscall.Table.{SyscallDescriptor}
use alani_kernel.Syscall.{SyscallFrame, DispatchContext, fail, validate}
use alani_kernel.Kernel.{Kernel}
use alani_kernel.Kernel.Handlers.{Reply, dispatch_validated}
use alani_kernel.Kernel.Entry.{handle_syscall, record_rejected_syscall, record_outcome}

-- The two ways through `handle_syscall`.
pub handle_syscall_cases {ℓ} :
    (P : Reply → Type ℓ) (frame : SyscallFrame) (context : DispatchContext) (k : Kernel)
    → ((e : KernelError)
        → validate frame context ≡ err e
        → P (fail e, record_rejected_syscall frame context e k))
    → ((d : SyscallDescriptor)
        → validate frame context ≡ ok d
        → (let reply = dispatch_validated d.number frame context k in
            P (reply.0, record_outcome d frame context reply.0.status reply.1)))
    → P (handle_syscall frame context k)
unfolding handle_syscall
handle_syscall_cases P frame context k rejected accepted =
    elim (KernelResult-cases (validate frame context)) [
      | inr (e, refused) ↦ rw (refused, handle_syscall) (rejected e refused)
      | inl (d, passed) ↦ rw (passed, handle_syscall) (accepted d passed)
    ]

-- The memory, the scheduler, the devices, the boot progress and the configuration are as they were.
pub record IsUntouched (k l : Kernel) : Type 0 where
  pub same_config : l.config ≡ k.config
  pub same_boot : l.boot ≡ k.boot
  pub same_memory : l.memory ≡ k.memory
  pub same_scheduler : l.scheduler ≡ k.scheduler
  pub same_devices : l.devices ≡ k.devices

pub rejected-IsUntouched :
    (frame : SyscallFrame) (context : DispatchContext) (e : KernelError) (k : Kernel)
    → IsUntouched k (record_rejected_syscall frame context e k)
unfolding record_rejected_syscall
rejected-IsUntouched frame context e k = record {
  same_config = refl;
  same_boot = refl;
  same_memory = refl;
  same_scheduler = refl;
  same_devices = refl;
}

-- No error has the status of a success.
pub status-ne-ok : (e : KernelError) → Error.status e ≢ KernelStatus.ok
unfolding Error.status
status-ne-ok e h = ground arith
