-- ===== src/Kernel/Entry/Fixed.antt =====
-- src/lib.rs, `Kernel`: what no sequence of system calls changes.
use mathlib.Core.Path.{◌≡◌, refl, ◌∙◌, ap}
use mathlib.Core.List.{List, [], ◌∷◌}
use alani_kernel.Memory.Manager.Sharing.{settings, run-settings}
use alani_kernel.Syscall.{SyscallFrame, DispatchContext}
use alani_kernel.Kernel.{Kernel}
use alani_kernel.Kernel.Handlers.{dispatch_validated}
use alani_kernel.Kernel.Entry.{handle_syscall, record_rejected_syscall, record_outcome}
use alani_kernel.Kernel.Entry.Effects.{may_yield, IsStep, dispatch_validated-IsStep}
use alani_kernel.Kernel.Entry.Cases.{handle_syscall_cases}
use alani_kernel.Kernel.Entry.History.{run}

-- What no system call may change: all but the tasks, the shared regions, the log and the faults.
pub record IsFixed (k l : Kernel) : Type 0 where
  pub same_config : l.config ≡ k.config
  pub same_boot : l.boot ≡ k.boot
  pub same_devices : l.devices ≡ k.devices
  pub same_settings : settings l.memory ≡ settings k.memory

handle_syscall-IsFixed :
    (frame : SyscallFrame) (context : DispatchContext) (k : Kernel)
    → IsFixed k (handle_syscall frame context k).1
unfolding record_rejected_syscall record_outcome
handle_syscall-IsFixed frame context k =
    handle_syscall_cases (λ r. IsFixed k r.1) frame context k
      (λ e _. record {
        same_config = refl;
        same_boot = refl;
        same_devices = refl;
        same_settings = refl;
      })
      λ d _.
        let l : Kernel = (dispatch_validated d.number frame context k).1 in
        let s : IsStep (may_yield d.number) k l =
          dispatch_validated-IsStep d.number frame context k in
        record {
          same_config = s.same_config;
          same_boot = s.same_boot;
          same_devices = s.same_devices;
          same_settings = ap settings s.sharing.1 ∙ run-settings k.memory s.sharing.0;
        }

-- Whatever system calls are made, the configuration, the boot progress, the devices, the memory map, the
-- allocator phase and the bounds of user memory stay as they were.
pub run-IsFixed :
    (k : Kernel) (calls : List (SyscallFrame × DispatchContext)) → IsFixed k (run k calls)
unfolding run
run-IsFixed k [] = record {
  same_config = refl;
  same_boot = refl;
  same_devices = refl;
  same_settings = refl;
}
run-IsFixed k ((frame, context) ∷ calls) =
    let l : Kernel = (handle_syscall frame context k).1 in
    let first : IsFixed k l = handle_syscall-IsFixed frame context k in
    let rest : IsFixed l (run l calls) = run-IsFixed l calls in
    record {
      same_config = rest.same_config ∙ first.same_config;
      same_boot = rest.same_boot ∙ first.same_boot;
      same_devices = rest.same_devices ∙ first.same_devices;
      same_settings = rest.same_settings ∙ first.same_settings;
    }
