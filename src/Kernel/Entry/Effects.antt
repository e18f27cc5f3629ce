-- ===== src/Kernel/Entry/Effects.antt =====
-- src/lib.rs, `Kernel::dispatch_validated`: what the handlers may change of the kernel.
use Prim.Native.Nat.{ℕ, ◌<◌}
use mathlib.Core.Path.{◌≡◌, refl}
use mathlib.Core.Logic.{inl, inr}
use mathlib.Core.Bool.{Bool, true, false}
use mathlib.Core.List.{List, [], ◌∷◌}
use native.Mathlib.Omega.{arith}
use alani_kernel.Common.Words.{u8_mod, u32_mod, cast}
use alani_kernel.Common.Lists.{All}
use alani_kernel.Outcome.{ok, KernelResult-cases}
use alani_kernel.Capability.{empty}
use alani_kernel.Abi.Numbers.{SyscallNumber, raw_number, number_eq}
use alani_kernel.Syscall.{SyscallFrame, DispatchContext}
use alani_kernel.Memory.{permissions_from_bits}
use alani_kernel.Memory.Manager.Sharing
use alani_kernel.Scheduler.{SchedulerClass, unlimited}
use alani_kernel.Scheduler.Policy.Calls
use alani_kernel.Scheduler.Policy.System.{IsSystemCall}
use alani_kernel.Kernel.{Kernel}
use alani_kernel.Kernel.Handlers.{
  dispatch_validated, sys_yield, sys_exit, sys_task_spawn, check_manifest, requested_priority,
  sys_task_cancel, sys_mem_share, sys_mem_seal, handle_of,
}

-- The one system call that may yield.
abbrev pub may_yield : SyscallNumber → Bool
may_yield n = number_eq n SyscallNumber.sys_yield

-- From one kernel to another by calls of the scheduler and of the memory manager alone, of which only those
-- of a system call that may yield do.
pub record IsStep (b : Bool) (k l : Kernel) : Type 0 where
  pub same_config : l.config ≡ k.config
  pub same_boot : l.boot ≡ k.boot
  pub same_devices : l.devices ≡ k.devices
  pub same_audit : l.audit ≡ k.audit
  pub same_faults : l.faults ≡ k.faults
  pub scheduling :
      (cs : List Calls.Call) × (l.scheduler ≡ Calls.run k.scheduler cs) × All (IsSystemCall b) cs
  pub sharing : (cs : List Sharing.Call) × (l.memory ≡ Sharing.run k.memory cs)

-- By no call, by one of the scheduler, by one of the memory manager.
stays : (b : Bool) (k : Kernel) → IsStep b k k
unfolding Calls.run Sharing.run
stays b k = record {
  same_config = refl;
  same_boot = refl;
  same_devices = refl;
  same_audit = refl;
  same_faults = refl;
  scheduling = ([], refl, tt);
  sharing = ([], refl);
}

schedules :
    (b : Bool) (k : Kernel) (c : Calls.Call)
    → IsSystemCall b c
    → IsStep b k (record k { scheduler = Calls.step k.scheduler c })
unfolding Calls.run Sharing.run
schedules b k c h = record {
  same_config = refl;
  same_boot = refl;
  same_devices = refl;
  same_audit = refl;
  same_faults = refl;
  scheduling = (c ∷ [], refl, (h, tt));
  sharing = ([], refl);
}

shares :
    (b : Bool) (k : Kernel) (c : Sharing.Call)
    → IsStep b k (record k { memory = Sharing.step k.memory c })
unfolding Calls.run Sharing.run
shares b k c = record {
  same_config = refl;
  same_boot = refl;
  same_devices = refl;
  same_audit = refl;
  same_faults = refl;
  scheduling = ([], refl, tt);
  sharing = (c ∷ [], refl);
}

requested_priority-bound :
    (frame : SyscallFrame) {priority : ℕ}
    → requested_priority frame ≡ ok priority
    → priority < u8_mod
unfolding requested_priority
requested_priority-bound frame h = ground (arith, h)

sys_task_spawn-IsStep :
    (frame : SyscallFrame) (context : DispatchContext) (k : Kernel)
    → IsStep false k (sys_task_spawn frame context k).1
unfolding sys_task_spawn
sys_task_spawn-IsStep frame context k = elim (KernelResult-cases (check_manifest k frame)) [
  | inr (e, refused) ↦ rw (refused, sys_task_spawn) (stays false k)
  | inl (tt, checked) ↦ elim (KernelResult-cases (requested_priority frame)) [
    | inr (e, refused) ↦ rw (checked, sys_task_spawn) (rw (refused, sys_task_spawn) (stays false k))
    | inl (priority, asked) ↦
        rw (checked, sys_task_spawn)
          (rw (asked, sys_task_spawn)
            (schedules false k
              (Calls.Call.spawns context.task_id SchedulerClass.runtime priority empty unlimited)
              (refl, refl, requested_priority-bound frame asked)))
  ]
]

sys_mem_share-IsStep :
    (frame : SyscallFrame) (task_id : ℕ) (k : Kernel)
    → IsStep false k (sys_mem_share frame task_id k).1
unfolding sys_mem_share
sys_mem_share-IsStep frame task_id k =
    elim (KernelResult-cases (permissions_from_bits (cast u32_mod frame.args.arg2))) [
      | inr (e, refused) ↦ rw (refused, sys_mem_share) (stays false k)
      | inl (permissions, read) ↦
          rw (read, sys_mem_share)
            (shares false k
              (Sharing.Call.shares task_id frame.args.arg0 frame.args.arg1 permissions))
    ]

-- No handler touches the configuration, the boot progress, the devices, the audit log or the faults; the
-- scheduler is changed by calls of its methods that give no task a capability and no bounded budget, among
-- them a yield only in `sys_yield`, and the memory manager by calls that share and seal.
pub dispatch_validated-IsStep :
    (n : SyscallNumber) (frame : SyscallFrame) (context : DispatchContext) (k : Kernel)
    → IsStep (may_yield n) k (dispatch_validated n frame context k).1
unfolding dispatch_validated sys_yield number_eq raw_number sys_exit sys_task_cancel sys_mem_seal
dispatch_validated-IsStep SyscallNumber.sys_yield frame context k =
    schedules true k Calls.Call.yields refl
dispatch_validated-IsStep SyscallNumber.sys_exit frame context k =
    schedules false k (Calls.Call.cancels context.task_id) tt
dispatch_validated-IsStep SyscallNumber.sys_task_spawn frame context k =
    sys_task_spawn-IsStep frame context k
dispatch_validated-IsStep SyscallNumber.sys_task_cancel frame context k =
    schedules false k (Calls.Call.cancels frame.args.arg0) tt
dispatch_validated-IsStep SyscallNumber.sys_mem_share frame context k =
    sys_mem_share-IsStep frame context.task_id k
dispatch_validated-IsStep SyscallNumber.sys_mem_seal frame context k =
    shares false k (Sharing.Call.seals (handle_of frame context.task_id))
dispatch_validated-IsStep _ frame context k = stays _ k
