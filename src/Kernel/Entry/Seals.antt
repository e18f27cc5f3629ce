-- ===== src/Kernel/Entry/Seals.antt =====
-- src/lib.rs, `Kernel::handle_syscall`: what becomes of a shared region that a system call seals.
use Prim.Native.Nat.{ℕ}
use mathlib.Core.Path.{◌≡◌, ◌∙◌, subst, sym}
use mathlib.Core.Logic.{inl, inr}
use mathlib.Core.List.{List, [], ◌∷◌}
use native.Mathlib.Omega.{arith}
use alani_kernel.Common.Tests.{Option-cases}
use alani_kernel.Common.Lists.{find}
use alani_kernel.Error.{KernelError, KernelStatus}
use alani_kernel.Outcome.{ok}
use alani_kernel.Abi.Numbers.{SyscallNumber, raw_number}
use alani_kernel.Memory.{SharedMemoryHandle, SharedRegion}
use alani_kernel.Memory.Manager.{MemoryManager, is_shared_as, seal_shared_region, shared_region}
use alani_kernel.Memory.Manager.Sharing
use alani_kernel.Memory.Manager.Sharing.{IsTable, seal_cases}
use alani_kernel.Memory.Manager.Sharing.Sealing.{IsSealedAs, SealedIn, run-SealedIn, seal_forever}
use alani_kernel.Memory.Manager.Sharing.Lookups.{shared_region-found, find-shared}
use alani_kernel.Syscall.{SyscallFrame, DispatchContext, succeed}
use alani_kernel.Syscall.Dispatch.{validate_ok_iff, raw_number-lookup}
use alani_kernel.Kernel.{Kernel, initialize_host}
use alani_kernel.Kernel.Boot.{unbooted}
use alani_kernel.Kernel.Handlers.{dispatch_validated, sys_mem_seal, handle_of, reply_with}
use alani_kernel.Kernel.Entry.{handle_syscall, record_outcome, record_rejected_syscall}
use alani_kernel.Kernel.Entry.Effects.{dispatch_validated-IsStep}
use alani_kernel.Kernel.Entry.Cases.{handle_syscall_cases, status-ne-ok}
use alani_kernel.Kernel.Entry.History.{
  IsNew, IsKernel, run, handle_syscall-IsKernel, run-initialize_host-IsKernel,
}

handle_syscall-SealedIn :
    (h : SharedMemoryHandle) (r : SharedRegion) (frame : SyscallFrame) (context : DispatchContext)
    (k : Kernel)
    → IsKernel k
    → SealedIn h r k.memory
    → SealedIn h r (handle_syscall frame context k).1.memory
unfolding record_rejected_syscall record_outcome
handle_syscall-SealedIn h r frame context k v sealed =
    handle_syscall_cases (λ out. SealedIn h r out.1.memory) frame context k (λ _ _. sealed)
      λ d _.
        let (cs, shared) = (dispatch_validated-IsStep d.number frame context k).sharing in
        subst (SealedIn h r) (sym shared) (run-SealedIn k.memory h r cs v.table sealed)

run_calls-SealedIn :
    (h : SharedMemoryHandle) (r : SharedRegion) (k : Kernel)
    (calls : List (SyscallFrame × DispatchContext))
    → IsKernel k
    → SealedIn h r k.memory
    → SealedIn h r (run k calls).memory
unfolding run
run_calls-SealedIn h r k [] v sealed = sealed
run_calls-SealedIn h r k ((frame, context) ∷ calls) v sealed =
    run_calls-SealedIn h r (handle_syscall frame context k).1 calls
      (handle_syscall-IsKernel frame context k v)
      (handle_syscall-SealedIn h r frame context k v sealed)

raw_number-seal :
    (n : SyscallNumber)
    → raw_number n ≡ raw_number SyscallNumber.sys_mem_seal
    → n ≡ SyscallNumber.sys_mem_seal
unfolding raw_number
raw_number-seal n h = ground arith

-- The region that a successful seal found, and what it left of it.
abbrev SealedFrom : MemoryManager → MemoryManager → SharedMemoryHandle → Type 0
SealedFrom m after h = (r : SharedRegion) × (shared_region m h ≡ ok r) × SealedIn h r after

sealed-ok :
    (m : MemoryManager) (h : SharedMemoryHandle) (n : ℕ)
    → IsTable m
    → (reply_with (λ _. succeed n 0) (seal_shared_region h m).0).status ≡ KernelStatus.ok
    → SealedFrom m (seal_shared_region h m).1 h
unfolding Sharing.run
sealed-ok m h n v answered = elim (Option-cases (find (is_shared_as h) m.shared_regions)) [
  | inr (r, found) ↦
      let here : shared_region m h ≡ ok r = shared_region-found m h found in
      let (_, s, still, sealed) = seal_forever m h r [] v here in
      (r, here, (s, find-shared (seal_shared_region h m).1 h s still, sealed))
  | inl gone ↦ absurd (
      seal_cases (λ out. (reply_with (λ _. succeed n 0) out.0).status ≡ KernelStatus.ok → ⊥) m h
        (λ _ failed. status-ne-ok KernelError.not_found failed)
        (λ r found _. absurd (ground (arith, gone, found))) answered)
]

dispatched-sealed :
    (frame : SyscallFrame) (context : DispatchContext) (k : Kernel) (n : SyscallNumber)
    → raw_number n ≡ raw_number SyscallNumber.sys_mem_seal
    → IsKernel k
    → (dispatch_validated n frame context k).0.status ≡ KernelStatus.ok
    → SealedFrom k.memory
        (dispatch_validated n frame context k).1.memory
        (handle_of frame context.task_id)
unfolding dispatch_validated sys_mem_seal
dispatched-sealed frame context k n named v =
    subst
      (λ m.
        (dispatch_validated m frame context k).0.status ≡ KernelStatus.ok
        → SealedFrom k.memory (dispatch_validated m frame context k).1.memory
            (handle_of frame context.task_id))
      (sym (raw_number-seal n named))
      (sealed-ok k.memory (handle_of frame context.task_id) frame.args.arg0 v.table)

handle_syscall-sealed :
    (frame : SyscallFrame) (context : DispatchContext) (k : Kernel)
    → frame.number ≡ raw_number SyscallNumber.sys_mem_seal
    → IsKernel k
    → (handle_syscall frame context k).0.status ≡ KernelStatus.ok
    → SealedFrom k.memory
        (handle_syscall frame context k).1.memory
        (handle_of frame context.task_id)
unfolding record_outcome
handle_syscall-sealed frame context k named v =
    handle_syscall_cases
      (λ r.
        r.0.status ≡ KernelStatus.ok
        → SealedFrom k.memory r.1.memory (handle_of frame context.task_id))
      frame context k (λ e _ answered. absurd (status-ne-ok e answered))
      λ d passed.
        dispatched-sealed frame context k d.number
          (raw_number-lookup frame.number d ((validate_ok_iff frame context d).0 passed).0 ∙ named)
          v

-- After the boot of a kernel and any sequence of system calls, let a `sys_mem_seal` be answered with
-- success. It found a shared region under its argument, and whatever is called afterwards, the region is
-- still found there with the same range, marked as sealed, with the seal bit and without the write bit.
pub seal_call_forever :
    (k : Kernel) (before after : List (SyscallFrame × DispatchContext)) (frame : SyscallFrame)
    (context : DispatchContext)
    → IsNew k
    → frame.number ≡ raw_number SyscallNumber.sys_mem_seal
    → (handle_syscall frame context (run (initialize_host (unbooted k)).1 before)).0.status
      ≡ KernelStatus.ok
    → let l = run (initialize_host (unbooted k)).1 before in
      let m = run (handle_syscall frame context l).1 after in
      let h = handle_of frame context.task_id in
      (r : SharedRegion) × (s : SharedRegion) × (shared_region l.memory h ≡ ok r)
      × (shared_region m.memory h ≡ ok s)
      × IsSealedAs r s
seal_call_forever k before after frame context new named answered =
    let l : Kernel = run (initialize_host (unbooted k)).1 before in
    let h : SharedMemoryHandle = handle_of frame context.task_id in
    let v : IsKernel l = run-initialize_host-IsKernel k before new in
    let (r, here, now) = handle_syscall-sealed frame context l named v answered in
    let (s, found, sealed) =
      run_calls-SealedIn h r (handle_syscall frame context l).1 after
        (handle_syscall-IsKernel frame context l v) now in
    (
      r,
      s,
      here,
      shared_region-found (run (handle_syscall frame context l).1 after).memory h found,
      sealed,
    )
