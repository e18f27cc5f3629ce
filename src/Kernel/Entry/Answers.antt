-- ===== src/Kernel/Entry/Answers.antt =====
-- src/lib.rs, `Kernel::handle_syscall`: a waiting task and a task that ended, through one call.
use Prim.Native.Nat.{ℕ, ◌+◌}
use mathlib.Core.Path.{◌≡◌, refl, ap, ◌∙◌, subst, sym}
use mathlib.Core.Logic.{◌⊎◌, inl, inr}
use mathlib.Core.Bool.{Bool, true, false, ◌&&◌}
use mathlib.Core.Option.{Option, none, some}
use mathlib.Core.List.{List, [], ◌∷◌}
use native.Mathlib.Omega.{arith}
use alani_kernel.Common.Tests.{◌==◌, Bool-cases, eq→==}
use alani_kernel.Common.Lists.{All-map}
use alani_kernel.Error
use alani_kernel.Error.{KernelError, KernelStatus, is_ok}
use alani_kernel.Capability.{TaskId}
use alani_kernel.Abi.Numbers.{SyscallNumber, raw_number, number_eq}
use alani_kernel.Scheduler.Policy.{yield_current}
use alani_kernel.Scheduler.Policy.Zombies.{IsZombie, run-IsZombie}
use alani_kernel.Scheduler.Policy.System.{IsSystemCall-IsQuiet}
use alani_kernel.Scheduler.Policy.Patience.Waiting.{IsWaiting, yield_current-IsServed}
use alani_kernel.Scheduler.Policy.Patience.Still.{IsStill, run-IsStill}
use alani_kernel.Syscall.{SyscallFrame, DispatchContext, SyscallResult, fail}
use alani_kernel.Syscall.Dispatch.{validate_ok_iff, raw_number-lookup}
use alani_kernel.Kernel.{Kernel}
use alani_kernel.Kernel.Handlers.{Reply, dispatch_validated, sys_yield, yielded, reply_with}
use alani_kernel.Kernel.Entry.{handle_syscall, record_outcome, record_rejected_syscall}
use alani_kernel.Kernel.Entry.Effects.{may_yield, IsStep, dispatch_validated-IsStep}
use alani_kernel.Kernel.Entry.Cases.{handle_syscall_cases}
use alani_kernel.Kernel.Entry.History.{IsKernel, run, handle_syscall-IsKernel}

-- A yield that is answered with success.
abbrev pub is_turn : SyscallFrame → SyscallResult → Bool
is_turn frame reply = (frame.number == raw_number SyscallNumber.sys_yield) && is_ok reply.status

-- What a system call leaves of a waiting task.
abbrev IsAfter : TaskId → ℕ → SyscallFrame → Reply → Type 0
IsAfter id a frame r =
    ((is_turn frame r.0 ≡ true) × (r.0.value ≡ id))
    ⊎ ((is_turn frame r.0 ≡ true) × IsWaiting id (a + 1) r.1.scheduler)
    ⊎ ((is_turn frame r.0 ≡ false) × IsStill id a r.1.scheduler)

pub fail-not_ok : (e : KernelError) → is_ok (fail e).status ≡ false
unfolding Error.status is_ok
fail-not_ok e = ground arith

pub may_yield_sound : (n : SyscallNumber) → may_yield n ≡ true → n ≡ SyscallNumber.sys_yield
unfolding number_eq raw_number
may_yield_sound n h = ground arith

-- Whether an answer to a yield is a turn.
pub is_turn-yield :
    (frame : SyscallFrame) (reply : SyscallResult) (b : Bool)
    → frame.number ≡ raw_number SyscallNumber.sys_yield
    → is_ok reply.status ≡ b
    → is_turn frame reply ≡ b
is_turn-yield frame reply b named h =
    rw (eq→== frame.number (raw_number SyscallNumber.sys_yield) named) h

is_ok-yielded : (o : Option TaskId) → is_ok (yielded o).status ≡ true
unfolding is_ok
is_ok-yielded none = refl
is_ok-yielded (some id) = refl

-- The answer to a yield that validation passes.
yield-IsAfter :
    (id : TaskId) (a : ℕ) (frame : SyscallFrame) (k : Kernel)
    → frame.number ≡ raw_number SyscallNumber.sys_yield
    → IsKernel k
    → IsWaiting id a k.scheduler
    → IsAfter id a frame (sys_yield k)
unfolding sys_yield
yield-IsAfter id a frame k named v w =
    elim (yield_current-IsServed id a k.scheduler v.tasks.fair w) [
      | inl mine ↦ inl (
        is_turn-yield frame (reply_with yielded (yield_current k.scheduler).0) true named
            (rw mine (is_ok-yielded (some id))),
        rw mine refl,
      )
      | inr (inl (o, went, older)) ↦ inr (
          inl (
            is_turn-yield frame (reply_with yielded (yield_current k.scheduler).0) true named
                (rw went (is_ok-yielded o)),
            older,
          ))
      | inr (inr (e, failed, same)) ↦ inr (
          inr (
            is_turn-yield frame (reply_with yielded (yield_current k.scheduler).0) false named
                (rw failed (fail-not_ok e)),
            inl same,
          ))
    ]

-- The answer to any other call that validation passes.
other-IsAfter :
    (id : TaskId) (a : ℕ) (frame : SyscallFrame) (k : Kernel) (reply : Reply)
    → (frame.number == raw_number SyscallNumber.sys_yield) ≡ false
    → IsStep false k reply.1
    → IsKernel k
    → IsWaiting id a k.scheduler
    → IsAfter id a frame reply
other-IsAfter id a frame k reply other step v w =
    let (cs, scheduled, own) = step.scheduling in
    inr (
      inr (
        rw other refl,
        subst (IsStill id a) (sym scheduled) (
            run-IsStill id a k.scheduler cs v.tasks.fair.schedule
              (All-map IsSystemCall-IsQuiet cs own) w),
      ))

dispatched-IsAfter :
    (id : TaskId) (a : ℕ) (frame : SyscallFrame) (context : DispatchContext) (k : Kernel)
    (n : SyscallNumber)
    → raw_number n ≡ frame.number
    → IsKernel k
    → IsWaiting id a k.scheduler
    → IsAfter id a frame (dispatch_validated n frame context k)
unfolding dispatch_validated number_eq
dispatched-IsAfter id a frame context k n named v w = elim (Bool-cases (may_yield n)) [
  | inl yielding ↦
      let yield : n ≡ SyscallNumber.sys_yield = may_yield_sound n yielding in
      subst (λ m. IsAfter id a frame (dispatch_validated m frame context k)) (sym yield)
        (yield-IsAfter id a frame k (sym named ∙ ap raw_number yield) v w)
  | inr quiet ↦
      other-IsAfter id a frame k (dispatch_validated n frame context k)
        (subst (λ m. (m == raw_number SyscallNumber.sys_yield) ≡ false) named quiet)
        (subst (λ b. IsStep b k (dispatch_validated n frame context k).1) quiet
          (dispatch_validated-IsStep n frame context k))
        v w
]

pub handle_syscall-IsAfter :
    (id : TaskId) (a : ℕ) (frame : SyscallFrame) (context : DispatchContext) (k : Kernel)
    → IsKernel k
    → IsWaiting id a k.scheduler
    → IsAfter id a frame (handle_syscall frame context k)
unfolding record_rejected_syscall record_outcome
handle_syscall-IsAfter id a frame context k v w =
    handle_syscall_cases (IsAfter id a frame) frame context k
      (λ e _. inr (inr (ground (arith, fail-not_ok e), inl w)))
      λ d passed.
        dispatched-IsAfter id a frame context k d.number
          (raw_number-lookup frame.number d ((validate_ok_iff frame context d).0 passed).0) v w

pub handle_syscall-IsZombie :
    (id : TaskId) (frame : SyscallFrame) (context : DispatchContext) (k : Kernel)
    → IsKernel k
    → IsZombie id k.scheduler
    → IsZombie id (handle_syscall frame context k).1.scheduler
unfolding record_rejected_syscall record_outcome
handle_syscall-IsZombie id frame context k v z =
    handle_syscall_cases (λ r. IsZombie id r.1.scheduler) frame context k (λ _ _. z)
      λ d _.
        let (cs, scheduled, _) = (dispatch_validated-IsStep d.number frame context k).scheduling in
        subst (IsZombie id) (sym scheduled) (run-IsZombie id k.scheduler cs v.tasks.fair.schedule z)

pub handled-IsZombie :
    (id : TaskId) (k : Kernel) (calls : List (SyscallFrame × DispatchContext))
    → IsKernel k
    → IsZombie id k.scheduler
    → IsZombie id (run k calls).scheduler
unfolding run
handled-IsZombie id k [] v z = z
handled-IsZombie id k ((frame, context) ∷ calls) v z =
    handled-IsZombie id (handle_syscall frame context k).1 calls
      (handle_syscall-IsKernel frame context k v) (handle_syscall-IsZombie id frame context k v z)
