-- ===== src/Kernel/Entry/Exits.antt =====
-- src/lib.rs, `Kernel::handle_syscall`: what becomes of a task that exits or is cancelled.
use Prim.Native.Nat.{ℕ, ◌≤◌}
use mathlib.Core.Path.{◌≡◌, refl, ap, ◌∙◌, subst, sym}
use mathlib.Core.Logic.{◌⊎◌, ◌≢◌, inl, inr}
use mathlib.Core.Bool.{Bool, false, ◌&&◌}
use mathlib.Core.Option.{Option, none, some}
use mathlib.Core.List.{List, [], ◌∷◌}
use native.Mathlib.Omega.{arith}
use alani_kernel.Common.Tests.{◌==◌, Bool-cases, ==→eq}
use alani_kernel.Common.Lists.{count}
use alani_kernel.Common.Search.{count-find-some}
use alani_kernel.Error.{KernelStatus}
use alani_kernel.Outcome.{ok, KernelResult-cases}
use alani_kernel.Capability.{TaskId}
use alani_kernel.Abi.Numbers.{SyscallNumber, raw_number, number_eq}
use alani_kernel.Scheduler.{TaskState, is_running}
use alani_kernel.Scheduler.Queue.{holds_task}
use alani_kernel.Scheduler.Policy.{Scheduler, schedule_next, yield_current, step_back, cancel}
use alani_kernel.Scheduler.Policy.Invariant.{IsSchedule, rewritten}
use alani_kernel.Scheduler.Policy.Running.{schedule_next_lem}
use alani_kernel.Scheduler.Policy.Calls.{rewritten-IsSchedule, yield_current_cases}
use alani_kernel.Scheduler.Policy.Zombies.{IsZombie, schedule_next-IsZombie, rewritten-IsZombie}
use alani_kernel.Scheduler.Policy.Cancelled.{state_of, state_of-zombie, cancel-IsZombie}
use alani_kernel.Syscall.{SyscallFrame, DispatchContext, SyscallResult, succeed}
use alani_kernel.Syscall.Dispatch.{validate_ok_iff, raw_number-lookup}
use alani_kernel.Kernel.{Kernel, initialize_host}
use alani_kernel.Kernel.Boot.{unbooted}
use alani_kernel.Kernel.Handlers.{
  dispatch_validated, sys_yield, sys_exit, sys_task_cancel, yielded, reply_with,
}
use alani_kernel.Kernel.Entry.{handle_syscall, record_outcome}
use alani_kernel.Kernel.Entry.Effects.{may_yield}
use alani_kernel.Kernel.Entry.Cases.{handle_syscall_cases, status-ne-ok}
use alani_kernel.Kernel.Entry.History.{
  IsNew, IsKernel, run, handle_syscall-IsKernel, run-initialize_host-IsKernel,
}
use alani_kernel.Kernel.Entry.Turns.{turns_of}
use alani_kernel.Kernel.Entry.Answers.{
  is_turn, fail-not_ok, may_yield_sound, handle_syscall-IsZombie, handled-IsZombie,
}

raw_number-exit :
    (n : SyscallNumber)
    → raw_number n ≡ raw_number SyscallNumber.sys_exit
    → n ≡ SyscallNumber.sys_exit
unfolding raw_number
raw_number-exit n h = ground arith

raw_number-cancel :
    (n : SyscallNumber)
    → raw_number n ≡ raw_number SyscallNumber.sys_task_cancel
    → n ≡ SyscallNumber.sys_task_cancel
unfolding raw_number
raw_number-cancel n h = ground arith

-- A zombie is not chosen.
schedule_next-ne_zombie :
    (id : TaskId) (s : Scheduler)
    → IsSchedule s
    → IsZombie id s
    → (schedule_next s).0 ≢ ok (some id)
schedule_next-ne_zombie id s v z chosen =
    let running : state_of (schedule_next s).1 id ≡ some TaskState.running =
      (schedule_next_lem s (some id) v chosen).2.4 in
    let ended : state_of (schedule_next s).1 id ≡ some TaskState.zombie =
      state_of-zombie (schedule_next s).1 id (schedule_next-IsZombie id s v z) in
    absurd (ground (arith, running, ended))

yield_current-ne_zombie :
    (id : TaskId) (s : Scheduler)
    → IsSchedule s
    → IsZombie id s
    → (yield_current s).0 ≢ ok (some id)
unfolding is_running
yield_current-ne_zombie id s v z =
    yield_current_cases (λ out. out.0 ≢ ok (some id)) s (λ e h. absurd (ground arith))
      (λ _. schedule_next-ne_zombie id s v z)
      λ j t budget _ _ _.
        schedule_next-ne_zombie id (rewritten s j (step_back budget))
          (rewritten-IsSchedule s j (step_back budget) (λ _. refl) v)
          (rewritten-IsZombie id j s (step_back budget) (λ _. refl) (λ _ u h. ground (arith, h)) z)

-- The identifier of a task in the table is not zero.
zombie-ne-zero : (id : TaskId) (s : Scheduler) → IsSchedule s → IsZombie id s → id ≢ 0
zombie-ne-zero id s v (slot, found, _) zero_id = absurd (
    omega (
      arith,
      v.no_zero,
      subst (λ i. 1 ≤ count (holds_task i) s.run_queue.slots) zero_id
          (count-find-some (holds_task id) s.run_queue.slots found),
    ))

yielded-value : (o : Option TaskId) (id : TaskId) → id ≢ 0 → (yielded o).value ≡ id → o ≡ some id
yielded-value none id pos h = absurd (pos (sym h))
yielded-value (some j) id pos h = ap some h

-- The answer is a turn of the task.
abbrev gives_turn : TaskId → SyscallFrame → SyscallResult → Bool
gives_turn id frame reply = is_turn frame reply && reply.value == id

yield-no_turn :
    (id : TaskId) (frame : SyscallFrame) (s : Scheduler)
    → IsSchedule s
    → IsZombie id s
    → gives_turn id frame (reply_with yielded (yield_current s).0) ≡ false
yield-no_turn id frame s v z = elim (KernelResult-cases (yield_current s).0) [
  | inr (e, failed) ↦ rw failed (ground (arith, fail-not_ok e))
  | inl (o, went) ↦ elim (Bool-cases ((yielded o).value == id)) [
    | inr other ↦ rw went (ground (arith, other))
    | inl mine ↦ absurd (
        yield_current-ne_zombie id s v z (
          went
          ∙ ap ok (yielded-value o id (zombie-ne-zero id s v z) (==→eq (yielded o).value id mine))))
  ]
]

dispatched-no_turn :
    (id : TaskId) (frame : SyscallFrame) (context : DispatchContext) (k : Kernel)
    (n : SyscallNumber)
    → raw_number n ≡ frame.number
    → IsKernel k
    → IsZombie id k.scheduler
    → gives_turn id frame (dispatch_validated n frame context k).0 ≡ false
unfolding dispatch_validated sys_yield number_eq
dispatched-no_turn id frame context k n named v z = elim (Bool-cases (may_yield n)) [
  | inl yielding ↦
      subst (λ m. gives_turn id frame (dispatch_validated m frame context k).0 ≡ false)
        (sym (may_yield_sound n yielding))
        (yield-no_turn id frame k.scheduler v.tasks.fair.schedule z)
  | inr quiet ↦
      ground (arith, subst (λ m. (m == raw_number SyscallNumber.sys_yield) ≡ false) named quiet)
]

handle_syscall-no_turn :
    (id : TaskId) (frame : SyscallFrame) (context : DispatchContext) (k : Kernel)
    → IsKernel k
    → IsZombie id k.scheduler
    → gives_turn id frame (handle_syscall frame context k).0 ≡ false
handle_syscall-no_turn id frame context k v z =
    handle_syscall_cases (λ r. gives_turn id frame r.0 ≡ false) frame context k
      (λ e _. ground (arith, fail-not_ok e))
      λ d passed.
        dispatched-no_turn id frame context k d.number
          (raw_number-lookup frame.number d ((validate_ok_iff frame context d).0 passed).0) v z

no_turns :
    (id : TaskId) (k : Kernel) (calls : List (SyscallFrame × DispatchContext))
    → IsKernel k
    → IsZombie id k.scheduler
    → turns_of id k calls ≡ 0
no_turns id k [] v z = refl
no_turns id k ((frame, context) ∷ calls) v z = ground (
  arith,
  handle_syscall-no_turn id frame context k v z,
  no_turns id (handle_syscall frame context k).1 calls (handle_syscall-IsKernel frame context k v)
      (handle_syscall-IsZombie id frame context k v z),
)

-- A call that ends the task: its own exit, or a cancel of it.
abbrev pub EndsTask : TaskId → SyscallFrame → DispatchContext → Type 0
EndsTask id frame context =
    ((frame.number ≡ raw_number SyscallNumber.sys_exit) × (context.task_id ≡ id))
    ⊎ ((frame.number ≡ raw_number SyscallNumber.sys_task_cancel) × (frame.args.arg0 ≡ id))

-- A cancel that is answered with success.
cancelled-ok :
    (id : TaskId) (s : Scheduler) (n : ℕ)
    → (reply_with (λ _. succeed n 0) (cancel id s).0).status ≡ KernelStatus.ok
    → IsZombie id (cancel id s).1
cancelled-ok id s n answered = elim (KernelResult-cases (cancel id s).0) [
  | inl (moved, done) ↦ cancel-IsZombie s id done
  | inr (e, failed) ↦ absurd (status-ne-ok e (rw failed at answered))
]

dispatched-ends :
    (id : TaskId) (frame : SyscallFrame) (context : DispatchContext) (k : Kernel)
    (n : SyscallNumber)
    → raw_number n ≡ frame.number
    → EndsTask id frame context
    → (dispatch_validated n frame context k).0.status ≡ KernelStatus.ok
    → IsZombie id (dispatch_validated n frame context k).1.scheduler
unfolding dispatch_validated sys_exit sys_task_cancel
dispatched-ends id frame context k n named (inl (exits, self)) =
    subst
      (λ m.
        (dispatch_validated m frame context k).0.status ≡ KernelStatus.ok
        → IsZombie id (dispatch_validated m frame context k).1.scheduler)
      (sym (raw_number-exit n (named ∙ exits)))
      (λ answered.
        subst (λ i. IsZombie i (cancel context.task_id k.scheduler).1) self
          (cancelled-ok context.task_id k.scheduler context.task_id answered))
dispatched-ends id frame context k n named (inr (cancels, other)) =
    subst
      (λ m.
        (dispatch_validated m frame context k).0.status ≡ KernelStatus.ok
        → IsZombie id (dispatch_validated m frame context k).1.scheduler)
      (sym (raw_number-cancel n (named ∙ cancels)))
      (λ answered.
        subst (λ i. IsZombie i (cancel frame.args.arg0 k.scheduler).1) other
          (cancelled-ok frame.args.arg0 k.scheduler frame.args.arg0 answered))

handle_syscall-ends :
    (id : TaskId) (frame : SyscallFrame) (context : DispatchContext) (k : Kernel)
    → EndsTask id frame context
    → (handle_syscall frame context k).0.status ≡ KernelStatus.ok
    → IsZombie id (handle_syscall frame context k).1.scheduler
unfolding record_outcome
handle_syscall-ends id frame context k ends =
    handle_syscall_cases (λ r. r.0.status ≡ KernelStatus.ok → IsZombie id r.1.scheduler) frame
      context k (λ e _ answered. absurd (status-ne-ok e answered))
      λ d passed.
        dispatched-ends id frame context k d.number
          (raw_number-lookup frame.number d ((validate_ok_iff frame context d).0 passed).0) ends

-- After the boot of a kernel and any sequence of system calls, let a task's `sys_exit`, or a
-- `sys_task_cancel` of it, be answered with success. Whatever is called afterwards, the task is a zombie,
-- and no yield is ever answered with it.
pub exit_forever :
    (k : Kernel) (before after : List (SyscallFrame × DispatchContext)) (id : TaskId)
    (frame : SyscallFrame) (context : DispatchContext)
    → IsNew k
    → EndsTask id frame context
    → (handle_syscall frame context (run (initialize_host (unbooted k)).1 before)).0.status
      ≡ KernelStatus.ok
    → let l = (handle_syscall frame context (run (initialize_host (unbooted k)).1 before)).1 in
      (state_of (run l after).scheduler id ≡ some TaskState.zombie) × (turns_of id l after ≡ 0)
exit_forever k before after id frame context new ends answered =
    let l : Kernel = run (initialize_host (unbooted k)).1 before in
    let m : Kernel = (handle_syscall frame context l).1 in
    let v : IsKernel m =
      handle_syscall-IsKernel frame context l (run-initialize_host-IsKernel k before new) in
    let z : IsZombie id m.scheduler = handle_syscall-ends id frame context l ends answered in
    (
      state_of-zombie (run m after).scheduler id (handled-IsZombie id m after v z),
      no_turns id m after v z,
    )
