-- ===== src/Kernel/Entry/Turns.antt =====
-- src/lib.rs, `Kernel::handle_syscall`: the tasks that the yields of a sequence of system calls are answered
-- with, and how long a ready task waits among them.
use Prim.Native.Nat.{ℕ, ◌+◌, ◌≤◌, ◌<◌}
use mathlib.Core.Path.{◌≡◌, refl, subst}
use mathlib.Core.Logic.{◌≢◌, inl, inr}
use mathlib.Core.Option.{some}
use mathlib.Core.List.{List, [], ◌∷◌}
use native.Mathlib.Omega.{arith}
use alani_kernel.Common.Tests.{◌==◌, if◌then◌else◌, Bool-cases, ==→eq, Option-cases}
use alani_kernel.Common.Lists.{count, find, length}
use alani_kernel.Capability.{TaskId}
use alani_kernel.Scheduler.{TaskState, is_ready}
use alani_kernel.Scheduler.Queue.{holds_task, get}
use alani_kernel.Scheduler.Policy.{Scheduler}
use alani_kernel.Scheduler.Policy.Zombies.{IsZombie}
use alani_kernel.Scheduler.Policy.Cancelled.{state_of, state_of-zombie}
use alani_kernel.Scheduler.Policy.Patience.{max_age}
use alani_kernel.Scheduler.Policy.Patience.Waiting.{IsWaiting, IsWaiting-age}
use alani_kernel.Syscall.{SyscallFrame, DispatchContext}
use alani_kernel.Kernel.{Kernel, initialize_host}
use alani_kernel.Kernel.Boot.{unbooted}
use alani_kernel.Kernel.Handlers.{Reply}
use alani_kernel.Kernel.Entry.{handle_syscall}
use alani_kernel.Kernel.Entry.History.{
  IsNew, IsKernel, run, handle_syscall-IsKernel, run-IsKernel, run-initialize_host-IsKernel,
}
use alani_kernel.Kernel.Entry.Answers.{is_turn, handle_syscall-IsAfter, handled-IsZombie}

-- The values that the successful yields of a sequence of system calls are answered with.
abbrev pub turns : Kernel → List (SyscallFrame × DispatchContext) → List ℕ
turns k [] = []
turns k ((frame, context) ∷ calls) =
    let r = handle_syscall frame context k in
    let rest = turns r.1 calls in if is_turn frame r.0 then r.0.value ∷ rest else rest

-- The turns that a task is given.
abbrev pub turns_of : TaskId → Kernel → List (SyscallFrame × DispatchContext) → ℕ
turns_of id k calls = count (λ v. v == id) (turns k calls)

-- A task that is given no turn is one older for each that another is given.
run-IsWaiting :
    (id : TaskId) (a : ℕ) (k : Kernel) (calls : List (SyscallFrame × DispatchContext))
    → IsKernel k
    → IsWaiting id a k.scheduler
    → ¬ (IsZombie id (run k calls).scheduler)
    → turns_of id k calls ≡ 0
    → IsWaiting id (a + length (turns k calls)) (run k calls).scheduler
unfolding run
run-IsWaiting id a k [] v w alive none_given =
    subst (λ n. IsWaiting id n k.scheduler) (omega arith) w
run-IsWaiting id a k ((frame, context) ∷ calls) v w alive none_given =
    let r : Reply = handle_syscall frame context k in
    let u : IsKernel r.1 = handle_syscall-IsKernel frame context k v in
    elim (handle_syscall-IsAfter id a frame context k v w) [
      | inl (turn, given) ↦ absurd (ground (arith, turn, given, none_given))
      | inr (inl (turn, older)) ↦
          subst (λ n. IsWaiting id n (run r.1 calls).scheduler) (ground (arith, turn))
            (run-IsWaiting id (a + 1) r.1 calls u older alive (ground (arith, turn, none_given)))
      | inr (inr (other, inl still)) ↦
          subst (λ n. IsWaiting id n (run r.1 calls).scheduler) (ground (arith, other))
            (run-IsWaiting id a r.1 calls u still alive (ground (arith, other, none_given)))
      | inr (inr (other, inr ended)) ↦ absurd (alive (handled-IsZombie id r.1 calls u ended))
    ]

state_of-IsWaiting :
    (id : TaskId) (s : Scheduler)
    → state_of s id ≡ some TaskState.ready
    → (a : ℕ) × IsWaiting id a s
unfolding get is_ready
state_of-IsWaiting id s h = elim (Option-cases (find (holds_task id) s.run_queue.slots)) [
  | inl gone ↦ absurd (ground (arith, h, gone))
  | inr (slot, found) ↦ (slot.task.age, (slot, found, ground (arith, h, found), refl))
]

-- After the boot of a kernel and any sequence of system calls, let a task be ready. Then among any further
-- calls, whoever makes them, at most 545 successful yields pass it over: if there are more, and the task has
-- not been cancelled by the end, one of them is answered with it.
pub ready_task_runs :
    (k : Kernel) (before after : List (SyscallFrame × DispatchContext)) (id : TaskId)
    → IsNew k
    → state_of (run (initialize_host (unbooted k)).1 before).scheduler id ≡ some TaskState.ready
    → state_of (run (run (initialize_host (unbooted k)).1 before) after).scheduler id
      ≢ some TaskState.zombie
    → max_age < length (turns (run (initialize_host (unbooted k)).1 before) after)
    → 1 ≤ turns_of id (run (initialize_host (unbooted k)).1 before) after
ready_task_runs k before after id new ready alive many =
    let l : Kernel = run (initialize_host (unbooted k)).1 before in
    let v : IsKernel l = run-initialize_host-IsKernel k before new in
    let (a, w) = state_of-IsWaiting id l.scheduler ready in
    elim (Bool-cases (turns_of id l after == 0)) [
      | inr given ↦ ground (arith, given)
      | inl none_given ↦ absurd (
          omega (
            arith,
            many,
            IsWaiting-age id (a + length (turns l after)) (run l after).scheduler
                (run-IsKernel l after v).tasks.fair
                (run-IsWaiting id a l after v w
                  (λ z. alive (state_of-zombie (run l after).scheduler id z))
                  (==→eq (turns_of id l after) 0 none_given)),
          ))
    ]
