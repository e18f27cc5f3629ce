-- ===== src/Scheduler/Policy/Patience/Still.antt =====
-- src/scheduler.rs, `Scheduler::spawn`, `transition` and `cancel`: a ready task through the calls that choose
-- no task.
use Prim.Native.Nat.{ℕ}
use mathlib.Core.Path.{◌≡◌, refl, ap, subst, ◌∙◌}
use mathlib.Core.Logic.{◌⊎◌, inl, inr}
use mathlib.Core.Bool.{true, false}
use mathlib.Core.Option.{none}
use mathlib.Core.List.{List, [], ◌∷◌}
use native.Mathlib.Omega.{arith}
use alani_kernel.Common.Tests.{◌==◌, Bool-cases, ==→eq}
use alani_kernel.Common.Lists.{find, All}
use alani_kernel.Common.Search.{find-update_first_miss}
use alani_kernel.Capability.{TaskId}
use alani_kernel.Scheduler.{TaskControlBlock, TaskState, is_ready}
use alani_kernel.Scheduler.Queue.{holds_task, is_vacant, update}
use alani_kernel.Scheduler.Policy.{Scheduler}
use alani_kernel.Scheduler.Policy.Invariant.{
  IsSchedule, slot_of, inserted, put_state, rewritten, spawn_cases, cancel_cases,
}
use alani_kernel.Scheduler.Policy.Calls.{Call, step, run, step-IsSchedule}
use Call.{spawns, moves, cancels, schedules, yields}
use alani_kernel.Scheduler.Policy.Zombies.{IsZombie, run-IsZombie}
use alani_kernel.Scheduler.Policy.Patience.Waiting.{IsReadyIn, IsWaiting, find-rewritten}

-- A call that chooses no task and makes no direct transition.
abbrev pub IsQuiet : Call → Type 0
IsQuiet (spawns _ _ _ _ _) = Unit
IsQuiet (cancels _) = Unit
IsQuiet _ = true ≡ false

-- A task that is waiting still is, or was cancelled.
abbrev pub IsStill : TaskId → ℕ → Scheduler → Type 0
IsStill id a s = IsWaiting id a s ⊎ IsZombie id s

cancelled-IsStill :
    (id j : TaskId) (a : ℕ) (s : Scheduler)
    → IsWaiting id a s
    → IsStill id a (rewritten s j (put_state TaskState.zombie))
unfolding update
cancelled-IsStill id j a s (slot, found, ready, aged) =
    let (after, still, same) =
      find-rewritten id j (put_state TaskState.zombie) s.run_queue.slots slot (λ _. refl) found in
    elim same [
      | inl kept ↦ inl (
        after,
        still,
        ap (λ x. is_ready x.task.state) kept ∙ ready,
        ap (λ x. x.task.age) kept ∙ aged,
      )
      | inr changed ↦ inr (after, still, ap (λ x. x.task.state) changed)
    ]

spawned-IsWaiting :
    (id : TaskId) (a : ℕ) (s : Scheduler) (t : TaskControlBlock)
    → find (holds_task t.id) s.run_queue.slots ≡ none
    → IsWaiting id a s
    → IsReadyIn id a (inserted s.run_queue t).slots
spawned-IsWaiting id a s t unknown (slot, found, ready, aged) = (
  slot,
  find-update_first_miss is_vacant (holds_task id) (λ _. slot_of t) s.run_queue.slots
        (λ x free. (ground (arith, free), other))
      ∙ found,
  ready,
  aged,
)
  where
    other : (t.id == id) ≡ false
    other = elim (Bool-cases (t.id == id)) [
      | inr differs ↦ differs
      | inl same ↦ absurd (
          ground (
            arith,
            found,
            subst (λ i. find (holds_task i) s.run_queue.slots ≡ none) (==→eq t.id id same) unknown,
          ))
    ]

pub step-IsStill :
    (id : TaskId) (a : ℕ) (s : Scheduler) (c : Call)
    → IsQuiet c
    → IsWaiting id a s
    → IsStill id a (step s c)
step-IsStill id a s (spawns parent_id class priority capabilities budget) _ w =
    spawn_cases (λ out. IsStill id a out.1) s parent_id class priority capabilities budget (inl w)
      (λ _ _. inl w) λ slot _ _ unknown _. inl (spawned-IsWaiting id a s _ unknown w)
step-IsStill id a s (cancels j) _ w =
    cancel_cases (λ out. IsStill id a out.1) s j (λ _. inl w) λ _ _ _. cancelled-IsStill id j a s w
step-IsStill id a s (moves j to) quiet w = absurd (ground arith)
step-IsStill id a s schedules quiet w = absurd (ground arith)
step-IsStill id a s yields quiet w = absurd (ground arith)

-- A zombie stays one, and a waiting task waits through quiet calls, or becomes one.
pub run-IsStill :
    (id : TaskId) (a : ℕ) (s : Scheduler) (cs : List Call)
    → IsSchedule s
    → All IsQuiet cs
    → IsWaiting id a s
    → IsStill id a (run s cs)
unfolding run
run-IsStill id a s [] v quiet w = inl w
run-IsStill id a s (c ∷ cs) v quiet w = elim (step-IsStill id a s c quiet.0 w) [
  | inl still ↦ run-IsStill id a (step s c) cs (step-IsSchedule s c v) quiet.1 still
  | inr ended ↦ inr (run-IsZombie id (step s c) cs (step-IsSchedule s c v) ended)
]
