-- ===== src/Scheduler/Policy/Zombies.antt =====
-- src/scheduler.rs, `Scheduler`: a task in the state `Zombie` through the calls. `Cancelled` draws the
-- conclusions.
use Prim.Native.Nat.{ℕ}
use mathlib.Core.Path.{◌≡◌, refl, ◌∙◌, ap, sym, subst}
use mathlib.Core.Logic.{◌≢◌, inl, inr}
use mathlib.Core.Bool.{true, ◌&&◌}
use mathlib.Core.Option
use mathlib.Core.Option.{Option, none, some}
use mathlib.Core.List.{List, [], ◌∷◌}
use native.Mathlib.Omega.{arith}
use native.Mathlib.Decide.{ℕ_discrete}
use alani_kernel.Common.Tests.{Bool-cases, some-injective}
use alani_kernel.Common.Lists.{find, find_sound, get_or, update_first}
use alani_kernel.Common.Search.{find-update_first_miss, find-update_first_self, find-get_or}
use alani_kernel.Capability.{TaskId}
use alani_kernel.Scheduler.{
  TaskControlBlock, TaskState, new_task, is_running, is_ready, is_runnable_in,
}
use alani_kernel.Scheduler.Queue.{TaskSlot, holds_task, is_vacant, empty_slot, get, update}
use alani_kernel.Scheduler.Policy.{
  Scheduler, dispatch, pass_over, schedule_next, step_back, valid_transition, is_terminal,
}
use alani_kernel.Scheduler.Policy.Selection.{eligible}
use alani_kernel.Scheduler.Policy.Dispatch.{
  is_saturated, dispatch-cons_failed, dispatch-cons, pass_over-id,
}
use alani_kernel.Scheduler.Policy.Invariant.{
  IsSchedule, slot_of, put_state, rewritten, id_at, dispatched, choice, spawn_cases,
  transition_cases, cancel_cases, schedule_next_cases,
}
use alani_kernel.Scheduler.Policy.Running.{choice-IsChoice}
use alani_kernel.Scheduler.Policy.Calls.{
  Call, step, run, step-IsSchedule, rewritten-IsSchedule, yield_current_cases,
}
use Call.{spawns, moves, cancels, schedules, yields}

-- The scheduler has the task, as a zombie.
abbrev pub IsZombie : TaskId → Scheduler → Type 0
IsZombie id s =
    (slot : TaskSlot) × (find (holds_task id) s.run_queue.slots ≡ some slot)
    × (slot.task.state ≡ TaskState.zombie)

pass_over-zombie : (t : TaskControlBlock) → t.state ≡ TaskState.zombie → pass_over t ≡ t
unfolding pass_over is_running is_ready
pass_over-zombie t h = ground arith

-- The update loop leaves the zombies that are not selected alone.
find-dispatch_zombie :
    (id selected : TaskId) (slots : List TaskSlot) (slot : TaskSlot)
    → id ≢ selected
    → find (holds_task id) slots ≡ some slot
    → slot.task.state ≡ TaskState.zombie
    → find (holds_task id) (dispatch selected slots).1 ≡ some slot
unfolding dispatch
find-dispatch_zombie id selected [] slot ne e h = absurd (ground arith)
find-dispatch_zombie id selected (x ∷ xs) slot ne e h =
    elim (Bool-cases (holds_task selected x && is_saturated x)) [
      | inl stops ↦ rw (dispatch-cons_failed selected x xs stops) (ground (arith, stops))
      | inr goes_on ↦
          rw (dispatch-cons selected x xs goes_on) (elim (Bool-cases (holds_task id x)) [
            | inl here ↦
                let same : x ≡ slot = some-injective (ground arith) in
                let idle : pass_over x.task ≡ x.task =
                  pass_over-zombie x.task (ap (λ y. y.task.state) same ∙ h) in
                ground (arith, idle)
            | inr elsewhere ↦ ground (
              arith,
              pass_over-id x.task,
              find-dispatch_zombie id selected xs slot ne (ground (arith, elsewhere)) h,
            )
          ])
    ]

-- A write that leaves a zombie a zombie, if it is to the task in question.
pub rewritten-IsZombie :
    (id other : TaskId) (s : Scheduler) (f : TaskControlBlock → TaskControlBlock)
    → ((t : TaskControlBlock) → (f t).id ≡ t.id)
    → (other ≡ id
        → (t : TaskControlBlock) → t.state ≡ TaskState.zombie
        → (f t).state ≡ TaskState.zombie)
    → IsZombie id s
    → IsZombie id (rewritten s other f)
unfolding update
rewritten-IsZombie id other s f keeps stays (slot, e, h) = elim (ℕ_discrete other id) [
  | yes same ↦ (
    record slot { task = f slot.task },
    subst
        (λ i.
          find (holds_task id)
            (update_first (holds_task i) (λ x. record x { task = f x.task }) s.run_queue.slots)
          ≡ some (record slot { task = f slot.task }))
        (sym same)
        (find-update_first_self (holds_task id) (λ x. record x { task = f x.task })
          s.run_queue.slots e
          (ground (arith, keeps slot.task, find_sound (holds_task id) s.run_queue.slots e))),
    stays same slot.task h,
  )
  | no ne ↦ (
    slot,
    (find-update_first_miss (holds_task other) (holds_task id) (λ x. record x { task = f x.task })
          s.run_queue.slots (λ x held. ground (arith, keeps x.task))
        ∙ e),
    h,
  )
]

valid_transition-zombie :
    (to : TaskState) → valid_transition TaskState.zombie to ≡ true → to ≡ TaskState.zombie
unfolding valid_transition
valid_transition-zombie to h = ground arith

-- The state of the task that `get` finds.
get-zombie :
    (id : TaskId) (s : Scheduler) (t : TaskControlBlock)
    → IsZombie id s
    → get s.run_queue id ≡ some t
    → t.state ≡ TaskState.zombie
unfolding get
get-zombie id s t (slot, e, h) found =
    let same : t ≡ slot.task =
      some-injective (sym found ∙ ap (Option.map (λ (x : TaskSlot). x.task)) e) in
    ap (λ u. u.state) same ∙ h

-- A zombie is not what the selection loop chooses.
chosen-ne_zombie :
    (id : TaskId) (s : Scheduler) (index : ℕ)
    → IsSchedule s
    → IsZombie id s
    → choice s ≡ some index
    → id ≢ id_at s index
unfolding is_runnable_in
chosen-ne_zombie id s index v (slot, e, h) chosen same =
    let able : eligible (get_or s.run_queue.slots index empty_slot) ≡ true =
      (choice-IsChoice s chosen).0 in
    let here : find (holds_task id) s.run_queue.slots
        ≡ some (get_or s.run_queue.slots index empty_slot) =
      find-get_or (holds_task id) s.run_queue.slots index empty_slot (v.unique id) refl
        (ground (arith, able, same)) in
    let found : slot ≡ get_or s.run_queue.slots index empty_slot = some-injective (sym e ∙ here) in
    absurd (ground (arith, able, ap (λ y. y.task.state) found, h))

pub schedule_next-IsZombie :
    (id : TaskId) (s : Scheduler) → IsSchedule s → IsZombie id s → IsZombie id (schedule_next s).1
schedule_next-IsZombie id s v z =
    schedule_next_cases (λ out. IsZombie id out.1) s (λ _. z) (λ _ _. z)
      (λ index _ _ chosen _. left index chosen) λ index _ chosen _. left index chosen
  where
    left : (index : ℕ) → choice s ≡ some index → IsZombie id (dispatched s index)
    left index chosen =
        let (slot, e, h) = z in
        (
          slot,
          find-dispatch_zombie id (id_at s index) s.run_queue.slots slot
              (chosen-ne_zombie id s index v z chosen) e h,
          h,
        )

step-IsZombie :
    (id : TaskId) (s : Scheduler) (c : Call) → IsSchedule s → IsZombie id s → IsZombie id (step s c)
unfolding is_running is_terminal
step-IsZombie id s (spawns parent_id class priority capabilities budget) v (slot, e, h) =
    spawn_cases (λ out. IsZombie id out.1) s parent_id class priority capabilities budget
      (slot, e, h) (λ _ _. (slot, e, h))
      λ free _ _ unknown vacant. (
        slot,
        (find-update_first_miss is_vacant (holds_task id)
              (λ _. slot_of (new_task s.next_task_id parent_id class priority capabilities budget))
              s.run_queue.slots (λ x empty_now. ground (arith, other unknown))
            ∙ e),
        h,
      )
  where
    other : find (holds_task s.next_task_id) s.run_queue.slots ≡ none → s.next_task_id ≢ id
    other unknown same =
        absurd (
          ground (arith, e, subst (λ i. find (holds_task i) s.run_queue.slots ≡ none) same unknown))
step-IsZombie id s (moves other to) v z =
    transition_cases (λ out. IsZombie id out.1) s other to (λ _. z)
      λ t found valid.
        rewritten-IsZombie id other s (put_state to) (λ _. refl)
          (λ same _ _. valid_transition-zombie to (
            subst (λ from. valid_transition from to ≡ true)
              (get-zombie id s t z (subst (λ i. get s.run_queue i ≡ some t) same found)) valid))
          z
step-IsZombie id s (cancels other) v z =
    cancel_cases (λ out. IsZombie id out.1) s other (λ _. z)
      λ t _ _.
        rewritten-IsZombie id other s (put_state TaskState.zombie) (λ _. refl) (λ _ _ _. refl) z
step-IsZombie id s schedules v z = schedule_next-IsZombie id s v z
step-IsZombie id s yields v z =
    yield_current_cases (λ out. IsZombie id out.1) s (λ _. z) (λ _. schedule_next-IsZombie id s v z)
      λ other _ budget _ _ _.
        let next : Scheduler = rewritten s other (step_back budget) in
        schedule_next-IsZombie id next
          (rewritten-IsSchedule s other (step_back budget) (λ _. refl) v)
          (rewritten-IsZombie id other s (step_back budget) (λ _. refl) (λ _ t h. ground (arith, h))
            z)

pub run-IsZombie :
    (id : TaskId) (s : Scheduler) (cs : List Call)
    → IsSchedule s
    → IsZombie id s
    → IsZombie id (run s cs)
unfolding run
run-IsZombie id s [] v z = z
run-IsZombie id s (c ∷ cs) v z =
    run-IsZombie id (step s c) cs (step-IsSchedule s c v) (step-IsZombie id s c v z)
