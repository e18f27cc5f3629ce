-- ===== src/Scheduler/Policy/Calls.antt =====
-- src/scheduler.rs, `Scheduler`: the table of tasks through every sequence of calls.
use Prim.Native.Nat.{ℕ, ◌+◌, ◌<◌, ◌^◌}
use mathlib.Core.Path.{◌≡◌, refl, ◌∙◌, subst, sym, ap}
use mathlib.Core.Logic.{inl, inr}
use mathlib.Core.Bool.{Bool, ◌&&◌}
use mathlib.Core.Option.{Option, none, some}
use mathlib.Core.List.{List, [], ◌∷◌}
use native.Mathlib.Omega.{arith}
use alani_kernel.Common.Tests.{◌==◌, Option-cases}
use alani_kernel.Common.Lists.{count, length, find, length-update_first}
use alani_kernel.Common.Search.{tally, count-update_first, count-update_first_keep}
use alani_kernel.Error.{KernelError}
use alani_kernel.Outcome.{KernelResult, ok, err, KernelResult-cases}
use alani_kernel.Method.{try}
use alani_kernel.Capability.{TaskId, CapabilitySet}
use alani_kernel.Scheduler.{
  TaskControlBlock, TaskState, SchedulerClass, BudgetAccount, consume_tick,
}
use alani_kernel.Scheduler.Queue.{TaskSlot, holds_task, is_vacant, get, update}
use alani_kernel.Scheduler.Policy.{
  Scheduler, new, spawn, transition, current_after, cancel, schedule_next, step_back, yield_task,
  yield_current,
}
use alani_kernel.Scheduler.Policy.Dispatch.{count-dispatch, length-dispatch}
use alani_kernel.Scheduler.Policy.Invariant.{
  IsSchedule, new-IsSchedule, slot_of, inserted, numbered, rewritten, put_state, without,
  dispatched, id_at, spawn_cases, transition_cases, cancel_cases, schedule_next_cases,
}

-- The number of slots that pass a test of whether they are in use and by which task.
abbrev pub tallied : (Bool → TaskId → Bool) → Scheduler → ℕ
tallied q s = count (λ slot. q slot.occupied slot.task.id) s.run_queue.slots

-- A write that keeps the identifier keeps what is tallied.
pub tallied-rewritten :
    (q : Bool → TaskId → Bool) (s : Scheduler) (id : TaskId)
    (f : TaskControlBlock → TaskControlBlock)
    → ((t : TaskControlBlock) → (f t).id ≡ t.id)
    → tallied q (rewritten s id f) ≡ tallied q s
unfolding update
tallied-rewritten q s id f keeps =
    count-update_first_keep (holds_task id) (λ slot. q slot.occupied slot.task.id)
      (λ slot. record slot { task = f slot.task }) s.run_queue.slots
      λ slot. ap (q slot.occupied) (keeps slot.task)

-- What keeps the slots, the identifiers in them and the next one keeps the invariant.
keep-IsSchedule :
    (s t : Scheduler)
    → length t.run_queue.slots ≡ length s.run_queue.slots
    → t.next_task_id ≡ s.next_task_id
    → ((i : TaskId)
        → count (holds_task i) t.run_queue.slots ≡ count (holds_task i) s.run_queue.slots)
    → IsSchedule s
    → IsSchedule t
keep-IsSchedule s t same_size same_next same_ids v = record {
  size = same_size ∙ v.size;
  id_pos = omega (arith, v.id_pos);
  id_word = subst (λ n. n < 2 ^ 64) (sym same_next) v.id_word;
  unique = λ i. omega (arith, v.unique i, same_ids i);
  fresh = λ i h. omega (arith, v.fresh i, same_ids i);
  no_zero = omega (arith, v.no_zero, same_ids 0);
}

-- The test of `holds_task` as one of the two parts of a slot that writes keep.
abbrev pub bears : TaskId → Bool → TaskId → Bool
bears i occupied id = occupied && id == i

pub rewritten-IsSchedule :
    (s : Scheduler) (id : TaskId) (f : TaskControlBlock → TaskControlBlock)
    → ((t : TaskControlBlock) → (f t).id ≡ t.id)
    → IsSchedule s
    → IsSchedule (rewritten s id f)
unfolding update
rewritten-IsSchedule s id f keeps v =
    keep-IsSchedule s (rewritten s id f) (length-update_first (holds_task id) _ s.run_queue.slots)
      refl (λ i. tallied-rewritten (bears i) s id f keeps) v

dispatched-IsSchedule : (s : Scheduler) (index : ℕ) → IsSchedule s → IsSchedule (dispatched s index)
dispatched-IsSchedule s index v =
    keep-IsSchedule s (dispatched s index) (length-dispatch (id_at s index) s.run_queue.slots) refl
      (λ i. count-dispatch (bears i) (id_at s index) s.run_queue.slots) v

-- The current task, the tick and the number of switches do not matter to the invariant.
recast-IsSchedule :
    (s : Scheduler) (current : Option TaskId) (tick : ℕ)
    → IsSchedule s
    → IsSchedule (record s { current_task = current; tick = tick })
recast-IsSchedule s current tick v = keep-IsSchedule s _ refl refl (λ i. refl) v

numbered-IsSchedule :
    (s : Scheduler) → s.next_task_id + 1 < 2 ^ 64 → IsSchedule s → IsSchedule (numbered s)
numbered-IsSchedule s room v = record {
  size = v.size;
  id_pos = omega arith;
  id_word = room;
  unique = v.unique;
  fresh = λ i h. v.fresh i (omega arith);
  no_zero = v.no_zero;
}

spawned-IsSchedule :
    (s : Scheduler) (t : TaskControlBlock) (slot : TaskSlot)
    → IsSchedule s
    → t.id ≡ s.next_task_id
    → s.next_task_id + 1 < 2 ^ 64
    → find is_vacant s.run_queue.slots ≡ some slot
    → IsSchedule (record (numbered s) { run_queue = inserted s.run_queue t })
spawned-IsSchedule s t slot v h room e = record {
  size = length-update_first is_vacant _ s.run_queue.slots ∙ v.size;
  id_pos = omega arith;
  id_word = room;
  unique = λ i. ground (arith, v.unique i, v.fresh i, traded i);
  fresh = λ i above. ground (arith, v.fresh i, traded i);
  no_zero = ground (arith, v.no_zero, v.id_pos, traded 0);
}
  where
    traded :
        (i : TaskId)
        → count (holds_task i) (inserted s.run_queue t).slots + tally (holds_task i slot)
          ≡ count (holds_task i) s.run_queue.slots + tally (holds_task i (slot_of t))
    traded i = count-update_first is_vacant (holds_task i) (λ _. slot_of t) s.run_queue.slots e

-- The rest of `yield_current` for what is the current task.
abbrev pub yield_from : Option TaskId → Scheduler → KernelResult (Option TaskId) × Scheduler
yield_from current s = try (yield_task current s).0 (yield_task current s).1 (λ _. schedule_next)

yield_from_cases {ℓ} :
    (P : KernelResult (Option TaskId) × Scheduler → Type ℓ) (s : Scheduler) (id : TaskId)
    → ((e : KernelError) → P (err e, s))
    → ((t : TaskControlBlock) (budget : BudgetAccount)
        → get s.run_queue id ≡ some t
        → consume_tick t.budget ≡ ok budget
        → P (schedule_next (rewritten s id (step_back budget))))
    → P (yield_from (some id) s)
unfolding yield_task
yield_from_cases P s id failed done = elim (Option-cases (get s.run_queue id)) [
  | inl gone ↦ rw gone (failed KernelError.not_found)
  | inr (t, e) ↦ elim (KernelResult-cases (consume_tick t.budget)) [
    | inr (why, spent) ↦ rw e (rw spent (failed why))
    | inl (budget, paid) ↦ rw e (rw paid (done t budget e paid))
  ]
]

-- `yield_current` fails and changes nothing where the current task is gone or out of budget;
-- otherwise it schedules, from the state in which the current task, if any, has stepped back.
pub yield_current_cases {ℓ} :
    (P : KernelResult (Option TaskId) × Scheduler → Type ℓ) (s : Scheduler)
    → ((e : KernelError) → P (err e, s))
    → (s.current_task ≡ none → P (schedule_next s))
    → ((id : TaskId) (t : TaskControlBlock) (budget : BudgetAccount)
        → s.current_task ≡ some id
        → get s.run_queue id ≡ some t
        → consume_tick t.budget ≡ ok budget
        → P (schedule_next (rewritten s id (step_back budget))))
    → P (yield_current s)
unfolding yield_current yield_task
yield_current_cases P s failed idle done = elim (Option-cases s.current_task) [
  | inl nobody ↦ subst (λ c. P (yield_from c s)) (sym nobody) (idle nobody)
  | inr (id, current) ↦
      subst (λ c. P (yield_from c s)) (sym current)
        (yield_from_cases P s id failed (λ t budget. done id t budget current))
]

-- A call of one of the methods that change the scheduler.
pub data Call : Type 0 where
  spawns : TaskId → SchedulerClass → ℕ → CapabilitySet → BudgetAccount → Call
  moves : TaskId → TaskState → Call
  cancels : TaskId → Call
  schedules yields : Call

abbrev pub step : Scheduler → Call → Scheduler
step s (spawns parent_id class priority capabilities budget) =
    (spawn parent_id class priority capabilities budget s).1
step s (moves id to) = (transition id to s).1
step s (cancels id) = (cancel id s).1
step s schedules = (schedule_next s).1
step s yields = (yield_current s).1

unfoldable pub run : Scheduler → List Call → Scheduler
run s [] = s
run s (c ∷ cs) = run (step s c) cs

schedule_next-IsSchedule : (s : Scheduler) → IsSchedule s → IsSchedule (schedule_next s).1
schedule_next-IsSchedule s v =
    schedule_next_cases (λ out. IsSchedule out.1) s (λ _. v)
      (λ _ _. recast-IsSchedule s none (s.tick + 1) v)
      (λ index _ _ _ _. dispatched-IsSchedule s index v)
      λ index _ _ _.
        recast-IsSchedule (dispatched s index) (some (id_at s index)) (s.tick + 1)
          (dispatched-IsSchedule s index v)

pub step-IsSchedule : (s : Scheduler) (c : Call) → IsSchedule s → IsSchedule (step s c)
step-IsSchedule s (spawns parent_id class priority capabilities budget) v =
    spawn_cases (λ out. IsSchedule out.1) s parent_id class priority capabilities budget v
      (λ _ room. numbered-IsSchedule s room v)
      λ slot room _ _ e. spawned-IsSchedule s _ slot v refl room e
step-IsSchedule s (moves id to) v =
    transition_cases (λ out. IsSchedule out.1) s id to (λ _. v)
      λ t _ _.
        recast-IsSchedule (rewritten s id (put_state to)) (current_after s.current_task id to)
          s.tick (rewritten-IsSchedule s id (put_state to) (λ _. refl) v)
step-IsSchedule s (cancels id) v =
    cancel_cases (λ out. IsSchedule out.1) s id (λ _. v)
      λ t _ _.
        recast-IsSchedule (rewritten s id (put_state TaskState.zombie)) (without s.current_task id)
          s.tick (rewritten-IsSchedule s id (put_state TaskState.zombie) (λ _. refl) v)
step-IsSchedule s schedules v = schedule_next-IsSchedule s v
step-IsSchedule s yields v =
    yield_current_cases (λ out. IsSchedule out.1) s (λ _. v) (λ _. schedule_next-IsSchedule s v)
      λ id t budget _ _ _.
        schedule_next-IsSchedule (rewritten s id (step_back budget))
          (rewritten-IsSchedule s id (step_back budget) (λ _. refl) v)

pub run-IsSchedule : (s : Scheduler) (cs : List Call) → IsSchedule s → IsSchedule (run s cs)
unfolding run
run-IsSchedule s [] v = v
run-IsSchedule s (c ∷ cs) v = run-IsSchedule (step s c) cs (step-IsSchedule s c v)

-- Whatever is called on it, a new scheduler keeps its 64 slots, no identifier is ever that of two
-- tasks, and none is zero or of a number not yet handed out.
pub run-new-IsSchedule : (cs : List Call) → IsSchedule (run new cs)
run-new-IsSchedule cs = run-IsSchedule new cs new-IsSchedule
