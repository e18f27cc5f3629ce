-- ===== src/Scheduler/Policy/Exclusive.antt =====
-- src/scheduler.rs, `Scheduler::current_task`: that only the current task runs.
use mathlib.Core.Path.{◌≡◌, refl, ap}
use mathlib.Core.Bool.{Bool, true, false, not, ◌&&◌}
use mathlib.Core.Option.{Option, none, some}
use mathlib.Core.List.{List, [], ◌∷◌}
use Prim.Native.Nat.{◌≤◌, ◌+◌}
use native.Mathlib.Omega.{arith}
use mathlib.Core.Logic.{inl, inr}
use alani_kernel.Common.Tests.{Bool-cases}
use alani_kernel.Common.Lists.{All, count, find, update_first}
use alani_kernel.Common.Search.{count_mono, count-update_first}
use alani_kernel.Capability.{TaskId}
use alani_kernel.Scheduler.{BudgetAccount, TaskControlBlock, TaskState, is_running, is_runnable_in}
use alani_kernel.Scheduler.Queue.{TaskSlot, holds_task, is_vacant, update}
use alani_kernel.Scheduler.Policy.{Scheduler, new, schedule_next, step_back, is_current, pass_over}
use alani_kernel.Scheduler.Policy.Selection.{eligible}
use alani_kernel.Scheduler.Policy.Dispatch.{
  runs, written, rewrite_all, dispatch-rewrite_all, dispatch-ok, runs-written,
}
use alani_kernel.Scheduler.Policy.Invariant.{
  IsSchedule, new-IsSchedule, slot_of, inserted, put_state, without, spawn_cases, transition_cases,
  cancel_cases, schedule_next_cases, id_at, rewritten,
}
use alani_kernel.Scheduler.Policy.Running.{choice-IsChoice}
use alani_kernel.Scheduler.Policy.Switches.{
  AreCounted, new-AreCounted, rewritten-AreCounted, step-AreCounted, dispatch-counted,
}
use alani_kernel.Scheduler.Policy.Calls.{
  Call, step, run, step-IsSchedule, rewritten-IsSchedule, yield_current_cases,
}
use Call.{spawns, moves, cancels, schedules, yields}

-- The slot's task runs and is not the current one.
abbrev pub strays : Option TaskId → TaskSlot → Bool
strays current slot = runs slot && not (is_current current slot.task.id)

-- Of the well-formed tables, those in which no task runs but the current one.
pub record IsExclusive (s : Scheduler) : Type 0 where
  pub schedule : IsSchedule s
  pub counted : AreCounted s
  pub no_stray : count (strays s.current_task) s.run_queue.slots ≡ 0

-- The call sets no task running by a direct transition.
abbrev pub StartsNothing : Call → Type 0
StartsNothing (moves id to) = is_running to ≡ false
StartsNothing _ = Unit

-- Where nothing passes either of two tests, nothing passes one that implies them.
count-either {ℓ} :
    {A : Type ℓ} (p q r : A → Bool) (xs : List A)
    → count p xs ≡ 0
    → count q xs ≡ 0
    → ((x : A) → p x ≡ false → q x ≡ false → r x ≡ false)
    → count r xs ≡ 0
count-either p q r [] no_p no_q kept = refl
count-either p q r (x ∷ xs) no_p no_q kept =
    ground (arith, kept x, count-either p q r xs (ground arith) (ground arith) kept)

-- The same with one entry that passes, if what is written there fails.
count-update_first_either {ℓ} :
    {A : Type ℓ} (p q r : A → Bool) (f : A → A) (xs : List A)
    → count p xs ≤ 1
    → count q xs ≡ 0
    → ((x : A) → p x ≡ false → q x ≡ false → r x ≡ false)
    → ((x : A) → r (f x) ≡ false)
    → count r (update_first p f xs) ≡ 0
count-update_first_either p q r f [] one no_q kept hit = refl
count-update_first_either p q r f (x ∷ xs) one no_q kept hit = elim (Bool-cases (p x)) [
  | inl here ↦ rw here (
      ground (arith, hit x, here, count-either p q r xs (ground (arith, here)) (ground arith) kept))
  | inr past ↦ rw past (
      ground (
        arith,
        past,
        kept x,
        count-update_first_either p q r f xs (ground (arith, past)) (ground arith) kept hit,
      ))
]

-- A slot that does not hold the task that is no longer the current one.
strays-without :
    (current : Option TaskId) (id : TaskId) (slot : TaskSlot)
    → holds_task id slot ≡ false
    → strays current slot ≡ false
    → strays (without current id) slot ≡ false
strays-without none id slot other h = h
strays-without (some current) id slot other h = ground arith

-- A task that is stopped, and is no longer the current one if it was.
stopped :
    (s : Scheduler) (id : TaskId) (to : TaskState)
    → is_running to ≡ false
    → IsSchedule s
    → count (strays s.current_task) s.run_queue.slots ≡ 0
    → count (strays (without s.current_task id)) (rewritten s id (put_state to)).run_queue.slots ≡ 0
unfolding update
stopped s id to idle v h =
    count-update_first_either (holds_task id) (strays s.current_task)
      (strays (without s.current_task id)) (λ slot. record slot { task = put_state to slot.task })
      s.run_queue.slots (v.unique id) h (strays-without s.current_task id)
      λ slot. ground (arith, idle)

-- The current task that steps back.
strays-step_back :
    (s : Scheduler) (id : TaskId) (f : TaskControlBlock → TaskControlBlock)
    → ((t : TaskControlBlock) → is_running (f t).state ≡ false)
    → IsExclusive s
    → count (strays s.current_task) (rewritten s id f).run_queue.slots ≡ 0
unfolding update
strays-step_back s id f idle v =
    count-update_first_either (holds_task id) (strays s.current_task) (strays s.current_task) _
      s.run_queue.slots (v.schedule.unique id) v.no_stray (λ slot _ h. h)
      λ slot. ground (arith, idle slot.task)

-- A spawned task, in a vacant slot.
spawned :
    (s : Scheduler) (t : TaskControlBlock) {slot : TaskSlot}
    → find is_vacant s.run_queue.slots ≡ some slot
    → is_running t.state ≡ false
    → count (strays s.current_task) s.run_queue.slots ≡ 0
    → count (strays s.current_task) (inserted s.run_queue t).slots ≡ 0
spawned s t {slot} e idle h = ground (
  arith,
  h,
  idle,
  count-update_first is_vacant (strays s.current_task) (λ _. slot_of t) s.run_queue.slots e,
)

strays-written : (id : TaskId) (slot : TaskSlot) → strays (some id) (written id slot) ≡ false
unfolding pass_over
strays-written id slot = ground (arith, runs-written id slot)

strays-rewrite_all :
    (id : TaskId) (slots : List TaskSlot) → count (strays (some id)) (rewrite_all id slots) ≡ 0
strays-rewrite_all id [] = refl
strays-rewrite_all id (slot ∷ slots) =
    ground (arith, strays-written id slot, strays-rewrite_all id slots)

runs-eligible : (slot : TaskSlot) → strays none slot ≡ true → eligible slot ≡ true
unfolding is_running is_runnable_in
runs-eligible slot h = ground arith

strays-schedule_next :
    (s : Scheduler)
    → IsExclusive s
    → count (strays (schedule_next s).1.current_task) (schedule_next s).1.run_queue.slots ≡ 0
strays-schedule_next s v =
    schedule_next_cases (λ out. count (strays out.1.current_task) out.1.run_queue.slots ≡ 0) s
      (λ _. v.no_stray)
      (λ _ nothing. omega (
        arith,
        count_mono (strays none) eligible s.run_queue.slots runs-eligible,
        choice-IsChoice s nothing,
      ))
      (λ index e room _ fails.
        absurd (ground (arith, fails, dispatch-counted s index room v.counted)))
      λ index _ _ works.
        rw
          (ap (λ o. o.1)
            (dispatch-rewrite_all (id_at s index) s.run_queue.slots
              (dispatch-ok (id_at s index) s.run_queue.slots works)))
          (strays-rewrite_all (id_at s index) s.run_queue.slots)

schedule_next-IsExclusive : (s : Scheduler) → IsExclusive s → IsExclusive (schedule_next s).1
schedule_next-IsExclusive s v = record {
  schedule = step-IsSchedule s schedules v.schedule;
  counted = step-AreCounted s schedules v.counted;
  no_stray = strays-schedule_next s v;
}

step_back-IsExclusive :
    (s : Scheduler) (id : TaskId) (budget : BudgetAccount)
    → IsExclusive s
    → IsExclusive (rewritten s id (step_back budget))
unfolding is_running
step_back-IsExclusive s id budget v = record {
  schedule = rewritten-IsSchedule s id (step_back budget) (λ _. refl) v.schedule;
  counted = rewritten-AreCounted s id (step_back budget) (λ _. refl) v.counted;
  no_stray = strays-step_back s id (step_back budget) (λ t. ground arith) v;
}

-- The only part of the invariant that is not that of `Calls` and `Switches`.
no_stray-step :
    (s : Scheduler) (c : Call)
    → StartsNothing c
    → IsExclusive s
    → count (strays (step s c).current_task) (step s c).run_queue.slots ≡ 0
unfolding is_running
no_stray-step s (spawns parent_id class priority capabilities budget) _ v =
    spawn_cases (λ out. count (strays out.1.current_task) out.1.run_queue.slots ≡ 0) s parent_id
      class priority capabilities budget v.no_stray (λ _ _. v.no_stray)
      λ slot _ _ _ e. spawned s _ e refl v.no_stray
no_stray-step s (moves id to) idle v =
    transition_cases (λ out. count (strays out.1.current_task) out.1.run_queue.slots ≡ 0) s id to
      (λ _. v.no_stray) λ _ _ _. rw idle (stopped s id to idle v.schedule v.no_stray)
no_stray-step s (cancels id) _ v =
    cancel_cases (λ out. count (strays out.1.current_task) out.1.run_queue.slots ≡ 0) s id
      (λ _. v.no_stray) λ _ _ _. stopped s id TaskState.zombie refl v.schedule v.no_stray
no_stray-step s schedules _ v = strays-schedule_next s v
no_stray-step s yields _ v =
    yield_current_cases (λ out. count (strays out.1.current_task) out.1.run_queue.slots ≡ 0) s
      (λ _. v.no_stray) (λ _. strays-schedule_next s v)
      λ id _ budget _ _ _.
        strays-schedule_next (rewritten s id (step_back budget))
          (step_back-IsExclusive s id budget v)

pub step-IsExclusive :
    (s : Scheduler) (c : Call) → StartsNothing c → IsExclusive s → IsExclusive (step s c)
step-IsExclusive s c idle v = record {
  schedule = step-IsSchedule s c v.schedule;
  counted = step-AreCounted s c v.counted;
  no_stray = no_stray-step s c idle v;
}

pub run-IsExclusive :
    (s : Scheduler) (cs : List Call) → All StartsNothing cs → IsExclusive s → IsExclusive (run s cs)
unfolding run
run-IsExclusive s [] idle v = v
run-IsExclusive s (c ∷ cs) idle v =
    run-IsExclusive (step s c) cs idle.1 (step-IsExclusive s c idle.0 v)

pub new-IsExclusive : IsExclusive new
new-IsExclusive = record { schedule = new-IsSchedule; counted = new-AreCounted; no_stray = refl }

count-runs-some :
    (id : TaskId) (slots : List TaskSlot)
    → count runs slots ≤ count (holds_task id) slots + count (strays (some id)) slots
count-runs-some id [] = omega arith
count-runs-some id (slot ∷ slots) = ground (arith, count-runs-some id slots)

-- Where no task runs but the current one, at most one does.
pub count-runs :
    (o : Option TaskId) (slots : List TaskSlot)
    → ((i : TaskId) → count (holds_task i) slots ≤ 1)
    → count (strays o) slots ≡ 0
    → count runs slots ≤ 1
count-runs none slots one none_strays =
    omega (arith, none_strays, count_mono runs (strays none) slots λ slot h. ground arith)
count-runs (some id) slots one none_strays =
    omega (arith, none_strays, one id, count-runs-some id slots)
