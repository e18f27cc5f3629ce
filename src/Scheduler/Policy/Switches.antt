-- ===== src/Scheduler/Policy/Switches.antt =====
-- src/scheduler.rs, `TaskControlBlock::context_switches`: the counts of switches through every sequence of
-- calls, and the errors of `Scheduler::schedule_next`.
use Prim.Native.Nat.{ℕ, ◌+◌, ◌≤◌, ◌<◌, ◌^◌}
use mathlib.Core.Path.{◌≡◌, refl, ap}
use mathlib.Core.Logic.{inl, inr}
use mathlib.Core.Bool.{Bool, true, false, not, ◌&&◌}
use mathlib.Core.Option.{Option, none, some}
use mathlib.Core.List.{List, [], ◌∷◌}
use native.Mathlib.Omega.{arith}
use alani_kernel.Common.Tests.{ltb, ◌==◌, is_some, Bool-cases, ltb→lt}
use alani_kernel.Common.Lists.{All, All-map, All-replicate, All-update_first, count}
use alani_kernel.Common.Search.{count-get_or}
use alani_kernel.Error.{KernelError}
use alani_kernel.Outcome.{ok, err}
use alani_kernel.Capability.{TaskId}
use alani_kernel.Scheduler.{TaskControlBlock, TaskState}
use alani_kernel.Scheduler.Queue.{TaskSlot, holds_task, is_vacant, empty_slot, update}
use alani_kernel.Scheduler.Policy.{
  Scheduler, new, start, dispatch, pass_over, schedule_next, step_back,
}
use alani_kernel.Scheduler.Policy.Selection.{eligible}
use alani_kernel.Scheduler.Policy.Dispatch.{
  is_saturated, written, dispatch-cons_failed, dispatch-cons, dispatch-rewrite_all,
}
use alani_kernel.Scheduler.Policy.Invariant.{
  put_state, spawn_cases, transition_cases, cancel_cases, schedule_next_cases, id_at, rewritten,
}
use alani_kernel.Scheduler.Policy.Running.{choice-IsChoice}
use alani_kernel.Scheduler.Policy.Calls.{Call, step, run, yield_current_cases}
use Call.{spawns, moves, cancels, schedules, yields}

-- What one round of the update loop makes of every slot, it makes of all of them, also where it stops.
pub All-dispatch {ℓ κ} :
    (P : TaskSlot → Type ℓ) (Q : TaskSlot → Type κ) (selected : TaskId) (slots : List TaskSlot)
    → ((slot : TaskSlot) → P slot → Q slot)
    → ((slot : TaskSlot) → P slot → Q (record slot { task = start slot.task }))
    → ((slot : TaskSlot) → P slot → Q (written selected slot))
    → All P slots
    → All Q (dispatch selected slots).1
unfolding dispatch
All-dispatch P Q selected [] left starts writes h = tt
All-dispatch P Q selected (slot ∷ slots) left starts writes h =
    elim (Bool-cases (holds_task selected slot && is_saturated slot)) [
      | inl stops ↦
          rw (dispatch-cons_failed selected slot slots stops)
            (starts slot h.0, All-map left slots h.1)
      | inr goes_on ↦
          rw (dispatch-cons selected slot slots goes_on)
            (writes slot h.0, All-dispatch P Q selected slots left starts writes h.1)
    ]

-- The task was switched to at most `n` times.
abbrev pub IsCounted : ℕ → TaskSlot → Type 0
IsCounted n slot = slot.task.context_switches ≤ n

-- No task was switched to more often than the tick has advanced.
abbrev pub AreCounted : Scheduler → Type 0
AreCounted s = All (IsCounted s.tick) s.run_queue.slots

written-IsCounted :
    (n : ℕ) (selected : TaskId) (slot : TaskSlot)
    → IsCounted n slot
    → IsCounted (n + 1) (written selected slot)
unfolding pass_over
written-IsCounted n selected slot h = ground (arith, h)

pub rewritten-AreCounted :
    (s : Scheduler) (id : TaskId) (f : TaskControlBlock → TaskControlBlock)
    → ((t : TaskControlBlock) → (f t).context_switches ≡ t.context_switches)
    → AreCounted s
    → AreCounted (rewritten s id f)
unfolding update
rewritten-AreCounted s id f keeps h =
    All-update_first (IsCounted s.tick) (holds_task id) _ s.run_queue.slots
      (λ slot counted. omega (arith, keeps slot.task, counted)) h

schedule_next-AreCounted : (s : Scheduler) → AreCounted s → AreCounted (schedule_next s).1
schedule_next-AreCounted s h =
    schedule_next_cases (λ out. AreCounted out.1) s (λ _. h)
      (λ _ _. All-map (λ slot counted. omega (arith, counted)) s.run_queue.slots h)
      (λ index _ _ _ _. moved (id_at s index)) λ index _ _ _. moved (id_at s index)
  where
    moved : (id : TaskId) → All (IsCounted (s.tick + 1)) (dispatch id s.run_queue.slots).1
    moved id =
        All-dispatch (IsCounted s.tick) (IsCounted (s.tick + 1)) id s.run_queue.slots
          (λ slot counted. omega (arith, counted)) (λ slot counted. omega (arith, counted))
          (written-IsCounted s.tick id) h

pub step-AreCounted : (s : Scheduler) (c : Call) → AreCounted s → AreCounted (step s c)
step-AreCounted s (spawns parent_id class priority capabilities budget) h =
    spawn_cases (λ out. AreCounted out.1) s parent_id class priority capabilities budget h
      (λ _ _. h)
      λ slot _ _ _ _.
        All-update_first (IsCounted s.tick) is_vacant _ s.run_queue.slots (λ _ _. omega arith) h
step-AreCounted s (moves id to) h =
    transition_cases (λ out. AreCounted out.1) s id to (λ _. h)
      λ _ _ _. rewritten-AreCounted s id (put_state to) (λ _. refl) h
step-AreCounted s (cancels id) h =
    cancel_cases (λ out. AreCounted out.1) s id (λ _. h)
      λ _ _ _. rewritten-AreCounted s id (put_state TaskState.zombie) (λ _. refl) h
step-AreCounted s schedules h = schedule_next-AreCounted s h
step-AreCounted s yields h =
    yield_current_cases (λ out. AreCounted out.1) s (λ _. h) (λ _. schedule_next-AreCounted s h)
      λ id _ budget _ _ _.
        schedule_next-AreCounted (rewritten s id (step_back budget))
          (rewritten-AreCounted s id (step_back budget) (λ _. refl) h)

pub run-AreCounted : (s : Scheduler) (cs : List Call) → AreCounted s → AreCounted (run s cs)
unfolding run
run-AreCounted s [] h = h
run-AreCounted s (c ∷ cs) h = run-AreCounted (step s c) cs (step-AreCounted s c h)

pub new-AreCounted : AreCounted new
new-AreCounted = All-replicate (IsCounted 0) 64 empty_slot (omega arith)

-- Before the last tick, no count of switches is at the end of its 64 bits.
pub none_saturated :
    (n : ℕ) (p : TaskSlot → Bool) (slots : List TaskSlot)
    → n + 1 < 2 ^ 64
    → All (IsCounted n) slots
    → count (λ slot. p slot && is_saturated slot) slots ≡ 0
none_saturated n p [] room h = refl
none_saturated n p (slot ∷ slots) room h = ground (arith, h.0, none_saturated n p slots room h.1)

pub dispatch-counted :
    (s : Scheduler) (index : ℕ)
    → s.tick + 1 < 2 ^ 64
    → AreCounted s
    → (dispatch (id_at s index) s.run_queue.slots).0 ≡ ok tt
dispatch-counted s index room h =
    ap (λ o. o.0)
      (dispatch-rewrite_all (id_at s index) s.run_queue.slots
        (none_saturated s.tick (holds_task (id_at s index)) s.run_queue.slots room h))

-- What the outcome of `schedule_next` is to be: before the last tick a success, with a task exactly if
-- one is ready or running, which is then the current one, and at the last tick a failure that changes
-- nothing.
abbrev pub IsTimely : Bool → Scheduler → Type 0
IsTimely true s =
    (o : Option TaskId) × ((schedule_next s).0 ≡ ok o)
    × (is_some o ≡ not (count eligible s.run_queue.slots == 0))
    × ((schedule_next s).1.current_task ≡ o)
IsTimely false s = schedule_next s ≡ (err KernelError.internal, s)

pub early : (s : Scheduler) → AreCounted s → s.tick + 1 < 2 ^ 64 → IsTimely true s
early s h room =
    schedule_next_cases
      (λ out.
        (o : Option TaskId) × (out.0 ≡ ok o)
        × (is_some o ≡ not (count eligible s.run_queue.slots == 0))
        × (out.1.current_task ≡ o))
      s (λ over. absurd (omega (arith, over, room)))
      (λ _ nothing. (none, refl, ground (arith, choice-IsChoice s nothing), refl))
      (λ index e _ _ fails. absurd (ground (arith, fails, dispatch-counted s index room h)))
      λ index _ chosen _. (
        some (id_at s index),
        refl,
        ground (
          arith,
          count-get_or eligible s.run_queue.slots index empty_slot refl
              (choice-IsChoice s chosen).0,
        ),
        refl,
      )

late : (s : Scheduler) → ltb (s.tick + 1) (2 ^ 64) ≡ false → IsTimely false s
unfolding schedule_next
late s last = rw (last, schedule_next) refl

pub schedule_next-IsTimely : (s : Scheduler) → AreCounted s → IsTimely (ltb (s.tick + 1) (2 ^ 64)) s
schedule_next-IsTimely s h = elim (Bool-cases (ltb (s.tick + 1) (2 ^ 64))) [
  | inl room ↦ rw room (early s h (ltb→lt _ _ room))
  | inr last ↦ rw last (late s last)
]

-- In every scheduler that any sequence of calls leaves of a new one, `schedule_next` succeeds before the
-- last tick, returns a task exactly if one is ready or running, and makes what it returns the current
-- one; at the last tick it fails with `Internal` and changes nothing. It never stops half way through the table.
pub schedule_next-run-IsTimely :
    (cs : List Call) → IsTimely (ltb ((run new cs).tick + 1) (2 ^ 64)) (run new cs)
schedule_next-run-IsTimely cs =
    schedule_next-IsTimely (run new cs) (run-AreCounted new cs new-AreCounted)
