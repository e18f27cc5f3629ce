-- ===== src/Scheduler/Policy/Invariant.antt =====
-- src/scheduler.rs, `Scheduler`: what holds of the table of tasks between two calls, and the cases of
-- the calls. `Calls` holds the runs.
use Prim.Native.Nat.{ℕ, ◌+◌, ◌≤◌, ◌<◌, ◌^◌}
use mathlib.Core.Path.{◌≡◌, refl}
use mathlib.Core.Logic.{◌≢◌, inl, inr}
use mathlib.Core.Bool.{true, false}
use mathlib.Core.Option.{Option, none, some}
use native.Mathlib.Omega.{arith}
use alani_kernel.Common.Tests.{◌==◌, ltb, ltb→lt, if◌then◌else◌, Option-cases, Bool-cases}
use alani_kernel.Common.Lists.{count, length, find, get_or, update_first}
use alani_kernel.Common.Search.{count-replicate}
use alani_kernel.Error.{KernelError}
use alani_kernel.Outcome.{KernelResult, ok, err, KernelResult-cases}
use alani_kernel.Method.{try, return}
use alani_kernel.Capability.{TaskId, CapabilitySet}
use alani_kernel.Scheduler.{
  TaskControlBlock, TaskState, TaskStateTransition, SchedulerClass, BudgetAccount, new_task,
  max_tasks,
}
use alani_kernel.Scheduler.Queue.{
  RunQueue, TaskSlot, holds_task, is_vacant, empty_slot, get, update, insert,
}
use alani_kernel.Scheduler.Policy.{
  Scheduler, new, spawn, transition, valid_transition, current_after, is_current, cancel,
  is_terminal, select, dispatch, run_selected, schedule_next,
}
use alani_kernel.Scheduler.Policy.Selection.{nothing_yet}

-- The 64 slots hold tasks with distinct identifiers, none of them zero or not yet handed out.
pub record IsSchedule (s : Scheduler) : Type 0 where
  pub size : length s.run_queue.slots ≡ max_tasks
  pub id_pos : 0 < s.next_task_id
  pub id_word : s.next_task_id < 2 ^ 64
  pub unique : (i : TaskId) → count (holds_task i) s.run_queue.slots ≤ 1
  pub fresh : (i : TaskId) → s.next_task_id ≤ i → count (holds_task i) s.run_queue.slots ≡ 0
  pub no_zero : count (holds_task 0) s.run_queue.slots ≡ 0

pub new-IsSchedule : IsSchedule new
new-IsSchedule = record {
  size = refl;
  id_pos = omega arith;
  id_word = omega arith;
  unique = λ i. omega (arith, count-replicate (holds_task i) 64 empty_slot refl);
  fresh = λ i _. count-replicate (holds_task i) 64 empty_slot refl;
  no_zero = refl;
}

abbrev pub slot_of : TaskControlBlock → TaskSlot
slot_of t = record { occupied = true; task = t }

-- The queue after `insert`, and the scheduler after `spawn`.
abbrev pub inserted : RunQueue → TaskControlBlock → RunQueue
inserted q t = record { slots = update_first is_vacant (λ _. slot_of t) q.slots }

abbrev pub numbered : Scheduler → Scheduler
numbered s = record s { next_task_id = s.next_task_id + 1 }

-- Either `insert` fails and changes nothing, or the identifier was new and not zero, and the task is
-- written to a vacant slot.
pub insert_cases {ℓ} :
    (P : KernelResult (Unit {0}) × RunQueue → Type ℓ) (q : RunQueue) (t : TaskControlBlock)
    → ((e : KernelError) → P (err e, q))
    → ((slot : TaskSlot)
        → t.id ≢ 0
        → find (holds_task t.id) q.slots ≡ none
        → find is_vacant q.slots ≡ some slot
        → P (ok tt, inserted q t))
    → P (insert t q)
unfolding insert get
insert_cases P q t failed done = elim (Bool-cases (t.id == 0)) [
  | inl zero_id ↦ rw (zero_id, insert) (failed KernelError.invalid_argument)
  | inr some_id ↦ elim (Option-cases (find (holds_task t.id) q.slots)) [
    | inr (other, e) ↦ rw (some_id, insert) (rw (e, insert) (failed KernelError.duplicate))
    | inl unknown ↦ elim (Option-cases (find is_vacant q.slots)) [
      | inl full ↦
          rw (some_id, insert)
            (rw (unknown, insert) (rw (full, insert) (failed KernelError.capacity_exceeded)))
      | inr (slot, e) ↦
          rw (some_id, insert)
            (rw (unknown, insert) (rw (e, insert) (done slot (ground (arith, some_id)) unknown e)))
    ]
  ]
]

-- `spawn` fails with nothing changed if the identifiers have run out, fails having used up an
-- identifier if the task cannot be inserted, and otherwise inserts it.
pub spawn_cases {ℓ} :
    (P : KernelResult TaskId × Scheduler → Type ℓ) (s : Scheduler) (parent_id : TaskId)
    (class : SchedulerClass) (priority : ℕ) (capabilities : CapabilitySet) (budget : BudgetAccount)
    → P (err KernelError.internal, s)
    → ((e : KernelError) → s.next_task_id + 1 < 2 ^ 64 → P (err e, numbered s))
    → (let t : TaskControlBlock =
          new_task s.next_task_id parent_id class priority capabilities budget in
        (slot : TaskSlot)
        → s.next_task_id + 1 < 2 ^ 64
        → s.next_task_id ≢ 0
        → find (holds_task s.next_task_id) s.run_queue.slots ≡ none
        → find is_vacant s.run_queue.slots ≡ some slot
        → P (ok s.next_task_id, record (numbered s) { run_queue = inserted s.run_queue t }))
    → P (spawn parent_id class priority capabilities budget s)
unfolding spawn
spawn_cases P s parent_id class priority capabilities budget over failed done =
    elim (Bool-cases (ltb (s.next_task_id + 1) (2 ^ 64))) [
      | inr last ↦ rw (last, spawn) over
      | inl room ↦
          rw (room, spawn)
            (insert_cases
              (λ out. P (
                try out.0 (record (numbered s) { run_queue = out.1 }) (λ _. return s.next_task_id)))
              s.run_queue (new_task s.next_task_id parent_id class priority capabilities budget)
              (λ e. failed e (ltb→lt _ _ room))
              λ slot pos unknown e. done slot (ltb→lt _ _ room) pos unknown e)
    ]

-- The scheduler after a write to one task.
abbrev pub rewritten : Scheduler → TaskId → (TaskControlBlock → TaskControlBlock) → Scheduler
rewritten s id f = record s { run_queue = update id f s.run_queue }

abbrev pub put_state : TaskState → TaskControlBlock → TaskControlBlock
put_state state t = record t { state = state }

-- `transition` fails and changes nothing, or writes the state of the task found.
pub transition_cases {ℓ} :
    (P : KernelResult TaskStateTransition × Scheduler → Type ℓ) (s : Scheduler) (id : TaskId)
    (to : TaskState)
    → ((e : KernelError) → P (err e, s))
    → ((t : TaskControlBlock)
        → get s.run_queue id ≡ some t
        → valid_transition t.state to ≡ true
        → P (
          ok (record { task_id = id; from = t.state; to = to }),
          record (rewritten s id (put_state to)) {
            current_task = current_after s.current_task id to;
          },
        ))
    → P (transition id to s)
unfolding transition
transition_cases P s id to failed done = elim (Option-cases (get s.run_queue id)) [
  | inl gone ↦ rw (gone, transition) (failed KernelError.not_found)
  | inr (t, e) ↦ elim (Bool-cases (valid_transition t.state to)) [
    | inr refused ↦ rw (e, transition) (rw (refused, transition) (failed KernelError.invalid_state))
    | inl valid ↦ rw (e, transition) (rw (valid, transition) (done t e valid))
  ]
]

-- The current task once another or none is cancelled.
abbrev pub without : Option TaskId → TaskId → Option TaskId
without current id = if is_current current id then none else current

-- `cancel` fails and changes nothing, or makes a zombie of the task found.
pub cancel_cases {ℓ} :
    (P : KernelResult TaskStateTransition × Scheduler → Type ℓ) (s : Scheduler) (id : TaskId)
    → ((e : KernelError) → P (err e, s))
    → ((t : TaskControlBlock)
        → get s.run_queue id ≡ some t
        → is_terminal t.state ≡ false
        → P (
          ok (record { task_id = id; from = t.state; to = TaskState.zombie }),
          record (rewritten s id (put_state TaskState.zombie)) {
            current_task = without s.current_task id;
          },
        ))
    → P (cancel id s)
unfolding cancel
cancel_cases P s id failed done = elim (Option-cases (get s.run_queue id)) [
  | inl gone ↦ rw (gone, cancel) (failed KernelError.not_found)
  | inr (t, e) ↦ elim (Bool-cases (is_terminal t.state)) [
    | inl over ↦ rw (e, cancel) (rw (over, cancel) (failed KernelError.invalid_state))
    | inr live ↦ rw (e, cancel) (rw (live, cancel) (done t e live))
  ]
]

-- The scheduler as `schedule_next` leaves it before the current task is set.
abbrev pub dispatched : Scheduler → ℕ → Scheduler
dispatched s index =
    let selected : TaskId = (get_or s.run_queue.slots index empty_slot).task.id in
    record s {
      run_queue = record { slots = (dispatch selected s.run_queue.slots).1 };
      tick = s.tick + 1;
    }

-- The task at an index.
abbrev pub id_at : Scheduler → ℕ → TaskId
id_at s index = (get_or s.run_queue.slots index empty_slot).task.id

-- What the selection loop of `schedule_next` returns.
abbrev pub choice : Scheduler → Option ℕ
choice s = (select (s.tick + 1) 0 s.run_queue.slots nothing_yet).index

-- `schedule_next` fails and changes nothing if the tick has run out; it returns nothing if nothing is
-- eligible; it stops in the update loop; or it returns the task selected.
pub schedule_next_cases {ℓ} :
    (P : KernelResult (Option TaskId) × Scheduler → Type ℓ) (s : Scheduler)
    → (2 ^ 64 ≤ s.tick + 1 → P (err KernelError.internal, s))
    → (s.tick + 1 < 2 ^ 64
        → choice s ≡ none
        → P (ok none, record s { tick = s.tick + 1; current_task = none }))
    → ((index : ℕ) (e : KernelError)
        → s.tick + 1 < 2 ^ 64
        → choice s ≡ some index
        → (dispatch (id_at s index) s.run_queue.slots).0 ≡ err e
        → P (err e, dispatched s index))
    → ((index : ℕ)
        → s.tick + 1 < 2 ^ 64
        → choice s ≡ some index
        → (dispatch (id_at s index) s.run_queue.slots).0 ≡ ok tt
        → P (
          ok (some (id_at s index)),
          record (dispatched s index) { current_task = some (id_at s index) },
        ))
    → P (schedule_next s)
unfolding schedule_next run_selected
schedule_next_cases P s over idle stopped done = elim (Bool-cases (ltb (s.tick + 1) (2 ^ 64))) [
  | inr last ↦ rw (last, schedule_next) (over (ground (arith, last)))
  | inl room ↦ elim (Option-cases (choice s)) [
    | inl nothing ↦
        rw (room, schedule_next) (rw (nothing, schedule_next) (idle (ltb→lt _ _ room) nothing))
    | inr (index, e) ↦ elim (KernelResult-cases (dispatch (id_at s index) s.run_queue.slots).0) [
      | inr (failure, fails) ↦
          rw (room, schedule_next)
            (rw (e, schedule_next)
              (rw (fails, schedule_next) (stopped index failure (ltb→lt _ _ room) e fails)))
      | inl (tt, works) ↦
          rw (room, schedule_next)
            (rw (e, schedule_next)
              (rw (works, schedule_next) (done index (ltb→lt _ _ room) e works)))
    ]
  ]
]
