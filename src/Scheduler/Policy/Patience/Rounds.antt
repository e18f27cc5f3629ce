-- ===== src/Scheduler/Policy/Patience/Rounds.antt =====
-- src/scheduler.rs, `Scheduler::schedule_next`: the age of a ready task, and the tasks that may still be
-- chosen before it, over one round.
use Prim.Native.Nat.{ℕ, ◌+◌, ◌≤◌, ◌<◌, ◌^◌}
use mathlib.Core.Path.{◌≡◌, refl, ap, subst, sym, ◌∙◌}
use mathlib.Core.Logic.{◌⊎◌, ◌≢◌, inl, inr}
use mathlib.Core.Bool.{true, false, ◌&&◌}
use mathlib.Core.Option
use mathlib.Core.Option.{Option, none, some}
use mathlib.Core.List.{List, [], ◌∷◌}
use native.Mathlib.Omega.{arith}
use alani_kernel.Common.Tests.{leb, Bool-cases, Option-cases, some-injective}
use alani_kernel.Common.Lists.{count, find, find_sound, get_or, All, length}
use alani_kernel.Common.Search.{count-get_or, count-le-length, find-fails}
use alani_kernel.Capability.{TaskId}
use alani_kernel.Scheduler.{TaskControlBlock, is_running, is_ready, is_runnable_in, max_tasks}
use alani_kernel.Scheduler.Queue.{TaskSlot, holds_task, empty_slot}
use alani_kernel.Scheduler.Policy.{Scheduler, score, schedule_next, pass_over}
use alani_kernel.Scheduler.Policy.Selection.{beats, IsChoice}
use alani_kernel.Scheduler.Policy.Dispatch.{
  written, rewrite_all, dispatch-rewrite_all, dispatch-ok, find-rewrite_all, pass_over-stops,
}
use alani_kernel.Scheduler.Policy.Invariant.{IsSchedule, id_at, schedule_next_cases}
use alani_kernel.Scheduler.Policy.Running.{choice-IsChoice}
use alani_kernel.Scheduler.Policy.Switches.{AreCounted, dispatch-counted}
use alani_kernel.Scheduler.Policy.Patience.{
  head_start, max_age, IsFit, rivals, score-age, score-head_start, count-rivals-rewrite_all,
}
use alani_kernel.Scheduler.Policy.Patience.Passing.{
  length-rewrite_all, pass_over-older, pass_over-interrupted, written-selected, written-passed,
}

-- A running task has age zero, and a ready one either an age of at most the head start, or no more rivals
-- than rounds left.
pub record IsPatient (id : TaskId) (slots : List TaskSlot) (t : TaskControlBlock) : Type 0 where
  pub rested : is_running t.state ≡ true → t.age ≡ 0
  pub waited :
      is_ready t.state ≡ true
      → (t.age ≤ head_start) ⊎ (t.age + count (rivals id t.age) slots ≤ max_age)

-- All tasks that the table finds are so.
abbrev pub ArePatient : List TaskSlot → Type 0
ArePatient slots =
    (id : TaskId) (slot : TaskSlot)
    → find (holds_task id) slots ≡ some slot
    → IsPatient id slots slot.task

All-get_or {ℓ} :
    {A : Type ℓ} (P : A → Type 0) (xs : List A) (i : ℕ) (d : A) → P d → All P xs → P (get_or xs i d)
All-get_or P [] i d out h = out
All-get_or P (x ∷ xs) Prim.Native.Nat.zero d out h = h.0
All-get_or P (x ∷ xs) (Prim.Native.Nat.suc i) d out h = All-get_or P xs i d out h.1

-- The task chosen before a ready one that is older than the head start is a rival of it.
chosen-rivals :
    (tick index : ℕ) (slots : List TaskSlot) (id : TaskId) (slot : TaskSlot)
    → All IsFit slots
    → IsChoice tick slots (some index)
    → find (holds_task id) slots ≡ some slot
    → is_ready slot.task.state ≡ true
    → (get_or slots index empty_slot).task.id ≢ id
    → rivals id slot.task.age (get_or slots index empty_slot) ≡ true
unfolding is_ready is_runnable_in
chosen-rivals tick index slots id slot fit chosen found ready other =
    let c : TaskSlot = get_or slots index empty_slot in
    ground (
      arith,
      chosen.0,
      find_sound (holds_task id) slots found,
      find-fails (holds_task id) (beats tick (score tick c.task)) slots chosen.1 found,
      score-age tick slot.task,
      score-head_start tick c
          (All-get_or IsFit slots index empty_slot (omega arith, omega arith, refl) fit),
    )

pub IsPatient-young :
    (id : TaskId) (slots : List TaskSlot) (t : TaskControlBlock) → t.age ≡ 0 → IsPatient id slots t
IsPatient-young id slots t h = record { rested = λ _. h; waited = λ _. inl (omega (arith, h)) }

-- A ready task that a round passes over.
older-waited :
    (tick index : ℕ) (slots : List TaskSlot) (id : TaskId) (slot : TaskSlot)
    → All IsFit slots
    → length slots ≡ max_tasks
    → IsChoice tick slots (some index)
    → find (holds_task id) slots ≡ some slot
    → is_ready slot.task.state ≡ true
    → (get_or slots index empty_slot).task.id ≢ id
    → (slot.task.age ≤ head_start)
      ⊎ (slot.task.age + count (rivals id slot.task.age) slots ≤ max_age)
    → let selected = (get_or slots index empty_slot).task.id in
      (slot.task.age + 1 ≤ head_start)
      ⊎ (slot.task.age + 1 + count (rivals id (slot.task.age + 1)) (rewrite_all selected slots)
          ≤ max_age)
older-waited tick index slots id slot fit size chosen found ready other waited =
    elim (Bool-cases (leb head_start slot.task.age)) [
      | inr young ↦ inl (ground (arith, young))
      | inl old ↦ elim waited [
        | inl edge ↦ inr (
            ground (
              arith,
              edge,
              size,
              length-rewrite_all (get_or slots index empty_slot).task.id slots,
              count-le-length (rivals id (slot.task.age + 1))
                  (rewrite_all (get_or slots index empty_slot).task.id slots),
            ))
        | inr few ↦ inr (fewer few (ground (arith, old)))
      ]
    ]
  where
    c : TaskSlot
    c = get_or slots index empty_slot

    fewer :
        slot.task.age + count (rivals id slot.task.age) slots ≤ max_age
        → head_start ≤ slot.task.age
        → slot.task.age + 1 + count (rivals id (slot.task.age + 1)) (rewrite_all c.task.id slots)
          ≤ max_age
    fewer few old = omega (
      arith,
      few,
      count-rivals-rewrite_all id c.task.id slot.task.age slots old,
      count-get_or (λ x. rivals id slot.task.age x && holds_task c.task.id x) slots index empty_slot
          refl
          (ground
            (arith, chosen.0, chosen-rivals tick index slots id slot fit chosen found ready other)),
    )

-- The same for whatever the table finds.
IsPatient-written :
    (tick index : ℕ) (slots : List TaskSlot) (id : TaskId) (slot : TaskSlot)
    → All IsFit slots
    → length slots ≡ max_tasks
    → IsChoice tick slots (some index)
    → find (holds_task id) slots ≡ some slot
    → IsPatient id slots slot.task
    → let selected = (get_or slots index empty_slot).task.id in
      IsPatient id (rewrite_all selected slots) (written selected slot).task
IsPatient-written tick index slots id slot fit size chosen found h =
    elim (Bool-cases (holds_task selected slot)) [
      | inl hit ↦ IsPatient-young id _ _ (written-selected selected slot hit)
      | inr miss ↦
          subst (IsPatient id (rewrite_all selected slots))
            (sym (written-passed selected slot used miss))
            (record {
              rested = λ runs. absurd (ground (arith, runs, pass_over-stops slot.task));
              waited = waited miss;
            })
    ]
  where
    selected : TaskId
    selected = (get_or slots index empty_slot).task.id

    held : holds_task id slot ≡ true
    held = find_sound (holds_task id) slots found

    used : slot.occupied ≡ true
    used = ground (arith, held)

    bounded : is_ready slot.task.state ≡ true → slot.task.age ≤ max_age
    bounded ready = ground (arith, h.waited ready)

    waited :
        holds_task selected slot ≡ false
        → is_ready (pass_over slot.task).state ≡ true
        → ((pass_over slot.task).age ≤ head_start)
          ⊎ ((pass_over slot.task).age
                + count (rivals id (pass_over slot.task).age) (rewrite_all selected slots)
              ≤ max_age)
    waited miss ready = elim (Bool-cases (is_ready slot.task.state)) [
      | inl before ↦ rw (pass_over-older slot.task before (bounded before)).0 (
          older-waited tick index slots id slot fit size chosen found before
            (ground (arith, held, miss)) (h.waited before))
      | inr woken ↦
          let (ran, same) = pass_over-interrupted slot.task woken ready in
          inl (omega (arith, same, h.rested ran))
    ]

-- What `find` finds after a round.
rewrite_all-ArePatient :
    (tick index : ℕ) (slots : List TaskSlot)
    → All IsFit slots
    → length slots ≡ max_tasks
    → IsChoice tick slots (some index)
    → ArePatient slots
    → ArePatient (rewrite_all (get_or slots index empty_slot).task.id slots)
rewrite_all-ArePatient tick index slots fit size chosen h id after found =
    elim (Option-cases (find (holds_task id) slots)) [
      | inl gone ↦ absurd (ground (arith, gone, found, find-rewrite_all id selected slots))
      | inr (slot, before) ↦
          subst (λ x. IsPatient id (rewrite_all selected slots) x.task)
            (some-injective (
              ap (Option.map (written selected)) (sym before)
              ∙ sym (find-rewrite_all id selected slots)
              ∙ found))
            (IsPatient-written tick index slots id slot fit size chosen before (h id slot before))
    ]
  where
    selected : TaskId
    selected = (get_or slots index empty_slot).task.id

pub schedule_next-ArePatient :
    (s : Scheduler)
    → IsSchedule s
    → AreCounted s
    → All IsFit s.run_queue.slots
    → ArePatient s.run_queue.slots
    → ArePatient (schedule_next s).1.run_queue.slots
schedule_next-ArePatient s v counted fit h =
    schedule_next_cases (λ out. ArePatient out.1.run_queue.slots) s (λ _. h) (λ _ _. h)
      (λ index e room _ fails.
        absurd (ground (arith, fails, dispatch-counted s index room counted)))
      λ index _ chosen works.
        subst ArePatient
          (sym (
            ap (λ o. o.1)
              (dispatch-rewrite_all (id_at s index) s.run_queue.slots
                (dispatch-ok (id_at s index) s.run_queue.slots works))))
          (rewrite_all-ArePatient (s.tick + 1) index s.run_queue.slots fit v.size
            (choice-IsChoice s chosen) h)
