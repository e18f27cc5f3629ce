-- ===== src/Scheduler/Policy/Selection.antt =====
-- src/scheduler.rs, the selection loop of `Scheduler::schedule_next`: which task it picks.
use Prim.Native.Nat.{ℕ, suc, ◌+◌, ◌<◌}
use mathlib.Core.Path.{◌≡◌, refl, ◌∙◌, subst, sym}
use mathlib.Core.Logic.{◌⊎◌, inl, inr}
use mathlib.Core.Bool.{Bool, true, false, ◌&&◌}
use mathlib.Core.Option.{Option, none, some}
use mathlib.Core.List.{List, [], ◌∷◌}
use native.Mathlib.Omega.{arith}
use alani_kernel.Common.Tests.{ltb, leb, if◌then◌else◌, Bool-cases}
use alani_kernel.Common.Lists.{get_or, take, count}
use alani_kernel.Scheduler.{is_runnable_in}
use alani_kernel.Scheduler.Queue.{TaskSlot, empty_slot}
use alani_kernel.Scheduler.Policy.{Best, score, consider, select}

-- The slot holds a task that may run.
abbrev pub eligible : TaskSlot → Bool
eligible slot = slot.occupied && is_runnable_in slot.task.state

-- An eligible task with a score above `n`, or of at least `n`.
abbrev pub beats : ℕ → ℕ → TaskSlot → Bool
beats tick n slot = eligible slot && ltb n (score tick slot.task)

abbrev pub reaches : ℕ → ℕ → TaskSlot → Bool
reaches tick n slot = eligible slot && leb n (score tick slot.task)

-- What the selection is to be: nothing if no task is eligible, and otherwise the first of those with
-- the highest score.
abbrev pub IsChoice : ℕ → List TaskSlot → Option ℕ → Type 0
IsChoice tick slots none = count eligible slots ≡ 0
IsChoice tick slots (some i) =
    let chosen : TaskSlot = get_or slots i empty_slot in
    (eligible chosen ≡ true)
    × (count (beats tick (score tick chosen.task)) slots ≡ 0)
    × (count (reaches tick (score tick chosen.task)) (take i slots) ≡ 0)

-- The entry at `j` is the first of the eligible with the highest score.
abbrev pub IsFirstBest : ℕ → List TaskSlot → ℕ → Type 0
IsFirstBest tick slots j = IsChoice tick slots (some j)

-- The best after the loop met the entry at `j` of the rest.
abbrev pub best_at : ℕ → ℕ → List TaskSlot → ℕ → Best
best_at tick index slots j = record {
  index = some (index + j);
  best_score = score tick (get_or slots j empty_slot).task;
}

abbrev pub best_of : ℕ → ℕ → Best
best_of i n = record { index = some i; best_score = n }

consider-beaten :
    (tick index : ℕ) (slot : TaskSlot) (i n : ℕ)
    → beats tick n slot ≡ true
    → consider tick index slot (best_of i n) ≡ best_of index (score tick slot.task)
unfolding consider
consider-beaten tick index slot i n h = ground arith

consider-kept :
    (tick index : ℕ) (slot : TaskSlot) (i n : ℕ)
    → beats tick n slot ≡ false
    → consider tick index slot (best_of i n) ≡ best_of i n
unfolding consider
consider-kept tick index slot i n h = ground arith

-- The first of the best of the rest is so of the whole, past an entry that does not reach it.
IsFirstBest-cons :
    (tick : ℕ) (slot : TaskSlot) (slots : List TaskSlot) (j : ℕ)
    → reaches tick (score tick (get_or slots j empty_slot).task) slot ≡ false
    → IsFirstBest tick slots j
    → IsFirstBest tick (slot ∷ slots) (suc j)
IsFirstBest-cons tick slot slots j h first =
    (first.0, ground (arith, first.1), ground (arith, first.2))

-- From a best of score `n` on, either nothing beats it and it stays, or the first of the best of the
-- rest beats it and takes its place.
select-best :
    (tick index : ℕ) (slots : List TaskSlot) (i n : ℕ)
    → ((select tick index slots (best_of i n) ≡ best_of i n) × (count (beats tick n) slots ≡ 0))
      ⊎ ((j : ℕ) × (select tick index slots (best_of i n) ≡ best_at tick index slots j)
          × (n < score tick (get_or slots j empty_slot).task)
          × IsFirstBest tick slots j)
unfolding select
select-best tick index [] i n = inl (refl, refl)
select-best tick index (slot ∷ slots) i n = elim (Bool-cases (beats tick n slot)) [
  | inl better ↦ elim (select-best tick (suc index) slots index (score tick slot.task)) [
    | inl (kept, none_better) ↦ inr (
      0,
      rw (consider-beaten tick index slot i n better) (kept ∙ ground arith),
      ground (arith, better),
      (ground (arith, better), ground (arith, none_better), refl),
    )
    | inr (j, moved, above, first) ↦ inr (
      suc j,
      rw (consider-beaten tick index slot i n better) (moved ∙ ground arith),
      ground (arith, better),
      IsFirstBest-cons tick slot slots j (ground arith) first,
    )
  ]
  | inr worse ↦ elim (select-best tick (suc index) slots i n) [
    | inl (kept, none_better) ↦
        inl (rw (consider-kept tick index slot i n worse) kept, ground (arith, worse, none_better))
    | inr (j, moved, above, first) ↦ inr (
      suc j,
      rw (consider-kept tick index slot i n worse) (moved ∙ ground arith),
      above,
      IsFirstBest-cons tick slot slots j (ground (arith, worse)) first,
    )
  ]
]

-- The loop from no best yet.
abbrev pub nothing_yet : Best
nothing_yet = record { index = none; best_score = 0 }

consider-first :
    (tick index : ℕ) (slot : TaskSlot)
    → consider tick index slot nothing_yet
      ≡ (if eligible slot then best_of index (score tick slot.task) else nothing_yet)
unfolding consider
consider-first tick index slot = ground arith

select-first :
    (tick index : ℕ) (slots : List TaskSlot)
    → ((select tick index slots nothing_yet ≡ nothing_yet) × (count eligible slots ≡ 0))
      ⊎ ((j : ℕ) × (select tick index slots nothing_yet ≡ best_at tick index slots j)
          × IsFirstBest tick slots j)
unfolding select
select-first tick index [] = inl (refl, refl)
select-first tick index (slot ∷ slots) = elim (Bool-cases (eligible slot)) [
  | inl able ↦ elim (select-best tick (suc index) slots index (score tick slot.task)) [
    | inl (kept, none_better) ↦ inr (
      0,
      rw (consider-first tick index slot) (rw able (kept ∙ ground arith)),
      (able, ground (arith, none_better), refl),
    )
    | inr (j, moved, above, first) ↦ inr (
      suc j,
      rw (consider-first tick index slot) (rw able (moved ∙ ground arith)),
      IsFirstBest-cons tick slot slots j (ground arith) first,
    )
  ]
  | inr unable ↦ elim (select-first tick (suc index) slots) [
    | inl (kept, none_able) ↦
        inl
          (rw (consider-first tick index slot) (rw unable kept), ground (arith, unable, none_able))
    | inr (j, moved, first) ↦ inr (
      suc j,
      rw (consider-first tick index slot) (rw unable (moved ∙ ground arith)),
      IsFirstBest-cons tick slot slots j (ground (arith, unable)) first,
    )
  ]
]

-- The loop of `schedule_next` selects the first of the eligible tasks with the highest score, and
-- nothing exactly if no task is eligible.
pub select-IsChoice :
    (tick : ℕ) (slots : List TaskSlot) → IsChoice tick slots (select tick 0 slots nothing_yet).index
select-IsChoice tick slots = elim (select-first tick 0 slots) [
  | inl (kept, none_able) ↦ subst (λ (b : Best). IsChoice tick slots b.index) (sym kept) none_able
  | inr (j, moved, first) ↦
      subst (λ (b : Best). IsChoice tick slots b.index) (sym moved)
        (subst (λ i. IsChoice tick slots (some i)) (omega arith) first)
]
