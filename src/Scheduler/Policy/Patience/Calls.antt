-- ===== src/Scheduler/Policy/Patience/Calls.antt =====
-- src/scheduler.rs, `Scheduler`: the ages of the tasks through the calls that the kernel makes.
use Prim.Native.Nat.{◌<◌}
use mathlib.Core.Path.{◌≡◌, refl}
use mathlib.Core.Bool.{true, false}
use mathlib.Core.Option.{some}
use mathlib.Core.List.{List, [], ◌∷◌}
use native.Mathlib.Omega.{arith}
use alani_kernel.Common.Words.{u8_mod}
use alani_kernel.Common.Lists.{All, All-replicate}
use alani_kernel.Common.Search.{count-replicate, find-none}
use alani_kernel.Outcome.{ok}
use alani_kernel.Capability.{TaskId}
use alani_kernel.Scheduler.{TaskControlBlock, TaskState, BudgetAccount, consume_tick}
use alani_kernel.Scheduler.Queue.{holds_task, empty_slot, get}
use alani_kernel.Scheduler.Policy.{Scheduler, new, schedule_next, step_back}
use alani_kernel.Scheduler.Policy.Invariant.{
  IsSchedule, new-IsSchedule, put_state, rewritten, spawn_cases, cancel_cases,
}
use alani_kernel.Scheduler.Policy.Switches.{
  AreCounted, new-AreCounted, step-AreCounted, rewritten-AreCounted,
}
use alani_kernel.Scheduler.Policy.Entries.{Admits, stepped_back-stable, step-stable}
use alani_kernel.Scheduler.Policy.Calls.{
  Call, step, run, step-IsSchedule, rewritten-IsSchedule, yield_current_cases,
}
use Call.{spawns, moves, cancels, schedules, yields}
use alani_kernel.Scheduler.Policy.Patience.{IsFit-IsStable, IsFit}
use alani_kernel.Scheduler.Policy.Patience.Rounds.{ArePatient, schedule_next-ArePatient}
use alani_kernel.Scheduler.Policy.Patience.Writes.{
  rewritten-ArePatient, cancelled-IsGentle, step_back-IsGentle, spawned-ArePatient,
}

-- The table between two calls of the kernel's handlers.
pub record IsFair (s : Scheduler) : Type 0 where
  pub schedule : IsSchedule s
  pub counted : AreCounted s
  pub fit : All IsFit s.run_queue.slots
  pub patient : ArePatient s.run_queue.slots

schedule_next-fair : (s : Scheduler) → IsFair s → ArePatient (schedule_next s).1.run_queue.slots
schedule_next-fair s v = schedule_next-ArePatient s v.schedule v.counted v.fit v.patient

pub stepped_back-IsFair :
    (s : Scheduler) (id : TaskId) (t : TaskControlBlock) (budget : BudgetAccount)
    → get s.run_queue id ≡ some t
    → consume_tick t.budget ≡ ok budget
    → IsFair s
    → IsFair (rewritten s id (step_back budget))
stepped_back-IsFair s id t budget found paid v = record {
  schedule = rewritten-IsSchedule s id (step_back budget) (λ _. refl) v.schedule;
  counted = rewritten-AreCounted s id (step_back budget) (λ _. refl) v.counted;
  fit = stepped_back-stable IsFit IsFit-IsStable s id t budget found paid v.fit;
  patient = rewritten-ArePatient s id (step_back budget) (step_back-IsGentle budget) v.patient;
}

-- The call spawns no task but with a priority of eight bits, and is no direct transition.
abbrev pub IsOrderly : Call → Type 0
IsOrderly (spawns _ _ priority _ _) = priority < u8_mod
IsOrderly (moves _ _) = true ≡ false
IsOrderly _ = Unit

patient-step :
    (s : Scheduler) (c : Call) → IsOrderly c → IsFair s → ArePatient (step s c).run_queue.slots
patient-step s (spawns parent_id class priority capabilities budget) _ v =
    spawn_cases (λ out. ArePatient out.1.run_queue.slots) s parent_id class priority capabilities
      budget v.patient (λ _ _. v.patient)
      λ slot _ _ _ e. spawned-ArePatient s _ slot v.schedule refl refl e v.patient
patient-step s (moves id to) h v = absurd (ground arith)
patient-step s (cancels id) _ v =
    cancel_cases (λ out. ArePatient out.1.run_queue.slots) s id (λ _. v.patient)
      λ _ _ _. rewritten-ArePatient s id (put_state TaskState.zombie) cancelled-IsGentle v.patient
patient-step s schedules _ v = schedule_next-fair s v
patient-step s yields _ v =
    yield_current_cases (λ out. ArePatient out.1.run_queue.slots) s (λ _. v.patient)
      (λ _. schedule_next-fair s v)
      λ id t budget _ found paid.
        schedule_next-fair (rewritten s id (step_back budget))
          (stepped_back-IsFair s id t budget found paid v)

orderly-Admits : (c : Call) → IsOrderly c → Admits IsFit c
orderly-Admits (spawns _ _ _ _ _) h = λ id. (h, omega arith, omega (arith, h))
orderly-Admits (moves _ _) h = tt
orderly-Admits (cancels _) h = tt
orderly-Admits schedules h = tt
orderly-Admits yields h = tt

pub step-IsFair : (s : Scheduler) (c : Call) → IsOrderly c → IsFair s → IsFair (step s c)
step-IsFair s c orderly v = record {
  schedule = step-IsSchedule s c v.schedule;
  counted = step-AreCounted s c v.counted;
  fit = step-stable IsFit IsFit-IsStable s c (orderly-Admits c orderly) v.fit;
  patient = patient-step s c orderly v;
}

pub run-IsFair : (s : Scheduler) (cs : List Call) → All IsOrderly cs → IsFair s → IsFair (run s cs)
unfolding run
run-IsFair s [] orderly v = v
run-IsFair s (c ∷ cs) orderly v = run-IsFair (step s c) cs orderly.1 (step-IsFair s c orderly.0 v)

pub new-IsFair : IsFair new
new-IsFair = record {
  schedule = new-IsSchedule;
  counted = new-AreCounted;
  fit = All-replicate IsFit 64 empty_slot (omega arith, omega arith, refl);
  patient = λ id slot found. absurd (
      ground (
        arith,
        found,
        find-none (holds_task id) new.run_queue.slots
            (count-replicate (holds_task id) 64 empty_slot refl),
      ));
}
