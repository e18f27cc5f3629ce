-- ===== src/Scheduler/Policy/System.antt =====
-- src/scheduler.rs, `Scheduler`: the table of tasks under the calls that the kernel's handlers make of it.
use Prim.Native.Nat.{◌<◌}
use mathlib.Core.Path.{◌≡◌, refl}
use mathlib.Core.Bool.{Bool, true, false}
use mathlib.Core.List.{List, [], ◌∷◌}
use native.Mathlib.Omega.{arith}
use alani_kernel.Common.Words.{u8_mod}
use alani_kernel.Common.Lists.{All, All-map, All-replicate}
use alani_kernel.Capability.{empty}
use alani_kernel.Scheduler.{unlimited}
use alani_kernel.Scheduler.Queue.{empty_slot}
use alani_kernel.Scheduler.Policy.{Scheduler, new}
use alani_kernel.Scheduler.Policy.Exclusive.{
  IsExclusive, StartsNothing, new-IsExclusive, run-IsExclusive,
}
use alani_kernel.Scheduler.Policy.Present.{IsPresent, run-IsPresent}
use alani_kernel.Scheduler.Policy.Rights.{
  GrantsNothing, MetersNothing, IsPowerless, IsUnmetered, run-IsPowerless, run-IsUnmetered,
}
use alani_kernel.Scheduler.Policy.Patience.Calls.{IsFair, IsOrderly, new-IsFair, run-IsFair}
use alani_kernel.Scheduler.Policy.Patience.Still.{IsQuiet}
use alani_kernel.Scheduler.Policy.Calls.{Call, step, run}
use Call.{spawns, moves, cancels, schedules, yields}

-- The call spawns a task without capabilities, with an unlimited budget and a priority of eight bits, or
-- cancels one, or, where it may, yields; it is no direct transition.
abbrev pub IsSystemCall : Bool → Call → Type 0
IsSystemCall may_yield (spawns _ _ priority capabilities budget) =
    (capabilities ≡ empty) × (budget ≡ unlimited) × (priority < u8_mod)
IsSystemCall may_yield (cancels _) = Unit
IsSystemCall may_yield yields = may_yield ≡ true
IsSystemCall may_yield _ = true ≡ false

-- What the parts of the invariant ask of a call.
record IsProper (c : Call) : Type 0 where
  grants_nothing : GrantsNothing c
  meters_nothing : MetersNothing c
  starts_nothing : StartsNothing c
  orderly : IsOrderly c

IsSystemCall-IsProper : (b : Bool) (c : Call) → IsSystemCall b c → IsProper c
IsSystemCall-IsProper b (spawns _ _ _ _ _) h = record {
  grants_nothing = h.0;
  meters_nothing = ground (arith, h.1);
  starts_nothing = tt;
  orderly = h.2;
}
IsSystemCall-IsProper b (cancels _) h = record {
  grants_nothing = tt;
  meters_nothing = tt;
  starts_nothing = tt;
  orderly = tt;
}
IsSystemCall-IsProper b yields h = record {
  grants_nothing = tt;
  meters_nothing = tt;
  starts_nothing = tt;
  orderly = tt;
}
IsSystemCall-IsProper b (moves _ _) h = absurd (ground arith)
IsSystemCall-IsProper b schedules h = absurd (ground arith)

pub IsSystemCall-IsQuiet : (c : Call) → IsSystemCall false c → IsQuiet c
IsSystemCall-IsQuiet (spawns _ _ _ _ _) h = tt
IsSystemCall-IsQuiet (cancels _) h = tt
IsSystemCall-IsQuiet yields h = absurd (ground arith)
IsSystemCall-IsQuiet (moves _ _) h = h
IsSystemCall-IsQuiet schedules h = h

-- A well-formed table in which only the current task runs, the current task is in the table, no task has a
-- capability or a bounded budget, and no task is passed over too often.
pub record IsSystem (s : Scheduler) : Type 0 where
  pub exclusive : IsExclusive s
  pub present : IsPresent s
  pub powerless : All IsPowerless s.run_queue.slots
  pub unmetered : All IsUnmetered s.run_queue.slots
  pub fair : IsFair s

pub new-IsSystem : IsSystem new
new-IsSystem = record {
  exclusive = new-IsExclusive;
  present = tt;
  powerless = All-replicate IsPowerless 64 empty_slot refl;
  unmetered = All-replicate IsUnmetered 64 empty_slot refl;
  fair = new-IsFair;
}

pub run-IsSystem :
    (b : Bool) (s : Scheduler) (cs : List Call)
    → All (IsSystemCall b) cs
    → IsSystem s
    → IsSystem (run s cs)
run-IsSystem b s cs own v =
    let proper : All IsProper cs = All-map (IsSystemCall-IsProper b) cs own in
    record {
      exclusive = run-IsExclusive s cs (All-map (λ _ p. p.starts_nothing) cs proper) v.exclusive;
      present = run-IsPresent s cs v.present;
      powerless = run-IsPowerless s cs (All-map (λ _ p. p.grants_nothing) cs proper) v.powerless;
      unmetered = run-IsUnmetered s cs (All-map (λ _ p. p.meters_nothing) cs proper) v.unmetered;
      fair = run-IsFair s cs (All-map (λ _ p. p.orderly) cs proper) v.fair;
    }

pub step-IsSystem :
    (b : Bool) (s : Scheduler) (c : Call) → IsSystemCall b c → IsSystem s → IsSystem (step s c)
unfolding run
step-IsSystem b s c own v = run-IsSystem b s (c ∷ []) (own, tt) v
