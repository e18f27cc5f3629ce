-- ===== src/Scheduler/Policy/Ageing.antt =====
-- src/scheduler.rs, the ageing of ready tasks in `Scheduler::schedule_next`.
use Prim.Native.Nat.{ℕ, zero, suc, ◌+◌, ◌/◌, ◌%◌, ◌≤◌, ◌<◌, min}
use mathlib.Core.Path.{◌≡◌, refl, ◌∙◌, subst}
use native.Mathlib.Omega.{arith}
use alani_kernel.Common.Words.{u8_mod}
use alani_kernel.Scheduler.{TaskControlBlock, TaskState, is_running, is_ready}
use alani_kernel.Scheduler.Policy.{pass_over}

-- The task after it was passed over so many times in a row.
unfoldable pub passed : ℕ → TaskControlBlock → TaskControlBlock
passed zero t = t
passed (suc n) t = pass_over (passed n t)

-- A ready task that has just been started or spawned.
abbrev pub IsFresh : TaskControlBlock → Type 0
IsFresh t =
    (t.state ≡ TaskState.ready)
    × (t.age ≡ 0)
    × (t.dynamic_priority ≡ t.base_priority)
    × (t.base_priority < u8_mod)

-- What is left of it after `n` rounds.
abbrev pub IsAged : TaskControlBlock → ℕ → TaskControlBlock → Type 0
IsAged t n u =
    (u.state ≡ TaskState.ready)
    × (u.age ≡ n)
    × (u.base_priority ≡ t.base_priority)
    × (u.dynamic_priority ≡ min (t.base_priority + n / 4 % 256) 255)

pass_over-IsAged :
    (t u : TaskControlBlock) (n : ℕ) → n < 65535 → IsAged t n u → IsAged t (n + 1) (pass_over u)
unfolding pass_over is_running is_ready
pass_over-IsAged t u n room h = ground (arith, h.0, h.1, h.2, h.3)

passed-IsAged : (t : TaskControlBlock) (n : ℕ) → n ≤ 65535 → IsFresh t → IsAged t n (passed n t)
unfolding passed
passed-IsAged t zero room h = (h.0, h.1, refl, ground (arith, h.2, h.3))
passed-IsAged t (suc n) room h =
    subst (λ m. IsAged t m (pass_over (passed n t))) (omega arith)
      (pass_over-IsAged t (passed n t) n (omega arith) (passed-IsAged t n (omega arith) h))

-- A ready task of age zero at its base priority that the scheduler passes over `n` times in a
-- row stays ready with age `n`; for `n` below 1024 its priority is then its base priority and a
-- quarter of `n`, up to 255.
pub passed-priority :
    (t : TaskControlBlock) (n : ℕ)
    → IsFresh t
    → n < 1024
    → ((passed n t).state ≡ TaskState.ready)
      × ((passed n t).age ≡ n)
      × ((passed n t).dynamic_priority ≡ min (t.base_priority + n / 4) 255)
passed-priority t n h young =
    let aged : IsAged t n (passed n t) = passed-IsAged t n (omega arith) h in
    (aged.0, aged.1, aged.3 ∙ omega arith)

-- A ready task of age zero at its base priority that has been passed over 1023 times in a row
-- has priority 255, and one round later it is back at its base priority.
pub passed-wrapped :
    (t : TaskControlBlock)
    → IsFresh t
    → ((passed 1024 t).dynamic_priority ≡ t.base_priority)
      × ((passed 1023 t).dynamic_priority ≡ 255)
passed-wrapped t h = (
  (passed-IsAged t 1024 (omega arith) h).3 ∙ omega (arith, h.3),
  (passed-IsAged t 1023 (omega arith) h).3 ∙ omega arith,
)
