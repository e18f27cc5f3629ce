-- ===== src/Memory/Manager/Settings.antt =====
-- src/memory.rs, `MemoryManager`: the settings that the setters accept, and the phases of the
-- allocator.
use Prim.Native.Nat.{ℕ, ◌+◌, ◌≤◌, ◌<◌}
use mathlib.Core.Path.{◌≡◌, refl}
use mathlib.Core.Logic.{◌↔◌, ◌⊎◌}
use mathlib.Core.Bool.{true}
use native.Mathlib.Omega.{arith}
use alani_kernel.Common.Tests.{if◌then◌else◌}
use alani_kernel.Common.Words.{is_power_of_two}
use alani_kernel.Outcome.{KernelResult, ok, succeeds}
use alani_kernel.Memory.{AllocatorPhase}
use alani_kernel.Memory.Manager.{
  MemoryManager, new, valid_phase_change, set_allocator_phase, set_user_bounds,
  set_max_user_buffer_len, set_minimum_user_alignment,
}

-- What the validation of user ranges relies on.
pub record IsConfigured (m : MemoryManager) : Type 0 where
  pub lower_pos : 0 < m.user_lower_bound
  pub ordered : m.user_lower_bound < m.user_upper_bound
  pub max_pos : 0 < m.max_user_buffer_len
  pub alignment : is_power_of_two m.minimum_user_alignment ≡ true

pub new-IsConfigured : IsConfigured new
unfolding is_power_of_two
new-IsConfigured = record {
  lower_pos = omega arith;
  ordered = omega arith;
  max_pos = omega arith;
  alignment = refl;
}

-- A call of one of the setters.
pub data Setting : Type 0 where
  user_bounds : ℕ → ℕ → Setting
  max_buffer_len : ℕ → Setting
  minimum_alignment : ℕ → Setting
  phase : AllocatorPhase → Setting

abbrev pub apply : Setting → MemoryManager → KernelResult (Unit {0}) × MemoryManager
apply (user_bounds lower upper) = set_user_bounds lower upper
apply (max_buffer_len max_len) = set_max_user_buffer_len max_len
apply (minimum_alignment alignment) = set_minimum_user_alignment alignment
apply (phase p) = set_allocator_phase p

-- Whatever the setters are called with, refused or not, the settings stay usable: bounds in order and
-- not zero, a limit of at least one byte, and an alignment that is a power of two.
pub apply-IsConfigured :
    (m : MemoryManager) (s : Setting) → IsConfigured m → IsConfigured (apply s m).1
unfolding set_user_bounds set_max_user_buffer_len set_minimum_user_alignment set_allocator_phase
apply-IsConfigured m (user_bounds lower upper) v = ground arith
apply-IsConfigured m (max_buffer_len max_len) v = ground arith
apply-IsConfigured m (minimum_alignment alignment) v = ground arith
apply-IsConfigured m (phase p) v = ground (arith, v.alignment)

-- How far the allocator has come.
abbrev pub progress : AllocatorPhase → ℕ
progress AllocatorPhase.uninitialized = 0
progress AllocatorPhase.boot_bump = 1
progress AllocatorPhase.frame = 2
progress AllocatorPhase.heap = 3

-- The allocator never falls back and never skips a phase: a call leaves it where it was or takes it one
-- phase on, succeeds exactly if the phase asked for is the present one or the next, and then changes
-- the phase to it and nothing else; a refused call changes nothing.
pub set_allocator_phase_lem :
    (m : MemoryManager) (p : AllocatorPhase)
    → let (r, n) = set_allocator_phase p m in
      (progress m.allocator_phase ≤ progress n.allocator_phase)
      × (progress n.allocator_phase ≤ progress m.allocator_phase + 1)
      × ((r ≡ ok tt) ↔ (
          (progress p ≡ progress m.allocator_phase)
          ⊎ (progress p ≡ progress m.allocator_phase + 1)))
      × (n ≡ (if succeeds r then record m { allocator_phase = p } else m))
unfolding set_allocator_phase valid_phase_change
set_allocator_phase_lem m p = ground arith
