-- ===== src/Boot.antt =====
-- src/boot.rs: the phases of initialization in their normative order, and the tracker of those that
-- are complete. `Order` holds the theorems.
pub mod Order
use Prim.Native.Nat.{ℕ, ◌+◌}
use Prim.Native.String.{String}
use mathlib.Core.Bool.{Bool, true, false, not}
use mathlib.Core.Option.{Option}
use mathlib.Core.List.{List, [], ◌∷◌}
use alani_kernel.Common.Tests.{◌==◌}
use alani_kernel.Common.Lists.{get_elem?, set, replicate}
use alani_kernel.Error.{KernelError}
use alani_kernel.Method.{Method, try, ◌>>=◌, ◌>>◌, self, modify, throw_if, ok_or_throw}

-- `BootPhase`
pub data BootPhase : Type 0 where
  loader_handoff : BootPhase
  early_console : BootPhase
  cpu_features : BootPhase
  memory_map : BootPhase
  paging : BootPhase
  interrupts : BootPhase
  allocator : BootPhase
  timer : BootPhase
  scheduler : BootPhase
  devices : BootPhase
  security : BootPhase
  audit : BootPhase
  syscalls : BootPhase
  runtime_spawn : BootPhase

-- The `repr(u8)` discriminants.
unfoldable pub phase_index : BootPhase → ℕ
phase_index BootPhase.loader_handoff = 0
phase_index BootPhase.early_console = 1
phase_index BootPhase.cpu_features = 2
phase_index BootPhase.memory_map = 3
phase_index BootPhase.paging = 4
phase_index BootPhase.interrupts = 5
phase_index BootPhase.allocator = 6
phase_index BootPhase.timer = 7
phase_index BootPhase.scheduler = 8
phase_index BootPhase.devices = 9
phase_index BootPhase.security = 10
phase_index BootPhase.audit = 11
phase_index BootPhase.syscalls = 12
phase_index BootPhase.runtime_spawn = 13

-- Two phases are compared by their discriminants, as the derived `==` does.
unfoldable pub phase_eq : BootPhase → BootPhase → Bool
unfolding phase_index
phase_eq a b = phase_index a == phase_index b

-- `BootPhase::name`
unfoldable pub phase_name : BootPhase → String
phase_name BootPhase.loader_handoff = "loader_handoff"
phase_name BootPhase.early_console = "early_console"
phase_name BootPhase.cpu_features = "cpu_features"
phase_name BootPhase.memory_map = "memory_map"
phase_name BootPhase.paging = "paging"
phase_name BootPhase.interrupts = "interrupts"
phase_name BootPhase.allocator = "allocator"
phase_name BootPhase.timer = "timer"
phase_name BootPhase.scheduler = "scheduler"
phase_name BootPhase.devices = "devices"
phase_name BootPhase.security = "security"
phase_name BootPhase.audit = "audit"
phase_name BootPhase.syscalls = "syscalls"
phase_name BootPhase.runtime_spawn = "runtime_spawn"

-- `BOOT_PHASE_COUNT`
abbrev pub boot_phase_count : ℕ
boot_phase_count = 14

-- `BOOT_SEQUENCE`
abbrev pub boot_sequence : List BootPhase
boot_sequence =
    BootPhase.loader_handoff ∷ BootPhase.early_console ∷ BootPhase.cpu_features
    ∷ BootPhase.memory_map ∷ BootPhase.paging ∷ BootPhase.interrupts ∷ BootPhase.allocator
    ∷ BootPhase.timer ∷ BootPhase.scheduler ∷ BootPhase.devices ∷ BootPhase.security
    ∷ BootPhase.audit ∷ BootPhase.syscalls ∷ BootPhase.runtime_spawn ∷ []

-- `BootProgress`
pub record BootProgress : Type 0 where
  pub completed : List Bool
  pub next_index : ℕ

-- `BootProgress::new`
abbrev pub new : BootProgress
new = record { completed = replicate boot_phase_count false; next_index = 0 }

unfoldable pub next_expected : BootProgress → Option BootPhase
next_expected p = get_elem? boot_sequence p.next_index

-- `BootProgress::complete`
unfoldable pub complete : BootPhase → Method BootProgress (Unit {0})
unfolding next_expected phase_eq
complete phase = do
  p ← self
  expected ← ok_or_throw (next_expected p) KernelError.invalid_state
  throw_if (not (phase_eq expected phase)) KernelError.invalid_state
  modify (λ q. record q { completed = set q.completed q.next_index true })
  modify (λ q. record q { next_index = q.next_index + 1 })

unfoldable pub is_complete : BootProgress → Bool
is_complete p = p.next_index == boot_phase_count

-- `BootProgress::completed_count`
abbrev pub completed_count : BootProgress → ℕ
completed_count p = p.next_index
