-- ===== src/Kernel.antt =====
-- src/lib.rs: the kernel as the aggregate of its subsystems, and the host-mode boot. `Handlers` are the
-- handlers of the system calls, `Entry` the way in from a frame.
pub mod Boot
pub mod Handlers
pub mod Entry
use Prim.Native.Nat.{ℕ}
use Prim.Native.String.{String}
use mathlib.Core.List.{List, [], ◌∷◌}
use alani_kernel.Method.{Method, try, ◌>>=◌, ◌>>◌, return, within}
use alani_kernel.Capability
use alani_kernel.Abi.{default_max_syscall_buffer_size}
use alani_kernel.Audit
use alani_kernel.Audit.{AuditLog}
use alani_kernel.Fault
use alani_kernel.Fault.{FaultReporter}
use alani_kernel.Boot as Phases
use alani_kernel.Boot.{BootPhase, BootProgress, boot_sequence, complete}
use alani_kernel.Memory.{AllocatorPhase}
use alani_kernel.Memory.Manager
use alani_kernel.Memory.Manager.{MemoryManager, set_allocator_phase}
use alani_kernel.Device
use alani_kernel.Device.{DeviceRegistry}
use alani_kernel.Scheduler.{SchedulerClass, default_priority, unlimited}
use alani_kernel.Scheduler.Policy
use alani_kernel.Scheduler.Policy.{Scheduler, spawn}

-- `REPOSITORY` and `VERSION`
abbrev pub repository : String
repository = "alani-kernel"

abbrev pub version : String
version = "0.1.0"

-- `MODULES`
abbrev pub module_names : List String
module_names =
    "audit" ∷ "boot" ∷ "capability" ∷ "device" ∷ "error" ∷ "fault" ∷ "memory" ∷ "scheduler"
    ∷ "syscall" ∷ []

-- `ComponentStatus`
pub data ComponentStatus : Type 0 where
  draft experimental stable : ComponentStatus

-- `ComponentInfo`
pub record ComponentInfo : Type 0 where
  pub repository : String
  pub version : String
  pub status : ComponentStatus

-- `component_info`
abbrev pub component_info : ComponentInfo
component_info = record {
  repository = repository;
  version = version;
  status = ComponentStatus.experimental;
}

-- `KernelConfig`
pub record KernelConfig : Type 0 where
  pub max_user_buffer_len : ℕ

-- `KernelConfig::default`
abbrev pub default_config : KernelConfig
default_config = record { max_user_buffer_len = default_max_syscall_buffer_size }

-- `Kernel`; the dispatcher has no state of its own.
pub record Kernel : Type 0 where
  pub config : KernelConfig
  pub boot : BootProgress
  pub memory : MemoryManager
  pub scheduler : Scheduler
  pub devices : DeviceRegistry
  pub audit : AuditLog
  pub faults : FaultReporter

-- `Kernel::new`
abbrev pub new : Kernel
new = record {
  config = default_config;
  boot = Phases.new;
  memory = Manager.new;
  scheduler = Policy.new;
  devices = Device.new;
  audit = Audit.new;
  faults = Fault.new;
}

-- Methods of the subsystems.
abbrev pub on_boot {ℓ} : {A : Type ℓ} → Method BootProgress A → Method Kernel A
on_boot = within (λ k. k.boot) (λ boot k. record k { boot = boot })

abbrev pub on_memory {ℓ} : {A : Type ℓ} → Method MemoryManager A → Method Kernel A
on_memory = within (λ k. k.memory) (λ memory k. record k { memory = memory })

abbrev pub on_scheduler {ℓ} : {A : Type ℓ} → Method Scheduler A → Method Kernel A
on_scheduler = within (λ k. k.scheduler) (λ scheduler k. record k { scheduler = scheduler })

-- What `initialize_host` does in a phase before it completes it.
unfoldable pub enter_phase : BootPhase → Method Kernel (Unit {0})
enter_phase BootPhase.allocator = do
  on_memory (set_allocator_phase AllocatorPhase.boot_bump)
  on_memory (set_allocator_phase AllocatorPhase.frame)
  on_memory (set_allocator_phase AllocatorPhase.heap)
enter_phase BootPhase.runtime_spawn = do
  init ← on_scheduler (spawn 0 SchedulerClass.runtime default_priority Capability.empty unlimited)
  return tt
enter_phase _ = return tt

-- The boot loop.
unfoldable pub run_phases : List BootPhase → Method Kernel (Unit {0})
run_phases [] = return tt
run_phases (phase ∷ phases) = do enter_phase phase; on_boot (complete phase); run_phases phases

-- `Kernel::initialize_host`
unfoldable pub initialize_host : Method Kernel (Unit {0})
unfolding run_phases enter_phase
initialize_host = run_phases boot_sequence
