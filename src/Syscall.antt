-- ===== src/Syscall.antt =====
-- src/syscall.rs, the dispatcher: frames, the caller's context, results, and the validation that comes
-- before any handler. `Table` holds the descriptors, `Dispatch` the theorems.
pub mod Table
pub mod Dispatch
use Prim.Native.Nat.{ℕ}
use mathlib.Core.Bool.{Bool, true, not}
use mathlib.Core.Option.{Option, none, some}
use mathlib.Core.Option
use mathlib.Core.List.{List}
use alani_kernel.Common.Lists.{find, length}
use alani_kernel.Common.Words.{u32_mod, cast}
use alani_kernel.Error
use alani_kernel.Error.{KernelStatus, KernelError}
use alani_kernel.Outcome.{KernelResult, ok, err, ◌>>=◌, ◌>>◌, reject_if, ok_or}
use alani_kernel.Capability.{TaskId, Capability, CapabilitySet, require}
use alani_kernel.Abi.{
  AbiVersion, alani_abi_version, syscall_table_version, default_max_syscall_buffer_size,
  TraceContext, empty_trace,
}
use alani_kernel.Abi.Numbers.{SyscallNumber, raw_number, number_eq, from_raw}
use Table.{SyscallDescriptor, syscall_descriptors}

-- `ExecutionContext`
pub data ExecutionContext : Type 0 where
  early_boot task interrupt : ExecutionContext

-- The `[u64; 6]` of a frame.
pub record Args : Type 0 where
  pub arg0 : ℕ
  pub arg1 : ℕ
  pub arg2 : ℕ
  pub arg3 : ℕ
  pub arg4 : ℕ
  pub arg5 : ℕ

-- `SyscallFrame`
pub record SyscallFrame : Type 0 where
  pub number : ℕ
  pub args : Args
  pub trace : TraceContext

-- `SyscallFrame::new`
unfoldable pub new_frame : SyscallNumber → Args → SyscallFrame
unfolding raw_number
new_frame number args = record { number = raw_number number; args = args; trace = empty_trace }

-- `SyscallFrame::raw`
unfoldable pub raw_frame : ℕ → Args → SyscallFrame
raw_frame number args = record { number = number; args = args; trace = empty_trace }

-- `DispatchContext`
pub record DispatchContext : Type 0 where
  pub task_id : TaskId
  pub capabilities : CapabilitySet
  pub execution : ExecutionContext

-- `DispatchContext::task`
abbrev pub task_context : TaskId → CapabilitySet → DispatchContext
task_context task_id capabilities = record {
  task_id = task_id;
  capabilities = capabilities;
  execution = ExecutionContext.task;
}

-- `SyscallResult`
pub record SyscallResult : Type 0 where
  pub status : KernelStatus
  pub value : ℕ
  pub detail : ℕ

-- `SyscallResult::ok`
abbrev pub succeed : ℕ → ℕ → SyscallResult
succeed value detail = record { status = KernelStatus.ok; value = value; detail = detail }

-- `SyscallResult::error`
abbrev pub fail : KernelError → SyscallResult
fail error = record { status = Error.status error; value = 0; detail = 0 }

-- `SyscallDescriptor::allows_context`
unfoldable pub allows_context : SyscallDescriptor → ExecutionContext → Bool
allows_context d ExecutionContext.early_boot = d.early_boot_safe
allows_context d ExecutionContext.interrupt = d.interrupt_safe
allows_context d ExecutionContext.task = true

-- `SyscallTableInfo`
pub record SyscallTableInfo : Type 0 where
  pub abi_version : AbiVersion
  pub table_version : AbiVersion
  pub max_buffer_size : ℕ
  pub descriptor_count : ℕ
  pub features : ℕ

-- `SyscallTableInfo::current`
abbrev pub current_table_info : SyscallTableInfo
current_table_info = record {
  abi_version = alani_abi_version;
  table_version = syscall_table_version;
  max_buffer_size = default_max_syscall_buffer_size;
  descriptor_count = cast u32_mod (length syscall_descriptors);
  features = 0;
}

-- `SyscallDispatcher::lookup`
unfoldable pub lookup : ℕ → Option SyscallDescriptor
lookup raw =
    Option.bind (from_raw raw) λ number. find (λ d. number_eq d.number number) syscall_descriptors

-- The capability that a descriptor asks for, if any.
unfoldable pub require_optional : CapabilitySet → Option Capability → KernelResult (Unit {0})
require_optional capabilities none = ok tt
require_optional capabilities (some required) = require capabilities required

-- `SyscallDispatcher::validate`
unfoldable pub validate : SyscallFrame → DispatchContext → KernelResult SyscallDescriptor
unfolding require_optional
validate frame context = do
  d ← ok_or (lookup frame.number) KernelError.unknown_syscall
  reject_if (not (allows_context d context.execution)) KernelError.busy
  require_optional context.capabilities d.required_capability
  ok d
