-- ===== src/Fault.antt =====
-- src/fault.rs: fault records and the ring buffer of the last 64 of them. `Reporter` relates the
-- buffer to the history of what was recorded.
pub mod Reporter
use Prim.Native.Nat.{ℕ, ◌+◌, ◌-◌, ◌%◌}
use Prim.Native.String.{String}
use mathlib.Core.Bool.{Bool}
use mathlib.Core.Option.{Option, none, some}
use mathlib.Core.List.{List}
use alani_kernel.Common.Tests.{ltb, ◌==◌, if◌then◌else◌}
use alani_kernel.Common.Words.{u64_mod, wrapping_add}
use alani_kernel.Common.Lists.{get_or, set, replicate}
use alani_kernel.Error
use alani_kernel.Error.{KernelStatus, KernelError}
use alani_kernel.Capability.{TaskId}
use alani_kernel.Abi.{TraceContext, empty_trace}

-- `MAX_FAULT_RECORDS`
abbrev pub max_fault_records : ℕ
max_fault_records = 64

-- `FaultKind`
pub data FaultKind : Type 0 where
  panic page_fault invalid_syscall capability_denied device_error double_fault : FaultKind
  invariant_violation : FaultKind

-- `FaultSeverity`
pub data FaultSeverity : Type 0 where
  info warning error fatal : FaultSeverity

-- `FaultPhase`
pub data FaultPhase : Type 0 where
  pre_boot boot runtime shutdown : FaultPhase

-- `FaultRecord`
pub record FaultRecord : Type 0 where
  pub sequence : ℕ
  pub kind : FaultKind
  pub severity : FaultSeverity
  pub task_id : TaskId
  pub address : ℕ
  pub status : KernelStatus
  pub phase : FaultPhase
  pub trace : TraceContext
  pub reason : String

-- `FaultRecord::EMPTY`
abbrev pub empty_fault : FaultRecord
empty_fault = record {
  sequence = 0;
  kind = FaultKind.invariant_violation;
  severity = FaultSeverity.info;
  task_id = 0;
  address = 0;
  status = KernelStatus.ok;
  phase = FaultPhase.pre_boot;
  trace = empty_trace;
  reason = "";
}

-- `FaultRecord::from_error`
unfoldable pub from_error :
    FaultKind → FaultSeverity → TaskId → ℕ → KernelError → FaultPhase → TraceContext → FaultRecord
from_error kind severity task_id address cause phase trace = record {
  sequence = 0;
  kind = kind;
  severity = severity;
  task_id = task_id;
  address = address;
  status = Error.status cause;
  phase = phase;
  trace = trace;
  reason = Error.reason cause;
}

-- `FaultReporter`
pub record FaultReporter : Type 0 where
  pub records : List FaultRecord
  pub cursor : ℕ
  pub count : ℕ
  pub next_sequence : ℕ

-- `FaultReporter::new`
abbrev pub new : FaultReporter
new = record {
  records = replicate max_fault_records empty_fault;
  cursor = 0;
  count = 0;
  next_sequence = 1;
}

-- `FaultReporter::len`
abbrev pub len : FaultReporter → ℕ
len r = r.count

unfoldable pub is_empty : FaultReporter → Bool
is_empty r = r.count == 0

-- `FaultReporter::record`
unfoldable pub report : FaultRecord → FaultReporter → FaultReporter
report fault r = record {
  records = set r.records r.cursor (record fault { sequence = r.next_sequence });
  cursor = (r.cursor + 1) % max_fault_records;
  count = if ltb r.count max_fault_records then r.count + 1 else r.count;
  next_sequence = wrapping_add u64_mod r.next_sequence 1;
}

-- `FaultReporter::record_error`
unfoldable pub record_error :
    FaultKind
    → FaultSeverity
    → TaskId
    → KernelError
    → FaultPhase
    → TraceContext
    → FaultReporter
    → FaultReporter
record_error kind severity task_id cause phase trace r =
    report (from_error kind severity task_id 0 cause phase trace) r

-- `FaultReporter::last`; `EMPTY` stands for a read out of range, which the ring never makes.
unfoldable pub last : FaultReporter → Option FaultRecord
last r =
    if r.count == 0
    then none
    else some (
        get_or r.records (if r.cursor == 0 then max_fault_records - 1 else r.cursor - 1)
          empty_fault)

-- `FaultReporter::record_panic`
unfoldable pub record_panic :
    TaskId → FaultPhase → TraceContext → String → FaultReporter → FaultReporter
record_panic task_id phase trace reason r =
    report
      (record {
        sequence = 0;
        kind = FaultKind.panic;
        severity = FaultSeverity.fatal;
        task_id = task_id;
        address = 0;
        status = KernelStatus.internal;
        phase = phase;
        trace = trace;
        reason = reason;
      })
      r
