-- ===== src/Audit.antt =====
-- src/audit.rs: the kinds of audit events, the event, and the ring buffer of the last 128 of them.
-- `Log` relates the buffer to the history of what was appended.
pub mod Log
use Prim.Native.Nat.{ℕ, ◌+◌, ◌-◌, ◌%◌, ◌≤◌}
use Prim.Native.String.{String}
use mathlib.Core.Bool.{Bool}
use mathlib.Core.Option.{Option, none, some}
use mathlib.Core.List.{List}
use alani_kernel.Common.Tests.{ltb, leb, ◌==◌, if◌then◌else◌}
use alani_kernel.Common.Words.{u64_mod, wrapping_add}
use alani_kernel.Common.Lists.{get_or, set, replicate}
use alani_kernel.Error.{KernelStatus, is_ok, status_eq}
use alani_kernel.Capability.{TaskId}
use alani_kernel.Abi.{TraceContext, empty_trace}
use alani_kernel.Abi.Numbers.{SyscallNumber}

-- `MAX_AUDIT_EVENTS`
abbrev pub max_audit_events : ℕ
max_audit_events = 128

-- `AuditEventKind`
pub data AuditEventKind : Type 0 where
  task_spawn task_state_changed memory_map memory_share device_open : AuditEventKind
  device_call cognition_infer cognitive_memory capability_changed : AuditEventKind
  security_decision audit_append audit_query audit_verify fault : AuditEventKind

-- `AuditSeverity`
pub data AuditSeverity : Type 0 where
  info notice warning critical : AuditSeverity

-- `DataClass`
pub data DataClass : Type 0 where
  public operational sensitive secret : DataClass

-- `AuditEvent`
pub record AuditEvent : Type 0 where
  pub sequence : ℕ
  pub kind : AuditEventKind
  pub severity : AuditSeverity
  pub task_id : TaskId
  pub syscall : Option SyscallNumber
  pub status : KernelStatus
  pub trace : TraceContext
  pub data_class : DataClass
  pub reason : String

-- `AuditEvent::EMPTY`
abbrev pub empty_event : AuditEvent
empty_event = record {
  sequence = 0;
  kind = AuditEventKind.security_decision;
  severity = AuditSeverity.info;
  task_id = 0;
  syscall = none;
  status = KernelStatus.ok;
  trace = empty_trace;
  data_class = DataClass.public;
  reason = "";
}

-- `AuditSink`: what a backend of the audit stream offers.
pub record AuditSink (S : Type 0) : Type 0 where
  pub append : AuditEvent → S → S

-- `AuditLog`
pub record AuditLog : Type 0 where
  pub events : List AuditEvent
  pub cursor : ℕ
  pub count : ℕ
  pub next_sequence : ℕ

-- `AuditLog::new`
abbrev pub new : AuditLog
new = record {
  events = replicate max_audit_events empty_event;
  cursor = 0;
  count = 0;
  next_sequence = 1;
}

-- `AuditLog::len`
abbrev pub len : AuditLog → ℕ
len l = l.count

unfoldable pub is_empty : AuditLog → Bool
is_empty l = l.count == 0

-- `AuditLog::append`
unfoldable pub append : AuditEvent → AuditLog → AuditLog
append event l = record {
  events = set l.events l.cursor (record event { sequence = l.next_sequence });
  cursor = (l.cursor + 1) % max_audit_events;
  count = if ltb l.count max_audit_events then l.count + 1 else l.count;
  next_sequence = wrapping_add u64_mod l.next_sequence 1;
}

instance abbrev pub audit_log_sink : AuditSink AuditLog
audit_log_sink = record { append = append }

-- The severity that `record_syscall` assigns.
unfoldable pub severity_of : KernelStatus → AuditSeverity
unfolding is_ok status_eq
severity_of status =
    if is_ok status
    then AuditSeverity.notice
    else if status_eq status KernelStatus.permission_denied
    then AuditSeverity.critical
    else AuditSeverity.warning

-- The event that `record_syscall` appends.
unfoldable pub syscall_event :
    AuditEventKind → TaskId → SyscallNumber → KernelStatus → TraceContext → String → AuditEvent
unfolding severity_of
syscall_event kind task_id syscall status trace reason = record {
  sequence = 0;
  kind = kind;
  severity = severity_of status;
  task_id = task_id;
  syscall = some syscall;
  status = status;
  trace = trace;
  data_class = DataClass.operational;
  reason = reason;
}

-- `AuditLog::record_syscall`
unfoldable pub record_syscall :
    AuditEventKind
    → TaskId
    → SyscallNumber
    → KernelStatus
    → TraceContext
    → String
    → AuditLog
    → AuditLog
record_syscall kind task_id syscall status trace reason l =
    append (syscall_event kind task_id syscall status trace reason) l

-- `AuditLog::last`; `EMPTY` stands for a read out of range, which the ring never makes.
unfoldable pub last : AuditLog → Option AuditEvent
last l =
    if l.count == 0
    then none
    else some
        (get_or l.events (if l.cursor == 0 then max_audit_events - 1 else l.cursor - 1) empty_event)

-- `AuditLog::get`
unfoldable pub get : AuditLog → ℕ → Option AuditEvent
get l index =
    if leb l.count index
    then none
    else some (
        get_or l.events
          (((if l.count == max_audit_events then l.cursor else 0) + index) % max_audit_events)
          empty_event)
