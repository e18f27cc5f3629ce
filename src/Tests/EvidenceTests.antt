-- ===== src/Tests/EvidenceTests.antt =====
-- src/audit.rs, src/fault.rs, src/boot.rs and src/syscall.rs: logs, the boot order and the table of calls.
use Prim.Native.Nat.{suc, ◌+◌, ◌-◌, ◌%◌, ◌^◌, ◌≤◌, min}
use mathlib.Core.Path.{◌≡◌, refl}
use mathlib.Core.Logic.{◌↔◌}
use mathlib.Core.Bool.{true, false}
use mathlib.Core.Option.{none, some}
use mathlib.Core.List.{List, [], ◌∷◌}
use alani_kernel.Common.Tests.{◌==◌, if◌then◌else◌, ltb}
use alani_kernel.Common.Lists.{get_or, take}
use alani_kernel.Abi.Numbers.{SyscallNumber, from_raw}
use alani_kernel.Audit as AuditLogs
use alani_kernel.Audit.{AuditEvent, AuditSeverity, AuditLog, empty_event}
use alani_kernel.Audit.Log
use alani_kernel.Audit.Log.{appended, appended_contents}
use alani_kernel.Fault as Faults
use alani_kernel.Fault.{FaultRecord, FaultReporter, empty_fault}
use alani_kernel.Fault.Reporter
use alani_kernel.Fault.Reporter.{reported, reported_contents}
use alani_kernel.Boot.{
  BootPhase, boot_sequence, boot_phase_count, completed_count, is_complete, new,
}
use alani_kernel.Boot.Order.{attempt, boot_order}

abbrev warning : AuditEvent
warning = record empty_event { severity = AuditSeverity.warning; task_id = 3 }

abbrev two_events : List AuditEvent
two_events = warning ∷ empty_event ∷ []

appended_contents_example :
    (AuditLogs.len (appended two_events) ≡ min 2 128)
    × (AuditLogs.get (appended two_events) 1 ≡ (
        if ltb 1 (min 2 128)
        then some (get_or (Log.numbered two_events) (min 2 128 - suc 1) empty_event)
        else none))
    × (AuditLogs.last (appended two_events)
        ≡ (if 2 == 0 then none else some (get_or (Log.numbered two_events) 0 empty_event)))
    × ((appended two_events).next_sequence ≡ (1 + 2) % 2 ^ 64)
appended_contents_example = appended_contents two_events 1

reported_contents_example :
    (Faults.len (reported (empty_fault ∷ [])) ≡ min 1 64)
    × (Faults.last (reported (empty_fault ∷ [])) ≡ (
        if 1 == 0
        then none
        else some (get_or (Reporter.numbered (empty_fault ∷ [])) 0 empty_fault)))
    × ((reported (empty_fault ∷ [])).next_sequence ≡ (1 + 1) % 2 ^ 64)
reported_contents_example = reported_contents (empty_fault ∷ [])

-- One phase out of order between two in order.
abbrev attempts : List BootPhase
attempts = BootPhase.loader_handoff ∷ BootPhase.paging ∷ BootPhase.early_console ∷ []

boot_order_example :
    ((attempt new attempts).0 ≡ take (completed_count (attempt new attempts).1) boot_sequence)
    × (completed_count (attempt new attempts).1 ≤ boot_phase_count)
    × (get_or (attempt new attempts).1.completed 1 false
        ≡ ltb 1 (completed_count (attempt new attempts).1))
    × ((is_complete (attempt new attempts).1 ≡ true) ↔ ((attempt new attempts).0 ≡ boot_sequence))
boot_order_example = boot_order attempts 1

from_raw-time : from_raw 3 ≡ some SyscallNumber.sys_time
unfolding from_raw
from_raw-time = refl
