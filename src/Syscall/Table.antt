-- ===== src/Syscall/Table.antt =====
-- src/syscall.rs, `SYSCALL_DESCRIPTORS`: the descriptors of the thirty system calls, in seven groups
-- whose concatenation is the table.
use Prim.Native.String.{String}
use mathlib.Core.Bool.{Bool, true, false}
use mathlib.Core.Option.{Option, none, some}
use mathlib.Core.List.{List, [], ◌∷◌, ◌++◌}
use alani_kernel.Capability.{Capability}
use alani_kernel.Abi.Numbers.{SyscallNumber}
use alani_kernel.Audit.{AuditEventKind}

-- `SyscallDescriptor`
pub record SyscallDescriptor : Type 0 where
  pub number : SyscallNumber
  pub name : String
  pub required_capability : Option Capability
  pub audit_event : Option AuditEventKind
  pub early_boot_safe : Bool
  pub interrupt_safe : Bool

abbrev descriptor :
    SyscallNumber
    → String
    → Option Capability
    → Option AuditEventKind
    → Bool
    → Bool
    → SyscallDescriptor
descriptor number name required_capability audit_event early_boot_safe interrupt_safe = record {
  number = number;
  name = name;
  required_capability = required_capability;
  audit_event = audit_event;
  early_boot_safe = early_boot_safe;
  interrupt_safe = interrupt_safe;
}

abbrev pub system_descriptors : List SyscallDescriptor
system_descriptors =
    descriptor SyscallNumber.sys_info "sys_info" none none true true
    ∷ descriptor SyscallNumber.sys_yield "sys_yield" none none false false
    ∷ descriptor SyscallNumber.sys_exit "sys_exit" none (some AuditEventKind.task_state_changed)
        false false
    ∷ descriptor SyscallNumber.sys_time "sys_time" none none true true
    ∷ descriptor SyscallNumber.sys_trace_context "sys_trace_context" none none true true
    ∷ []

abbrev pub task_descriptors : List SyscallDescriptor
task_descriptors =
    descriptor SyscallNumber.sys_task_spawn "sys_task_spawn" (some Capability.task_spawn)
      (some AuditEventKind.task_spawn) false false
    ∷ descriptor SyscallNumber.sys_task_join "sys_task_join" (some Capability.task_manage)
        (some AuditEventKind.task_state_changed) false false
    ∷ descriptor SyscallNumber.sys_task_cancel "sys_task_cancel" (some Capability.task_manage)
        (some AuditEventKind.task_state_changed) false false
    ∷ descriptor SyscallNumber.sys_task_status "sys_task_status" (some Capability.task_manage) none
        false false
    ∷ []

abbrev pub memory_descriptors : List SyscallDescriptor
memory_descriptors =
    descriptor SyscallNumber.sys_mem_map "sys_mem_map" (some Capability.memory_map)
      (some AuditEventKind.memory_map) false false
    ∷ descriptor SyscallNumber.sys_mem_unmap "sys_mem_unmap" (some Capability.memory_map)
        (some AuditEventKind.memory_map) false false
    ∷ descriptor SyscallNumber.sys_mem_query "sys_mem_query" none none false false
    ∷ descriptor SyscallNumber.sys_mem_share "sys_mem_share" (some Capability.memory_share)
        (some AuditEventKind.memory_share) false false
    ∷ descriptor SyscallNumber.sys_mem_seal "sys_mem_seal" (some Capability.memory_share)
        (some AuditEventKind.memory_share) false false
    ∷ []

abbrev pub device_descriptors : List SyscallDescriptor
device_descriptors =
    descriptor SyscallNumber.sys_device_list "sys_device_list" (some Capability.device_list) none
      false false
    ∷ descriptor SyscallNumber.sys_device_open "sys_device_open" (some Capability.device_open)
        (some AuditEventKind.device_open) false false
    ∷ descriptor SyscallNumber.sys_device_call "sys_device_call" (some Capability.device_call)
        (some AuditEventKind.device_call) false false
    ∷ descriptor SyscallNumber.sys_device_close "sys_device_close" (some Capability.device_call)
        (some AuditEventKind.device_call) false false
    ∷ []

abbrev pub cognition_descriptors : List SyscallDescriptor
cognition_descriptors =
    descriptor SyscallNumber.sys_model_list "sys_model_list" none none false false
    ∷ descriptor SyscallNumber.sys_model_open "sys_model_open" (some Capability.cognition_infer)
        (some AuditEventKind.cognition_infer) false false
    ∷ descriptor SyscallNumber.sys_infer "sys_infer" (some Capability.cognition_infer)
        (some AuditEventKind.cognition_infer) false false
    ∷ descriptor SyscallNumber.sys_memory_query "sys_memory_query"
        (some Capability.cognition_memory) (some AuditEventKind.cognitive_memory) false false
    ∷ descriptor SyscallNumber.sys_memory_put "sys_memory_put" (some Capability.cognition_memory)
        (some AuditEventKind.cognitive_memory) false false
    ∷ []

abbrev pub security_descriptors : List SyscallDescriptor
security_descriptors =
    descriptor SyscallNumber.sys_cap_derive "sys_cap_derive" (some Capability.security_manage)
      (some AuditEventKind.capability_changed) false false
    ∷ descriptor SyscallNumber.sys_cap_revoke "sys_cap_revoke" (some Capability.security_manage)
        (some AuditEventKind.capability_changed) false false
    ∷ descriptor SyscallNumber.sys_attest "sys_attest" (some Capability.security_manage)
        (some AuditEventKind.security_decision) false false
    ∷ descriptor SyscallNumber.sys_random "sys_random" none none false false
    ∷ []

abbrev pub audit_descriptors : List SyscallDescriptor
audit_descriptors =
    descriptor SyscallNumber.sys_audit_append "sys_audit_append" (some Capability.audit_append)
      (some AuditEventKind.audit_append) false false
    ∷ descriptor SyscallNumber.sys_audit_query "sys_audit_query" (some Capability.audit_query)
        (some AuditEventKind.audit_query) false false
    ∷ descriptor SyscallNumber.sys_audit_verify "sys_audit_verify" (some Capability.audit_verify)
        (some AuditEventKind.audit_verify) false false
    ∷ []

-- `SYSCALL_DESCRIPTORS`
unfoldable pub syscall_descriptors : List SyscallDescriptor
syscall_descriptors =
    system_descriptors
    ++ (task_descriptors
        ++ (memory_descriptors
            ++ (device_descriptors
                ++ (cognition_descriptors ++ (security_descriptors ++ audit_descriptors)))))
