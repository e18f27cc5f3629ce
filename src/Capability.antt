-- ===== src/Capability.antt =====
-- src/capability.rs: the authority bits, the sets of them, and handles with their metadata. The
-- registry of handles is the child `Registry`, the laws of the sets are in `Sets`.
pub mod Sets
pub mod Registry
use Prim.Native.Nat.{ℕ, ◌^◌, bit_and, bit_or}
use Prim.Native.String.{String}
use mathlib.Core.Bool.{Bool, not}
use alani_kernel.Common.Tests.{◌==◌, if◌then◌else◌}
use alani_kernel.Common.Words.{u64_mod, complement}
use alani_kernel.Error.{KernelError}
use alani_kernel.Outcome.{KernelResult, ok, err}

-- `TaskId`
abbrev pub TaskId : Type 0
TaskId = ℕ

-- `Capability`
pub data Capability : Type 0 where
  task_spawn task_manage memory_map memory_share device_list device_open : Capability
  device_call cognition_infer cognition_memory security_manage audit_append : Capability
  audit_query audit_verify debug_trace kernel_maintenance : Capability

-- The `repr(u8)` discriminants: `self as u8`.
unfoldable pub position : Capability → ℕ
position Capability.task_spawn = 0
position Capability.task_manage = 1
position Capability.memory_map = 2
position Capability.memory_share = 3
position Capability.device_list = 4
position Capability.device_open = 5
position Capability.device_call = 6
position Capability.cognition_infer = 7
position Capability.cognition_memory = 8
position Capability.security_manage = 9
position Capability.audit_append = 10
position Capability.audit_query = 11
position Capability.audit_verify = 12
position Capability.debug_trace = 13
position Capability.kernel_maintenance = 14

-- `Capability::bit`; a shift of one by less than 64 loses nothing.
unfoldable pub bit : Capability → ℕ
unfolding position
bit c = 2 ^ position c

-- `Capability::name`
unfoldable pub name : Capability → String
name Capability.task_spawn = "task.spawn"
name Capability.task_manage = "task.manage"
name Capability.memory_map = "memory.map"
name Capability.memory_share = "memory.share"
name Capability.device_list = "device.list"
name Capability.device_open = "device.open"
name Capability.device_call = "device.call"
name Capability.cognition_infer = "cognition.infer"
name Capability.cognition_memory = "cognition.memory"
name Capability.security_manage = "security.manage"
name Capability.audit_append = "audit.append"
name Capability.audit_query = "audit.query"
name Capability.audit_verify = "audit.verify"
name Capability.debug_trace = "debug.trace"
name Capability.kernel_maintenance = "kernel.maintenance"

-- `KNOWN_CAPABILITY_BITS`
unfoldable pub known_capability_bits : ℕ
unfolding bit
known_capability_bits = bit_or (bit Capability.task_spawn) (
    bit_or (bit Capability.task_manage) (
      bit_or (bit Capability.memory_map) (
        bit_or (bit Capability.memory_share) (
          bit_or (bit Capability.device_list) (
            bit_or (bit Capability.device_open) (
              bit_or (bit Capability.device_call) (
                bit_or (bit Capability.cognition_infer) (
                  bit_or (bit Capability.cognition_memory) (
                    bit_or (bit Capability.security_manage) (
                      bit_or (bit Capability.audit_append) (
                        bit_or (bit Capability.audit_query) (
                          bit_or (bit Capability.audit_verify) (
                            bit_or (bit Capability.debug_trace)
                              (bit Capability.kernel_maintenance))))))))))))))

-- `CapabilitySet`
pub record CapabilitySet : Type 0 where
  pub bits : ℕ

-- `CapabilitySet::EMPTY`
abbrev pub empty : CapabilitySet
empty = record { bits = 0 }

unfoldable pub single : Capability → CapabilitySet
unfolding bit
single c = record { bits = bit c }

unfoldable pub from_bits : ℕ → KernelResult CapabilitySet
unfolding known_capability_bits
from_bits bits =
    if bit_and bits (complement u64_mod known_capability_bits) == 0
    then ok (record { bits = bits })
    else err KernelError.reserved_bits

unfoldable pub from_known_bits : ℕ → CapabilitySet
from_known_bits bits = record { bits = bits }

unfoldable pub is_empty : CapabilitySet → Bool
is_empty s = s.bits == 0

unfoldable pub contains : CapabilitySet → Capability → Bool
unfolding bit
contains s c = not (bit_and s.bits (bit c) == 0)

unfoldable pub contains_all : CapabilitySet → CapabilitySet → Bool
contains_all s required = bit_and s.bits required.bits == required.bits

-- `CapabilitySet::with`
unfoldable pub with_capability : CapabilitySet → Capability → CapabilitySet
unfolding bit
with_capability s c = record { bits = bit_or s.bits (bit c) }

unfoldable pub intersect : CapabilitySet → CapabilitySet → CapabilitySet
intersect s other = record { bits = bit_and s.bits other.bits }

-- `CapabilitySet::derive`
unfoldable pub attenuate : CapabilitySet → CapabilitySet → KernelResult CapabilitySet
unfolding contains_all
attenuate s requested =
    if contains_all s requested then ok requested else err KernelError.missing_capability

unfoldable pub require : CapabilitySet → Capability → KernelResult (Unit {0})
unfolding contains
require s c = if contains s c then ok tt else err KernelError.missing_capability
