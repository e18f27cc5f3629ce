-- ===== src/Abi/Numbers.antt =====
-- src/syscall.rs, `SyscallGroup` and `SyscallNumber`: the stable numbers, their decoding, names and
-- groups.
use Prim.Native.Nat.{ℕ, bit_and}
use Prim.Native.String.{String}
use mathlib.Core.Path.{◌≡◌, ap}
use mathlib.Core.Bool.{Bool}
use native.Mathlib.Omega.{arith}
use mathlib.Core.Option.{Option, none, some}
use alani_kernel.Common.Tests.{◌==◌, if◌then◌else◌}

-- `SyscallGroup`
pub data SyscallGroup : Type 0 where
  system task memory device cognition security audit debug : SyscallGroup

-- `SyscallNumber`
pub data SyscallNumber : Type 0 where
  sys_info sys_yield sys_exit sys_time sys_trace_context sys_task_spawn : SyscallNumber
  sys_task_join sys_task_cancel sys_task_status sys_mem_map sys_mem_unmap : SyscallNumber
  sys_mem_query sys_mem_share sys_mem_seal sys_device_list sys_device_open : SyscallNumber
  sys_device_call sys_device_close sys_model_list sys_model_open sys_infer : SyscallNumber
  sys_memory_query sys_memory_put sys_cap_derive sys_cap_revoke sys_attest : SyscallNumber
  sys_random sys_audit_append sys_audit_query sys_audit_verify : SyscallNumber

-- The `repr(u32)` discriminants: `self as u32`.
unfoldable pub raw_number : SyscallNumber → ℕ
raw_number SyscallNumber.sys_info = 0x0000
raw_number SyscallNumber.sys_yield = 0x0001
raw_number SyscallNumber.sys_exit = 0x0002
raw_number SyscallNumber.sys_time = 0x0003
raw_number SyscallNumber.sys_trace_context = 0x0004
raw_number SyscallNumber.sys_task_spawn = 0x0100
raw_number SyscallNumber.sys_task_join = 0x0101
raw_number SyscallNumber.sys_task_cancel = 0x0102
raw_number SyscallNumber.sys_task_status = 0x0103
raw_number SyscallNumber.sys_mem_map = 0x0200
raw_number SyscallNumber.sys_mem_unmap = 0x0201
raw_number SyscallNumber.sys_mem_query = 0x0202
raw_number SyscallNumber.sys_mem_share = 0x0203
raw_number SyscallNumber.sys_mem_seal = 0x0204
raw_number SyscallNumber.sys_device_list = 0x0300
raw_number SyscallNumber.sys_device_open = 0x0301
raw_number SyscallNumber.sys_device_call = 0x0302
raw_number SyscallNumber.sys_device_close = 0x0303
raw_number SyscallNumber.sys_model_list = 0x0400
raw_number SyscallNumber.sys_model_open = 0x0401
raw_number SyscallNumber.sys_infer = 0x0402
raw_number SyscallNumber.sys_memory_query = 0x0403
raw_number SyscallNumber.sys_memory_put = 0x0404
raw_number SyscallNumber.sys_cap_derive = 0x0500
raw_number SyscallNumber.sys_cap_revoke = 0x0501
raw_number SyscallNumber.sys_attest = 0x0502
raw_number SyscallNumber.sys_random = 0x0503
raw_number SyscallNumber.sys_audit_append = 0x0600
raw_number SyscallNumber.sys_audit_query = 0x0601
raw_number SyscallNumber.sys_audit_verify = 0x0602

-- Two numbers are compared by their discriminants, as the derived `==` does.
unfoldable pub number_eq : SyscallNumber → SyscallNumber → Bool
unfolding raw_number
number_eq a b = raw_number a == raw_number b

-- The arms of a match on a register value, tried in order.
abbrev arm : ℕ → ℕ → SyscallNumber → Option SyscallNumber → Option SyscallNumber
arm raw value number rest = if raw == value then some number else rest

-- `SyscallNumber::from_raw`
unfoldable pub from_raw : ℕ → Option SyscallNumber
from_raw raw = arm raw 0x0000 SyscallNumber.sys_info (
    arm raw 0x0001 SyscallNumber.sys_yield (
      arm raw 0x0002 SyscallNumber.sys_exit (
        arm raw 0x0003 SyscallNumber.sys_time (
          arm raw 0x0004 SyscallNumber.sys_trace_context (
            arm raw 0x0100 SyscallNumber.sys_task_spawn (
              arm raw 0x0101 SyscallNumber.sys_task_join (
                arm raw 0x0102 SyscallNumber.sys_task_cancel (
                  arm raw 0x0103 SyscallNumber.sys_task_status (
                    arm raw 0x0200 SyscallNumber.sys_mem_map (
                      arm raw 0x0201 SyscallNumber.sys_mem_unmap (
                        arm raw 0x0202 SyscallNumber.sys_mem_query (
                          arm raw 0x0203 SyscallNumber.sys_mem_share (
                            arm raw 0x0204 SyscallNumber.sys_mem_seal (
                              arm raw 0x0300 SyscallNumber.sys_device_list (
                                arm raw 0x0301 SyscallNumber.sys_device_open (
                                  arm raw 0x0302 SyscallNumber.sys_device_call (
                                    arm raw 0x0303 SyscallNumber.sys_device_close (
                                      arm raw 0x0400 SyscallNumber.sys_model_list (
                                        arm raw 0x0401 SyscallNumber.sys_model_open (
                                          arm raw 0x0402 SyscallNumber.sys_infer (
                                            arm raw 0x0403 SyscallNumber.sys_memory_query (
                                              arm raw 0x0404 SyscallNumber.sys_memory_put (
                                                arm raw 0x0500 SyscallNumber.sys_cap_derive (
                                                  arm raw 0x0501 SyscallNumber.sys_cap_revoke (
                                                    arm raw 0x0502 SyscallNumber.sys_attest (
                                                      arm raw 0x0503 SyscallNumber.sys_random (
                                                        arm raw 0x0600
                                                          SyscallNumber.sys_audit_append
                                                          (arm raw 0x0601
                                                            SyscallNumber.sys_audit_query
                                                            (arm raw 0x0602
                                                            SyscallNumber.sys_audit_verify
                                                            none)))))))))))))))))))))))))))))

-- `SyscallNumber::name`
unfoldable pub number_name : SyscallNumber → String
number_name SyscallNumber.sys_info = "sys_info"
number_name SyscallNumber.sys_yield = "sys_yield"
number_name SyscallNumber.sys_exit = "sys_exit"
number_name SyscallNumber.sys_time = "sys_time"
number_name SyscallNumber.sys_trace_context = "sys_trace_context"
number_name SyscallNumber.sys_task_spawn = "sys_task_spawn"
number_name SyscallNumber.sys_task_join = "sys_task_join"
number_name SyscallNumber.sys_task_cancel = "sys_task_cancel"
number_name SyscallNumber.sys_task_status = "sys_task_status"
number_name SyscallNumber.sys_mem_map = "sys_mem_map"
number_name SyscallNumber.sys_mem_unmap = "sys_mem_unmap"
number_name SyscallNumber.sys_mem_query = "sys_mem_query"
number_name SyscallNumber.sys_mem_share = "sys_mem_share"
number_name SyscallNumber.sys_mem_seal = "sys_mem_seal"
number_name SyscallNumber.sys_device_list = "sys_device_list"
number_name SyscallNumber.sys_device_open = "sys_device_open"
number_name SyscallNumber.sys_device_call = "sys_device_call"
number_name SyscallNumber.sys_device_close = "sys_device_close"
number_name SyscallNumber.sys_model_list = "sys_model_list"
number_name SyscallNumber.sys_model_open = "sys_model_open"
number_name SyscallNumber.sys_infer = "sys_infer"
number_name SyscallNumber.sys_memory_query = "sys_memory_query"
number_name SyscallNumber.sys_memory_put = "sys_memory_put"
number_name SyscallNumber.sys_cap_derive = "sys_cap_derive"
number_name SyscallNumber.sys_cap_revoke = "sys_cap_revoke"
number_name SyscallNumber.sys_attest = "sys_attest"
number_name SyscallNumber.sys_random = "sys_random"
number_name SyscallNumber.sys_audit_append = "sys_audit_append"
number_name SyscallNumber.sys_audit_query = "sys_audit_query"
number_name SyscallNumber.sys_audit_verify = "sys_audit_verify"

-- `SyscallNumber::group`
unfoldable pub group : SyscallNumber → SyscallGroup
unfolding raw_number
group n =
    let high = bit_and (raw_number n) 0xff00 in
    if high == 0x0100
    then SyscallGroup.task
    else if high == 0x0200
    then SyscallGroup.memory
    else if high == 0x0300
    then SyscallGroup.device
    else if high == 0x0400
    then SyscallGroup.cognition
    else if high == 0x0500
    then SyscallGroup.security
    else if high == 0x0600
    then SyscallGroup.audit
    else if high == 0x0700
    then SyscallGroup.debug
    else SyscallGroup.system

-- Decoding undoes the discriminant.
pub from_raw-raw_number : (n : SyscallNumber) → from_raw (raw_number n) ≡ some n
unfolding from_raw raw_number
from_raw-raw_number n = ground arith

-- A raw value that decodes to a system call is the number of that call.
pub raw_number-from_raw : (raw : ℕ) (n : SyscallNumber) → from_raw raw ≡ some n → raw_number n ≡ raw
unfolding from_raw raw_number
raw_number-from_raw raw n h = ground arith

-- No two system calls share a number.
pub raw_number-injective : (m n : SyscallNumber) → raw_number m ≡ raw_number n → m ≡ n
raw_number-injective m n h =
    ground (arith, from_raw-raw_number m, from_raw-raw_number n, ap from_raw h)
