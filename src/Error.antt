-- ===== src/Error.antt =====
-- src/error.rs: the stable ABI statuses, the kernel's own errors, and the map from these to those.
-- Two values of a fieldless enum are compared by their discriminants, as the derived `==` does.
use Prim.Native.Nat.{ℕ}
use Prim.Native.String.{String}
use mathlib.Core.Bool.{Bool, true, false}
use alani_kernel.Common.Tests.{◌==◌}

-- `KernelStatus`
pub data KernelStatus : Type 0 where
  ok invalid_argument permission_denied not_found busy deadline_exceeded internal : KernelStatus

-- The `repr(u32)` discriminants.
unfoldable pub status_code : KernelStatus → ℕ
status_code KernelStatus.ok = 0
status_code KernelStatus.invalid_argument = 1
status_code KernelStatus.permission_denied = 2
status_code KernelStatus.not_found = 3
status_code KernelStatus.busy = 4
status_code KernelStatus.deadline_exceeded = 5
status_code KernelStatus.internal = 0xffff_ffff

unfoldable pub is_ok : KernelStatus → Bool
is_ok KernelStatus.ok = true
is_ok _ = false

unfoldable pub status_eq : KernelStatus → KernelStatus → Bool
unfolding status_code
status_eq a b = status_code a == status_code b

-- `KernelError`
pub data KernelError : Type 0 where
  unknown_syscall : KernelError
  invalid_argument : KernelError
  invalid_user_buffer : KernelError
  buffer_too_large : KernelError
  buffer_out_of_range : KernelError
  reserved_bits : KernelError
  missing_capability : KernelError
  permission_denied : KernelError
  not_found : KernelError
  capacity_exceeded : KernelError
  busy : KernelError
  deadline_exceeded : KernelError
  invalid_state : KernelError
  overlap : KernelError
  sealed : KernelError
  duplicate : KernelError
  internal : KernelError

-- `KernelError::status`
unfoldable pub status : KernelError → KernelStatus
status KernelError.missing_capability = KernelStatus.permission_denied
status KernelError.permission_denied = KernelStatus.permission_denied
status KernelError.not_found = KernelStatus.not_found
status KernelError.capacity_exceeded = KernelStatus.busy
status KernelError.busy = KernelStatus.busy
status KernelError.deadline_exceeded = KernelStatus.deadline_exceeded
status KernelError.internal = KernelStatus.internal
status KernelError.unknown_syscall = KernelStatus.invalid_argument
status KernelError.invalid_argument = KernelStatus.invalid_argument
status KernelError.invalid_user_buffer = KernelStatus.invalid_argument
status KernelError.buffer_too_large = KernelStatus.invalid_argument
status KernelError.buffer_out_of_range = KernelStatus.invalid_argument
status KernelError.reserved_bits = KernelStatus.invalid_argument
status KernelError.invalid_state = KernelStatus.invalid_argument
status KernelError.overlap = KernelStatus.invalid_argument
status KernelError.sealed = KernelStatus.invalid_argument
status KernelError.duplicate = KernelStatus.invalid_argument

-- `KernelError::reason`
unfoldable pub reason : KernelError → String
reason KernelError.unknown_syscall = "unknown_syscall"
reason KernelError.invalid_argument = "invalid_argument"
reason KernelError.invalid_user_buffer = "invalid_user_buffer"
reason KernelError.buffer_too_large = "buffer_too_large"
reason KernelError.buffer_out_of_range = "buffer_out_of_range"
reason KernelError.reserved_bits = "reserved_bits"
reason KernelError.missing_capability = "missing_capability"
reason KernelError.permission_denied = "permission_denied"
reason KernelError.not_found = "not_found"
reason KernelError.capacity_exceeded = "capacity_exceeded"
reason KernelError.busy = "busy"
reason KernelError.deadline_exceeded = "deadline_exceeded"
reason KernelError.invalid_state = "invalid_state"
reason KernelError.overlap = "overlap"
reason KernelError.sealed = "sealed"
reason KernelError.duplicate = "duplicate"
reason KernelError.internal = "internal"
