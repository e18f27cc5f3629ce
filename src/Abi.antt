-- ===== src/Abi.antt =====
-- src/syscall.rs, the types of the kernel's interface: versions, user buffers, trace contexts,
-- budgets and the numbers of the system calls. The laws of the numbers are in `Numbers`.
pub mod Numbers
use Prim.Native.Nat.{ℕ, ◌+◌, ◌*◌, ◌-◌, ◌^◌, bit_and, bit_or}
use mathlib.Core.Bool.{Bool, not, ◌||◌}
use alani_kernel.Common.Tests.{◌==◌}
use alani_kernel.Common.Words.{u32_mod, u64_mod, complement}

-- `AbiVersion`
pub record AbiVersion : Type 0 where
  pub major : ℕ
  pub minor : ℕ
  pub patch : ℕ
  pub flags : ℕ

-- `AbiVersion::packed`; the fields are below 2 ^ 16, so no shift loses a bit.
unfoldable pub packed : AbiVersion → ℕ
packed v = bit_or (v.major * 2 ^ 48) (bit_or (v.minor * 2 ^ 32) (bit_or (v.patch * 2 ^ 16) v.flags))

-- `ALANI_ABI_VERSION`
abbrev pub alani_abi_version : AbiVersion
alani_abi_version = record { major = 0; minor = 1; patch = 0; flags = 0 }

-- `SYSCALL_TABLE_VERSION`
abbrev pub syscall_table_version : AbiVersion
syscall_table_version = record { major = 0; minor = 1; patch = 0; flags = 0 }

-- `DEFAULT_MAX_SYSCALL_BUFFER_SIZE`
abbrev pub default_max_syscall_buffer_size : ℕ
default_max_syscall_buffer_size = 16 * 1024 * 1024

-- `USER_BUFFER_READ`
abbrev pub user_buffer_read : ℕ
user_buffer_read = 2 ^ 0

-- `USER_BUFFER_WRITE`
abbrev pub user_buffer_write : ℕ
user_buffer_write = 2 ^ 1

-- `USER_BUFFER_PINNABLE`
abbrev pub user_buffer_pinnable : ℕ
user_buffer_pinnable = 2 ^ 2

-- `USER_BUFFER_KNOWN_FLAGS`
abbrev pub user_buffer_known_flags : ℕ
user_buffer_known_flags = bit_or (bit_or user_buffer_read user_buffer_write) user_buffer_pinnable

-- `UserBuffer`
pub record UserBuffer : Type 0 where
  pub ptr : ℕ
  pub len : ℕ
  pub flags : ℕ
  pub reserved : ℕ

-- `UserBuffer::new`
abbrev pub user_buffer : ℕ → ℕ → ℕ → UserBuffer
user_buffer ptr len flags = record { ptr = ptr; len = len; flags = flags; reserved = 0 }

unfoldable pub has_unknown_flags : UserBuffer → Bool
has_unknown_flags b = not (bit_and b.flags (complement u32_mod user_buffer_known_flags) == 0)

unfoldable pub is_readable : UserBuffer → Bool
is_readable b = not (bit_and b.flags user_buffer_read == 0)

unfoldable pub is_writable : UserBuffer → Bool
is_writable b = not (bit_and b.flags user_buffer_write == 0)

-- `TraceContext`
pub record TraceContext : Type 0 where
  pub trace_id : ℕ
  pub span_id : ℕ
  pub parent_span_id : ℕ
  pub flags : ℕ
  pub reserved : ℕ

-- `TraceContext::empty`
abbrev pub empty_trace : TraceContext
empty_trace = record { trace_id = 0; span_id = 0; parent_span_id = 0; flags = 0; reserved = 0 }

-- `InferenceBudget`
pub record InferenceBudget : Type 0 where
  pub max_tokens : ℕ
  pub max_compute_units : ℕ
  pub deadline_ns : ℕ
  pub flags : ℕ
  pub reserved : ℕ

-- `InferenceBudget::is_bounded`
unfoldable pub is_bounded : InferenceBudget → Bool
is_bounded b = not (b.max_tokens == 0) || not (b.max_compute_units == 0) || not (b.deadline_ns == 0)
