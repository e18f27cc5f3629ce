-- ===== src/Memory/Manager/Ranges.antt =====
-- src/memory.rs, `MemoryManager`: which user ranges and buffers are accepted.
use Prim.Native.Nat.{ℕ, ◌+◌, ◌-◌, ◌%◌, ◌^◌, ◌≤◌, ◌<◌, bit_and}
use mathlib.Core.Path.{◌≡◌}
use mathlib.Core.Logic.{◌↔◌}
use mathlib.Core.Bool.{true, false}
use native.Mathlib.Omega.{arith}
use alani_kernel.Common.Tests.{◌==◌}
use alani_kernel.Common.Words.{is_power_of_two_sound}
use alani_kernel.Common.Bits.{bit_at, bit_and_mask, bit_and-high, bit_and-pow}
use alani_kernel.Outcome.{ok}
use alani_kernel.Abi.{UserBuffer, has_unknown_flags}
use alani_kernel.Memory.{BufferAccess, ValidatedUserBuffer}
use alani_kernel.Memory.Manager.{
  MemoryManager, validate_user_range, validate_user_buffer, required_flags,
}
use alani_kernel.Memory.Manager.Settings.{IsConfigured}

-- The range lies in the user's address space, is aligned and not too long.
pub record IsUserRange (m : MemoryManager) (ptr len : ℕ) : Type 0 where
  pub nonempty : 0 < len
  pub not_null : 0 < ptr
  pub short : len ≤ m.max_user_buffer_len
  pub no_wrap : ptr + len < 2 ^ 64
  pub above : m.user_lower_bound ≤ ptr
  pub below : ptr + len ≤ m.user_upper_bound
  pub aligned : ptr % m.minimum_user_alignment ≡ 0

alignment_mask :
    (m : MemoryManager) (ptr : ℕ)
    → IsConfigured m
    → bit_and ptr (m.minimum_user_alignment - 1) ≡ ptr % m.minimum_user_alignment
alignment_mask m ptr v =
    let (k, _, e) = is_power_of_two_sound m.minimum_user_alignment v.alignment in
    rw e (bit_and_mask k ptr)

-- With bounds, limit and alignment as the setters leave them, a range is accepted exactly if it
-- lies within the user bounds, is not empty, null or longer than the limit, does not wrap, and
-- starts at a multiple of the required alignment.
pub validate_user_range_iff :
    (m : MemoryManager) (ptr len : ℕ)
    → IsConfigured m
    → (validate_user_range m ptr len ≡ ok tt) ↔ IsUserRange m ptr len
unfolding validate_user_range
validate_user_range_iff m ptr len v = ground (arith, alignment_mask m ptr v)

-- The access that a buffer's flags declare covers the one asked for.
abbrev pub Allows : ℕ → BufferAccess → Type 0
Allows flags BufferAccess.read = bit_at 0 flags ≡ 1
Allows flags BufferAccess.write = bit_at 1 flags ≡ 1
Allows flags BufferAccess.read_write = (bit_at 0 flags ≡ 1) × (bit_at 1 flags ≡ 1)

-- The buffer is well formed, declares the access and spans a user range.
pub record IsUserBuffer (m : MemoryManager) (b : UserBuffer) (access : BufferAccess) : Type 0 where
  pub reserved_zero : b.reserved ≡ 0
  pub known : b.flags < 8
  pub allowed : Allows b.flags access
  pub range : IsUserRange m b.ptr b.len

-- The buffer that stands for a validated one.
abbrev pub validated : UserBuffer → BufferAccess → ValidatedUserBuffer
validated b access = record { ptr = b.ptr; len = b.len; access = access }

has_unknown_flags_iff :
    (b : UserBuffer) → b.flags < 2 ^ 32 → (has_unknown_flags b ≡ false) ↔ (b.flags < 8)
unfolding has_unknown_flags
has_unknown_flags_iff b h = ground (arith, bit_and-high 3 29 b.flags)

required_flags_iff :
    (flags : ℕ) (access : BufferAccess)
    → ((bit_and flags (required_flags access) == required_flags access) ≡ true)
      ↔ Allows flags access
unfolding required_flags
required_flags_iff flags BufferAccess.read = ground (arith, bit_and-pow 0 flags)
required_flags_iff flags BufferAccess.write = ground (arith, bit_and-pow 1 flags)
required_flags_iff flags BufferAccess.read_write = ground (arith, bit_and_mask 2 flags)

-- With bounds, limit and alignment as the setters leave them, a buffer with 32-bit flags is
-- accepted exactly if its reserved field is zero, no unknown flag is set, the flags declare the
-- access asked for, and its range is a valid user range; and whatever is answered for an accepted
-- buffer has the buffer's own start and length and that access.
pub validate_user_buffer_iff :
    (m : MemoryManager) (b : UserBuffer) (access : BufferAccess) (answer : ValidatedUserBuffer)
    → IsConfigured m
    → b.flags < 2 ^ 32
    → (validate_user_buffer m b access ≡ ok answer)
      ↔ (IsUserBuffer m b access × (answer ≡ validated b access))
unfolding validate_user_buffer
validate_user_buffer_iff m b access answer v h = ground (
  arith,
  has_unknown_flags_iff b h,
  required_flags_iff b.flags access,
  validate_user_range_iff m b.ptr b.len v,
)
