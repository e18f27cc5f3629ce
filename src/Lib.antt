-- ===== src/Lib.antt =====
-- The Alani kernel: a model of the host-mode kernel and what is proved of it.
--
-- The program. `Kernel` (src/lib.rs) owns seven subsystems: the boot tracker (src/boot.rs), the memory
-- manager with its boot map (src/memory.rs), the scheduler (src/scheduler.rs), the device registry
-- (src/device.rs), the audit log (src/audit.rs), the fault reporter (src/fault.rs), and the stateless
-- dispatcher of system calls (src/syscall.rs). Capabilities (src/capability.rs) are bit sets that a caller
-- presents with each call; statuses and errors (src/error.rs) are shared by all. `handle_syscall` validates a
-- frame against the descriptor table, runs one handler on the subsystems, and records the outcome in the
-- audit log and the fault reporter. The capability registry is a component of its own that no handler uses.
--
-- The files.
--   Error, Outcome, Method: src/error.rs, `KernelResult` with `?`, and methods that take `&mut self` as
--     functions from the state to a result and the state left, so that partial effects of a failure stay.
--   Capability, Capability/Registry: src/capability.rs; Capability/Sets and Capability/Registry/Invariant
--     and Handles hold theorems.
--   Abi, Abi/Numbers, Syscall, Syscall/Table: src/syscall.rs; Syscall/Dispatch holds theorems.
--   Audit, Fault: src/audit.rs and src/fault.rs; Audit/Log and Fault/Reporter refine both rings to the list of
--     what was written, by the lemmas of Common/Ring.
--   Boot: src/boot.rs; Boot/Order holds theorems.
--   Memory, Memory/Map, Memory/Manager: src/memory.rs; Memory/Map/Disjoint and Totals and the children of
--     Memory/Manager hold theorems.
--   Device: src/device.rs; Device/Registry and Device/Access hold theorems.
--   Scheduler, Scheduler/Queue, Scheduler/Policy: src/scheduler.rs; the children of Scheduler/Policy hold
--     theorems: the selection loop, the update loop, the invariant, runs of calls, and what follows of them.
--     Entries is what every call keeps of each slot; Patience and its children count the tasks that may be
--     chosen before a ready one; System gathers what holds under the calls that the kernel makes.
--   Kernel, Kernel/Handlers, Kernel/Entry: src/lib.rs; Kernel/Boot and the children of Kernel/Entry hold
--     theorems on the boot (Attempts, by First, and Once), on denied calls (Denial, by Cases), on the evidence
--     that calls leave, on histories of calls (History, Fixed), on the audit log of a history (Testimony, by
--     Dues), on the task that runs (Tasks), on the yields of a history (Turns, by Answers), on yields in a row
--     (Yields), on tasks that are spawned (Spawns) and end (Exits), on shared and sealed regions (Shares,
--     Seals), and on which calls succeed (Replies, by Success).
--   Common: Boolean tests, machine words, arrays as lists, searches and counts, bits, and rings.
--   Tests: the theorems at concrete inputs.
--
-- The correspondence. A definition has the name of the function or type that it models; `CapabilitySet::derive`
-- is `attenuate`, `FaultReporter::record` is `report`, `RunQueue::get_mut` with a write is `update`. Fixed arrays
-- are lists of the array's length, which the invariants state; a Rust iterator's `find` is `find` and a write
-- through the reference found is `update_first`. Unsigned integers are natural numbers with the checked,
-- wrapping or saturating operation that the source uses written out; fields are
-- not bounded by their types, and a theorem that needs a bound states it or has it from an invariant. `==`
-- on a type without fields compares its discriminants. The audit log and the fault reporter are indexed only within their arrays.
--
-- Loops. All loops of the program run over fixed tables and are structural recursions on their lists, so that
-- no fuel is needed. The update loop of `schedule_next` keeps what it wrote before an overflow stopped it.
--
-- Not modelled: plain getters and `Default`, which are fields and `new`; the address newtypes and the trait
-- `FrameAllocator`, which nothing implements; derived `Debug` and `Hash`; the tests in tests/smoke.rs.
pub mod Common
pub mod Error
pub mod Outcome
pub mod Method
pub mod Capability
pub mod Abi
pub mod Audit
pub mod Fault
pub mod Syscall
pub mod Boot
pub mod Memory
pub mod Device
pub mod Scheduler
pub mod Kernel
pub mod Tests
