-- ===== src/Tests.antt =====
-- The theorems at concrete inputs, and runs of the definitions.
pub mod CapabilityTests
pub mod MemoryTests
pub mod SchedulerTests
pub mod DeviceTests
pub mod EvidenceTests
pub mod KernelTests
pub mod TurnsTests
pub mod HistoryTests
