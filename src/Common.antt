-- ===== src/Common.antt =====
-- The helpers that the other modules share.
pub mod Tests
pub mod Words
pub mod Lists
pub mod Search
pub mod Ring
pub mod Bits
