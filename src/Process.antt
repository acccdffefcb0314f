-- ===== src/Process.antt =====
-- Processes: their control blocks, where these lie, and the parts of the kernel that work on them.
pub mod State
pub mod Sample
pub mod Addresses
pub mod Command
pub mod Clock
pub mod Scheduler
pub mod Descriptors
pub mod Transfer
pub mod Programs
mod Tests
