-- ===== src/User.antt =====
-- The programs under syscalls/, over an interface of the system calls, and their library.
pub mod Calls
pub mod Errors
pub mod Support
pub mod KernelCalls
pub mod Programs
pub mod Grep
pub mod Pingpong
mod Tests
