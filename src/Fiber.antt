-- ===== src/Fiber.antt =====
-- src/fiber: fibers and their scheduler.
pub mod State
pub mod Schedule
pub mod Context
pub mod Invariant
pub mod Scheduling
pub mod Requests
pub mod Calls
pub mod Running
pub mod Turns
pub mod Fairness
pub mod Threads
pub mod Linked
mod Tests
