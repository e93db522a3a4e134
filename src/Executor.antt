-- ===== src/Executor.antt =====
-- src/executor: what drives schedulers and pollers.
pub mod Delivery
pub mod InPlace
pub mod ThreadPool
pub mod Futures
mod Tests
