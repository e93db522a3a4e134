-- ===== src/Poll.antt =====
-- src/io/poll: the poller of I/O events and timeouts.
pub mod Handle
pub mod Evented
pub mod Register
pub mod Mio
pub mod ListMio
pub mod Poller
pub mod Handles
mod Tests
