-- ===== src/Net.antt =====
-- src/net: sockets whose operations wait, in a fiber, for the poller.
pub mod Reactor
pub mod Retry
pub mod Bind
pub mod Tcp
pub mod Accessors
pub mod Udp
mod Tests
