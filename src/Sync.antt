-- ===== src/Sync.antt =====
-- src/sync: channels between fibers.
pub mod Nbchan
pub mod ListChan
pub mod Notifier
pub mod Halves
pub mod Mpsc
pub mod Oneshot
pub mod CellChan
mod Tests
